-- ===== src/Auth/Standing.antt =====
-- contrib/auth/server.py: `verify_token` on a key that was created, over sequences of calls.
use mathlib.Core.Path.{subst}
use open_tela.Prelude.{
  ◌≡◌, ◌≢◌, refl, sym, ap, ◌∙◌, inl, inr, Bool, Option, List, [], ◌∷◌, none, some, String,
  string_eq, ==_cases, ==_self, ok,
}
use open_tela.Auth.Server.{
  Clock, Database, ApiKey, CreateKeyRequest, CreateKeyResponse, create_key, verify_token,
  key_by_hash, set_revoked, stored, new_key,
}
use open_tela.Auth.Operations.{
  Call, create, revoke, calls, create_key-Created, create_key-stored, revoke_key-cases,
}

-- No call of the list revokes the key.
abbrev pub Spares : String → List Call → Type 0
Spares k [] = Unit
Spares k (create token key_id clock req ∷ cs) = Spares k cs
Spares k (revoke key_id wallet ∷ cs) = (key_id ≢ k) × Spares k cs

some-same : (x a : ApiKey) → ◌≡◌ {A = Option ApiKey} (some x) (some a) → x ≡ a
some-same x a h = cc

set_revoked-hash :
    (j h : String) (keys : List ApiKey) (a : ApiKey)
    → j ≢ a.key_id
    → key_by_hash h keys ≡ some a
    → key_by_hash h (set_revoked j keys) ≡ some a
unfolding set_revoked key_by_hash
set_revoked-hash j h [] a other p = cc
set_revoked-hash j h (x ∷ keys) a other p = elim (==_cases x.key_id j) [
  | inl (t, e) ↦ elim (==_cases x.token_hash h) [
    | inl (t', _) ↦
        absurd (other (sym e ∙ ap (λ (y : ApiKey). y.key_id) (some-same x a (rw t' at p))))
    | inr (f', _) ↦ rw (t, f') (rw f' at p)
  ]
  | inr (f, n) ↦ elim (==_cases x.token_hash h) [
    | inl (t', _) ↦ rw (f, t') (rw t' at p)
    | inr (f', _) ↦ rw (f, f') (set_revoked-hash j h keys a other (rw f' at p))
  ]
]

added-hash :
    (h : String) (x a : ApiKey) (keys : List ApiKey)
    → key_by_hash x.token_hash keys ≡ none
    → key_by_hash h keys ≡ some a
    → key_by_hash h (x ∷ keys) ≡ some a
unfolding key_by_hash
added-hash h x a keys free p = elim (==_cases x.token_hash h) [
  | inl (t, e) ↦ let gone = ap (λ i. key_by_hash i keys) (sym e) ∙ free in cc
  | inr (f, n) ↦ rw f p
]

module _ (verify_signature : String → String → String → Bool) (hash_token : String → String) where
  calls-hash :
      (h : String) (a : ApiKey) (cs : List Call) (db : Database)
      → Spares a.key_id cs
      → key_by_hash h db.api_keys ≡ some a
      → key_by_hash h (calls verify_signature hash_token cs db).api_keys ≡ some a
  unfolding calls stored
  calls-hash h a [] db spared p = p
  calls-hash h a (create token key_id clock req ∷ cs) db spared p = calls-hash h a cs _ spared (
      create_key-stored verify_signature hash_token token key_id clock req db
        (λ d. key_by_hash h d.api_keys ≡ some a) p
        (λ x (_, _, _, _, free, e).
          subst (λ (y : CreateKeyResponse × Database). key_by_hash h y.1.api_keys ≡ some a) (sym e)
            (added-hash h (new_key verify_signature hash_token token key_id clock req) a db.api_keys
              free p)))
  calls-hash h a (revoke key_id wallet ∷ cs) db spared p = calls-hash h a cs _ spared.1 (
      revoke_key-cases verify_signature hash_token key_id wallet db
        (λ d. key_by_hash h d.api_keys ≡ some a) p
        (set_revoked-hash key_id h db.api_keys a spared.0 p))

  -- The token of a key that was created verifies as that key and as the wallet that asked for it,
  -- after any further calls that do not revoke the key.
  pub verify_token-create_key :
      (token key_id : String) (clock : Clock) (req : CreateKeyRequest) (db db' : Database)
      (response : CreateKeyResponse) (after : List Call)
      → create_key verify_signature hash_token token key_id clock req db ≡ ok (response, db')
      → Spares response.key_id after
      → verify_token verify_signature hash_token response.token
          (calls verify_signature hash_token after db')
        ≡ ok (record { wallet = req.wallet; key_id = response.key_id })
  unfolding stored verify_token key_by_hash
  verify_token-create_key token key_id clock req db db' response after h spared =
      let (_, _, _, _, _, e) =
        create_key-Created verify_signature hash_token token key_id clock req db (response, db')
          h in
      subst
        (λ (y : CreateKeyResponse × Database).
          Spares y.0.key_id after
          → verify_token verify_signature hash_token y.0.token
              (calls verify_signature hash_token after y.1)
            ≡ ok (record { wallet = req.wallet; key_id = y.0.key_id }))
        (sym e) (λ spared'. rw (verified spared') refl) spared
    where
      verified :
          Spares key_id after
          → key_by_hash
              (hash_token token)
              (calls verify_signature hash_token after
                (stored verify_signature hash_token token key_id clock req db (
                  new_key verify_signature hash_token token key_id clock req
                  ∷ db.api_keys)).1).api_keys
            ≡ some (new_key verify_signature hash_token token key_id clock req)
      verified spared' =
          calls-hash (hash_token token) (new_key verify_signature hash_token token key_id clock req)
            after _ spared' (rw (==_self (hash_token token)) refl)
