-- ===== src/Auth/Sessions.antt =====
-- contrib/auth/server.py: revoked keys and `verify_token`, over sequences of calls.
use mathlib.Core.Path.{subst}
use open_tela.Prelude.{
  ◌≡◌, ◌≢◌, sym, ap, ◌∙◌, inl, inr, Bool, true, List, [], ◌∷◌, none, some, String, string_eq, ◌==◌,
  ==_cases, Bool-cases, Option-cases, ok, ok-injective,
}
use open_tela.Auth.Server.{
  Database, ApiKey, CreateKeyResponse, VerifyResponse, revoke_key, verify_token, key_by_id,
  key_by_hash, stored,
}
use open_tela.Auth.Operations.{
  Call, create, revoke, call, calls, create_key-stored, revoke_key-cases,
}
use open_tela.Auth.Keys.{
  UniqueIds, AllRevoked, Blocked, set_revoked-UniqueIds, set_revoked-AllRevoked, set_revoked-some,
  set_revoked-all,
}

abbrev pub empty_database : Database
empty_database = record { used_challenges = []; api_keys = [] }

module _ (verify_signature : String → String → String → Bool) (hash_token : String → String) where
  call-UniqueIds :
      (c : Call) (db : Database)
      → UniqueIds db.api_keys
      → UniqueIds (call verify_signature hash_token c db).api_keys
  unfolding stored
  call-UniqueIds (create token key_id clock req) db u =
      create_key-stored verify_signature hash_token token key_id clock req db
        (λ d. UniqueIds d.api_keys) u
        (λ x (_, _, _, no_id, _, e).
          subst (λ (y : CreateKeyResponse × Database). UniqueIds y.1.api_keys) (sym e) (no_id, u))
  call-UniqueIds (revoke key_id wallet) db u =
      revoke_key-cases verify_signature hash_token key_id wallet db (λ d. UniqueIds d.api_keys) u
        (set_revoked-UniqueIds key_id db.api_keys u)

  calls-UniqueIds :
      (cs : List Call) (db : Database)
      → UniqueIds db.api_keys
      → UniqueIds (calls verify_signature hash_token cs db).api_keys
  unfolding calls
  calls-UniqueIds [] db u = u
  calls-UniqueIds (c ∷ cs) db u = calls-UniqueIds cs _ (call-UniqueIds c db u)

  added-Blocked :
      (k : String) (a : ApiKey) (keys : List ApiKey)
      → key_by_id a.key_id keys ≡ none
      → key_by_id k keys ≢ none
      → AllRevoked k keys
      → (key_by_id k (a ∷ keys) ≢ none) × AllRevoked k (a ∷ keys)
  unfolding key_by_id
  added-Blocked k a keys free there all = elim (==_cases a.key_id k) [
    | inl (t, e) ↦ absurd (there (ap (λ i. key_by_id i keys) (sym e) ∙ free))
    | inr (f, n) ↦ rw f (there, (λ e. absurd (n e), all))
  ]

  call-Blocked :
      (k : String) (c : Call) (db : Database)
      → Blocked k db
      → Blocked k (call verify_signature hash_token c db)
  unfolding stored
  call-Blocked k (create token key_id clock req) db b =
      create_key-stored verify_signature hash_token token key_id clock req db (Blocked k) b
        (λ x (_, _, _, no_id, _, e).
          subst (λ (y : CreateKeyResponse × Database). Blocked k y.1) (sym e)
            (added-Blocked k _ db.api_keys no_id b.0 b.1))
  call-Blocked k (revoke key_id wallet) db b =
      revoke_key-cases verify_signature hash_token key_id wallet db (Blocked k) b
        (set_revoked-some key_id k db.api_keys b.0, set_revoked-AllRevoked key_id k db.api_keys b.1)

  calls-Blocked :
      (k : String) (cs : List Call) (db : Database)
      → Blocked k db
      → Blocked k (calls verify_signature hash_token cs db)
  unfolding calls
  calls-Blocked k [] db b = b
  calls-Blocked k (c ∷ cs) db b = calls-Blocked k cs _ (call-Blocked k c db b)

  found-revoked :
      (k h : String) (keys : List ApiKey) (a : ApiKey)
      → AllRevoked k keys
      → key_by_hash h keys ≡ some a
      → a.key_id ≡ k
      → a.revoked ≡ true
  unfolding key_by_hash
  found-revoked k h [] a all e same = cc
  found-revoked k h (x ∷ keys) a all e same = elim (==_cases x.token_hash h) [
    | inl (t, _) ↦ subst (λ y. y.key_id ≡ k → y.revoked ≡ true) (some-inj (rw t at e)) all.0 same
    | inr (f, _) ↦ found-revoked k h keys a all.1 (rw f at e) same
  ]
    where
      some-inj : some x ≡ some a → x ≡ a
      some-inj p = cc

  verify-Blocked :
      (k token : String) (db : Database) (v : VerifyResponse)
      → AllRevoked k db.api_keys
      → verify_token verify_signature hash_token token db ≡ ok v
      → v.key_id ≢ k
  unfolding verify_token
  verify-Blocked k token db v all h same =
      elim (Option-cases (key_by_hash (hash_token token) db.api_keys)) [
        | inl e ↦ cc (rw e at h)
        | inr (a, e) ↦ elim (Bool-cases a.revoked) [
          | inl t ↦ cc (rw (e, t) at h)
          | inr f ↦
              let answer = ok-injective (rw (e, f) at h) in
              cc (
                f,
                found-revoked k _ db.api_keys a all e
                    (ap (λ (y : VerifyResponse). y.key_id) answer ∙ same),
              )
        ]
      ]

  revoke-Blocked :
      (k wallet : String) (db db' : Database)
      → UniqueIds db.api_keys
      → revoke_key k wallet db ≡ ok db'
      → Blocked k db'
  unfolding revoke_key
  revoke-Blocked k wallet db db' u h = elim (Option-cases (key_by_id k db.api_keys)) [
    | inl e ↦ cc (rw e at h)
    | inr (a, e) ↦ elim (Bool-cases (a.wallet == wallet)) [
      | inl t ↦
          subst (Blocked k) (ok-injective (rw (e, t) at h))
            (set_revoked-some k k db.api_keys (λ p. cc (e, p)), set_revoked-all k db.api_keys u)
      | inr f ↦ cc (rw (e, f) at h)
    ]
  ]

  -- Whatever the service was asked before: once a key has been revoked, no token verifies as that
  -- key, whatever the service is asked after.
  pub revoke_key-final :
      (before after : List Call) (key_id wallet token : String) (db : Database) (v : VerifyResponse)
      → revoke_key key_id wallet (calls verify_signature hash_token before empty_database) ≡ ok db
      → verify_token verify_signature hash_token token (calls verify_signature hash_token after db)
        ≡ ok v
      → v.key_id ≢ key_id
  revoke_key-final before after key_id wallet token db v revoked verified =
      verify-Blocked key_id token (calls verify_signature hash_token after db) v
        (calls-Blocked key_id after db
          (revoke-Blocked key_id wallet _ db (calls-UniqueIds before empty_database tt) revoked)).1
        verified
