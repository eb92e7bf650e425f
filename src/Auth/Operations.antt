-- ===== src/Auth/Operations.antt =====
-- contrib/auth: sequences of calls of the service, and the cases of `create_key` and `revoke_key`.
use open_tela.Prelude.{
  ◌/◌, ◌≡◌, refl, sym, ap, ◌∙◌, string_eq, ◌==◌, sym, ap, ◌∙◌, string_eq, ◌==◌, inl, inr, Bool,
  true, false, not, ◌||◌, List, [], ◌∷◌, Option, none, some, String, Bool-cases, if◌then◌else◌,
  Result, ok, raised, ◌>>◌, ok-injective, >>=-eq-ok,
}
use open_tela.Auth.Challenge.{AuthError, validate_challenge}
use open_tela.Auth.Server.{
  Clock, Database, ApiKey, CreateKeyRequest, CreateKeyResponse, create_key, revoke_key, stored,
  new_key, is_used, key_by_id, key_by_hash, is_some, second, set_revoked, set_revoked,
}

-- The calls that may change the database; the others only read it.
pub data Call : Type 0 where
  create : (token key_id : String) → Clock → CreateKeyRequest → Call
  revoke : (key_id wallet : String) → Call

-- A call that raises leaves the database as it was.
abbrev pub kept_on_error {ℓ} :
    {A : Type ℓ} → (A → Database) → Database → Result AuthError A → Database
kept_on_error f db (ok a) = f a
kept_on_error f db (raised e) = db

module _ (verify_signature : String → String → String → Bool) (hash_token : String → String) where
  unfoldable pub call : Call → Database → Database
  unfolding create_key revoke_key
  call (create token key_id clock req) db =
      kept_on_error (λ (x : CreateKeyResponse × Database). x.1) db
        (create_key verify_signature hash_token token key_id clock req db)
  call (revoke key_id wallet) db = kept_on_error (λ d. d) db (revoke_key key_id wallet db)

  unfoldable pub calls : List Call → Database → Database
  unfolding call
  calls [] db = db
  calls (c ∷ cs) db = calls cs (call c db)

  guard-ok {ℓ} :
      {A : Type ℓ} (b : Bool) (e : AuthError) (m : Result AuthError A) (x : A)
      → (if b then raised e else m) ≡ ok x
      → (b ≡ false) × (m ≡ ok x)
  guard-ok true e m x h = cc
  guard-ok false e m x h = (refl, h)

  first-ok {ℓ} :
      {A : Type ℓ} (m : Result AuthError (Unit {0})) (n : Result AuthError A) (x : A)
      → (m >> n) ≡ ok x
      → (m ≡ ok tt) × (n ≡ ok x)
  first-ok (ok tt) n x h = (refl, h)
  first-ok (raised e) n x h = cc

  is_some-false {ℓ} : {A : Type ℓ} (o : Option A) → is_some o ≡ false → o ≡ none
  is_some-false none h = refl
  is_some-false (some a) h = cc

  neither : (a b : Bool) → (a || b) ≡ false → (a ≡ false) × (b ≡ false)
  neither true b h = cc
  neither false b h = (refl, h)

  abbrev pub Created :
      String → String → Clock → CreateKeyRequest → Database → CreateKeyResponse × Database → Type 0
  Created token key_id clock req db x =
      (validate_challenge (clock.at_validation / second) req.challenge req.wallet ≡ ok tt)
      × (verify_signature req.wallet req.signature req.challenge ≡ true)
      × (is_used req.challenge db.used_challenges ≡ false)
      × (key_by_id key_id db.api_keys ≡ none)
      × (key_by_hash (hash_token token) db.api_keys ≡ none)
      × (x
          ≡ stored verify_signature hash_token token key_id clock req db
              (new_key verify_signature hash_token token key_id clock req ∷ db.api_keys))

  pub create_key-Created :
      (token key_id : String) (clock : Clock) (req : CreateKeyRequest) (db : Database)
      (x : CreateKeyResponse × Database)
      → create_key verify_signature hash_token token key_id clock req db ≡ ok x
      → Created token key_id clock req db x
  unfolding create_key
  create_key-Created token key_id clock req db x h =
      let (valid, h1) = first-ok _ _ x h in
      let (signed, h2) = guard-ok _ _ _ x h1 in
      let (unused, h3) = guard-ok _ _ _ x h2 in
      let (keys, inserted, found) = >>=-eq-ok _ _ h3 in
      let (free, added) = guard-ok _ _ _ keys inserted in
      let (no_id, no_hash) = neither _ _ free in
      (
        valid,
        signed_true _ signed,
        unused,
        is_some-false _ no_id,
        is_some-false _ no_hash,
        sym (ok-injective found)
            ∙ ap (stored verify_signature hash_token token key_id clock req db)
                (sym (ok-injective added)),
      )
    where
      signed_true : (b : Bool) → not b ≡ false → b ≡ true
      signed_true true h = cc
      signed_true false h = cc

  -- The database after a successful `create_key`.
  pub create_key-stored :
      (token key_id : String) (clock : Clock) (req : CreateKeyRequest) (db : Database)
      (P : Database → Type 0)
      → P db
      → ((x : CreateKeyResponse × Database) → Created token key_id clock req db x → P x.1)
      → P (call (create token key_id clock req) db)
  unfolding call
  create_key-stored token key_id clock req db P before after = go _ refl
    where
      go :
          (m : Result AuthError (CreateKeyResponse × Database))
          → create_key verify_signature hash_token token key_id clock req db ≡ m
          → P (kept_on_error (λ (x : CreateKeyResponse × Database). x.1) db m)
      go (raised e) h = before
      go (ok x) h = after x (create_key-Created token key_id clock req db x h)

  -- The database after a successful `revoke_key`.
  pub revoke_key-cases :
      (key_id wallet : String) (db : Database) (P : Database → Type 0)
      → P db
      → P (record db { api_keys = set_revoked key_id db.api_keys })
      → P (call (revoke key_id wallet) db)
  unfolding call revoke_key
  revoke_key-cases key_id wallet db P before after = go _ refl
    where
      go :
          (o : Option ApiKey)
          → key_by_id key_id db.api_keys ≡ o
          → P (call (revoke key_id wallet) db)
      go none h = rw h before
      go (some a) h = elim (Bool-cases (a.wallet == wallet)) [
        | inl t ↦ rw (h, t) after
        | inr f ↦ rw (h, f) before
      ]
