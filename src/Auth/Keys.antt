-- ===== src/Auth/Keys.antt =====
-- contrib/auth/server.py: the rows of the keys under `set_revoked`.
use open_tela.Prelude.{
  ◌≡◌, ◌≢◌, refl, sym, ap, ◌∙◌, inl, inr, true, List, [], ◌∷◌, none, String, string_eq, ==_cases,
}
use open_tela.Auth.Server.{Database, ApiKey, key_by_id, set_revoked}

-- The identifiers of the rows are different.
abbrev pub UniqueIds : List ApiKey → Type 0
UniqueIds [] = Unit
UniqueIds (a ∷ keys) = (key_by_id a.key_id keys ≡ none) × UniqueIds keys

-- Every key with the identifier is revoked.
abbrev pub AllRevoked : String → List ApiKey → Type 0
AllRevoked k [] = Unit
AllRevoked k (a ∷ keys) = (a.key_id ≡ k → a.revoked ≡ true) × AllRevoked k keys

pub set_revoked-id :
    (k i : String) (keys : List ApiKey)
    → key_by_id i keys ≡ none
    → key_by_id i (set_revoked k keys) ≡ none
unfolding set_revoked key_by_id
set_revoked-id k i [] h = h
set_revoked-id k i (a ∷ keys) h = elim (==_cases a.key_id i) [
  | inl (t, e) ↦ cc (rw t at h)
  | inr (f, n) ↦ elim (==_cases a.key_id k) [
    | inl (t', e') ↦ rw (t', f) (rw f at h)
    | inr (f', n') ↦ rw (f', f) (set_revoked-id k i keys (rw f at h))
  ]
]

pub set_revoked-some :
    (k i : String) (keys : List ApiKey)
    → key_by_id i keys ≢ none
    → key_by_id i (set_revoked k keys) ≢ none
unfolding set_revoked key_by_id
set_revoked-some k i [] h = h
set_revoked-some k i (a ∷ keys) h = elim (==_cases a.key_id k) [
  | inl (t', e') ↦ elim (==_cases a.key_id i) [
    | inl (t, e) ↦ rw (t', t) (λ p. cc)
    | inr (f, n) ↦ rw (t', f) (rw f at h)
  ]
  | inr (f', n') ↦ elim (==_cases a.key_id i) [
    | inl (t, e) ↦ rw (f', t) (λ p. cc)
    | inr (f, n) ↦ rw (f', f) (set_revoked-some k i keys (rw f at h))
  ]
]

pub set_revoked-UniqueIds :
    (k : String) (keys : List ApiKey) → UniqueIds keys → UniqueIds (set_revoked k keys)
unfolding set_revoked
set_revoked-UniqueIds k [] u = u
set_revoked-UniqueIds k (a ∷ keys) u = elim (==_cases a.key_id k) [
  | inl (t, e) ↦ rw t u
  | inr (f, n) ↦ rw f (set_revoked-id k a.key_id keys u.0, set_revoked-UniqueIds k keys u.1)
]

pub set_revoked-AllRevoked :
    (j k : String) (keys : List ApiKey) → AllRevoked k keys → AllRevoked k (set_revoked j keys)
unfolding set_revoked
set_revoked-AllRevoked j k [] u = u
set_revoked-AllRevoked j k (a ∷ keys) u = elim (==_cases a.key_id j) [
  | inl (t, e) ↦ rw t (λ _. refl, u.1)
  | inr (f, n) ↦ rw f (u.0, set_revoked-AllRevoked j k keys u.1)
]

none-AllRevoked : (k : String) (keys : List ApiKey) → key_by_id k keys ≡ none → AllRevoked k keys
unfolding key_by_id
none-AllRevoked k [] h = tt
none-AllRevoked k (a ∷ keys) h = elim (==_cases a.key_id k) [
  | inl (t, e) ↦ cc (rw t at h)
  | inr (f, n) ↦ (λ e. absurd (n e), none-AllRevoked k keys (rw f at h))
]

-- With different identifiers, revoking the one row revokes them all.
pub set_revoked-all :
    (k : String) (keys : List ApiKey) → UniqueIds keys → AllRevoked k (set_revoked k keys)
unfolding set_revoked
set_revoked-all k [] u = tt
set_revoked-all k (a ∷ keys) u = elim (==_cases a.key_id k) [
  | inl (t, e) ↦ rw t (λ _. refl, none-AllRevoked k keys (ap (λ i. key_by_id i keys) (sym e) ∙ u.0))
  | inr (f, n) ↦ rw f (λ e. absurd (n e), set_revoked-all k keys u.1)
]

-- An identifier that exists, and whose keys are all revoked.
abbrev pub Blocked : String → Database → Type 0
Blocked k db = (key_by_id k db.api_keys ≢ none) × AllRevoked k db.api_keys
