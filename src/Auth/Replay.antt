-- ===== src/Auth/Replay.antt =====
-- contrib/auth/server.py: the rows of the used challenges over sequences of calls.
use mathlib.Core.Path.{subst}
use open_tela.Prelude.{
  ℕ, ◌+◌, ◌*◌, ◌/◌, ◌%◌, nat_beq, ◌≤◌, ◌≡◌, ◌≢◌, refl, sym, ◌⊎◌, inl, inr, Bool, true, List, [],
  ◌∷◌, String, string_eq, ◌==◌, ==_self, Bool-cases, ltb, ltb→lt, ok, arith,
}
use open_tela.Auth.Challenge.{challenge_ttl_seconds}
use open_tela.Auth.Server.{
  Clock, Database, UsedChallenge, CreateKeyRequest, CreateKeyResponse, create_key, is_used,
  delete_expired, purge, stored, second,
}
use open_tela.Auth.Operations.{
  Call, create, revoke, calls, create_key-Created, create_key-stored, revoke_key-cases,
}

-- A row has the challenge, and is kept at least until the moment.
abbrev HasNonce : String → ℕ → List UsedChallenge → Type 0
HasNonce c until [] = ⊥
HasNonce c until (u ∷ us) = (u.challenge ≡ c) × (until ≤ u.expires_at) ⊎ HasNonce c until us

-- Every call reads the clock by the moment.
abbrev pub By : ℕ → List Call → Type 0
By until [] = Unit
By until (create token key_id clock req ∷ cs) = (clock.now ≤ until) × By until cs
By until (revoke key_id wallet ∷ cs) = By until cs

nonce-is_used :
    (c : String) (until : ℕ) (us : List UsedChallenge) → HasNonce c until us → is_used c us ≡ true
unfolding is_used
nonce-is_used c until [] h = absurd h
nonce-is_used c until (u ∷ us) (inl (e, _)) = rw (e, ==_self c) refl
nonce-is_used c until (u ∷ us) (inr k) = elim (Bool-cases (u.challenge == c)) [
  | inl t ↦ rw t refl
  | inr f ↦ rw f (nonce-is_used c until us k)
]

delete_expired-HasNonce :
    (c : String) (until now : ℕ) (us : List UsedChallenge)
    → now ≤ until
    → HasNonce c until us
    → HasNonce c until (delete_expired now us)
unfolding delete_expired
delete_expired-HasNonce c until now [] early h = h
delete_expired-HasNonce c until now (u ∷ us) early (inr k) =
    elim (Bool-cases (ltb u.expires_at now)) [
      | inl t ↦ rw t (delete_expired-HasNonce c until now us early k)
      | inr f ↦ rw f (inr (delete_expired-HasNonce c until now us early k))
    ]
delete_expired-HasNonce c until now (u ∷ us) early (inl (e, late)) =
    elim (Bool-cases (ltb u.expires_at now)) [
      | inl t ↦ let past = ltb→lt u.expires_at now t in absurd (omega (arith, past, late, early))
      | inr f ↦ rw f (inl (e, late))
    ]

purge-HasNonce :
    (c : String) (until : ℕ) (clock : Clock) (us : List UsedChallenge)
    → clock.now ≤ until
    → HasNonce c until us
    → HasNonce c until (purge clock us)
unfolding purge
purge-HasNonce c until clock us early h =
    elim (Bool-cases (nat_beq (clock.at_purge / second % 10) 0)) [
      | inl t ↦ rw t (delete_expired-HasNonce c until clock.now us early h)
      | inr f ↦ rw f h
    ]

module _ (verify_signature : String → String → String → Bool) (hash_token : String → String) where
  calls-HasNonce :
      (c : String) (until : ℕ) (cs : List Call) (db : Database)
      → By until cs
      → HasNonce c until db.used_challenges
      → HasNonce c until (calls verify_signature hash_token cs db).used_challenges
  unfolding calls stored
  calls-HasNonce c until [] db b h = h
  calls-HasNonce c until (create token key_id clock req ∷ cs) db b h =
      calls-HasNonce c until cs _ b.1 (
        create_key-stored verify_signature hash_token token key_id clock req db
          (λ d. HasNonce c until d.used_challenges) h
          (λ x (_, _, _, _, _, e).
            subst (λ (y : CreateKeyResponse × Database). HasNonce c until y.1.used_challenges)
              (sym e) (inr (purge-HasNonce c until clock db.used_challenges b.0 h))))
  calls-HasNonce c until (revoke key_id wallet ∷ cs) db b h = calls-HasNonce c until cs _ b (
      revoke_key-cases verify_signature hash_token key_id wallet db
        (λ d. HasNonce c until d.used_challenges) h h)

  -- After a challenge has created a key, it creates no other while the clock of the calls in between
  -- has not passed the 300 seconds after that.
  pub create_key-once :
      (token token' key_id key_id' : String) (clock clock' : Clock) (req req' : CreateKeyRequest)
      (db : Database) (x y : CreateKeyResponse × Database) (between : List Call)
      → create_key verify_signature hash_token token key_id clock req db ≡ ok x
      → By (clock.now + challenge_ttl_seconds * second) between
      → req'.challenge ≡ req.challenge
      → create_key verify_signature hash_token token' key_id' clock' req'
          (calls verify_signature hash_token between x.1)
        ≢ ok y
  unfolding stored
  create_key-once token token' key_id key_id' clock clock' req req' db x y between first by same
        again =
      let (_, _, _, _, _, e) =
        create_key-Created verify_signature hash_token token key_id clock req db x first in
      let (_, _, unused, _, _, _) =
        create_key-Created verify_signature hash_token token' key_id' clock' req' _ y again in
      let until = clock.now + challenge_ttl_seconds * second in
      let nonce =
        subst
          (λ (z : CreateKeyResponse × Database). HasNonce req'.challenge until z.1.used_challenges)
          (sym e) (inl (sym same, omega arith)) in
      cc (
        unused,
        nonce-is_used req'.challenge until _
            (calls-HasNonce req'.challenge until between x.1 by nonce),
      )
