-- ===== src/Auth/Validation.antt =====
-- contrib/auth/server.py: what `_validate_challenge` accepts.
use open_tela.Prelude.{
  ℕ, suc, ◌+◌, ◌≤◌, ◌≡◌, refl, ap, item, ◌∙◌, ◌↔◌, inl, inr, List, [], ◌∷◌, Option, none, some,
  String, arith, ==_cases, ok,
}
use open_tela.Prelude.Text.{codes}
use open_tela.Simulator.Config.{ℤ, pos, negsuc}
use open_tela.Auth.Texts.{Text, split, parse_int, text_eq}
use open_tela.Auth.Challenge.{validate_challenge, check_parts, check_timestamp}

-- A whole number of seconds that is at most a minute ahead and at most five minutes old.
abbrev pub IsFresh : ℕ → ℤ → Type 0
IsFresh now (pos ts) = (ts ≤ now + 60) × (now ≤ ts + 300)
IsFresh now (negsuc n) = now + suc n ≤ 300

-- Three parts: the prefix, the wallet, and a fresh moment.
abbrev pub IsChallenge : ℕ → String → List Text → Type 0
IsChallenge now wallet parts =
    (ts : Text) × (t : ℤ) × (parts ≡ codes "otela-auth" ∷ codes wallet ∷ ts ∷ [])
    × (parse_int ts ≡ some t)
    × IsFresh now t

check_timestamp-IsFresh : (now : ℕ) (t : ℤ) → check_timestamp now (some t) ≡ ok tt ↔ IsFresh now t
check_timestamp-IsFresh now (pos t) = (λ h. ground arith, λ h. ground arith)
check_timestamp-IsFresh now (negsuc n) = (λ h. ground arith, λ h. ground arith)

timestamp-IsFresh :
    (now : ℕ) (o : Option ℤ)
    → check_timestamp now o ≡ ok tt ↔ ((t : ℤ) × (o ≡ some t) × IsFresh now t)
timestamp-IsFresh now none = (λ h. cc, λ h. let e = h.1 in cc)
timestamp-IsFresh now (some t) = (
  λ h. (t, refl, (check_timestamp-IsFresh now t).0 h),
  λ (u, e, fresh). ap (check_timestamp now) e ∙ (check_timestamp-IsFresh now u).1 fresh,
)

three-IsChallenge :
    (now : ℕ) (wallet : String) (p w ts : Text)
    → check_parts now (codes wallet) (p ∷ w ∷ ts ∷ []) ≡ ok tt
      ↔ IsChallenge now wallet (p ∷ w ∷ ts ∷ [])
unfolding check_parts
three-IsChallenge now wallet p w ts = elim (==_cases p (codes "otela-auth")) [
  | inr (f, n) ↦ (λ h. cc (rw f at h), λ h. absurd (n (ap (λ l. item [] l 0) h.2)))
  | inl (t, e) ↦ elim (==_cases w (codes wallet)) [
    | inr (f, n) ↦ (λ h. cc (rw (t, f) at h), λ h. absurd (n (ap (λ l. item [] l 1) h.2)))
    | inl (t', e') ↦ (
      λ h. there e e' ((timestamp-IsFresh now (parse_int ts)).0 (rw (t, t') at h)),
      λ h. rw (t, t') (back h.2 ((timestamp-IsFresh now (parse_int h.0)).1 (h.1, h.3, h.4))),
    )
  ]
]
  where
    there :
        p ≡ codes "otela-auth"
        → w ≡ codes wallet
        → ((t : ℤ) × (parse_int ts ≡ some t) × IsFresh now t)
        → IsChallenge now wallet (p ∷ w ∷ ts ∷ [])
    there e e' (t, parsed, fresh) = (ts, t, cc, parsed, fresh)

    back :
        {ts' : Text}
        → (p ∷ w ∷ ts ∷ []) ≡ (codes "otela-auth" ∷ codes wallet ∷ ts' ∷ [])
        → check_timestamp now (parse_int ts') ≡ ok tt
        → check_timestamp now (parse_int ts) ≡ ok tt
    back e h = rw (ap (λ l. item [] l 2) e) h

any-IsChallenge :
    (now : ℕ) (wallet : String) (parts : List Text)
    → check_parts now (codes wallet) parts ≡ ok tt ↔ IsChallenge now wallet parts
any-IsChallenge now wallet (p ∷ w ∷ ts ∷ []) = three-IsChallenge now wallet p w ts
any-IsChallenge now wallet [] = unfold check_parts in (λ h. cc, λ h. let e = h.2 in cc)
any-IsChallenge now wallet (p ∷ []) = unfold check_parts in (λ h. cc, λ h. let e = h.2 in cc)
any-IsChallenge now wallet (p ∷ w ∷ []) = unfold check_parts in (λ h. cc, λ h. let e = h.2 in cc)
any-IsChallenge now wallet (p ∷ w ∷ ts ∷ x ∷ xs) =
    unfold check_parts in (λ h. cc, λ h. let e = h.2 in cc)

-- A challenge is accepted for a wallet exactly if it has three parts, the prefix, that wallet and a
-- whole number of seconds, and that moment is at most 60 seconds ahead and at most 300 seconds old.
pub validate_challenge-IsChallenge :
    (now : ℕ) (challenge wallet : String)
    → validate_challenge now challenge wallet ≡ ok tt
      ↔ IsChallenge now wallet (split b':' (codes challenge))
unfolding validate_challenge
validate_challenge-IsChallenge now challenge wallet = any-IsChallenge now wallet _
