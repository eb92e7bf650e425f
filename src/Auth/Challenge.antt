-- ===== src/Auth/Challenge.antt =====
-- contrib/auth/server.py: `_validate_challenge`, and the service's errors.
use open_tela.Prelude.{
  ℕ, suc, ◌+◌, Bool, false, not, List, [], ◌∷◌, Option, none, some, String, ltb, ◌==◌,
  if◌then◌else◌, Result, ok, raised,
}
use open_tela.Prelude.Text.{codes}
use open_tela.Simulator.Config.{ℤ, pos, negsuc}
use open_tela.Auth.Texts.{Text, split, parse_int, text_eq}

-- An `HTTPException` with its status and detail; the database's `IntegrityError` is not caught.
pub data AuthError : Type 0 where
  http_exception : ℕ → String → AuthError
  integrity_error : AuthError

abbrev pub challenge_ttl_seconds : ℕ
challenge_ttl_seconds = 300

-- `ts > now_ts + 60`
abbrev pub too_far_ahead : ℕ → ℤ → Bool
too_far_ahead now (pos ts) = ltb (now + 60) ts
too_far_ahead now (negsuc n) = false

-- `now_ts - ts > CHALLENGE_TTL_SECONDS`
abbrev pub too_old : ℕ → ℤ → Bool
too_old now (pos ts) = ltb (ts + challenge_ttl_seconds) now
too_old now (negsuc n) = ltb challenge_ttl_seconds (now + suc n)

abbrev pub check_timestamp : ℕ → Option ℤ → Result AuthError (Unit {0})
check_timestamp now none = raised (http_exception 400 "Challenge timestamp must be a valid integer")
check_timestamp now (some ts) =
    if too_far_ahead now ts
    then raised (http_exception 400 "Challenge timestamp is too far in the future")
    else if too_old now ts
    then raised (http_exception 400 "Challenge has expired")
    else ok tt

abbrev pub bad_format : Result AuthError (Unit {0})
bad_format =
    raised (http_exception 400 "Challenge must be in the format \"otela-auth:<wallet>:<unix_ts>\"")

unfoldable pub check_parts : ℕ → Text → List Text → Result AuthError (Unit {0})
unfolding parse_int
check_parts now wallet (prefix ∷ ch_wallet ∷ ts ∷ []) =
    if not (prefix == codes "otela-auth")
    then bad_format
    else if not (ch_wallet == wallet)
    then raised (http_exception 400 "Challenge wallet does not match the request wallet")
    else check_timestamp now (parse_int ts)
check_parts now wallet _ = bad_format

-- `_validate_challenge`, with `int(time.time())` as the first argument
unfoldable pub validate_challenge : ℕ → String → String → Result AuthError (Unit {0})
unfolding split check_parts parse_int
validate_challenge now challenge wallet =
    check_parts now (codes wallet) (split b':' (codes challenge))
