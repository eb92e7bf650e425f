-- ===== src/Auth/Server.antt =====
-- contrib/auth: the endpoints of server.py over the two tables of models.py. A table is the list of
-- its rows. A call that raises leaves the database as it was (`rollback`), so it has no new state.
-- `now` is the clock in microseconds; `int(time.time())` is its whole seconds. One call reads the
-- clock several times, and `Clock` has the readings.
use open_tela.Prelude.{
  ℕ, ◌+◌, ◌*◌, ◌/◌, ◌%◌, Bool, true, false, not, ◌||◌, List, [], ◌∷◌, Option, none, some, String,
  ltb, nat_beq, ◌==◌, string_eq, if◌then◌else◌, Result, ok, raised, ◌>>◌, ◌>>=◌,
}
use open_tela.Auth.Challenge.{
  AuthError, http_exception, integrity_error, validate_challenge, challenge_ttl_seconds,
}

pub record UsedChallenge : Type 0 where
  pub challenge : String
  pub expires_at : ℕ

pub record ApiKey : Type 0 where
  pub key_id : String
  pub token_hash : String
  pub wallet : String
  pub label : String
  pub created_at : ℕ
  pub revoked : Bool

pub record Database : Type 0 where
  pub used_challenges : List UsedChallenge
  pub api_keys : List ApiKey

pub record CreateKeyRequest : Type 0 where
  pub wallet : String
  pub signature : String
  pub challenge : String
  pub label : String

pub record CreateKeyResponse : Type 0 where
  pub key_id : String
  pub token : String
  pub wallet : String
  pub label : String
  pub created_at : ℕ

pub record VerifyResponse : Type 0 where
  pub wallet : String
  pub key_id : String

pub record KeyInfo : Type 0 where
  pub key_id : String
  pub wallet : String
  pub label : String
  pub created_at : ℕ
  pub revoked : Bool

-- The clock at the validation, at `datetime.now`, and at the test for a purge.
pub record Clock : Type 0 where
  pub at_validation : ℕ
  pub now : ℕ
  pub at_purge : ℕ

abbrev pub second : ℕ
second = 1000000

-- `filter_by(challenge=…).first()` finds a row.
unfoldable pub is_used : String → List UsedChallenge → Bool
is_used c [] = false
is_used c (u ∷ us) = u.challenge == c || is_used c us

-- `filter(UsedChallenge.expires_at < now).delete()`
unfoldable pub delete_expired : ℕ → List UsedChallenge → List UsedChallenge
delete_expired now [] = []
delete_expired now (u ∷ us) =
    let rest = delete_expired now us in if ltb u.expires_at now then rest else u ∷ rest

-- The purge, on a tenth of the seconds.
unfoldable pub purge : Clock → List UsedChallenge → List UsedChallenge
unfolding delete_expired
purge clock us =
    if nat_beq (clock.at_purge / second % 10) 0 then delete_expired clock.now us else us

unfoldable pub key_by_id : String → List ApiKey → Option ApiKey
key_by_id k [] = none
key_by_id k (a ∷ keys) = if a.key_id == k then some a else key_by_id k keys

unfoldable pub key_by_hash : String → List ApiKey → Option ApiKey
key_by_hash h [] = none
key_by_hash h (a ∷ keys) = if a.token_hash == h then some a else key_by_hash h keys

abbrev pub is_some {ℓ} : {A : Type ℓ} → Option A → Bool
is_some none = false
is_some (some a) = true

-- The commit of `create_key`: `key_id` is the primary key, and `token_hash` is unique.
abbrev pub insert_key : ApiKey → List ApiKey → Result AuthError (List ApiKey)
unfolding key_by_id key_by_hash
insert_key a keys =
    if is_some (key_by_id a.key_id keys) || is_some (key_by_hash a.token_hash keys)
    then raised integrity_error
    else ok (a ∷ keys)

module _ (verify_signature : String → String → String → Bool) (hash_token : String → String) where
  unfoldable pub stored :
      String
      → String
      → Clock
      → CreateKeyRequest
      → Database
      → List ApiKey
      → CreateKeyResponse × Database
  unfolding purge
  stored token key_id clock req db keys = (
    record {
      key_id = key_id;
      token = token;
      wallet = req.wallet;
      label = req.label;
      created_at = clock.now;
    },
    record {
      used_challenges =
          record {
            challenge = req.challenge;
            expires_at = clock.now + challenge_ttl_seconds * second;
          }
          ∷ purge clock db.used_challenges;
      api_keys = keys;
    },
  )

  abbrev pub new_key : String → String → Clock → CreateKeyRequest → ApiKey
  new_key token key_id clock req = record {
    key_id = key_id;
    token_hash = hash_token token;
    wallet = req.wallet;
    label = req.label;
    created_at = clock.now;
    revoked = false;
  }

  -- `create_key`, given the generated token and identifier
  unfoldable pub create_key :
      String
      → String
      → Clock
      → CreateKeyRequest
      → Database
      → Result AuthError (CreateKeyResponse × Database)
  unfolding validate_challenge is_used stored purge key_by_id key_by_hash
  create_key token key_id clock req db =
      validate_challenge (clock.at_validation / second) req.challenge req.wallet
      >> (if not (verify_signature req.wallet req.signature req.challenge)
          then raised (http_exception 403 "Invalid wallet signature")
          else if is_used req.challenge db.used_challenges
          then raised (http_exception 400 "Challenge has already been used")
          else insert_key (new_key token key_id clock req) db.api_keys
            >>= (λ keys. ok (stored token key_id clock req db keys)))

  -- `verify_token`
  unfoldable pub verify_token : String → Database → Result AuthError VerifyResponse
  unfolding key_by_hash
  verify_token token db = answer (key_by_hash (hash_token token) db.api_keys)
    where
      answer : Option ApiKey → Result AuthError VerifyResponse
      answer none = raised (http_exception 401 "Invalid token")
      answer (some a) =
          if a.revoked
          then raised (http_exception 401 "Token has been revoked")
          else ok (record { wallet = a.wallet; key_id = a.key_id })

-- `list_keys`
unfoldable pub list_keys : String → List ApiKey → List KeyInfo
list_keys wallet [] = []
list_keys wallet (a ∷ keys) =
    let rest = list_keys wallet keys in
    if a.wallet == wallet
    then record {
      key_id = a.key_id;
      wallet = a.wallet;
      label = a.label;
      created_at = a.created_at;
      revoked = a.revoked;
    }
      ∷ rest
    else rest

-- The row with the identifier, changed.
unfoldable pub set_revoked : String → List ApiKey → List ApiKey
set_revoked k [] = []
set_revoked k (a ∷ keys) =
    if a.key_id == k then record a { revoked = true } ∷ keys else a ∷ set_revoked k keys

-- `revoke_key`
unfoldable pub revoke_key : String → String → Database → Result AuthError Database
unfolding key_by_id set_revoked
revoke_key k wallet db = answer (key_by_id k db.api_keys)
  where
    answer : Option ApiKey → Result AuthError Database
    answer none = raised (http_exception 404 "Key not found")
    answer (some a) =
        if not (a.wallet == wallet)
        then raised (http_exception 403 "Wallet mismatch")
        else ok (record db { api_keys = set_revoked k db.api_keys })
