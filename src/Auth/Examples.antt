-- ===== src/Auth/Examples.antt =====
-- contrib/auth: tests, and the theorems applied to small databases. Here a signature is the word
-- "signed", and the hash of a token is the token.
use open_tela.Prelude.{
  ℕ, ◌*◌, ◌≡◌, ◌≢◌, refl, ◌↔◌, Bool, true, false, List, [], ◌∷◌, Option, none, some, String,
  string_eq, ◌==◌, ok, raised, Result,
}
use open_tela.Prelude.Text.{codes}
use open_tela.Simulator.Config.{negsuc}
use open_tela.Auth.Texts.{split, parse_int, digits, all_space, skip_space}
use open_tela.Auth.Challenge.{AuthError, http_exception, validate_challenge, check_parts}
use open_tela.Auth.Server.{
  Clock, Database, CreateKeyRequest, CreateKeyResponse, create_key, verify_token, revoke_key,
  is_used, purge, delete_expired, stored, key_by_id, key_by_hash, set_revoked,
}
use open_tela.Auth.Operations.{Call, create, revoke, call, calls}
use open_tela.Auth.Validation.{IsChallenge, validate_challenge-IsChallenge}
use open_tela.Auth.Standing.{verify_token-create_key}
use open_tela.Auth.Sessions.{empty_database, revoke_key-final}
use open_tela.Auth.Replay.{create_key-once}

abbrev signed : String → String → String → Bool
signed wallet signature challenge = signature == "signed"

abbrev same : String → String
same token = token

abbrev at : ℕ → Clock
at second = record {
  at_validation = second * 1000000;
  now = second * 1000000;
  at_purge = second * 1000000;
}

abbrev request : String → CreateKeyRequest
request challenge = record {
  wallet = "w1";
  signature = "signed";
  challenge = challenge;
  label = "";
}

split_test : split b':' (codes "a:b:") ≡ codes "a" ∷ codes "b" ∷ [] ∷ []
unfolding split
split_test = refl

parse_int_test : (parse_int (codes " -1_0 ") ≡ some (negsuc 9)) × (parse_int (codes "1__0") ≡ none)
unfolding parse_int digits all_space skip_space
parse_int_test = (refl, refl)

expired_test :
    validate_challenge 1301 "otela-auth:w1:1000" "w1"
    ≡ raised (http_exception 400 "Challenge has expired")
unfolding validate_challenge check_parts split parse_int digits all_space skip_space
expired_test = refl

validate_challenge-IsChallenge_example :
    validate_challenge 1010 "otela-auth:w1:1000" "w1" ≡ ok tt
    ↔ IsChallenge 1010 "w1" (split b':' (codes "otela-auth:w1:1000"))
validate_challenge-IsChallenge_example =
    validate_challenge-IsChallenge 1010 "otela-auth:w1:1000" "w1"

abbrev response : String → String → ℕ → CreateKeyResponse
response token key_id second = record {
  key_id = key_id;
  token = token;
  wallet = "w1";
  label = "";
  created_at = second * 1000000;
}

-- The database after one key.
abbrev one_key : Database
one_key = record {
  used_challenges = record { challenge = "otela-auth:w1:1000"; expires_at = 1310000000 } ∷ [];
  api_keys =
      record {
        key_id = "k1";
        token_hash = "t1";
        wallet = "w1";
        label = "";
        created_at = 1010000000;
        revoked = false;
      }
      ∷ [];
}

abbrev another : List Call
another = create "t2" "k2" (at 1411) (request "otela-auth:w1:1400") ∷ []

verify_token-create_key_example :
    verify_token signed same "t1" (calls signed same another one_key)
    ≡ ok (record { wallet = "w1"; key_id = "k1" })
unfolding create_key validate_challenge check_parts split parse_int digits all_space skip_space
    is_used purge delete_expired stored key_by_id key_by_hash
verify_token-create_key_example =
    verify_token-create_key signed same "t1" "k1" (at 1010) (request "otela-auth:w1:1000")
      empty_database one_key (response "t1" "k1" 1010) another refl tt

create_key-once_example :
    create_key signed same "t2" "k2"
      (at 1020)
      (request "otela-auth:w1:1000")
      (calls signed same (revoke "k1" "w1" ∷ []) one_key)
    ≢ ok (response "t2" "k2" 1020, one_key)
unfolding create_key validate_challenge check_parts split parse_int digits all_space skip_space
    is_used purge delete_expired stored key_by_id key_by_hash
create_key-once_example =
    create_key-once signed same "t1" "t2" "k1" "k2" (at 1010) (at 1020)
      (request "otela-auth:w1:1000") (request "otela-auth:w1:1000") empty_database
      (response "t1" "k1" 1010, one_key) (response "t2" "k2" 1020, one_key) (revoke "k1" "w1" ∷ [])
      refl tt refl

first_key : Call
first_key = create "t1" "k1" (at 1010) (request "otela-auth:w1:1000")

second_key : Call
second_key = create "t2" "k2" (at 1411) (request "otela-auth:w1:1400")

abbrev revoked_key : Database
revoked_key = record one_key {
  api_keys =
      record {
        key_id = "k1";
        token_hash = "t1";
        wallet = "w1";
        label = "";
        created_at = 1010000000;
        revoked = true;
      }
      ∷ [];
}

revoke_key-final_example : ◌≢◌ {A = String} "k2" "k1"
unfolding create_key validate_challenge check_parts split parse_int digits all_space skip_space
    is_used purge delete_expired stored key_by_id key_by_hash call calls revoke_key set_revoked
    verify_token first_key second_key
revoke_key-final_example =
    revoke_key-final signed same (first_key ∷ []) (second_key ∷ []) "k1" "w1" "t2" revoked_key
      (record { wallet = "w1"; key_id = "k2" }) refl refl

abbrev key_of : Result AuthError (CreateKeyResponse × Database) → Option String
key_of (ok (r, db)) = some r.key_id
key_of (raised e) = none

-- A challenge that was a minute ahead when it was used is accepted again: its row is purged after 300
-- seconds by another call, and the challenge itself is fresh for 360.
replay_test :
    key_of (
      create_key signed same "t3" "k3" (at 1350) (request "otela-auth:w1:1060") (
        calls signed same
          (create "t1" "k1" (at 1000) (request "otela-auth:w1:1060")
            ∷ create "t2" "k2" (at 1310) (request "otela-auth:w1:1310")
            ∷ [])
          empty_database))
    ≡ some "k3"
unfolding create_key validate_challenge check_parts split parse_int digits all_space skip_space
    is_used purge delete_expired stored key_by_id key_by_hash call calls
replay_test = refl
