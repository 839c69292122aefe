-- ===== src/Auth/Tests.antt =====
-- The sample robot at both handshakes.
use prm.Prelude.{String, ◌≡◌, ◌≢◌, refl, some, Option, [], ◌∷◌, Result}
use prm.Storage.{Bytes, tenant_suspended}
use prm.Auth.{
  Challenge, complete_password_auth, complete_with, check_proof, with_tenant, authenticate_token,
  token_row, token_tenant, token_account, accepted,
}
use prm.Auth.Parameters.{bytes_beq}
use prm.Auth.Sound.{complete_password_auth_sound, authenticate_token_sound}
use prm.Samples.{rows, robot, acme, bearer}

abbrev decode : String → Option Bytes
decode text = some (1 ∷ 2 ∷ [])

abbrev challenge : Challenge
challenge = record { account_id = 7; tenant_id = 1; nonce = []; salt = 3 ∷ []; params = [] }

robot-accepted :
    complete_password_auth rows tt decode challenge "AQI=" ≡ Result.ok (accepted robot acme)
unfolding complete_password_auth complete_with check_proof with_tenant bytes_beq
robot-accepted = refl

complete_password_auth_sound_example :
    (decode "AQI=" ≡ some robot.password_hash)
    × (rows.get_account_by_id tt 1 7 ≡ Result.ok robot)
    × (rows.get_tenant_by_id tt 1 ≡ Result.ok acme)
complete_password_auth_sound_example =
    complete_password_auth_sound rows tt robot acme decode challenge "AQI=" robot-accepted

abbrev pub plain : String
plain = "secret"

abbrev pub digest : String → Bytes
digest text = 9 ∷ []

pub bearer-accepted :
    authenticate_token rows tt digest plain ≡ Result.ok (accepted robot acme, some bearer)
unfolding authenticate_token token_row token_tenant token_account
bearer-accepted = refl

authenticate_token_sound_example :
    (plain ≢ "")
    × (rows.get_token_by_hash tt (digest plain) ≡ Result.ok bearer)
    × (rows.get_tenant_by_id tt 1 ≡ Result.ok acme)
    × (acme.status ≢ tenant_suspended)
    × (rows.get_account_by_id tt 1 7 ≡ Result.ok robot)
authenticate_token_sound_example =
    authenticate_token_sound rows tt robot acme bearer digest plain bearer-accepted
