-- ===== src/Auth.antt =====
-- internal/auth/auth.go: the parameter string, and the password and the token handshake.
-- `decode` is base64's `DecodeString`, `id_key` is `argon2.IDKey`, `sha256` hashes a token's text.
-- Random bytes are arguments. Hashing a new password only calls these and is left out.
pub mod Parameters
pub mod Sound
pub mod Tests
use prm.Prelude.{
  ℕ, String, Bool, true, false, Option, none, some, List, if◌then◌else◌, ◌==◌, string_eq, Result,
  ok, err,
}
use prm.Channels.{Uuid}
use prm.Storage.{
  Bytes, Store, Read, StoreError, not_found, Tenant, Account, Token, tenant_suspended,
}
use prm.Auth.Parameters.{Params, parse_params, bytes_beq}

-- The sentinels, and an error of the store that is passed on.
pub data AuthError : Type 0 where
  unauthenticated unsupported tenant_not_found suspended : AuthError
  wrapped : StoreError → AuthError

pub record Challenge : Type 0 where
  pub account_id : Uuid
  pub tenant_id : Uuid
  pub nonce : Bytes
  pub salt : Bytes
  pub params : Bytes

-- `Result`: `OK` with the account and its tenant, or a reason.
pub data Verdict : Type 0 where
  accepted : Account → Tenant → Verdict
  refused : String → Verdict

-- server.go
unfoldable pub auth_error_reason : AuthError → String
auth_error_reason unauthenticated = "invalid_credentials"
auth_error_reason tenant_not_found = "invalid_credentials"
auth_error_reason suspended = "tenant_suspended"
auth_error_reason unsupported = "unsupported_method"
auth_error_reason (wrapped e) = "internal"

module _ (id_key : String → Bytes → ℕ → ℕ → ℕ → ℕ → Bytes) where
  -- `stored` is nil where there is no account.
  unfoldable pub verify_password : Option Account → String → Result AuthError (Unit {0})
  verify_password none candidate = err unauthenticated
  verify_password (some a) candidate = elim (parse_params a.password_params) [
    | none ↦ err unauthenticated
    | some p ↦
        if bytes_beq (id_key candidate a.password_salt p.iters p.mem p.par p.key_len)
          a.password_hash
        then ok tt
        else err unauthenticated
  ]

  unfoldable pub compute_client_proof : String → Bytes → Bytes → Option Bytes
  compute_client_proof password salt params = elim (parse_params params) [
    | none ↦ none
    | some p ↦ some (id_key password salt p.iters p.mem p.par p.key_len)
  ]

module _ {S : Type 0} (store : Store S) (st : S) where
  challenge_for : Bytes → Tenant → Read Account → Result AuthError Challenge
  challenge_for nonce tenant (err not_found) = err unauthenticated
  challenge_for nonce tenant (err e) = err (wrapped e)
  challenge_for nonce tenant (ok acc) = ok (record {
    account_id = acc.id;
    tenant_id = tenant.id;
    nonce = nonce;
    salt = acc.password_salt;
    params = acc.password_params;
  })

  begin_in : Bytes → String → Read Tenant → Result AuthError Challenge
  unfolding challenge_for
  begin_in nonce username (err not_found) = err tenant_not_found
  begin_in nonce username (err e) = err (wrapped e)
  begin_in nonce username (ok tenant) =
      if tenant.status == tenant_suspended
      then err suspended
      else challenge_for nonce tenant (store.get_account_by_username st tenant.id username)

  unfoldable pub begin_password_auth : Bytes → String → String → Result AuthError Challenge
  unfolding begin_in
  begin_password_auth nonce tenant_slug username =
      begin_in nonce username (store.get_tenant_by_slug st tenant_slug)

  with_tenant : Account → Read Tenant → Result AuthError Verdict
  with_tenant acc (err e) = err (wrapped e)
  with_tenant acc (ok tenant) = ok (accepted acc tenant)

  check_proof : Bytes → Read Account → Result AuthError Verdict
  unfolding with_tenant
  check_proof proof (err e) = ok (refused "invalid_credentials")
  check_proof proof (ok acc) =
      if bytes_beq proof acc.password_hash
      then with_tenant acc (store.get_tenant_by_id st acc.tenant_id)
      else ok (refused "invalid_credentials")

  complete_with : Challenge → Option Bytes → Result AuthError Verdict
  unfolding check_proof
  complete_with ch none = ok (refused "invalid_credentials")
  complete_with ch (some proof) =
      check_proof proof (store.get_account_by_id st ch.tenant_id ch.account_id)

  unfoldable pub complete_password_auth :
      (String → Option Bytes) → Challenge → String → Result AuthError Verdict
  unfolding complete_with
  complete_password_auth decode ch proof = complete_with ch (decode proof)

  token_account : Tenant → Token → Read Account → Result AuthError (Verdict × Option Token)
  token_account tenant tok (err e) = err (wrapped e)
  token_account tenant tok (ok acc) = ok (accepted acc tenant, some tok)

  token_tenant : Token → Read Tenant → Result AuthError (Verdict × Option Token)
  unfolding token_account
  token_tenant tok (err e) = err (wrapped e)
  token_tenant tok (ok tenant) =
      if tenant.status == tenant_suspended
      then ok (refused "tenant_suspended", none)
      else token_account tenant tok (store.get_account_by_id st tok.tenant_id tok.account_id)

  token_row : Read Token → Result AuthError (Verdict × Option Token)
  unfolding token_tenant
  token_row (err e) = ok (refused "invalid_credentials", none)
  token_row (ok tok) = token_tenant tok (store.get_tenant_by_id st tok.tenant_id)

  unfoldable pub authenticate_token :
      (String → Bytes) → String → Result AuthError (Verdict × Option Token)
  unfolding token_row
  authenticate_token sha256 plaintext =
      if plaintext == ""
      then ok (refused "invalid_credentials", none)
      else token_row (store.get_token_by_hash st (sha256 plaintext))
