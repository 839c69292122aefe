-- ===== src/Server/Login.antt =====
-- internal/server/conn.go: hello, ping and pong, and the authentication of a connection. `wire.encode` is
-- base64's `EncodeToString`, `wire.decode` its `DecodeString`, `wire.sha256` hashes a token's text; the
-- random nonce of a challenge is an argument.
pub mod Open
pub mod Granting
mod Tests
use prm.Prelude.{
  String, Bool, true, Option, none, some, [], ◌∷◌, ◌||◌, if◌then◌else◌, ◌==◌, string_eq, Result, ok,
  err,
}
use prm.Storage.{Bytes, Store, Account, Tenant, Token}
use prm.Auth.{
  AuthError, Challenge, Verdict, accepted, refused, auth_error_reason, begin_password_auth,
  complete_password_auth, authenticate_token,
}
use prm.Proto.Frames.{Hello, Ping, Pong, AuthRequest, AuthResponse}
use prm.Proto.Kinds.{Frame}
use prm.Server.{Conn, World, send_frame}

pub record Wire : Type 0 where
  pub encode : Bytes → String
  pub decode : String → Option Bytes
  pub sha256 : String → Bytes
  pub server_name : String
  pub server_version : String

module _ {S : Type 0} where
  unfoldable pub handle_hello : Wire → World S → Conn → Hello → World S
  handle_hello wire w c h = send_frame w c (
      Frame.welcome (record {
        id = h.id;
        server_name = wire.server_name;
        server_version = wire.server_version;
        cap_version = "0.1";
        capabilities = "presence" ∷ "ping" ∷ [];
      }))

  unfoldable pub handle_ping : World S → Conn → Ping → World S
  handle_ping w c p = send_frame w c (Frame.pong (record { id = p.id; token = p.token }))

  unfoldable pub send_auth_err : World S → Conn → String → String → World S
  send_auth_err w c id reason =
      send_frame w c (Frame.auth_err (record { id = id; reason = reason }))

  -- What both methods do for an account that is accepted.
  unfoldable pub sign_in : World S → Conn → String → Account → Tenant → Conn × World S
  sign_in w c id account tenant =
      let c' = record c {
        tenant_id = tenant.id;
        account_id = account.id;
        display_name = account.display_name;
        authed = true;
      } in
      (
        c',
        send_frame w c' (
            Frame.auth_ok (record {
              id = id;
              account_id = account.id;
              tenant_id = tenant.id;
              account_type = account.kind;
              display_name = account.display_name;
            })),
      )

  challenged : Wire → World S → Conn → String → Result AuthError Challenge → Conn × World S
  unfolding send_auth_err
  challenged wire w c id (err e) = (c, send_auth_err w c id (auth_error_reason e))
  challenged wire w c id (ok chal) = (
    record c { pending_chal = some chal },
    send_frame w c (
        Frame.auth_challenge (record {
          id = id;
          salt = wire.encode chal.salt;
          nonce = wire.encode chal.nonce;
          params = chal.params;
        })),
  )

  -- A failure of the touch is dropped.
  touch : Store S → S → Option Token → S
  touch store st none = st
  touch store st (some tok) = (store.touch_token_last_used st tok.id).1

  token_checked :
      Store S → World S → Conn → String → Result AuthError (Verdict × Option Token) → Conn × World S
  unfolding send_auth_err touch
  token_checked store w c id (err e) = (c, send_auth_err w c id "internal")
  token_checked store w c id (ok (refused reason, tok)) = (c, send_auth_err w c id reason)
  token_checked store w c id (ok (accepted account tenant, tok)) =
      sign_in (record w { state = touch store w.state tok }) c id account tenant

  unfoldable pub handle_auth_request :
      Store S → Wire → Bytes → World S → Conn → AuthRequest → Conn × World S
  unfolding challenged token_checked
  handle_auth_request store wire nonce w c r =
      if r.method == "password"
      then (if r.tenant == "" || r.username == ""
          then (c, send_auth_err w c r.id "invalid_request")
          else challenged wire w c r.id
              (begin_password_auth store w.state nonce r.tenant r.username))
      else if r.method == "token"
      then (if r.token == ""
          then (c, send_auth_err w c r.id "invalid_request")
          else token_checked store w c r.id (authenticate_token store w.state wire.sha256 r.token))
      else (c, send_auth_err w c r.id "unsupported_method")

  -- `c` no longer has the challenge.
  proof_checked : World S → Conn → String → Result AuthError Verdict → Conn × World S
  unfolding send_auth_err
  proof_checked w c id (err e) = (c, send_auth_err w c id "internal")
  proof_checked w c id (ok (refused reason)) = (c, send_auth_err w c id reason)
  proof_checked w c id (ok (accepted account tenant)) = sign_in w c id account tenant

  challenge_met : Store S → Wire → World S → Conn → AuthResponse → Option Challenge → Conn × World S
  unfolding proof_checked
  challenge_met store wire w c r none = (c, send_auth_err w c r.id "no_challenge")
  challenge_met store wire w c r (some chal) =
      proof_checked w (record c { pending_chal = none }) r.id
        (complete_password_auth store w.state wire.decode chal r.proof)

  unfoldable pub handle_auth_response :
      Store S → Wire → World S → Conn → AuthResponse → Conn × World S
  unfolding challenge_met
  handle_auth_response store wire w c r = challenge_met store wire w c r c.pending_chal
