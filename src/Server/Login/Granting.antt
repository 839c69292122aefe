-- ===== src/Server/Login/Granting.antt =====
-- How a connection gets its account.
use prm.Prelude.{
  ◌≡◌, refl, String, Bool, true, false, Option, none, some, ◌==◌, ◌||◌, string_eq, if◌then◌else◌,
  Result, ok, err,
}
use native.Mathlib.Omega.{arith}
use prm.Storage.{Bytes, Store, Account, Tenant, Token}
use prm.Auth.{
  AuthError, Challenge, Verdict, accepted, refused, complete_password_auth, authenticate_token,
}
use prm.Proto.Frames.{AuthRequest, AuthResponse}
use prm.Server.{Conn, World}
use prm.Server.Login.{
  Wire, sign_in, challenged, token_checked, handle_auth_request, proof_checked, challenge_met,
  handle_auth_response,
}

-- The connection speaks for the account and its tenant.
abbrev pub Holds : Account → Tenant → Conn → Type 0
Holds account tenant c = (c.account_id ≡ account.id) × (c.tenant_id ≡ tenant.id)

module _ {S : Type 0} (store : Store S) (wire : Wire) where
  -- The token of the request is that of the account.
  abbrev pub ByToken : S → AuthRequest → Conn → Type 0
  ByToken st r c =
      (account : Account) × (tenant : Tenant) × (tok : Option Token) × (authenticate_token store st
          wire.sha256 r.token
        ≡ ok (accepted account tenant, tok))
      × Holds account tenant c

  -- The proof of the response meets the challenge that the connection has pending.
  abbrev pub ByProof : S → AuthResponse → Option Challenge → Conn → Type 0
  ByProof st r o c =
      (chal : Challenge) × (o ≡ some chal)
      × (account : Account) × (tenant : Tenant) × (complete_password_auth store st wire.decode chal
            r.proof
          ≡ ok (accepted account tenant))
      × Holds account tenant c

  either {ℓ} :
      (P : Conn → Type ℓ) (b : Bool) (x y : Conn × World S)
      → (x.0.authed ≡ true → P x.0)
      → (y.0.authed ≡ true → P y.0)
      → (if b then x else y).0.authed ≡ true
      → P (if b then x else y).0
  either P true x y p q = p
  either P false x y p q = q

  module _ (w : World S) (c : Conn) (closed : c.authed ≡ false) where
    never {ℓ} : {P : Type ℓ} → c.authed ≡ true → P
    never e = absurd (ground (arith, closed, e))

    challenged-authed {ℓ} :
        {P : Type ℓ} (id : String) (r : Result AuthError Challenge)
        → (challenged wire w c id r).0.authed ≡ true
        → P
    unfolding challenged
    challenged-authed id (ok chal) e = never e
    challenged-authed id (err x) e = never e

    token_checked-authed :
        (r : AuthRequest) (a : Result AuthError (Verdict × Option Token))
        → authenticate_token store w.state wire.sha256 r.token ≡ a
        → (token_checked store w c r.id a).0.authed ≡ true
        → ByToken w.state r (token_checked store w c r.id a).0
    unfolding token_checked sign_in
    token_checked-authed r (ok (accepted account tenant, tok)) h e =
        (account, tenant, tok, h, (refl, refl))
    token_checked-authed r (ok (refused reason, tok)) h e = never e
    token_checked-authed r (err x) h e = never e

    proof_checked-authed :
        (r : AuthResponse) (chal : Challenge) (o : Option Challenge) (a : Result AuthError Verdict)
        → o ≡ some chal
        → complete_password_auth store w.state wire.decode chal r.proof ≡ a
        → (proof_checked w (record c { pending_chal = none }) r.id a).0.authed ≡ true
        → ByProof w.state r o (proof_checked w (record c { pending_chal = none }) r.id a).0
    unfolding proof_checked sign_in
    proof_checked-authed r chal o (ok (accepted account tenant)) p h e =
        (chal, p, account, tenant, h, (refl, refl))
    proof_checked-authed r chal o (ok (refused reason)) p h e = never e
    proof_checked-authed r chal o (err x) p h e = never e

    challenge_met-authed :
        (r : AuthResponse) (o : Option Challenge)
        → (challenge_met store wire w c r o).0.authed ≡ true
        → ByProof w.state r o (challenge_met store wire w c r o).0
    unfolding challenge_met
    challenge_met-authed r none e = never e
    challenge_met-authed r (some chal) e = proof_checked-authed r chal (some chal) _ refl refl e

    pub handle_auth_response-authed :
        (r : AuthResponse)
        → (handle_auth_response store wire w c r).0.authed ≡ true
        → ByProof w.state r c.pending_chal (handle_auth_response store wire w c r).0
    unfolding handle_auth_response
    handle_auth_response-authed r e = challenge_met-authed r c.pending_chal e

    pub handle_auth_request-authed :
        (nonce : Bytes) (r : AuthRequest)
        → (handle_auth_request store wire nonce w c r).0.authed ≡ true
        → ByToken w.state r (handle_auth_request store wire nonce w c r).0
    unfolding handle_auth_request
    handle_auth_request-authed nonce r =
        either P (r.method == "password") _ _
          (either P (r.tenant == "" || r.username == "") _ _ never (challenged-authed r.id _))
          (either P (r.method == "token") _ _
            (either P (r.token == "") _ _ never (token_checked-authed r _ refl)) never)
      where
        P : Conn → Type 0
        P = ByToken w.state r
