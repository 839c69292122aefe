-- ===== src/Auth/Sound.antt =====
-- Who is let in: what the stored rows are when a handshake succeeds.
use prm.Prelude.{
  String, ◌≡◌, ◌≢◌, refl, ap, ap₂, [], ◌∷◌, subst, Bool, true, false, Option, none, some,
  if◌then◌else◌, ◌==◌, string_eq, eq_iff, Result, ok, err,
}
use native.Mathlib.Omega.{arith}
use prm.Storage.{Bytes, Store, Read, Tenant, Account, Token, tenant_suspended}
use prm.Auth.{
  AuthError, Challenge, Verdict, accepted, refused, with_tenant, check_proof, complete_with,
  complete_password_auth, token_account, token_tenant, token_row, authenticate_token,
}
use prm.Auth.Parameters.{bytes_beq}

pub bytes_beq_lem : (x y : Bytes) → bytes_beq x y ≡ true → x ≡ y
unfolding bytes_beq
bytes_beq_lem [] [] e = refl
bytes_beq_lem [] (y ∷ ys) e = absurd (ground (arith, e))
bytes_beq_lem (x ∷ xs) [] e = absurd (ground (arith, e))
bytes_beq_lem (x ∷ xs) (y ∷ ys) e =
    let head : x ≡ y = ground (arith, e) in
    let tail : bytes_beq xs ys ≡ true = ground (arith, e) in
    ap₂ (λ c cs. c ∷ cs) head (bytes_beq_lem xs ys tail)

module _ {S : Type 0} (store : Store S) (st : S) (a : Account) (t : Tenant) where
  with_tenant_lem :
      (acc : Account) (r : Read Tenant)
      → with_tenant store st acc r ≡ ok (accepted a t)
      → (acc ≡ a) × (r ≡ ok t)
  unfolding with_tenant
  with_tenant_lem acc (err e) h = absurd (ground (arith, h))
  with_tenant_lem acc (ok tenant) h = (cc, cc)

  check_proof_lem :
      (proof : Bytes) (r : Read Account)
      → check_proof store st proof r ≡ ok (accepted a t)
      → (r ≡ ok a) × (proof ≡ a.password_hash) × (store.get_tenant_by_id st a.tenant_id ≡ ok t)
  unfolding check_proof
  check_proof_lem proof (err e) h = absurd (ground (arith, h))
  check_proof_lem proof (ok acc) h =
      let (same, hash, found) = by_test (bytes_beq proof acc.password_hash) refl h in
      (ap ok same, hash, found)
    where
      by_test :
          (b : Bool)
          → bytes_beq proof acc.password_hash ≡ b
          → Path
              (Result AuthError Verdict)
              (if b
                then with_tenant store st acc (store.get_tenant_by_id st acc.tenant_id)
                else ok (refused "invalid_credentials"))
              (ok (accepted a t))
          → (acc ≡ a) × (proof ≡ a.password_hash) × (store.get_tenant_by_id st a.tenant_id ≡ ok t)
      by_test false e k = absurd (ground (arith, k))
      by_test true e k =
          let (same, found) = with_tenant_lem acc (store.get_tenant_by_id st acc.tenant_id) k in
          subst
            (λ x.
              (acc ≡ x)
              × (proof ≡ x.password_hash)
              × (store.get_tenant_by_id st x.tenant_id ≡ ok t))
            same (refl, bytes_beq_lem proof acc.password_hash e, found)

  complete_with_lem :
      (ch : Challenge) (o : Option Bytes)
      → complete_with store st ch o ≡ ok (accepted a t)
      → (o ≡ some a.password_hash)
        × (store.get_account_by_id st ch.tenant_id ch.account_id ≡ ok a)
        × (store.get_tenant_by_id st a.tenant_id ≡ ok t)
  unfolding complete_with
  complete_with_lem ch none h = absurd (ground (arith, h))
  complete_with_lem ch (some proof) h =
      let (found, same, tenant) =
        check_proof_lem proof (store.get_account_by_id st ch.tenant_id ch.account_id) h in
      (ap some same, found, tenant)

  -- When the password handshake accepts an account, the proof decodes to the stored hash of that
  -- account, which is the one of the challenge, and the tenant is the stored tenant of the account.
  pub complete_password_auth_sound :
      (decode : String → Option Bytes) (ch : Challenge) (proof : String)
      → complete_password_auth store st decode ch proof ≡ ok (accepted a t)
      → (decode proof ≡ some a.password_hash)
        × (store.get_account_by_id st ch.tenant_id ch.account_id ≡ ok a)
        × (store.get_tenant_by_id st a.tenant_id ≡ ok t)
  unfolding complete_password_auth
  complete_password_auth_sound decode ch proof h = complete_with_lem ch (decode proof) h

  module _ (row : Token) where
    token_account_lem :
        (tenant : Tenant) (tok : Token) (r : Read Account)
        → token_account store st tenant tok r ≡ ok (accepted a t, some row)
        → (tenant ≡ t) × (tok ≡ row) × (r ≡ ok a)
    unfolding token_account
    token_account_lem tenant tok (err e) h = absurd (ground (arith, h))
    token_account_lem tenant tok (ok acc) h = (cc, cc, cc)

    token_tenant_lem :
        (tok : Token) (r : Read Tenant)
        → token_tenant store st tok r ≡ ok (accepted a t, some row)
        → (tok ≡ row)
          × (r ≡ ok t)
          × (t.status ≢ tenant_suspended)
          × (store.get_account_by_id st row.tenant_id row.account_id ≡ ok a)
    unfolding token_tenant
    token_tenant_lem tok (err e) h = absurd (ground (arith, h))
    token_tenant_lem tok (ok tenant) h =
        let (tok_same, same, active, found) =
          by_status (tenant.status == tenant_suspended) refl h in
        (tok_same, ap ok same, active, found)
      where
        by_status :
            (b : Bool)
            → (tenant.status == tenant_suspended) ≡ b
            → (if b
                then ok (refused "tenant_suspended", none)
                else token_account store st tenant tok
                    (store.get_account_by_id st tok.tenant_id tok.account_id))
              ≡ ok (accepted a t, some row)
            → (tok ≡ row)
              × (tenant ≡ t)
              × (t.status ≢ tenant_suspended)
              × (store.get_account_by_id st row.tenant_id row.account_id ≡ ok a)
        by_status true e k = absurd (ground (arith, k))
        by_status false e k =
            let (same, tok_same, found) =
              token_account_lem tenant tok (store.get_account_by_id st tok.tenant_id tok.account_id)
                k in
            (
              tok_same,
              same,
              subst (λ x. x.status ≢ tenant_suspended) same
                  (λ f. absurd (ground (arith, e, (eq_iff tenant.status tenant_suspended).1 f))),
              subst (λ x. store.get_account_by_id st x.tenant_id x.account_id ≡ ok a) tok_same
                  found,
            )

    token_row_lem :
        (r : Read Token)
        → token_row store st r ≡ ok (accepted a t, some row)
        → (r ≡ ok row)
          × (store.get_tenant_by_id st row.tenant_id ≡ ok t)
          × (t.status ≢ tenant_suspended)
          × (store.get_account_by_id st row.tenant_id row.account_id ≡ ok a)
    unfolding token_row
    token_row_lem (err e) h = absurd (ground (arith, h))
    token_row_lem (ok tok) h =
        let (same, found, active, acc) =
          token_tenant_lem tok (store.get_tenant_by_id st tok.tenant_id) h in
        (
          ap ok same,
          subst (λ x. store.get_tenant_by_id st x.tenant_id ≡ ok t) same found,
          active,
          acc,
        )

    -- When a token is accepted, it is not empty, its hash is that of a stored token, the account and
    -- the tenant are the stored ones of that token, and the tenant is not suspended.
    pub authenticate_token_sound :
        (sha256 : String → Bytes) (plaintext : String)
        → authenticate_token store st sha256 plaintext ≡ ok (accepted a t, some row)
        → (plaintext ≢ "")
          × (store.get_token_by_hash st (sha256 plaintext) ≡ ok row)
          × (store.get_tenant_by_id st row.tenant_id ≡ ok t)
          × (t.status ≢ tenant_suspended)
          × (store.get_account_by_id st row.tenant_id row.account_id ≡ ok a)
    unfolding authenticate_token
    authenticate_token_sound sha256 plaintext h = by_test (plaintext == "") refl h
      where
        by_test :
            (b : Bool)
            → (plaintext == "") ≡ b
            → (if b
                then ok (refused "invalid_credentials", none)
                else token_row store st (store.get_token_by_hash st (sha256 plaintext)))
              ≡ ok (accepted a t, some row)
            → (plaintext ≢ "")
              × (store.get_token_by_hash st (sha256 plaintext) ≡ ok row)
              × (store.get_tenant_by_id st row.tenant_id ≡ ok t)
              × (t.status ≢ tenant_suspended)
              × (store.get_account_by_id st row.tenant_id row.account_id ≡ ok a)
        by_test true e k = absurd (ground (arith, k))
        by_test false e k =
            let (found, tenant, active, acc) =
              token_row_lem (store.get_token_by_hash st (sha256 plaintext)) k in
            (λ f. absurd (ground (arith, e, (eq_iff plaintext "").1 f)), found, tenant, active, acc)
