-- ===== src/Rest/Authority.antt =====
-- Who may use the control plane.
use native.Mathlib.Omega.{arith}
use prm.Prelude.{
  String, ◌≡◌, ◌≢◌, refl, sym, ap, ◌∙◌, subst, Result, ok, err, ok_inj, if-err, if-holds, ◌==◌,
  string_eq, eq_iff,
}
use prm.Channels.{Time}
use prm.Storage.{Bytes, Store, Read, Tenant, Account, Token, account_bot, tenant_suspended}
use prm.Subops
use prm.Server.{World}
use prm.Rest.{
  Reply, Request, Calls, bearer, account_known, tenant_known, token_known, bearer_known, authorize,
  with_auth, as_caller, handle_create_subscription, handle_list_subscriptions,
  handle_get_subscription, handle_update_subscription, handle_delete_subscription,
}

module _ {S : Type 0} (store : Store S) (calls : Calls) (st : S) where
  -- A token's row leads to a tenant that is not suspended and to a bot.
  abbrev pub ByToken : Tenant → Account → Token → Type 0
  ByToken tenant bot tok =
      (store.get_tenant_by_id st tok.tenant_id ≡ ok tenant)
      × (tenant.status ≢ tenant_suspended)
      × (store.get_account_by_id st tok.tenant_id tok.account_id ≡ ok bot)
      × (bot.kind ≡ account_bot)

  -- The caller is the bot whose token the header bears.
  abbrev pub ByBearer : String → Tenant → Account → Token → Type 0
  ByBearer hdr tenant bot tok =
      (plain : String) × (bearer calls.trim_space hdr ≡ ok plain)
      × (store.get_token_by_hash st (calls.sha256 plain) ≡ ok tok)
      × ByToken tenant bot tok

  module _ (tenant : Tenant) (bot : Account) (tok : Token) where
    account_known_lem :
        (tenant' : Tenant) (tok' : Token) (r : Read Account)
        → account_known store calls tenant' tok' r ≡ ok (tenant, (bot, tok))
        → (tenant' ≡ tenant) × (tok' ≡ tok) × (r ≡ ok bot) × (bot.kind ≡ account_bot)
    unfolding account_known
    account_known_lem tenant' tok' (err e) h = absurd (ground (arith, h))
    account_known_lem tenant' tok' (ok acc) h =
        let (kind, same) = if-holds (acc.kind == account_bot) _ _ h in
        let e = ok_inj same in
        let b : acc ≡ bot = ap (λ c. c.1.0) e in
        (
          ap (λ c. c.0) e,
          ap (λ c. c.1.1) e,
          ap ok b,
          subst (λ a. a.kind ≡ account_bot) b ((eq_iff acc.kind account_bot).0 kind),
        )

    tenant_known_lem :
        (tok' : Token) (r : Read Tenant)
        → r ≡ store.get_tenant_by_id st tok'.tenant_id
        → tenant_known store calls st tok' r ≡ ok (tenant, (bot, tok))
        → (tok' ≡ tok) × ByToken tenant bot tok
    unfolding tenant_known
    tenant_known_lem tok' (err e) f h = absurd (ground (arith, h))
    tenant_known_lem tok' (ok t) f h =
        let (live, rest) = if-err (t.status == tenant_suspended) _ _ h in
        let (et, ek, ea, kind) = account_known_lem t tok' _ rest in
        (
          ek,
          (
            subst (λ k. store.get_tenant_by_id st k.tenant_id ≡ ok tenant) ek (sym f ∙ ap ok et),
            subst (λ x. x.status ≢ tenant_suspended) et
                (λ s. absurd (ground (arith, live, (eq_iff t.status tenant_suspended).1 s))),
            subst (λ k. store.get_account_by_id st k.tenant_id k.account_id ≡ ok bot) ek ea,
            kind,
          ),
        )

    token_known_lem :
        (r : Read Token)
        → token_known store calls st r ≡ ok (tenant, (bot, tok))
        → (r ≡ ok tok) × ByToken tenant bot tok
    unfolding token_known
    token_known_lem (err e) h = absurd (ground (arith, h))
    token_known_lem (ok k) h =
        let (e, by) = tenant_known_lem k (store.get_tenant_by_id st k.tenant_id) refl h in
        (ap ok e, by)

    bearer_known_lem :
        (hdr : String) (r : Result String String)
        → bearer calls.trim_space hdr ≡ r
        → bearer_known store calls st r ≡ ok (tenant, (bot, tok))
        → ByBearer hdr tenant bot tok
    unfolding bearer_known
    bearer_known_lem hdr (err code) e h = absurd (ground (arith, h))
    bearer_known_lem hdr (ok plain) e h =
        let (found, by) = token_known_lem _ h in (plain, e, found, by)

    -- A request is let in as a tenant, an account and a token only if the token's hash is that of the
    -- text that the header bears, the token's tenant is stored and not suspended, and its account is
    -- stored and is a bot.
    pub authorize_sound :
        (hdr : String)
        → authorize store calls st hdr ≡ ok (tenant, (bot, tok))
        → ByBearer hdr tenant bot tok
    unfolding authorize
    authorize_sound hdr h = bearer_known_lem hdr (bearer calls.trim_space hdr) refl h

module _ {S : Type 0} (store : Store S) (calls : Calls) where
  with_auth-refused :
      (w : World S) (r : Request) (reply : Reply)
      (handler : Tenant → Account → World S → Reply × World S)
      → authorize store calls w.state r.authorization ≡ err reply
      → with_auth store calls w r handler ≡ (reply, w)
  unfolding with_auth as_caller
  with_auth-refused w r reply handler e = ap (as_caller store calls w handler) e

  -- A request that is not let in gets the reply of the refusal from every subscription handler, and
  -- changes nothing.
  pub handlers-refused :
      (env : Subops.Env) (secret : Bytes) (now : Time) (w : World S) (r : Request) (reply : Reply)
      → authorize store calls w.state r.authorization ≡ err reply
      → (handle_create_subscription store calls env secret w r ≡ (reply, w))
        × (handle_list_subscriptions store calls env w r ≡ (reply, w))
        × (handle_get_subscription store calls env w r ≡ (reply, w))
        × (handle_update_subscription store calls env now w r ≡ (reply, w))
        × (handle_delete_subscription store calls env w r ≡ (reply, w))
  unfolding handle_create_subscription handle_list_subscriptions handle_get_subscription
      handle_update_subscription handle_delete_subscription
  handlers-refused env secret now w r reply e = (
    with_auth-refused w r reply _ e,
    with_auth-refused w r reply _ e,
    with_auth-refused w r reply _ e,
    with_auth-refused w r reply _ e,
    with_auth-refused w r reply _ e,
  )
