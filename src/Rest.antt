-- ===== src/Rest.antt =====
-- internal/rest/rest.go: the HTTP control plane over subscriptions. A request is its headers, the id in
-- its path and its body; a reply is the status with the error's code or the rows. `calls` is what the
-- package calls: `strings.TrimSpace`, SHA-256, and the reading of a JSON body. The server's state is that
-- of the realtime server, which it shares the store and the webhook cache with.
pub mod Inbound
pub mod Authority
pub mod Isolation
mod Tests
use Prim.Native.String
use text.Mathlib.Text.{starts_with}
use prm.Prelude.{
  ℕ, String, Bool, true, false, Option, none, some, List, map, if◌then◌else◌, ◌==◌, string_eq,
  nat_eq, Result, ok, err,
}
use prm.Channels.{Time}
use prm.Storage
use prm.Storage.{Bytes, Store, Read, Tenant, Account, Token, account_bot, tenant_suspended}
use prm.Subops
use prm.Subops.{OpError, CreateInput, UpdateInput}
use prm.Webhook.Manager.{Manager}
use prm.Proto.Frames.{SubscriptionInfo}
use prm.Server.{World}

pub data Reply : Type 0 where
  error : ℕ → String → Reply
  -- `subscriptionResponse` has the fields of the realtime protocol's answer.
  subscription : ℕ → SubscriptionInfo → Reply
  subscriptions : ℕ → List SubscriptionInfo → Reply
  status : ℕ → Reply

pub record Request : Type 0 where
  pub authorization : String
  pub path_id : String
  pub body : Bytes

pub record Calls : Type 0 where
  pub trim_space : String → String
  pub sha256 : String → Bytes
  pub decode_create : Bytes → Option CreateInput
  -- An empty `match` or `budget` is read as absent.
  pub decode_update : Bytes → Option UpdateInput

unfoldable pub handle_healthz : Bool → Reply
handle_healthz healthy = if healthy then status 200 else error 503 "not_ready"

abbrev disabled_time : Time → Option Time
disabled_time at = if at == 0 then none else some at

unfoldable pub to_response : Storage.Subscription → Bool → SubscriptionInfo
to_response sub include_secret = record {
  id = sub.id;
  tenant_id = sub.tenant_id;
  account_id = sub.account_id;
  channel_id = sub.channel_id;
  url = sub.url;
  secret = if include_secret then some sub.secret else none;
  match_json = sub.match_json;
  events = sub.events;
  context_lines = sub.context_lines;
  debounce_ms = sub.debounce_ms;
  cooldown_ms = sub.cooldown_ms;
  budget = sub.budget_json;
  disabled_at = disabled_time sub.disabled_at;
}

unfoldable pub subops_error : OpError → Reply
subops_error OpError.bad_request = error 400 "bad_request"
subops_error OpError.not_found = error 404 "not_found"
subops_error OpError.not_owner = error 403 "not_owner"
subops_error OpError.internal = error 500 "internal"

-- The text after "Bearer ", trimmed, or the code of the error.
unfoldable pub bearer : (String → String) → String → Result String String
bearer trim_space hdr =
    let plain = trim_space (String.slice hdr 7 (String.len hdr)) in
    if starts_with hdr "Bearer "
    then (if plain == "" then err "empty_token" else ok plain)
    else err "missing_bearer"

-- Who calls: the tenant and the bot, with the token to be touched.
abbrev pub Caller : Type 0
Caller = Tenant × (Account × Token)

module _ {S : Type 0} (store : Store S) (calls : Calls) where
  account_known : Tenant → Token → Read Account → Result Reply Caller
  account_known tenant tok (err e) = err (error 401 "invalid_token")
  account_known tenant tok (ok acc) =
      if acc.kind == account_bot then ok (tenant, (acc, tok)) else err (error 403 "not_a_bot")

  tenant_known : S → Token → Read Tenant → Result Reply Caller
  unfolding account_known
  tenant_known st tok (err e) = err (error 401 "invalid_token")
  tenant_known st tok (ok tenant) =
      if tenant.status == tenant_suspended
      then err (error 403 "tenant_suspended")
      else account_known tenant tok (store.get_account_by_id st tok.tenant_id tok.account_id)

  token_known : S → Read Token → Result Reply Caller
  unfolding tenant_known
  token_known st (err e) = err (error 401 "invalid_token")
  token_known st (ok tok) = tenant_known st tok (store.get_tenant_by_id st tok.tenant_id)

  bearer_known : S → Result String String → Result Reply Caller
  unfolding token_known
  bearer_known st (err code) = err (error 401 code)
  bearer_known st (ok plain) = token_known st (store.get_token_by_hash st (calls.sha256 plain))

  unfoldable pub authorize : S → String → Result Reply Caller
  unfolding bearer_known
  authorize st hdr = bearer_known st (bearer calls.trim_space hdr)

  -- `auth`: the handler runs on the state with the token touched.
  as_caller :
      World S
      → (Tenant → Account → World S → Reply × World S)
      → Result Reply Caller
      → Reply × World S
  as_caller w handler (err reply) = (reply, w)
  as_caller w handler (ok (tenant, (bot, tok))) =
      handler tenant bot (record w { state = (store.touch_token_last_used w.state tok.id).1 })

  unfoldable pub with_auth :
      World S → Request → (Tenant → Account → World S → Reply × World S) → Reply × World S
  unfolding as_caller
  with_auth w r handler = as_caller w handler (authorize w.state r.authorization)

  answer {ℓ} : {A : Type ℓ} → (A → Reply) → Result OpError A → Reply
  answer reply (err e) = subops_error e
  answer reply (ok a) = reply a

  -- An operation that changes the store and the cache.
  commit {ℓ} :
      {A : Type ℓ}
      → World S
      → (A → Reply)
      → Result OpError A × (S × Option Manager)
      → Reply × World S
  unfolding answer
  commit w reply (r, (st, mgr)) = (answer reply r, record w { state = st; webhooks = mgr })

  module _ (env : Subops.Env) where
    create_decoded : Bytes → Tenant → Account → World S → Option CreateInput → Reply × World S
    unfolding commit
    create_decoded secret tenant bot w none = (error 400 "bad_json", w)
    create_decoded secret tenant bot w (some i) =
        commit w (λ sub. subscription 201 (to_response sub true))
          (Subops.create store env secret w.state w.webhooks tenant bot i)

    unfoldable pub handle_create_subscription : Bytes → World S → Request → Reply × World S
    unfolding create_decoded
    handle_create_subscription secret w r =
        with_auth w r
          (λ tenant bot v. create_decoded secret tenant bot v (calls.decode_create r.body))

    unfoldable pub handle_list_subscriptions : World S → Request → Reply × World S
    unfolding answer
    handle_list_subscriptions w r = with_auth w r (λ tenant bot v. (
      answer (λ subs. subscriptions 200 (map (λ sub. to_response sub false) subs))
          (Subops.list store env v.state tenant bot),
      v,
    ))

    unfoldable pub handle_get_subscription : World S → Request → Reply × World S
    unfolding answer
    handle_get_subscription w r = with_auth w r (λ tenant bot v. (
      answer (λ sub. subscription 200 (to_response sub false))
          (Subops.get store env v.state tenant bot r.path_id),
      v,
    ))

    update_decoded :
        Time → Tenant → Account → World S → String → Option UpdateInput → Reply × World S
    unfolding commit
    update_decoded now tenant bot w id none = (error 400 "bad_json", w)
    update_decoded now tenant bot w id (some i) =
        commit w (λ sub. subscription 200 (to_response sub false))
          (Subops.update store env now w.state w.webhooks tenant bot id i)

    unfoldable pub handle_update_subscription : Time → World S → Request → Reply × World S
    unfolding update_decoded
    handle_update_subscription now w r =
        with_auth w r
          (λ tenant bot v. update_decoded now tenant bot v r.path_id (calls.decode_update r.body))

    unfoldable pub handle_delete_subscription : World S → Request → Reply × World S
    unfolding commit
    handle_delete_subscription w r = with_auth w r (λ tenant bot v.
        commit v (λ _. status 204)
          (Subops.delete store env v.state v.webhooks tenant bot r.path_id))
