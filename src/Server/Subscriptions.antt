-- ===== src/Server/Subscriptions.antt =====
-- internal/server/subscriptions.go: the subscription verbs of a bot's connection, over subops. The new
-- secret and the time are arguments.
use prm.Prelude.{
  String, Bool, true, false, Option, none, some, List, map, if◌then◌else◌, ◌==◌, nat_eq, string_eq,
  Result, ok, err,
}
use prm.Channels.{Time}
use prm.Storage
use prm.Storage.{Bytes, Store, Read, Tenant, Account, account_bot}
use prm.Subops
use prm.Subops.{OpError}
use prm.Webhook.Manager.{Manager}
use prm.Proto.Frames.{
  SubscriptionInfo, SubscriptionCreate, SubscriptionList, SubscriptionGet, SubscriptionUpdate,
  SubscriptionDelete,
}
use prm.Proto.Kinds.{Frame}
use prm.Server.{Conn, World, send_frame, send_error}

abbrev disabled_time : Time → Option Time
disabled_time at = if at == 0 then none else some at

unfoldable pub sub_info : Storage.Subscription → Bool → SubscriptionInfo
sub_info sub include_secret = record {
  id = sub.id;
  tenant_id = sub.tenant_id;
  account_id = sub.account_id;
  channel_id = sub.channel_id;
  url = sub.url;
  secret = if include_secret then some sub.secret else none;
  match_json = sub.match_json;
  events = sub.events;
  context_lines = sub.context_lines;
  debounce_ms = sub.debounce_ms;
  cooldown_ms = sub.cooldown_ms;
  budget = sub.budget_json;
  disabled_at = disabled_time sub.disabled_at;
}

unfoldable pub subops_reason : OpError → String
subops_reason OpError.bad_request = "bad_request"
subops_reason OpError.not_found = "not_found"
subops_reason OpError.not_owner = "not_owner"
subops_reason OpError.internal = "internal"

module _ {S : Type 0} (store : Store S) (env : Subops.Env) where
  bot_found : Tenant → Read Account → Result String (Tenant × Account)
  bot_found tenant (err e) = err "internal"
  bot_found tenant (ok bot) = if bot.kind == account_bot then ok (tenant, bot) else err "not_a_bot"

  tenant_found : S → Conn → Read Tenant → Result String (Tenant × Account)
  unfolding bot_found
  tenant_found st c (err e) = err "internal"
  tenant_found st c (ok tenant) =
      bot_found tenant (store.get_account_by_id st c.tenant_id c.account_id)

  -- The tenant and the bot, or the reason of the error frame.
  unfoldable pub require_bot : S → Conn → Result String (Tenant × Account)
  unfolding tenant_found
  require_bot st c = tenant_found st c (store.get_tenant_by_id st c.tenant_id)

  -- The frame that answers an operation, and the error frames.
  reply {ℓ} : {A : Type ℓ} → World S → Conn → String → (A → Frame) → Result OpError A → World S
  reply w c id frame (err e) = send_error w c (subops_reason e) id
  reply w c id frame (ok a) = send_frame w c (frame a)

  -- An operation that changes the store and the cache.
  commit {ℓ} :
      {A : Type ℓ}
      → World S
      → Conn
      → String
      → (A → Frame)
      → Result OpError A × (S × Option Manager)
      → World S
  unfolding reply
  commit w c id frame (r, (st, mgr)) = reply (record w { state = st; webhooks = mgr }) c id frame r

  as_bot :
      World S
      → Conn
      → String
      → (Tenant → Account → World S)
      → Result String (Tenant × Account)
      → World S
  as_bot w c id verb (err reason) = send_error w c reason id
  as_bot w c id verb (ok (tenant, bot)) = verb tenant bot

  subscription_ok : String → Bool → Storage.Subscription → Frame
  subscription_ok id include_secret sub =
      Frame.subscription_ok (record { id = id; subscription = sub_info sub include_secret })

  abbrev list_ok : String → List Storage.Subscription → Frame
  list_ok id subs =
      Frame.subscription_list_ok
        (record { id = id; subscriptions = map (λ sub. sub_info sub false) subs })

  unfoldable pub handle_subscription_create : Bytes → World S → Conn → SubscriptionCreate → World S
  unfolding as_bot commit subscription_ok
  handle_subscription_create secret w c m =
      as_bot w c m.id
        (λ tenant bot. commit w c m.id (subscription_ok m.id true) (
          Subops.create store env secret w.state w.webhooks tenant bot (record {
            channel_name = m.channel_name;
            channel_id = m.channel_id;
            url = m.url;
            match_json = m.match_json;
            events = m.events;
            context_lines = m.context_lines;
            debounce_ms = m.debounce_ms;
            cooldown_ms = m.cooldown_ms;
            budget = m.budget;
          })))
        (require_bot w.state c)

  unfoldable pub handle_subscription_list : World S → Conn → SubscriptionList → World S
  unfolding as_bot reply
  handle_subscription_list w c m =
      as_bot w c m.id
        (λ tenant bot. reply w c m.id (list_ok m.id) (Subops.list store env w.state tenant bot))
        (require_bot w.state c)

  unfoldable pub handle_subscription_get : World S → Conn → SubscriptionGet → World S
  unfolding as_bot reply subscription_ok
  handle_subscription_get w c m =
      as_bot w c m.id
        (λ tenant bot.
          reply w c m.id (subscription_ok m.id false)
            (Subops.get store env w.state tenant bot m.subscription_id))
        (require_bot w.state c)

  unfoldable pub handle_subscription_update : Time → World S → Conn → SubscriptionUpdate → World S
  unfolding as_bot commit subscription_ok
  handle_subscription_update now w c m =
      as_bot w c m.id
        (λ tenant bot. commit w c m.id (subscription_ok m.id false) (
          Subops.update store env now w.state w.webhooks tenant bot m.subscription_id (record {
            url = m.url;
            match_json = m.match_json;
            events = m.events;
            context_lines = m.context_lines;
            debounce_ms = m.debounce_ms;
            cooldown_ms = m.cooldown_ms;
            budget = m.budget;
            disabled = m.disabled;
          })))
        (require_bot w.state c)

  unfoldable pub handle_subscription_delete : World S → Conn → SubscriptionDelete → World S
  unfolding as_bot commit
  handle_subscription_delete w c m =
      as_bot w c m.id
        (λ tenant bot.
          commit w c m.id
            (λ _.
              Frame.subscription_deleted
                (record { id = m.id; subscription_id = m.subscription_id }))
            (Subops.delete store env w.state w.webhooks tenant bot m.subscription_id))
        (require_bot w.state c)
