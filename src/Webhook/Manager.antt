-- ===== src/Webhook/Manager.antt =====
-- internal/webhook/manager.go: the cache of live subscriptions, its channel index and the pauses.
-- A subscription is held by value under its id: a task or a timer of a version that was replaced
-- meanwhile is outside of the model. Operations run one after the other, as `m.mu` makes them.
pub mod Index
pub mod Pauses
pub mod Notify
mod Tests
use prm.Prelude.{
  ℕ, String, Bool, true, false, Option, none, some, List, [], ◌∷◌, if◌then◌else◌, ◌==◌, nat_eq,
  string_eq, is_empty, not, Assoc, lookup, insert, delete, Result, ok, err, ◌>>=◌,
}
use prm.Channels.{Uuid}
use prm.Matcher.{Engine, Matcher, CompileError, compile}
use prm.Storage
use prm.Storage.{Store, StoreError, Tenant, ChannelBotPause}
use prm.Webhook.{Budget, Subscription}
use prm.Webhook.Sets.{Sets, has, add_to, drop_from}

pub record Manager : Type 0 where
  pub subs : Assoc Uuid Subscription
  pub by_channel : Sets
  pub pauses : Sets

unfoldable pub new_manager : Manager
new_manager = record { subs = []; by_channel = []; pauses = [] }

pub data BadSubscription : Type 0 where
  bad_rules : CompileError → BadSubscription
  bad_budget empty_secret : BadSubscription

-- `parse_budget` is `json.Unmarshal` into a `Budget`.
module _ (engine : Engine) (parse_budget : String → Option Budget) where
  compiled_matcher : Result CompileError Matcher → Result BadSubscription Matcher
  compiled_matcher (ok m) = ok m
  compiled_matcher (err e) = err (bad_rules e)

  parsed_budget : Option Budget → Result BadSubscription Budget
  parsed_budget none = err bad_budget
  parsed_budget (some b) = ok b

  abbrev zero_budget : Budget
  zero_budget = record { daily_max_fires = prm.Prelude.ℤ.pos 0 }

  abbrev live_of : Storage.Subscription → Matcher → Budget → Subscription
  live_of sub matcher budget = record {
    id = sub.id;
    tenant_id = sub.tenant_id;
    account_id = sub.account_id;
    channel_id = sub.channel_id;
    url = sub.url;
    secret = sub.secret;
    matcher = matcher;
    events = sub.events;
    ctx_lines = sub.context_lines;
    debounce_ms = sub.debounce_ms;
    cooldown_ms = sub.cooldown_ms;
    budget = budget;
    debounce_timer = false;
    pending_matches = [];
    pending_context = [];
    pending_chan_name = "";
    last_fire = 0;
    consec_4xx = 0;
  }

  unfoldable pub compile_subscription : Storage.Subscription → Result BadSubscription Subscription
  unfolding compiled_matcher parsed_budget
  compile_subscription sub = do
    matcher ← compiled_matcher (compile engine sub.match_json)
    budget ←
        if sub.budget_json == ""
        then ok zero_budget
        else parsed_budget (parse_budget sub.budget_json)
    if is_empty sub.secret then err empty_secret else ok (live_of sub matcher budget)

-- `m.subs[sub.ID] = live` and `indexByChannel(live)`.
unfoldable pub put : Manager → Subscription → Manager
put m live = record m {
  subs = insert live.id live m.subs;
  by_channel = add_to live.channel_id live.id m.by_channel;
}

-- The old version leaves the index of its channel if the channel changed.
unindex_old : Option Subscription → Subscription → Manager → Manager
unindex_old none live m = m
unindex_old (some old) live m =
    if old.channel_id == live.channel_id
    then m
    else record m { by_channel = drop_from old.channel_id old.id m.by_channel }

unfoldable pub add_live : Manager → Subscription → Manager
unfolding unindex_old
add_live m live = put (unindex_old (lookup live.id m.subs) live m) live

drop_sub : Option Subscription → Uuid → Manager → Manager
drop_sub none id m = m
drop_sub (some sub) id m = record m {
  subs = delete id m.subs;
  by_channel = drop_from sub.channel_id id m.by_channel;
}

unfoldable pub remove : Manager → Uuid → Manager
unfolding drop_sub
remove m id = drop_sub (lookup id m.subs) id m

unfoldable pub set_bot_paused : Manager → Uuid → Uuid → Bool → Manager
set_bot_paused m channel_id bot_id true = record m { pauses = add_to channel_id bot_id m.pauses }
set_bot_paused m channel_id bot_id false = record m {
  pauses = drop_from channel_id bot_id m.pauses;
}

unfoldable pub is_bot_paused : Manager → Uuid → Uuid → Bool
is_bot_paused m channel_id bot_id = has channel_id bot_id m.pauses

module _ (engine : Engine) (parse_budget : String → Option Budget) where
  -- A row that does not compile changes nothing.
  unfoldable pub add_or_update :
      Manager → Storage.Subscription → Result BadSubscription (Unit {0}) × Manager
  add_or_update m sub = elim (compile_subscription engine parse_budget sub) [
    | err e ↦ (err e, m)
    | ok live ↦ (ok tt, add_live m live)
  ]

  -- The rows of one channel; a row with bad rules is skipped.
  load_subs : List Storage.Subscription → Manager → Manager
  load_subs [] m = m
  load_subs (sub ∷ subs) m = elim (compile_subscription engine parse_budget sub) [
    | err e ↦ load_subs subs m
    | ok live ↦ load_subs subs (put m live)
  ]

  load_pauses : List ChannelBotPause → Manager → Manager
  load_pauses [] m = m
  load_pauses (p ∷ ps) m = load_pauses ps (set_bot_paused m p.channel_id p.bot_account_id true)

  module _ {S : Type 0} (store : Store S) (st : S) where
    load_channels : Uuid → List Storage.Channel → Manager → Result StoreError (Unit {0}) × Manager
    load_channels tenant_id [] m = (ok tt, m)
    load_channels tenant_id (ch ∷ chs) m =
        elim (store.list_subscriptions_by_channel st tenant_id ch.id) [
          | err e ↦ (err e, m)
          | ok subs ↦ load_channels tenant_id chs (load_subs subs m)
        ]

    load_tenant : Tenant → Manager → Result StoreError (Unit {0}) × Manager
    load_tenant t m = elim (store.list_channels st t.id) [
      | err e ↦ (err e, m)
      | ok chs ↦
          let (r, m') = load_channels t.id chs m in
          elim r [
            | err e ↦ (err e, m')
            | ok _ ↦ elim (store.list_channel_bot_pauses st t.id) [
              | err e ↦ (err e, m')
              | ok ps ↦ (ok tt, load_pauses ps m')
            ]
          ]
    ]

    load_tenants : List Tenant → Manager → Result StoreError (Unit {0}) × Manager
    load_tenants [] m = (ok tt, m)
    load_tenants (t ∷ ts) m =
        let (r, m') = load_tenant t m in elim r [ err e ↦ (err e, m') | ok _ ↦ load_tenants ts m' ]

    -- The caches are emptied first; an error stops with what was loaded so far.
    unfoldable pub reload : List Tenant → Manager → Result StoreError (Unit {0}) × Manager
    unfolding load_tenants load_tenant load_channels load_pauses load_subs
    reload tenants m = load_tenants tenants new_manager
