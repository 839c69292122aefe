-- ===== src/Webhook/Manager/Notify.antt =====
-- `Notify`: one broadcast against the subscriptions of its channel. The store, the clock and the
-- readings of each subscription's gate come from outside; what is left to do is the list of actions.
pub mod Bystanders
use prm.Prelude.{
  ℕ, String, Bool, true, false, not, Option, none, some, List, [], ◌∷◌, if◌then◌else◌, nat_eq,
  lookup, insert, is_empty, Result, ok, err,
}
use prm.Channels.{Uuid, Time, is_some}
use prm.Matcher
use prm.Matcher.{Engine, matches}
use prm.Storage.{Store, SubscriptionFire}
use prm.Webhook.{Subscription, Event}
use prm.Webhook.Gate.{Action, over_budget, handle_match}
use prm.Webhook.Sets.{IdSet, or_empty, has}
use prm.Webhook.Manager.{Manager}

-- The clock of one subscription's gate: `time.Since`, the drain, and the start of the day.
pub record Readings : Type 0 where
  pub now : Time
  pub drained : Time
  pub today_start : Time

abbrev pub matcher_event : Event → Matcher.Event
matcher_event ev = record { body = ev.body; from_account_id = ev.sender; mentions = ev.mentions }

-- The subscriptions of the index that are cached.
snapshot : IdSet → Manager → List Subscription
snapshot [] m = []
snapshot ((id, u) ∷ rest) m =
    let later = snapshot rest m in elim (lookup id m.subs) [ none ↦ later | some s ↦ s ∷ later ]

abbrev fire_row : Subscription → String → SubscriptionFire
fire_row s status = record {
  tenant_id = s.tenant_id;
  subscription_id = s.id;
  status = status;
  attempts = 0;
  last_error = "";
}

pub record Notified (S : Type 0) : Type 0 where
  pub state : S
  pub manager : Manager
  pub actions : List (Uuid × Action)

module _ {S : Type 0} (engine : Engine) (store : Store S) (clock : Uuid → Readings) where
  count_of : S → Subscription → Option ℕ
  count_of st s =
      elim (store.count_subscription_fires_since st s.tenant_id s.id (clock s.id).today_start) [
        | ok n ↦ some n
        | err e ↦ none
      ]

  -- `recordPausedFire`: a failure is logged and dropped.
  record_paused_fire : Subscription → Notified S → Notified S
  record_paused_fire s n = record n {
    state = (store.record_subscription_fire n.state (fire_row s "paused")).1;
  }

  after_action : Subscription → Action → S → S
  after_action s over_budget st =
      (store.record_subscription_fire st (fire_row s "budget_exhausted")).1
  after_action s _ st = st

  gate_one : Subscription → Event → Notified S → Notified S
  gate_one s ev n =
      let r = clock s.id in
      let (s', a) = handle_match r.now r.drained (count_of n.state s) s ev in
      record {
        state = after_action s a n.state;
        manager = record n.manager { subs = insert s.id s' n.manager.subs };
        actions = (s.id, a) ∷ n.actions;
      }

  -- `pauses` is the snapshot of the pauses.
  notify_one : Manager → Subscription → Event → Notified S → Notified S
  notify_one m s ev n =
      if not (matches engine s.matcher (matcher_event ev))
      then n
      else if has ev.channel_id s.account_id m.pauses
      then record_paused_fire s n
      else gate_one s ev n

  notify_all : Manager → List Subscription → Event → Notified S → Notified S
  notify_all m [] ev n = n
  notify_all m (s ∷ rest) ev n = notify_all m rest ev (notify_one m s ev n)

  unfoldable pub notify : S → Manager → Event → Notified S
  unfolding notify_all notify_one gate_one record_paused_fire after_action count_of snapshot
  notify st m ev =
      notify_all m (snapshot (or_empty (lookup ev.channel_id m.by_channel)) m) ev
        (record { state = st; manager = m; actions = [] })
