-- ===== src/Webhook/Worker.antt =====
-- internal/webhook/worker.go: the bounded queue, the retry loop of one delivery, and auto-disable.
-- What a transport answers to the n-th attempt, and whether the server shuts down in the wait after
-- it, are functions of n. The settings of `Config` are not negative.
pub mod Attempts
pub mod Retries
pub mod Backoff
pub mod Disabling
mod Tests
use Prim.Native.String.{◌++◌}
use prm.Prelude.{
  ℕ, zero, suc, ◌+◌, ◌-◌, ◌*◌, ◌%◌, ◌^◌, String, Bool, true, false, Option, none, some, List, [],
  ◌∷◌, ltb, leb, if◌then◌else◌, ◌==◌, nat_eq, lookup, insert, length, Result, ok, err,
}
use prm.Channels.{Time}
use prm.Storage
use prm.Storage.{Store, Read, SubscriptionFire}
use prm.Webhook.{Subscription, FireTask}
use prm.Webhook.Manager.{Manager, remove}

pub record Config : Type 0 where
  pub workers : ℕ
  pub queue_depth : ℕ
  pub http_timeout : ℕ
  pub max_retries : ℕ
  pub auto_disable_4xx : ℕ

abbrev or_default : ℕ → ℕ → ℕ
or_default given default = if given == 0 then default else given

unfoldable pub apply_defaults : Config → Config
apply_defaults c = record {
  workers = or_default c.workers 16;
  queue_depth = or_default c.queue_depth 1024;
  http_timeout = or_default c.http_timeout 5_000_000_000;
  max_retries = or_default c.max_retries 3;
  auto_disable_4xx = or_default c.auto_disable_4xx 5;
}

-- transport.go: the outcome of one `Send`.
pub data DeliveryKind : Type 0 where
  delivered transient permanent : DeliveryKind

pub record DeliveryResult : Type 0 where
  pub kind : DeliveryKind
  pub status_detail : String
  pub error : Option String

-- The queue between `enqueue` and the workers.
pub record Pool : Type 0 where
  pub depth : ℕ
  pub tasks : List FireTask
  pub dropped : ℕ
  pub stopped : Bool

append_task : List FireTask → FireTask → List FireTask
append_task [] t = t ∷ []
append_task (x ∷ xs) t = x ∷ append_task xs t

unfoldable pub enqueue : Pool → FireTask → Pool
unfolding append_task
enqueue p t =
    if p.stopped
    then p
    else if ltb (length p.tasks) p.depth
    then record p { tasks = append_task p.tasks t }
    else record p { dropped = p.dropped + 1 }

-- A worker takes the oldest task.
unfoldable pub dequeue : Pool → Pool × Option FireTask
dequeue p = elim p.tasks [ [] ↦ (p, none) | t ∷ rest ↦ (record p { tasks = rest }, some t) ]

-- `fmt.Sprintf("%s: %v", detail, res.Err)` where there is an error.
abbrev detail_of : DeliveryResult → String
detail_of r = elim r.error [ none ↦ r.status_detail | some e ↦ r.status_detail ++ ": " ++ e ]

abbrev pub max_delay : ℕ
max_delay = 5_000_000_000

-- `time.Duration(1<<uint(attempt-1)) * 250 * time.Millisecond` in `int64`, at most five seconds; a
-- negative duration is over at once.
unfoldable pub backoff : ℕ → ℕ
backoff attempt =
    let delay = 2 ^ (attempt - 1) * 250_000_000 % 2 ^ 64 in
    if leb (2 ^ 63) delay then 0 else if ltb max_delay delay then max_delay else delay

-- The row that a delivery records, its permanent-failure count, whether it disables, its waits.
pub record Outcome : Type 0 where
  pub status : String
  pub attempts : ℕ
  pub last_error : String
  pub consec_4xx : ℕ
  pub disable : Bool
  pub waits : List ℕ

abbrev failed : ℕ → ℕ → String → Outcome
failed consec attempts why = record {
  status = "failed";
  attempts = attempts;
  last_error = why;
  consec_4xx = consec;
  disable = false;
  waits = [];
}

module _ (cfg : Config) (send : ℕ → DeliveryResult) (shutdown : ℕ → Bool) (consec : ℕ) where
  -- `rest` is what the loop does from the next attempt on.
  pub after_send : ℕ → String → DeliveryKind → Outcome → Outcome
  after_send attempt detail delivered rest = record {
    status = "ok";
    attempts = attempt;
    last_error = (send attempt).status_detail;
    consec_4xx = 0;
    disable = false;
    waits = [];
  }
  after_send attempt detail permanent rest = record {
    status = "dropped_4xx";
    attempts = attempt;
    last_error = detail;
    consec_4xx = consec + 1;
    disable = leb cfg.auto_disable_4xx (consec + 1);
    waits = [];
  }
  after_send attempt detail transient rest =
      if ltb attempt cfg.max_retries
      then (if shutdown attempt
          then failed consec attempt "shutdown"
          else record rest { waits = backoff attempt ∷ rest.waits })
      else rest

  -- The attempts from `attempt` on, `k` of them; `last` is the last detail so far.
  attempts_from : ℕ → ℕ → String → Outcome
  attempts_from zero attempt last = failed consec cfg.max_retries ("last error: " ++ last)
  attempts_from (suc k) attempt last =
      let rest = attempts_from k (attempt + 1) (detail_of (send attempt)) in
      after_send attempt (detail_of (send attempt)) (send attempt).kind rest

  unfoldable pub deliver_attempts : Outcome
  unfolding attempts_from after_send
  deliver_attempts = attempts_from cfg.max_retries 1 ""

-- What comes before the first attempt.
pub data Prepared : Type 0 where
  marshal_failed : String → Prepared
  no_transport : String → Prepared
  ready : Prepared

unfoldable pub deliver :
    Config → Prepared → (ℕ → DeliveryResult) → (ℕ → Bool) → Subscription → Outcome
unfolding deliver_attempts
deliver cfg (marshal_failed why) send shutdown s = failed s.consec_4xx 0 why
deliver cfg (no_transport why) send shutdown s = failed s.consec_4xx 0 why
deliver cfg ready send shutdown s = deliver_attempts cfg send shutdown s.consec_4xx

abbrev fire_of : Subscription → Outcome → SubscriptionFire
fire_of s o = record {
  tenant_id = s.tenant_id;
  subscription_id = s.id;
  status = o.status;
  attempts = o.attempts;
  last_error = o.last_error;
}

-- The count of the cached subscription, if it is still there.
counted : Option Subscription → Manager → Subscription → ℕ → Manager
counted none m s n = m
counted (some live) m s n = record m { subs = insert s.id (record live { consec_4xx = n }) m.subs }

unfoldable pub set_consec : Manager → Subscription → ℕ → Manager
unfolding counted
set_consec m s n = counted (lookup s.id m.subs) m s n

module _ {S : Type 0} (store : Store S) (now : Time) where
  -- The stored row is marked as disabled if it is there and active.
  mark_disabled : Read Storage.Subscription → S → Subscription → S
  mark_disabled (err e) st s = st
  mark_disabled (ok sub) st s =
      if sub.disabled_at == 0
      then (store.update_subscription st s.tenant_id (record sub { disabled_at = now })).1
      else st

  -- The cache loses the subscription in any case.
  unfoldable pub auto_disable : S → Manager → Subscription → S × Manager
  unfolding mark_disabled
  auto_disable st m s =
      (mark_disabled (store.get_subscription_by_id st s.tenant_id s.id) st s, remove m s.id)

  close_delivery : Bool → S → Manager → Subscription → S × Manager
  close_delivery true st m s = auto_disable st m s
  close_delivery false st m s = (st, m)

  -- The end of a delivery: the count, the fire row, and the disabling.
  unfoldable pub finish : S → Manager → Subscription → Outcome → S × Manager
  unfolding auto_disable set_consec close_delivery
  finish st m s o =
      close_delivery o.disable (store.record_subscription_fire st (fire_of s o)).1
        (set_consec m s o.consec_4xx) s
