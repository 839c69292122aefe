-- ===== src/Webhook/Gate.antt =====
-- internal/webhook/manager.go: the gate of one subscription, cooldown -> budget -> debounce -> fire.
-- A call reads the clock and the count of today's fires from outside, and says what it did beside
-- the new state. Millisecond settings are taken as nanoseconds without the wrap of `int64`, which
-- starts at settings of 292 years.
pub mod Trace
pub mod Cooldown
pub mod Conservation
pub mod Settled
mod Tests
use prm.Prelude.{
  ℕ, ◌+◌, ◌-◌, ◌*◌, String, Bool, true, false, not, ◌&&◌, Option, none, some, List, [], ◌∷◌, ◌++◌,
  map, ltb, leb, if◌then◌else◌, ◌==◌, nat_eq, length, drop, is_empty, ℤ, to_nat, is_positive,
}
use prm.Channels.{Time, HistoryEntry}
use prm.Webhook.{Budget, Message, Subscription, Event, FireTask}

abbrev pub millisecond : ℕ
millisecond = 1_000_000

unfoldable pub message_from_history : HistoryEntry → Message
message_from_history e = record {
  sender = e.sender;
  display_name = e.display_name;
  ts = e.ts;
  body = e.body;
}

-- The two tests that end a call early, and what passes them.
pub data Verdict : Type 0 where
  cooling exhausted open_ : Verdict

-- `s.CooldownMs > 0 && !s.lastFire.IsZero() && time.Since(s.lastFire) < …`
is_cooling : Time → Subscription → Bool
is_cooling now s =
    is_positive s.cooldown_ms
    && (not (s.last_fire == 0) && ltb (now - s.last_fire) (to_nat s.cooldown_ms * millisecond))

-- `count` is the answer of `CountSubscriptionFiresSince`, `none` when it failed.
is_exhausted : Option ℕ → Subscription → Bool
is_exhausted none s = false
is_exhausted (some n) s =
    is_positive s.budget.daily_max_fires && leb (to_nat s.budget.daily_max_fires) n

unfoldable pub verdict : Time → Option ℕ → Subscription → Verdict
unfolding is_cooling is_exhausted
verdict now count s =
    if is_cooling now s then cooling else if is_exhausted count s then exhausted else open_

abbrev pub message_of : Event → Message
message_of ev = record {
  sender = ev.sender;
  display_name = ev.display_name;
  ts = ev.ts;
  body = ev.body;
}

abbrev smaller : ℕ → ℕ → ℕ
smaller take len = if ltb len take then len else take

capture : ℤ → List HistoryEntry → List Message
unfolding message_from_history
capture lines context =
    map message_from_history
      (drop (length context - smaller (to_nat lines) (length context)) context)

-- The match joins the window; its first match captures the context.
unfoldable pub accumulate : Subscription → Event → Subscription
unfolding capture
accumulate s ev = record s {
  pending_matches = s.pending_matches ++ message_of ev ∷ [];
  pending_chan_name = ev.channel_name;
  pending_context =
      if is_empty s.pending_context && (is_positive s.ctx_lines && not (is_empty ev.context))
      then capture s.ctx_lines ev.context
      else s.pending_context;
}

drain_unless : Bool → Time → Subscription → Subscription × Option FireTask
drain_unless true now s = (s, none)
drain_unless false now s = (
  record s { pending_matches = []; pending_context = []; pending_chan_name = ""; last_fire = now },
  some (record {
    sub = s;
    channel_name = s.pending_chan_name;
    matches = s.pending_matches;
    context = s.pending_context;
  }),
)

-- `drainPendingLocked` at the clock reading `now`.
unfoldable pub drain_pending : Time → Subscription → Subscription × Option FireTask
unfolding drain_unless
drain_pending now s = drain_unless (is_empty s.pending_matches) now s

-- What a call of `handleMatch` leaves to be done.
pub data Action : Type 0 where
  dropped : Action
  over_budget : Action
  waiting : Action
  arm_timer : ℕ → Action
  fire : Option FireTask → Action

-- An active window waits for its timer; a new one is timed; without debounce the task is built.
settle : Bool → Bool → Time → Subscription → Subscription × Action
settle true debounced drained s = (s, waiting)
settle false true drained s =
    (record s { debounce_timer = true }, arm_timer (to_nat s.debounce_ms * millisecond))
settle false false drained s = let (s', task) = drain_pending drained s in (s', fire task)

unfoldable pub accept : Time → Subscription → Event → Subscription × Action
unfolding settle
accept drained s ev =
    let s' = accumulate s ev in settle s'.debounce_timer (is_positive s'.debounce_ms) drained s'

-- `now` is the reading of `time.Since`, `drained` that of `drainPendingLocked`.
unfoldable pub handle_match : Time → Time → Option ℕ → Subscription → Event → Subscription × Action
handle_match now drained count s ev = elim (verdict now count s) [
  | cooling ↦ (s, dropped)
  | exhausted ↦ (s, over_budget)
  | open_ ↦ accept drained s ev
]

-- The timer's function, at the clock reading `now`.
unfoldable pub flush_debounced : Time → Subscription → Subscription × Option FireTask
flush_debounced now s = drain_pending now (record s { debounce_timer = false })
