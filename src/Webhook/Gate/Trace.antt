-- ===== src/Webhook/Gate/Trace.antt =====
-- The life of one subscription: its matches and its timer, as a sequence of inputs.
use prm.Prelude.{ℕ, Bool, true, false, Option, none, some, List, [], ◌∷◌, ◌++◌}
use prm.Channels.{Time}
use prm.Webhook.{Message, Subscription, Event, FireTask}
use prm.Webhook.Gate.{
  Verdict, cooling, exhausted, open_, verdict, message_of, Action, dropped, over_budget, waiting,
  arm_timer, fire, handle_match, flush_debounced,
}

-- A match with its two clock readings and the count of fires that it read, or the timer running off.
pub data Input : Type 0 where
  matched : Time → Time → Option ℕ → Event → Input
  timer : Time → Input

abbrev pub of_option : Option FireTask → List FireTask
of_option none = []
of_option (some t) = t ∷ []

-- The task that a call enqueues, if any.
abbrev pub tasks_of : Action → List FireTask
tasks_of (fire t) = of_option t
tasks_of dropped = []
tasks_of over_budget = []
tasks_of waiting = []
tasks_of (arm_timer delay) = []

-- A timer runs off only where one is set.
unfoldable pub run_off : Bool → Time → Subscription → Subscription × List FireTask
run_off false now s = (s, [])
run_off true now s = let (s', t) = flush_debounced now s in (s', of_option t)

unfoldable pub step : Subscription → Input → Subscription × List FireTask
unfolding run_off
step s (matched now drained count ev) =
    let (s', a) = handle_match now drained count s ev in (s', tasks_of a)
step s (timer now) = run_off s.debounce_timer now s

unfoldable pub run : Subscription → List Input → Subscription × List FireTask
run s [] = (s, [])
run s (i ∷ is) = let (s', ts) = step s i in let (s'', us) = run s' is in (s'', ts ++ us)

-- The messages of the matches that pass the cooldown and the budget, in order.
abbrev pub accepted_now : Verdict → Event → List Message
accepted_now open_ ev = message_of ev ∷ []
accepted_now cooling ev = []
accepted_now exhausted ev = []

abbrev pub accepted_by : Subscription → Input → List Message
accepted_by s (matched now drained count ev) = accepted_now (verdict now count s) ev
accepted_by s (timer now) = []

unfoldable pub accepted : Subscription → List Input → List Message
accepted s [] = []
accepted s (i ∷ is) = accepted_by s i ++ accepted (step s i).0 is

-- The messages that a list of tasks delivers.
abbrev pub delivered : List FireTask → List Message
delivered [] = []
delivered (t ∷ ts) = t.matches ++ delivered ts
