-- ===== src/Webhook/Gate/Settled.antt =====
-- No match waits without a timer that will hand it on.
use prm.Prelude.{
  ℕ, ◌≡◌, ◌⊎◌, inl, inr, refl, Bool, true, false, Option, List, [], ◌∷◌, is_empty, is_positive,
}
use prm.Channels.{Time}
use prm.Webhook.{Subscription, Event}
use prm.Webhook.Gate.{
  drain_unless, settle, Verdict, cooling, exhausted, open_, verdict, accept, handle_match,
  flush_debounced, drain_pending, accumulate,
}
use prm.Webhook.Gate.Trace.{Input, matched, timer, run_off, step, run}

pub nil_of_is_empty {ℓ} : {A : Type ℓ} (l : List A) → is_empty l ≡ true → l ≡ []
nil_of_is_empty [] e = refl
nil_of_is_empty (x ∷ l) e = cc

-- Nothing is pending, or the debounce timer is set.
abbrev pub IsSettled : Subscription → Type 0
IsSettled s = (s.pending_matches ≡ []) ⊎ (s.debounce_timer ≡ true)

drain_unless-empties :
    (b : Bool) (now : Time) (s : Subscription)
    → is_empty s.pending_matches ≡ b
    → (drain_unless b now s).0.pending_matches ≡ []
unfolding drain_unless
drain_unless-empties true now s e = nil_of_is_empty s.pending_matches e
drain_unless-empties false now s e = refl

drain_pending-empties :
    (now : Time) (s : Subscription) → (drain_pending now s).0.pending_matches ≡ []
unfolding drain_pending
drain_pending-empties now s = drain_unless-empties (is_empty s.pending_matches) now s refl

settle-IsSettled :
    (armed debounced : Bool) (drained : Time) (s : Subscription)
    → s.debounce_timer ≡ armed
    → IsSettled (settle armed debounced drained s).0
unfolding settle
settle-IsSettled true debounced drained s e = inr e
settle-IsSettled false true drained s e = inr refl
settle-IsSettled false false drained s e = inl (drain_pending-empties drained s)

accept-IsSettled :
    (drained : Time) (s : Subscription) (ev : Event) → IsSettled (accept drained s ev).0
unfolding accept
accept-IsSettled drained s ev =
    let s' = accumulate s ev in
    settle-IsSettled s'.debounce_timer (is_positive s'.debounce_ms) drained s' refl

handle_match-IsSettled :
    (now drained : Time) (count : Option ℕ) (s : Subscription) (ev : Event)
    → IsSettled s
    → IsSettled (handle_match now drained count s ev).0
unfolding handle_match
handle_match-IsSettled now drained count s ev h = by_verdict (verdict now count s) refl
  where
    by_verdict :
        (v : Verdict) → verdict now count s ≡ v → IsSettled (handle_match now drained count s ev).0
    by_verdict cooling e = rw (e, handle_match) h
    by_verdict exhausted e = rw (e, handle_match) h
    by_verdict open_ e = rw (e, handle_match) (accept-IsSettled drained s ev)

run_off-IsSettled :
    (b : Bool) (now : Time) (s : Subscription) → IsSettled s → IsSettled (run_off b now s).0
unfolding run_off flush_debounced
run_off-IsSettled true now s h =
    inl (drain_pending-empties now (record s { debounce_timer = false }))
run_off-IsSettled false now s h = h

step-IsSettled : (s : Subscription) (i : Input) → IsSettled s → IsSettled (step s i).0
unfolding step
step-IsSettled s (matched now drained count ev) h = handle_match-IsSettled now drained count s ev h
step-IsSettled s (timer now) h = run_off-IsSettled s.debounce_timer now s h

-- Every sequence of matches and timers leaves the subscription with nothing pending, or with its
-- debounce timer set, if it started so.
pub run-IsSettled :
    (s : Subscription) (inputs : List Input) → IsSettled s → IsSettled (run s inputs).0
unfolding run
run-IsSettled s [] h = h
run-IsSettled s (i ∷ is) h = run-IsSettled (step s i).0 is (step-IsSettled s i h)
