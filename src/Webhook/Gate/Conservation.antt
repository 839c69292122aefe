-- ===== src/Webhook/Gate/Conservation.antt =====
-- No accepted match is lost, doubled or reordered, and none waits without a timer.
use mathlib.Core.Path.{◌≡⟨◌⟩◌, ◌∎}
use prm.Prelude.{
  is_empty, is_positive, ℕ, ◌≡◌, refl, sym, ap, ◌∙◌, Bool, true, false, Option, List, [], ◌∷◌, ◌++◌,
  append-nil, append_assoc,
}
use prm.Channels.{Time}
use prm.Webhook.{Subscription, Event, FireTask}
use prm.Webhook.Gate.{
  drain_unless, settle, Verdict, cooling, exhausted, open_, verdict, accept, handle_match,
  flush_debounced, message_of, drain_pending, accumulate,
}
use prm.Webhook.Gate.Trace.{
  Input, matched, timer, of_option, tasks_of, run_off, step, run, accepted_now, accepted_by,
  accepted, delivered,
}

delivered-append : (ts us : List FireTask) → delivered (ts ++ us) ≡ delivered ts ++ delivered us
delivered-append [] us = refl
delivered-append (t ∷ ts) us = rw (delivered-append ts us, append_assoc)

drain_unless-conserves :
    (b : Bool) (now : Time) (s : Subscription)
    → delivered (of_option (drain_unless b now s).1) ++ (drain_unless b now s).0.pending_matches
      ≡ s.pending_matches
unfolding drain_unless
drain_unless-conserves true now s = refl
drain_unless-conserves false now s =
    rw (append-nil (s.pending_matches ++ []), append-nil s.pending_matches)

-- What stays pending beside what was handed on.
drain_pending-conserves :
    (now : Time) (s : Subscription)
    → delivered (of_option (drain_pending now s).1) ++ (drain_pending now s).0.pending_matches
      ≡ s.pending_matches
unfolding drain_pending
drain_pending-conserves now s = drain_unless-conserves (is_empty s.pending_matches) now s

settle-conserves :
    (armed debounced : Bool) (drained : Time) (s : Subscription)
    → delivered (tasks_of (settle armed debounced drained s).1)
        ++ (settle armed debounced drained s).0.pending_matches
      ≡ s.pending_matches
unfolding settle
settle-conserves true debounced drained s = refl
settle-conserves false true drained s = refl
settle-conserves false false drained s = drain_pending-conserves drained s

pending-accumulate :
    (s : Subscription) (ev : Event)
    → (accumulate s ev).pending_matches ≡ s.pending_matches ++ message_of ev ∷ []
unfolding accumulate
pending-accumulate s ev = refl

accept-conserves :
    (drained : Time) (s : Subscription) (ev : Event)
    → delivered (tasks_of (accept drained s ev).1) ++ (accept drained s ev).0.pending_matches
      ≡ s.pending_matches ++ message_of ev ∷ []
unfolding accept
accept-conserves drained s ev =
    let s' = accumulate s ev in
    settle-conserves s'.debounce_timer (is_positive s'.debounce_ms) drained s'
    ∙ pending-accumulate s ev

handle_match-conserves :
    (now drained : Time) (count : Option ℕ) (s : Subscription) (ev : Event)
    → delivered (tasks_of (handle_match now drained count s ev).1)
        ++ (handle_match now drained count s ev).0.pending_matches
      ≡ s.pending_matches ++ accepted_now (verdict now count s) ev
unfolding handle_match
handle_match-conserves now drained count s ev = by_verdict (verdict now count s) refl
  where
    by_verdict :
        (v : Verdict)
        → verdict now count s ≡ v
        → delivered (tasks_of (handle_match now drained count s ev).1)
            ++ (handle_match now drained count s ev).0.pending_matches
          ≡ s.pending_matches ++ accepted_now v ev
    by_verdict cooling e = rw (e, handle_match) (sym (append-nil s.pending_matches))
    by_verdict exhausted e = rw (e, handle_match) (sym (append-nil s.pending_matches))
    by_verdict open_ e = rw (e, handle_match) (accept-conserves drained s ev)

run_off-conserves :
    (b : Bool) (now : Time) (s : Subscription)
    → delivered (run_off b now s).1 ++ (run_off b now s).0.pending_matches ≡ s.pending_matches
unfolding run_off flush_debounced
run_off-conserves true now s = drain_pending-conserves now (record s { debounce_timer = false })
run_off-conserves false now s = refl

step-conserves :
    (s : Subscription) (i : Input)
    → delivered (step s i).1 ++ (step s i).0.pending_matches ≡ s.pending_matches ++ accepted_by s i
unfolding step
step-conserves s (matched now drained count ev) = handle_match-conserves now drained count s ev
step-conserves s (timer now) =
    run_off-conserves s.debounce_timer now s ∙ sym (append-nil s.pending_matches)

-- Over any sequence of matches and timers, what the tasks deliver, followed by what is still
-- pending, is what was pending at the start followed by the accepted matches, in their order.
pub run-conserves :
    (s : Subscription) (inputs : List Input)
    → delivered (run s inputs).1 ++ (run s inputs).0.pending_matches
      ≡ s.pending_matches ++ accepted s inputs
unfolding run accepted
run-conserves s [] = sym (append-nil s.pending_matches)
run-conserves s (i ∷ is) =
    let s' = (step s i).0 in
    let rest = run s' is in
    let done = delivered (step s i).1 in
    delivered ((step s i).1 ++ rest.1) ++ rest.0.pending_matches
    ≡⟨ (rw (delivered-append (step s i).1 rest.1, append_assoc)) ⟩
      done ++ (delivered rest.1 ++ rest.0.pending_matches)
    ≡⟨ ap (λ x. done ++ x) (run-conserves s' is) ⟩ done ++ (s'.pending_matches ++ accepted s' is)
    ≡⟨ sym (append_assoc done s'.pending_matches (accepted s' is)) ⟩
      (done ++ s'.pending_matches) ++ accepted s' is
    ≡⟨ ap (λ x. x ++ accepted s' is) (step-conserves s i) ⟩
      (s.pending_matches ++ accepted_by s i) ++ accepted s' is
    ≡⟨ append_assoc s.pending_matches (accepted_by s i) (accepted s' is) ⟩
      s.pending_matches ++ (accepted_by s i ++ accepted s' is) ∎
