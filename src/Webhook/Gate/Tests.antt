-- ===== src/Webhook/Gate/Tests.antt =====
-- The gate at a subscription with a cooldown: a fire, a dropped match, a debounced one.
use prm.Prelude.{◌≡◌, refl, none, some, inl, List, [], ◌∷◌, ◌++◌, pos}
use prm.Webhook.{Subscription}
use prm.Webhook.Gate.Trace.{Input, matched, timer, run, accepted, delivered}
use prm.Webhook.Gate.Conservation.{run-conserves}
use prm.Webhook.Gate.Settled.{IsSettled, run-IsSettled}
use prm.Samples.{live_sub, deploy}

abbrev slow_sub : Subscription
slow_sub = record live_sub { debounce_ms = pos 10 }

-- Two matches within one window, the timer, and a match within the cooldown.
abbrev inputs : List Input
inputs =
    matched 1000 1001 (some 0) deploy
    ∷ matched 2000 2001 none deploy
    ∷ timer 3000
    ∷ matched 4000 4001 none deploy
    ∷ []

run-conserves_example :
    delivered (run slow_sub inputs).1 ++ (run slow_sub inputs).0.pending_matches
    ≡ slow_sub.pending_matches ++ accepted slow_sub inputs
run-conserves_example = run-conserves slow_sub inputs

run-IsSettled_example : IsSettled (run slow_sub inputs).0
run-IsSettled_example = run-IsSettled slow_sub inputs (inl refl)
