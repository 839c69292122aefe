-- ===== src/Webhook/Gate/Cooldown.antt =====
-- The cooldown keeps the fires of a subscription apart, with and without debounce.
use prm.Prelude.{nat_eq, ℕ, ◌+◌, ◌*◌, ◌≤◌, ◌≡◌, ◌⊎◌, List, [], ◌∷◌, ◌++◌, pos}
use prm.Channels.{Time}
use prm.Webhook.{Subscription, FireTask}
use prm.Webhook.Gate.{millisecond}
use prm.Webhook.Gate.Trace.{Input, matched, timer, step}

-- When a task of this input is built.
abbrev pub time_of : Input → Time
time_of (matched now drained count ev) = drained
time_of (timer now) = now

abbrev pub stamp : Time → List FireTask → List Time
stamp t [] = []
stamp t (task ∷ tasks) = t ∷ stamp t tasks

-- The times at which a run builds its tasks.
unfoldable pub fire_times : Subscription → List Input → List Time
fire_times s [] = []
fire_times s (i ∷ is) = stamp (time_of i) (step s i).1 ++ fire_times (step s i).0 is

-- The clock never runs back, from `t` on.
abbrev pub InOrder : Time → List Input → Type 0
InOrder t [] = Unit
InOrder t (matched now drained count ev ∷ is) = (t ≤ now) × (now ≤ drained) × InOrder drained is
InOrder t (timer now ∷ is) = (t ≤ now) × InOrder now is

-- No fire yet, or the last one is `d` back.
abbrev pub Rested : ℕ → Time → Time → Type 0
Rested d last t = (last ≡ 0) ⊎ (last + d ≤ t)

-- Each time is `d` after the one before it.
abbrev pub Spaced : ℕ → Time → List Time → Type 0
Spaced d last [] = Unit
Spaced d last (t ∷ ts) = Rested d last t × Spaced d t ts

module _ (c : ℕ) where
  abbrev gap : ℕ
  gap = c * millisecond

  -- A subscription with cooldown `c` whose last fire is not in the future, and that may fire at `t`
  -- if it has something pending.
  pub record IsReady (t : Time) (s : Subscription) : Type 0 where
    pub cooldown : s.cooldown_ms ≡ pos c
    pub before : s.last_fire ≤ t
    pub rested : (s.pending_matches ≡ []) ⊎ Rested gap s.last_fire t

  -- After an input at time `t`, on a subscription that last fired at `last`.
  record After (last t : Time) (r : Subscription × List FireTask) : Type 0 where
    ready : IsReady t r.0
    fires :
        ((r.1 ≡ []) × (r.0.last_fire ≡ last))
        ⊎ ((task : FireTask) × (r.1 ≡ task ∷ []) × (r.0.last_fire ≡ t) × Rested gap last t)
