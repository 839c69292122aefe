-- ===== src/Webhook/Worker/Backoff.antt =====
-- The wait between two attempts.
use prm.Prelude.{
  ℕ, zero, suc, ◌-◌, ◌*◌, ◌^◌, ◌≤◌, min, ◌≡◌, inl, inr, refl, Bool, true, ◌&&◌, nat_beq,
  nat_beq_iff, Bool-cases,
}
use native.Mathlib.Omega.{arith}
use prm.Webhook.Worker.{backoff, max_delay}

-- A quarter of a second, doubled with each attempt, at most five seconds.
abbrev pub planned : ℕ → ℕ
planned attempt = min (2 ^ (attempt - 1) * 250_000_000) max_delay

-- Attempts 1 to `n` wait as planned.
abbrev agree : ℕ → Bool
agree zero = true
agree (suc n) = nat_beq (backoff (suc n)) (planned (suc n)) && agree n

both : {a b : Bool} → (a && b) ≡ true → (a ≡ true) × (b ≡ true)
both e = (ground (arith, e), ground (arith, e))

agree-at : (n a : ℕ) → agree n ≡ true → 1 ≤ a → a ≤ n → nat_beq (backoff a) (planned a) ≡ true
agree-at zero a e l h = absurd (omega arith)
agree-at (suc n) a e l h = elim (Bool-cases (nat_beq a (suc n))) [
  | inl k ↦ let here : a ≡ suc n = ground arith in rw here (both e).0
  | inr k ↦ agree-at n a (both e).1 l (ground arith)
]

agree_36 : agree 36 ≡ true
unfolding backoff
agree_36 = refl

-- The wait after attempts 1 to 36 is a quarter of a second, doubled with each attempt, and at most
-- five seconds.
pub backoff-planned : (a : ℕ) → 1 ≤ a → a ≤ 36 → backoff a ≡ planned a
backoff-planned a l h = (nat_beq_iff (backoff a) (planned a)).0 (agree-at 36 a agree_36 l h)

-- No attempt is followed by a wait of more than five seconds.
pub backoff-le : (a : ℕ) → backoff a ≤ max_delay
unfolding backoff
backoff-le a = ground arith
