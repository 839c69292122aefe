-- ===== src/Webhook/Worker/Retries.antt =====
-- The retry loop: which attempt decides, and what is recorded.
use prm.Prelude.{
  ℕ, zero, suc, ◌+◌, ◌-◌, ◌≤◌, ◌<◌, String, ◌≡◌, refl, ◌∙◌, ap, ap₂, Bool, true, false, [], ◌∷◌,
  ◌++◌, leb,
}
use native.Mathlib.Omega.{arith}
use Prim.Native.String.{◌++◌ as concat}
use prm.Webhook.Worker.Attempts.{
  delays, after_waits, after_send-transient, after_send-delivered, after_send-permanent,
  after_send-last, after_send-stopped,
}
use prm.Webhook.Worker.{
  Config, DeliveryResult, delivered, transient, permanent, detail_of, Outcome, failed, backoff,
  after_send, attempts_from, deliver_attempts,
}

module _ (cfg : Config) (send : ℕ → DeliveryResult) (shutdown : ℕ → Bool) (consec : ℕ) where
  -- The `d` attempts from `i` on fail for the time being, and no shutdown ends a wait.
  pub record IsRetried (i d : ℕ) : Type 0 where
    pub fails : (j : ℕ) → i ≤ j → j < i + d → (send j).kind ≡ transient
    pub goes_on : (j : ℕ) → i ≤ j → j < i + d → shutdown j ≡ false

  one_more :
      (k i : ℕ) (last : String)
      → (send i).kind ≡ transient
      → i < cfg.max_retries
      → shutdown i ≡ false
      → attempts_from cfg send shutdown consec (suc k) i last
        ≡ after_waits
            (backoff i ∷ [])
            (attempts_from cfg send shutdown consec k (i + 1) (detail_of (send i)))
  unfolding attempts_from
  one_more k i last e l s =
      after_send-transient cfg send shutdown consec i (detail_of (send i)) (send i).kind _ e l s

  -- The retried attempts leave nothing but their waits and a detail.
  attempts_from-retried :
      (d r k i : ℕ) (last : String)
      → k ≡ d + r
      → i + d + r ≡ cfg.max_retries
      → IsRetried i d
      → (detail : String) × (attempts_from cfg send shutdown consec (suc k) i last
          ≡ after_waits
              (delays i d)
              (attempts_from cfg send shutdown consec (suc r) (i + d) detail))
  unfolding delays
  attempts_from-retried zero r k i last same e t = (
    last,
    ap₂ (λ m j. attempts_from cfg send shutdown consec (suc m) j last) (omega arith) (omega arith),
  )
  attempts_from-retried (suc d) r zero i last same e t = absurd (omega arith)
  attempts_from-retried (suc d) r (suc k) i last same e t =
      let detail = detail_of (send i) in
      let later : IsRetried (i + 1) d = record {
        fails = λ j l h. t.fails j (omega arith) (omega arith);
        goes_on = λ j l h. t.goes_on j (omega arith) (omega arith);
      } in
      let tail = attempts_from-retried d r k (i + 1) detail (omega arith) (omega arith) later in
      (
        tail.0,
        one_more (suc k) i last (t.fails i (omega arith) (omega arith)) (omega arith)
              (t.goes_on i (omega arith) (omega arith))
            ∙ ap (after_waits (backoff i ∷ [])) (
                tail.1
                ∙ ap
                    (λ j.
                      after_waits (delays (i + 1) d)
                        (attempts_from cfg send shutdown consec (suc r) j tail.0))
                    (omega arith)),
      )

  -- The loop up to the attempt after the retried ones, whose outcome `o` does not depend on what
  -- would follow.
  deliver_attempts-decides :
      (d : ℕ) (o : Outcome)
      → d < cfg.max_retries
      → IsRetried 1 d
      → ((rest : Outcome)
          → after_send cfg send shutdown consec
              (1 + d)
              (detail_of (send (1 + d)))
              (send (1 + d)).kind
              rest
            ≡ o)
      → deliver_attempts cfg send shutdown consec ≡ after_waits (delays 1 d) o
  unfolding deliver_attempts attempts_from
  deliver_attempts-decides d o l t decided =
      let r = cfg.max_retries - (1 + d) in
      let all : cfg.max_retries ≡ suc (d + r) = omega arith in
      let head = attempts_from-retried d r (d + r) 1 "" refl (omega arith) t in
      ap (λ k. attempts_from cfg send shutdown consec k 1 "") all
      ∙ head.1
      ∙ ap (after_waits (delays 1 d)) (by_attempt r head.0)
    where
      by_attempt :
          (r : ℕ) (last : String) → attempts_from cfg send shutdown consec (suc r) (1 + d) last ≡ o
      by_attempt r last = decided _

  -- When the first `d` attempts fail for the time being, no shutdown ends a wait, and attempt
  -- `d + 1`, which the setting allows, is delivered, then the delivery is recorded as "ok" with
  -- `d + 1` attempts, the count of permanent failures is zero, nothing is disabled, and the loop has
  -- waited the backoff of each of the `d` attempts.
  pub deliver_attempts-delivered :
      (d : ℕ)
      → d < cfg.max_retries
      → IsRetried 1 d
      → (send (1 + d)).kind ≡ delivered
      → deliver_attempts cfg send shutdown consec ≡ record {
        status = "ok";
        attempts = 1 + d;
        last_error = (send (1 + d)).status_detail;
        consec_4xx = 0;
        disable = false;
        waits = delays 1 d ++ [];
      }
  deliver_attempts-delivered d l t e = deliver_attempts-decides d _ l t (λ rest.
      after_send-delivered cfg send shutdown consec (1 + d) (detail_of (send (1 + d)))
        (send (1 + d)).kind rest e)

  -- When the first `d` attempts fail for the time being, no shutdown ends a wait, and attempt
  -- `d + 1`, which the setting allows, fails for good, then the delivery is recorded as "dropped_4xx"
  -- with `d + 1` attempts, the count of permanent failures grows by one, and the subscription is
  -- disabled exactly if the new count is at least the threshold.
  pub deliver_attempts-permanent :
      (d : ℕ)
      → d < cfg.max_retries
      → IsRetried 1 d
      → (send (1 + d)).kind ≡ permanent
      → deliver_attempts cfg send shutdown consec ≡ record {
        status = "dropped_4xx";
        attempts = 1 + d;
        last_error = detail_of (send (1 + d));
        consec_4xx = consec + 1;
        disable = leb cfg.auto_disable_4xx (consec + 1);
        waits = delays 1 d ++ [];
      }
  deliver_attempts-permanent d l t e = deliver_attempts-decides d _ l t (λ rest.
      after_send-permanent cfg send shutdown consec (1 + d) (detail_of (send (1 + d)))
        (send (1 + d)).kind rest e)

  -- When attempts 1 to `d + 1` fail for the time being, a shutdown ends the wait after attempt
  -- `d + 1` and no earlier one, and the setting allows a further attempt, then the delivery is
  -- recorded as "failed" because of the shutdown, and the count of permanent failures stays.
  pub deliver_attempts-stopped :
      (d : ℕ)
      → 1 + d < cfg.max_retries
      → IsRetried 1 d
      → (send (1 + d)).kind ≡ transient
      → shutdown (1 + d) ≡ true
      → deliver_attempts cfg send shutdown consec
        ≡ after_waits (delays 1 d) (failed consec (1 + d) "shutdown")
  deliver_attempts-stopped d l t e s = deliver_attempts-decides d _ (omega arith) t (λ rest.
      after_send-stopped cfg send shutdown consec (1 + d) (detail_of (send (1 + d)))
        (send (1 + d)).kind rest e l s)

  -- When all of the `d + 1` attempts that the setting allows fail for the time being and no shutdown
  -- ends a wait, then the delivery is recorded as "failed" with all attempts, with the detail of the
  -- last one, the count of permanent failures stays, and the loop has waited `d` times.
  pub deliver_attempts-exhausted :
      (d : ℕ)
      → cfg.max_retries ≡ 1 + d
      → IsRetried 1 d
      → (send (1 + d)).kind ≡ transient
      → deliver_attempts cfg send shutdown consec
        ≡ after_waits
            (delays 1 d)
            (failed consec cfg.max_retries (concat "last error: " (detail_of (send (1 + d)))))
  unfolding deliver_attempts attempts_from
  deliver_attempts-exhausted d same t e =
      let all : cfg.max_retries ≡ suc d = omega (arith, same) in
      let head = attempts_from-retried d 0 d 1 "" (omega arith) (omega arith) t in
      ap (λ k. attempts_from cfg send shutdown consec k 1 "") all
      ∙ head.1
      ∙ ap (after_waits (delays 1 d)) (
          after_send-last cfg send shutdown consec (1 + d) (detail_of (send (1 + d)))
            (send (1 + d)).kind _ e (omega arith))
