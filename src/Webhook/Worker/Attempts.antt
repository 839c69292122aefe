-- ===== src/Webhook/Worker/Attempts.antt =====
-- One attempt of the retry loop: what follows each answer of the transport.
use prm.Prelude.{
  ℕ, zero, suc, ◌+◌, ◌≤◌, ◌<◌, String, ◌≡◌, refl, Bool, true, false, List, [], ◌∷◌, ◌++◌, leb, ltb,
}
use native.Mathlib.Omega.{arith}
use prm.Webhook.Worker.{
  Config, DeliveryKind, DeliveryResult, delivered, transient, permanent, Outcome, failed, backoff,
  after_send,
}

-- The waits after the `d` attempts from `i` on.
unfoldable pub delays : ℕ → ℕ → List ℕ
delays i zero = []
delays i (suc d) = backoff i ∷ delays (i + 1) d

abbrev pub after_waits : List ℕ → Outcome → Outcome
after_waits ws o = record o { waits = ws ++ o.waits }

module _ (cfg : Config) (send : ℕ → DeliveryResult) (shutdown : ℕ → Bool) (consec : ℕ) where
  pub after_send-transient :
      (n : ℕ) (detail : String) (kind : DeliveryKind) (rest : Outcome)
      → kind ≡ transient
      → n < cfg.max_retries
      → shutdown n ≡ false
      → after_send cfg send shutdown consec n detail kind rest ≡ after_waits (backoff n ∷ []) rest
  unfolding after_send
  after_send-transient n detail transient rest e l s = rw (lt, s) refl
    where
      lt : ltb n cfg.max_retries ≡ true
      lt = ground arith
  after_send-transient n detail delivered rest e l s = absurd (ground (arith, e))
  after_send-transient n detail permanent rest e l s = absurd (ground (arith, e))

  pub after_send-delivered :
      (n : ℕ) (detail : String) (kind : DeliveryKind) (rest : Outcome)
      → kind ≡ delivered
      → after_send cfg send shutdown consec n detail kind rest ≡ record {
        status = "ok";
        attempts = n;
        last_error = (send n).status_detail;
        consec_4xx = 0;
        disable = false;
        waits = [];
      }
  unfolding after_send
  after_send-delivered n detail delivered rest e = refl
  after_send-delivered n detail transient rest e = absurd (ground (arith, e))
  after_send-delivered n detail permanent rest e = absurd (ground (arith, e))

  pub after_send-permanent :
      (n : ℕ) (detail : String) (kind : DeliveryKind) (rest : Outcome)
      → kind ≡ permanent
      → after_send cfg send shutdown consec n detail kind rest ≡ record {
        status = "dropped_4xx";
        attempts = n;
        last_error = detail;
        consec_4xx = consec + 1;
        disable = leb cfg.auto_disable_4xx (consec + 1);
        waits = [];
      }
  unfolding after_send
  after_send-permanent n detail permanent rest e = refl
  after_send-permanent n detail transient rest e = absurd (ground (arith, e))
  after_send-permanent n detail delivered rest e = absurd (ground (arith, e))

  pub after_send-last :
      (n : ℕ) (detail : String) (kind : DeliveryKind) (rest : Outcome)
      → kind ≡ transient
      → cfg.max_retries ≤ n
      → after_send cfg send shutdown consec n detail kind rest ≡ rest
  unfolding after_send
  after_send-last n detail transient rest e l = rw ge refl
    where
      ge : ltb n cfg.max_retries ≡ false
      ge = ground arith
  after_send-last n detail delivered rest e l = absurd (ground (arith, e))
  after_send-last n detail permanent rest e l = absurd (ground (arith, e))

  pub after_send-stopped :
      (n : ℕ) (detail : String) (kind : DeliveryKind) (rest : Outcome)
      → kind ≡ transient
      → n < cfg.max_retries
      → shutdown n ≡ true
      → after_send cfg send shutdown consec n detail kind rest ≡ failed consec n "shutdown"
  unfolding after_send
  after_send-stopped n detail transient rest e l s = rw (lt, s) refl
    where
      lt : ltb n cfg.max_retries ≡ true
      lt = ground arith
  after_send-stopped n detail delivered rest e l s = absurd (ground (arith, e))
  after_send-stopped n detail permanent rest e l s = absurd (ground (arith, e))
