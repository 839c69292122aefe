-- ===== src/Webhook/Worker/Tests.antt =====
-- Deliveries that succeed, fail for good and fail throughout, at the default settings.
use prm.Prelude.{
  nat_eq, ℕ, ◌≡◌, refl, Bool, true, false, none, [], ◌++◌, leb, lookup, if◌then◌else◌,
}
use Prim.Native.String.{◌++◌ as concat}
use native.Mathlib.Omega.{arith}
use prm.Webhook.Manager.{Manager, new_manager, add_live}
use prm.Webhook.Manager.Index.{IsIndexed, IsIndexed-new_manager, add_live-IsIndexed}
use prm.Webhook.Worker.{
  Config, DeliveryKind, delivered, transient, permanent, DeliveryResult, Outcome, failed,
  deliver_attempts, finish,
}
use prm.Webhook.Worker.Attempts.{delays, after_waits}
use prm.Webhook.Worker.Retries.{
  IsRetried, deliver_attempts-delivered, deliver_attempts-permanent, deliver_attempts-exhausted,
}
use prm.Webhook.Worker.Disabling.{finish-IsIndexed, finish-disables}
use prm.Samples.{rows, live_sub}

abbrev settings : Config
settings = record {
  workers = 16;
  queue_depth = 1024;
  http_timeout = 5_000_000_000;
  max_retries = 3;
  auto_disable_4xx = 5;
}

-- The first attempt is refused for the time being, the others end as `kind`.
abbrev second : DeliveryKind → ℕ → DeliveryResult
second kind n = record {
  kind = if leb n 1 then transient else kind;
  status_detail = "detail";
  error = none;
}

abbrev running : ℕ → Bool
running n = false

one_retry : (kind : DeliveryKind) → IsRetried settings (second kind) running 4 1 1
one_retry kind = record {
  fails = λ j l h. let first : leb j 1 ≡ true = ground arith in rw first refl;
  goes_on = λ j l h. refl;
}

deliver_attempts-delivered_example :
    deliver_attempts settings (second delivered) running 4 ≡ record {
      status = "ok";
      attempts = 2;
      last_error = "detail";
      consec_4xx = 0;
      disable = false;
      waits = delays 1 1 ++ [];
    }
deliver_attempts-delivered_example =
    deliver_attempts-delivered settings (second delivered) running 4 1 (omega arith)
      (one_retry delivered) refl

deliver_attempts-permanent_example :
    deliver_attempts settings (second permanent) running 4 ≡ record {
      status = "dropped_4xx";
      attempts = 2;
      last_error = "detail";
      consec_4xx = 5;
      disable = true;
      waits = delays 1 1 ++ [];
    }
deliver_attempts-permanent_example =
    deliver_attempts-permanent settings (second permanent) running 4 1 (omega arith)
      (one_retry permanent) refl

abbrev busy : ℕ → DeliveryResult
busy n = record { kind = transient; status_detail = "busy"; error = none }

deliver_attempts-exhausted_example :
    deliver_attempts settings busy running 4
    ≡ after_waits (delays 1 2) (failed 4 3 (concat "last error: " "busy"))
deliver_attempts-exhausted_example =
    deliver_attempts-exhausted settings busy running 4 2 refl
      (record { fails = λ j l h. refl; goes_on = λ j l h. refl }) refl

abbrev cached : Manager
cached = add_live new_manager live_sub

cached-IsIndexed : IsIndexed cached
cached-IsIndexed = add_live-IsIndexed new_manager live_sub IsIndexed-new_manager

abbrev refusal : Outcome
refusal = record {
  status = "dropped_4xx";
  attempts = 1;
  last_error = "";
  consec_4xx = 5;
  disable = true;
  waits = [];
}

finish-IsIndexed_example : IsIndexed (finish rows 9 tt cached live_sub refusal).1
finish-IsIndexed_example = finish-IsIndexed rows 9 tt cached live_sub refusal cached-IsIndexed

finish-disables_example : lookup 40 (finish rows 9 tt cached live_sub refusal).1.subs ≡ none
finish-disables_example = finish-disables rows 9 tt cached live_sub refusal refl
