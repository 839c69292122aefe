-- ===== src/Inbound/Normal.antt =====
-- What every adapter that registers itself makes of a payload.
mod Tests
use native.Mathlib.Omega.{arith}
use prm.Prelude.{
  ◌≡◌, ◌≤◌, ◌⊎◌, inl, inr, refl, sym, ap, ◌∙◌, subst, String, Bool, true, false, Option, none, some,
  ◌==◌, ◌&&◌, ◌||◌, string_eq, if◌then◌else◌, Result, ok, err, ok_inj, if-ok, lookup, insert, ℕ, ℤ,
  pos, negsuc, nat_eq, [], lookup-insert,
}
use mathlib.Core.Option.{some_inj}
use prm.Channels.{Time}
use prm.Storage.{Bytes}
use prm.Inbound.{
  Event, AdapterError, Headers, Normalize, Adapters, register, lookup_adapter, adapter_unknown,
  runes, Texts, truncate, severity_info,
}
use prm.Inbound.Bounds.{
  IsNormal, Normalizes, IsCanonical, runes-truncate, normalize_severity-IsCanonical, IsCanonical-if,
  info-IsCanonical, warn-IsCanonical, error-IsCanonical, critical-IsCanonical,
}
use prm.Inbound.Datadog.Normal as DatadogNormal
use prm.Inbound.Generic.Normal as GenericNormal
use prm.Inbound.Github.Normal as GithubNormal
use prm.Inbound.Graylog.Normal as GraylogNormal
use prm.Inbound.Splunk.Normal as SplunkNormal
use prm.Inbound.Standard.{Calls, standard}

register-Normalizes :
    (adapters : Adapters) (n : String) (f : Normalize)
    → ((name : String) (g : Normalize) → lookup name adapters ≡ some g → Normalizes name g)
    → Normalizes n f
    → (name : String) (g : Normalize) → lookup name (register adapters n f) ≡ some g
    → Normalizes name g
unfolding register
register-Normalizes adapters n f old new name g e =
    by_test (n == name) refl (sym (lookup-insert n name f adapters) ∙ e)
  where
    by_test :
        (b : Bool)
        → (n == name) ≡ b
        → (if b then some f else lookup name adapters) ≡ some g
        → Normalizes name g
    by_test true h k =
        subst (λ m. Normalizes m g) ((string_eq.beq_iff n name).0 h)
          (subst (Normalizes n) (some_inj.0 k) new)
    by_test false h k = old name g k

lookup_adapter-Normalizes :
    (calls : Calls) (name : String) (g : Normalize)
    → lookup_adapter (standard calls) name ≡ ok g
    → Normalizes name g
unfolding lookup_adapter standard lookup
lookup_adapter-Normalizes calls name g e =
    register-Normalizes _ "splunk" _
      (register-Normalizes _ "graylog" _
        (register-Normalizes _ "github" _
          (register-Normalizes _ "generic" _
            (register-Normalizes [] "datadog" _ nothing
              (DatadogNormal.normalize-Normalizes calls.datadog))
            (GenericNormal.normalize-Normalizes calls.generic))
          (GithubNormal.normalize-Normalizes calls.github))
        (GraylogNormal.normalize-Normalizes calls.graylog))
      (SplunkNormal.normalize-Normalizes calls.splunk) name g (found _ e)
  where
    nothing : (n : String) (f : Normalize) → lookup n [] ≡ some f → Normalizes n f
    nothing n f h = absurd (ground (arith, h))

    found :
        (o : Option Normalize)
        → elim o [ none ↦ err adapter_unknown | some f ↦ ok f ] ≡ ok g
        → o ≡ some g
    found none h = absurd (ground (arith, h))
    found (some f) h = ap some (ok_inj h)

-- Whatever name an adapter that registers itself is looked up under, an event that it makes has that
-- name as its source, at most 200 characters of summary, and one of the four severities, or none at
-- all, as the generic adapter may leave it.
pub lookup_adapter-IsNormal :
    (calls : Calls) (name : String) (g : Normalize) (body : Bytes) (headers : Headers)
    (settings : Bytes) (now : Time) (ev : Event)
    → lookup_adapter (standard calls) name ≡ ok g
    → g body headers settings now ≡ ok ev
    → IsNormal name ev
lookup_adapter-IsNormal calls name g body headers settings now ev e =
    lookup_adapter-Normalizes calls name g e body headers settings now ev
