-- ===== src/Inbound/Datadog/Normal.antt =====
-- The events of the Datadog adapter are normal.
use native.Mathlib.Omega.{arith}
use prm.Prelude.{
  ◌≡◌, inl, refl, subst, String, Option, none, some, ◌==◌, string_eq, ok, if-ok, nat_eq,
}
use prm.Channels.{Time}
use prm.Storage.{Bytes}
use prm.Inbound.{Event, missing}
use prm.Inbound.Bounds.{
  IsCanonical, IsNormal, Normalizes, runes-truncate, IsCanonical-if, info-IsCanonical,
  warn-IsCanonical, error-IsCanonical,
}
use prm.Inbound.Datadog.{Calls, Payload, alert_type_severity, event_of, summary_of, read, normalize}

severity : (t : String) → IsCanonical (alert_type_severity t)
unfolding alert_type_severity
severity t = IsCanonical-if _ _ _ error-IsCanonical (
    IsCanonical-if _ _ _ warn-IsCanonical (
      IsCanonical-if _ _ _ info-IsCanonical
        (IsCanonical-if _ _ _ info-IsCanonical warn-IsCanonical)))

event :
    (calls : Calls) (p : Payload) (summary tag : String) (body : Bytes) (now : Time)
    → IsNormal "datadog" (event_of calls p summary tag body now)
unfolding event_of
event calls p summary tag body now = (refl, runes-truncate summary, inl (severity p.alert_type))

read-IsNormal :
    (calls : Calls) (o : Option Payload) (body settings : Bytes) (now : Time) (ev : Event)
    → read calls o body settings now ≡ ok ev
    → IsNormal "datadog" ev
unfolding read
read-IsNormal calls none body settings now ev e = absurd (ground (arith, e))
read-IsNormal calls (some p) body settings now ev e =
    subst (IsNormal "datadog") (if-ok (summary_of p == "") missing e)
      (event calls p (summary_of p) (calls.read_settings settings) body now)

pub normalize-Normalizes : (calls : Calls) → Normalizes "datadog" (normalize calls)
unfolding normalize
normalize-Normalizes calls body headers settings now =
    read-IsNormal calls (calls.read_payload body) body settings now
