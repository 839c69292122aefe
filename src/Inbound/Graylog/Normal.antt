-- ===== src/Inbound/Graylog/Normal.antt =====
-- The events of the Graylog adapter are normal.
use native.Mathlib.Omega.{arith}
use prm.Prelude.{
  ◌≡◌, inl, refl, subst, String, Option, none, some, ◌==◌, ◌&&◌, string_eq, ok, if-ok, ℤ, pos,
  negsuc, nat_eq,
}
use prm.Channels.{Time}
use prm.Storage.{Bytes}
use prm.Inbound.{Event, missing, Texts, normalize_severity}
use prm.Inbound.Bounds.{
  IsCanonical, IsNormal, Normalizes, runes-truncate, normalize_severity-IsCanonical, IsCanonical-if,
  info-IsCanonical, warn-IsCanonical, error-IsCanonical,
}
use prm.Inbound.Graylog.{Calls, Payload, priority_severity, event_of, read, normalize}

severity : (p : ℤ) → IsCanonical (priority_severity p)
unfolding priority_severity
severity (pos n) = IsCanonical-if _ _ _ info-IsCanonical (
    IsCanonical-if _ _ _ warn-IsCanonical (IsCanonical-if _ _ _ error-IsCanonical warn-IsCanonical))
severity (negsuc n) = warn-IsCanonical

level :
    (texts : Texts) (p : ℤ) (o : Option String)
    → IsCanonical (elim o [ none ↦ priority_severity p | some v ↦ normalize_severity texts v ])
level texts p none = severity p
level texts p (some v) = normalize_severity-IsCanonical texts v

event :
    (calls : Calls) (p : Payload) (service : String) (body : Bytes) (now : Time)
    → IsNormal "graylog" (event_of calls p service body now)
unfolding event_of
event calls p service body now =
    (refl, runes-truncate _, inl (level calls.texts p.event.priority _))

read-IsNormal :
    (calls : Calls) (o : Option Payload) (body settings : Bytes) (now : Time) (ev : Event)
    → read calls o body settings now ≡ ok ev
    → IsNormal "graylog" ev
unfolding read
read-IsNormal calls none body settings now ev e = absurd (ground (arith, e))
read-IsNormal calls (some p) body settings now ev e =
    subst (IsNormal "graylog")
      (if-ok (p.event.message == "" && p.event_definition_title == "") missing e)
      (event calls p (calls.read_settings settings) body now)

pub normalize-Normalizes : (calls : Calls) → Normalizes "graylog" (normalize calls)
unfolding normalize
normalize-Normalizes calls body headers settings now =
    read-IsNormal calls (calls.read_payload body) body settings now
