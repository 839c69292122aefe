-- ===== src/Inbound/Splunk/Normal.antt =====
-- The events of the Splunk adapter are normal.
use native.Mathlib.Omega.{arith}
use prm.Prelude.{
  ◌≡◌, inl, refl, subst, String, Bool, true, false, Option, none, some, ◌==◌, string_eq,
  if◌then◌else◌, ok, if-ok, nat_eq,
}
use prm.Channels.{Time}
use prm.Storage.{Bytes}
use prm.Inbound.{Event, missing, normalize_severity}
use prm.Inbound.Bounds.{
  IsCanonical, IsNormal, Normalizes, runes-truncate, normalize_severity-IsCanonical, IsCanonical-if,
  info-IsCanonical, warn-IsCanonical, error-IsCanonical, critical-IsCanonical,
}
use prm.Inbound.Values.{text_member}
use prm.Inbound.Splunk.{
  Calls, Payload, Settings, derive_severity, from_field, severity_of, event_of, read, normalize,
}

derived : (calls : Calls) (name : String) → IsCanonical (derive_severity calls name)
unfolding derive_severity
derived calls name = IsCanonical-if _ _ _ critical-IsCanonical (
    IsCanonical-if _ _ _ error-IsCanonical (IsCanonical-if _ _ _ warn-IsCanonical info-IsCanonical))

-- What a severity field holds is normalised.
Normal : Option String → Type 0
Normal none = Unit
Normal (some s) = IsCanonical s

field : (calls : Calls) (p : Payload) (name : String) → Normal (from_field calls p name)
unfolding from_field Normal
field calls p name = by_test (name == "")
  where
    by_text :
        (o : Option String)
        → Normal (elim o [ none ↦ none | some v ↦ some (normalize_severity calls.texts v) ])
    by_text none = tt
    by_text (some v) = normalize_severity-IsCanonical calls.texts v

    by_test :
        (b : Bool)
        → Normal (
            if b then none else elim (text_member name p.result) [
              | none ↦ none
              | some v ↦ some (normalize_severity calls.texts v)
            ])
    by_test true = tt
    by_test false = by_text (text_member name p.result)

severity :
    (calls : Calls) (p : Payload) (o : Option String)
    → Normal o
    → IsCanonical (severity_of calls p o)
unfolding severity_of Normal
severity calls p none h = derived calls p.search_name
severity calls p (some s) h = IsCanonical-if (s == "") _ _ (derived calls p.search_name) h

event :
    (calls : Calls) (p : Payload) (s : Settings) (body : Bytes) (now : Time)
    → IsNormal "splunk" (event_of calls p s body now)
unfolding event_of
event calls p s body now =
    (refl, runes-truncate _, inl (severity calls p _ (field calls p s.severity_field)))

read-IsNormal :
    (calls : Calls) (o : Option Payload) (body settings : Bytes) (now : Time) (ev : Event)
    → read calls o body settings now ≡ ok ev
    → IsNormal "splunk" ev
unfolding read
read-IsNormal calls none body settings now ev e = absurd (ground (arith, e))
read-IsNormal calls (some p) body settings now ev e =
    subst (IsNormal "splunk") (if-ok (p.search_name == "") missing e)
      (event calls p (calls.read_settings settings) body now)

pub normalize-Normalizes : (calls : Calls) → Normalizes "splunk" (normalize calls)
unfolding normalize
normalize-Normalizes calls body headers settings now =
    read-IsNormal calls (calls.read_payload body) body settings now
