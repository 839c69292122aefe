-- ===== src/Inbound/Generic/Normal.antt =====
-- The events of the Generic adapter are normal.
use native.Mathlib.Omega.{arith}
use prm.Prelude.{
  ◌≡◌, ◌⊎◌, inl, inr, refl, subst, String, Bool, true, false, Option, none, some, ◌==◌, string_eq,
  if◌then◌else◌, ok, err, if-ok, nat_eq, lookup,
}
use prm.Channels.{Time}
use prm.Storage.{Bytes}
use prm.Inbound.{Event, missing, normalize_severity}
use prm.Inbound.Bounds.{
  IsCanonical, IsNormal, Normalizes, runes-truncate, normalize_severity-IsCanonical,
}
use prm.Inbound.Values.{Json}
use prm.Inbound.Generic.{
  Calls, Settings, path_to_string, mapped, event_of, read_root, read, normalize,
}

mapped-IsCanonical :
    (calls : Calls) (s : Settings) (raw : String) → IsCanonical (mapped calls s raw)
unfolding mapped
mapped-IsCanonical calls s raw = by_entry (lookup raw s.severity_map)
  where
    by_entry :
        (o : Option String)
        → IsCanonical (elim o [
          | none ↦ normalize_severity calls.texts raw
          | some m ↦ normalize_severity calls.texts m
        ])
    by_entry none = normalize_severity-IsCanonical calls.texts raw
    by_entry (some m) = normalize_severity-IsCanonical calls.texts m

open_or :
    (b : Bool) (s : String)
    → IsCanonical s
    → IsCanonical (if b then "" else s) ⊎ ((if b then "" else s) ≡ "")
open_or true s h = inr refl
open_or false s h = inl h

event :
    (calls : Calls) (s : Settings) (root : Json) (summary : String) (body : Bytes) (now : Time)
    → IsNormal "generic" (event_of calls s root summary body now)
unfolding event_of
event calls s root summary body now =
    (refl, runes-truncate summary, open_or (s.severity_path == "") _ (mapped-IsCanonical calls s _))

root-IsNormal :
    (calls : Calls) (s : Settings) (o : Option Json) (body : Bytes) (now : Time) (ev : Event)
    → read_root calls s o body now ≡ ok ev
    → IsNormal "generic" ev
unfolding read_root
root-IsNormal calls s none body now ev e = absurd (ground (arith, e))
root-IsNormal calls s (some root) body now ev e =
    subst (IsNormal "generic") (if-ok (path_to_string calls root s.summary_path == "") missing e)
      (event calls s root _ body now)

read-IsNormal :
    (calls : Calls) (o : Option Settings) (body : Bytes) (now : Time) (ev : Event)
    → read calls o body now ≡ ok ev
    → IsNormal "generic" ev
unfolding read
read-IsNormal calls none body now ev e = absurd (ground (arith, e))
read-IsNormal calls (some s) body now ev h = by_test (s.summary_path == "") h
  where
    by_test :
        (b : Bool)
        → (if b then err missing else read_root calls s (calls.read_body body) body now) ≡ ok ev
        → IsNormal "generic" ev
    by_test true e = absurd (ground (arith, e))
    by_test false e = root-IsNormal calls s (calls.read_body body) body now ev e

pub normalize-Normalizes : (calls : Calls) → Normalizes "generic" (normalize calls)
unfolding normalize
normalize-Normalizes calls body headers settings now =
    read-IsNormal calls (calls.read_settings settings) body now
