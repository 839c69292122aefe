-- ===== src/Inbound/Github/Normal.antt =====
-- The events of the Github adapter are normal.
use native.Mathlib.Omega.{arith}
use prm.Prelude.{
  ◌≡◌, inl, refl, subst, String, Bool, true, false, Option, none, some, ◌==◌, string_eq,
  if◌then◌else◌, ok, err, ok_inj, nat_eq,
}
use prm.Channels.{Time}
use prm.Storage.{Bytes}
use prm.Inbound.{Event, missing}
use prm.Inbound.Bounds.{
  IsCanonical, IsNormal, Normalizes, runes-truncate, IsCanonical-if, info-IsCanonical,
  warn-IsCanonical, error-IsCanonical,
}
use prm.Inbound.Values.{Members}
use prm.Inbound.Github.{
  Calls, Details, event_details, pushed, pull_request, deployment_status, issues, release, event_of,
  read, normalize,
}

module _ (calls : Calls) (p : Members) where
  deployed : IsCanonical (deployment_status calls p).severity
  unfolding deployment_status
  deployed =
      IsCanonical-if _ _ _ error-IsCanonical
        (IsCanonical-if _ _ _ info-IsCanonical warn-IsCanonical)

  either :
      (b : Bool) (x y : Details)
      → IsCanonical x.severity
      → IsCanonical y.severity
      → IsCanonical (if b then x else y).severity
  either true x y p q = p
  either false x y p q = q

  severity : (event : String) → IsCanonical (event_details calls p event).severity
  unfolding event_details pushed pull_request issues release
  severity event = either (event == "push") _ _ info-IsCanonical (
      either (event == "pull_request") _ _ info-IsCanonical (
        either (event == "deployment_status") _ _ deployed (
          either (event == "issues") _ _ info-IsCanonical
            (either (event == "release") _ _ info-IsCanonical info-IsCanonical))))

  event_lem :
      (event : String) (body : Bytes) (now : Time)
      → IsNormal "github" (event_of calls p event body now)
  unfolding event_of
  event_lem event body now = (refl, runes-truncate _, inl (severity event))

read-IsNormal :
    (calls : Calls) (event : String) (o : Option Members) (body : Bytes) (now : Time) (ev : Event)
    → read calls event o body now ≡ ok ev
    → IsNormal "github" ev
unfolding read
read-IsNormal calls event none body now ev e = absurd (ground (arith, e))
read-IsNormal calls event (some p) body now ev e =
    subst (IsNormal "github") (ok_inj e) (event_lem calls p event body now)

pub normalize-Normalizes : (calls : Calls) → Normalizes "github" (normalize calls)
unfolding normalize
normalize-Normalizes calls body headers settings now ev = by_test (headers "X-GitHub-Event" == "")
  where
    by_test :
        (b : Bool)
        → (if b
            then err missing
            else read calls (headers "X-GitHub-Event") (calls.read_object body) body now)
          ≡ ok ev
        → IsNormal "github" ev
    by_test true e = absurd (ground (arith, e))
    by_test false e =
        read-IsNormal calls (headers "X-GitHub-Event") (calls.read_object body) body now ev e
