-- ===== src/Inbound/Bounds.antt =====
-- The summary of an event is at most 200 characters long, its severity one of four.
use Prim.Native.String.{[], ◌∷◌, ◌++◌, len}
use Prim.Native.String.len as len_laws
use Prim.Native.String.append
use native.Mathlib.Omega.{arith}
use text.Mathlib.TextPositions.{len_utf8-pos}
use prm.Prelude.{
  ℕ, zero, suc, ◌+◌, ◌≤◌, ◌≡◌, refl, ap, ◌⊎◌, inl, inr, String, Bool, true, false, leb,
  if◌then◌else◌, nat_eq, ok,
}
use prm.Channels.{Time}
use prm.Storage.{Bytes}
use prm.Inbound.{
  Event, Headers, Normalize, Texts, runes, first_runes, truncate, normalize_severity, bucket,
  severity_info, severity_warn, severity_error, severity_critical,
}

runes-le-len : (s : String) → runes s ≤ len s
runes-le-len [] = omega arith
runes-le-len (c ∷ s) =
    let (k, e) = len_utf8-pos c in omega (arith, len_laws.cons c s, e, runes-le-len s)

runes-append : (s t : String) → runes (s ++ t) ≡ runes s + runes t
runes-append [] t = omega (arith, ap runes (append.nil t))
runes-append (c ∷ s) t = omega (arith, ap runes (append.cons c s t), runes-append s t)

runes-first_runes : (n : ℕ) (s : String) → runes (first_runes n s) ≤ n
runes-first_runes zero s = omega arith
runes-first_runes (suc n) [] = omega arith
runes-first_runes (suc n) (c ∷ s) = omega (arith, runes-first_runes n s)

-- A text that is cut at 200 has at most 200 characters.
pub runes-truncate : (s : String) → runes (truncate s 200) ≤ 200
unfolding truncate
runes-truncate s = by_len (leb (len s) 200) refl
  where
    by_runes :
        (b : Bool)
        → leb (runes s) 200 ≡ b
        → runes (if b then s else first_runes 197 s ++ "...") ≤ 200
    by_runes true e = ground (arith, e)
    by_runes false e =
        omega (arith, runes-append (first_runes 197 s) "...", runes-first_runes 197 s)

    by_len :
        (b : Bool)
        → leb (len s) 200 ≡ b
        → runes (if b then s else if leb (runes s) 200 then s else first_runes 197 s ++ "...") ≤ 200
    by_len true e = ground (arith, e, runes-le-len s)
    by_len false e = by_runes (leb (runes s) 200) refl

-- One of the four canonical severities.
abbrev pub IsCanonical : String → Type 0
IsCanonical s =
    (s ≡ severity_info) ⊎ (s ≡ severity_warn) ⊎ (s ≡ severity_error) ⊎ (s ≡ severity_critical)

pub IsCanonical-if :
    (b : Bool) (s t : String) → IsCanonical s → IsCanonical t → IsCanonical (if b then s else t)
IsCanonical-if true s t p q = p
IsCanonical-if false s t p q = q

pub info-IsCanonical : IsCanonical severity_info
info-IsCanonical = inl refl

pub warn-IsCanonical : IsCanonical severity_warn
warn-IsCanonical = inr (inl refl)

pub error-IsCanonical : IsCanonical severity_error
error-IsCanonical = inr (inr (inl refl))

pub critical-IsCanonical : IsCanonical severity_critical
critical-IsCanonical = inr (inr (inr refl))

pub normalize_severity-IsCanonical :
    (texts : Texts) (raw : String) → IsCanonical (normalize_severity texts raw)
unfolding normalize_severity bucket
normalize_severity-IsCanonical texts raw = IsCanonical-if _ _ _ info-IsCanonical (
    IsCanonical-if _ _ _ warn-IsCanonical (
      IsCanonical-if _ _ _ error-IsCanonical
        (IsCanonical-if _ _ _ critical-IsCanonical warn-IsCanonical)))

-- The event names its adapter, its summary is short, and its severity is one of the four; the generic
-- adapter may leave it open.
abbrev pub IsNormal : String → Event → Type 0
IsNormal name ev =
    (ev.source ≡ name) × (runes ev.summary ≤ 200) × (IsCanonical ev.severity ⊎ (ev.severity ≡ ""))

-- Whatever the adapter answers is normal.
abbrev pub Normalizes : String → Normalize → Type 0
Normalizes name normalize =
    (body : Bytes) (headers : Headers) (settings : Bytes) (now : Time) (ev : Event)
    → normalize body headers settings now ≡ ok ev
    → IsNormal name ev
