-- ===== src/Inbound.antt =====
-- internal/inbound/adapter.go: the event that every adapter makes, the registry of adapters, and the
-- helpers that the adapters share. Of `strings` the parameter `Texts` has `TrimSpace` and `ToLower`.
pub mod Values
pub mod Splunk
pub mod Graylog
pub mod Datadog
pub mod Generic
pub mod Github
pub mod Bounds
pub mod Standard
pub mod Normal
use Prim.Native.Char.{Char}
use Prim.Native.String
use Prim.Native.String.{[], ◌∷◌, ◌++◌}
use prm.Prelude.{
  ℕ, zero, suc, ◌-◌, String, Bool, ◌||◌, Option, none, some, ltb, leb, if◌then◌else◌, ◌==◌, nat_eq,
  string_eq, Assoc, insert, lookup, Result, ok, err,
}
use prm.Channels.{Time}
use prm.Storage.{Bytes}
use prm.Inbound.Values.{Fields}

-- `Event`; a zero `occurred_at` is an unset time.
pub record Event : Type 0 where
  pub source : String
  pub service : String
  pub severity : String
  pub summary : String
  pub fields : Fields
  pub occurred_at : Time
  pub raw : Bytes

-- `ErrAdapterUnknown`, `ErrAdapterBadInput`, `ErrAdapterMissing`, `ErrAdapterRateLimit`.
pub data AdapterError : Type 0 where
  adapter_unknown bad_input missing rate_limit : AdapterError

abbrev pub severity_info : String
severity_info = "info"

abbrev pub severity_warn : String
severity_warn = "warn"

abbrev pub severity_error : String
severity_error = "error"

abbrev pub severity_critical : String
severity_critical = "critical"

-- What `http.Header.Get` answers; an absent header is the empty text.
abbrev pub Headers : Type 0
Headers = String → String

-- `Normalize` of body, headers and settings, at a time.
abbrev pub Normalize : Type 0
Normalize = Bytes → Headers → Bytes → Time → Result AdapterError Event

abbrev pub Adapters : Type 0
Adapters = Assoc String Normalize

unfoldable pub register : Adapters → String → Normalize → Adapters
register registry name normalize = insert name normalize registry

unfoldable pub lookup_adapter : Adapters → String → Result AdapterError Normalize
lookup_adapter registry name = elim (lookup name registry) [
  | none ↦ err adapter_unknown
  | some normalize ↦ ok normalize
]

-- The number of runes.
abbrev pub runes : String → ℕ
runes [] = zero
runes (c ∷ s) = suc (runes s)

abbrev pub first_runes : ℕ → String → String
first_runes zero s = ""
first_runes (suc n) [] = ""
first_runes (suc n) (c ∷ s) = c ∷ first_runes n s

-- A text of at most `n` bytes has at most `n` runes. The adapters call it with 200.
unfoldable pub truncate : String → ℕ → String
truncate s n =
    if n == 0
    then s
    else if leb (String.len s) n
    then s
    else if leb (runes s) n
    then s
    else first_runes (n - 3) s ++ "..."

pub record Texts : Type 0 where
  pub trim_space : String → String
  pub to_lower : String → String

bucket : String → String
bucket s =
    if s == "info" || s == "informational" || s == "notice" || s == "low"
    then severity_info
    else if s == "warn" || s == "warning" || s == "medium"
    then severity_warn
    else if s == "err" || s == "error" || s == "high"
    then severity_error
    else if s == "crit" || s == "critical" || s == "fatal" || s == "emerg" || s == "emergency"
    then severity_critical
    else severity_warn

unfoldable pub normalize_severity : Texts → String → String
unfolding bucket
normalize_severity texts raw = bucket (texts.to_lower (texts.trim_space raw))
