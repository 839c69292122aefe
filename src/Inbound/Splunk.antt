-- ===== src/Inbound/Splunk.antt =====
-- internal/inbound/adapters/splunk.go. `calls` is `encoding/json`'s reading of the payload and of the
-- settings, `%v`, and the
-- bytes of a text, which are valid UTF-8; settings that cannot be read count as empty.
pub mod Normal
use Prim.Native.String.{◌++◌}
use prm.Prelude.{
  ℕ, ◌+◌, List, [], ◌∷◌, ltb, leb, ◌&&◌, String, Bool, true, false, ◌||◌, Option, none, some,
  if◌then◌else◌, ◌==◌, string_eq, Assoc, insert, Result, ok, err, is_empty,
}
use prm.Channels.{Time}
use prm.Proto.Search.{bytes_contains}
use prm.Storage.{Bytes}
use prm.Inbound.{
  Event, AdapterError, bad_input, missing, Headers, Texts, truncate, normalize_severity,
  severity_info, severity_warn, severity_error, severity_critical,
}
use prm.Inbound.Values.{
  Json, Members, get_member, text, text_member, put_members, put_text, Fields, no_fields,
}

pub record Payload : Type 0 where
  pub sid : String
  pub search_name : String
  pub app : String
  pub owner : String
  pub results_link : String
  pub result : Members

-- `SummaryFmt` is never read.
pub record Settings : Type 0 where
  pub service_field : String
  pub severity_field : String

pub record Calls : Type 0 where
  pub texts : Texts
  pub read_payload : Bytes → Option Payload
  pub read_settings : Bytes → Settings
  pub utf8 : String → Bytes
  pub sprint : Json → String

-- `toLower` visits the first byte of each character: the others stay zero.
lower_byte : ℕ → ℕ
lower_byte c = if leb 65 c && leb c 90 then c + 32 else if leb 128 c && ltb c 192 then 0 else c

to_lower : Bytes → Bytes
unfolding lower_byte
to_lower [] = []
to_lower (c ∷ s) = lower_byte c ∷ to_lower s

contains : Calls → Bytes → String → Bool
contains calls low needle = bytes_contains low (calls.utf8 needle)

contains_any : Calls → Bytes → List String → Bool
unfolding contains
contains_any calls low [] = false
contains_any calls low (needle ∷ needles) =
    contains calls low needle || contains_any calls low needles

unfoldable pub derive_severity : Calls → String → String
unfolding contains_any to_lower
derive_severity calls name =
    let low = to_lower (calls.utf8 name) in
    if contains_any calls low ("critical" ∷ "fatal" ∷ "outage" ∷ "down" ∷ [])
    then severity_critical
    else if contains_any calls low ("error" ∷ "5xx" ∷ "failure" ∷ [])
    then severity_error
    else if contains_any calls low ("warn" ∷ "anomaly" ∷ "spike" ∷ [])
    then severity_warn
    else severity_info

-- The severity field where it is set and holds a text.
from_field : Calls → Payload → String → Option String
from_field calls p field = if field == "" then none else elim (text_member field p.result) [
  | none ↦ none
  | some v ↦ some (normalize_severity calls.texts v)
]

severity_of : Calls → Payload → Option String → String
severity_of calls p none = derive_severity calls p.search_name
severity_of calls p (some s) = if s == "" then derive_severity calls p.search_name else s

summary_of : Calls → Payload → String
summary_of calls p = elim (get_member "count" p.result) [
  | none ↦ p.search_name
  | some v ↦ p.search_name ++ " (count=" ++ calls.sprint v ++ ")"
]

fields_of : Payload → Fields
fields_of p = put_text "results_link" p.results_link (
    put_text "owner" p.owner
      (put_text "app" p.app (put_text "sid" p.sid (put_members p.result no_fields))))

event_of : Calls → Payload → Settings → Bytes → Time → Event
unfolding severity_of from_field summary_of fields_of
event_of calls p s body now = record {
  source = "splunk";
  service =
      elim (text_member (if s.service_field == "" then "service" else s.service_field) p.result) [
        | none ↦ ""
        | some v ↦ v
      ];
  severity = severity_of calls p (from_field calls p s.severity_field);
  summary = truncate (summary_of calls p) 200;
  fields = fields_of p;
  occurred_at = now;
  raw = body;
}

unfoldable pub read : Calls → Option Payload → Bytes → Bytes → Time → Result AdapterError Event
unfolding event_of
read calls none body settings now = err bad_input
read calls (some p) body settings now =
    if p.search_name == ""
    then err missing
    else ok (event_of calls p (calls.read_settings settings) body now)

unfoldable pub normalize : Calls → Bytes → Headers → Bytes → Time → Result AdapterError Event
unfolding read
normalize calls body headers settings now = read calls (calls.read_payload body) body settings now
