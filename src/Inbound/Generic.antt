-- ===== src/Inbound/Generic.antt =====
-- internal/inbound/adapters/generic.go. `calls` is `encoding/json`'s reading of the body and of the
-- settings, `%v`, `strings.Split` at dots after the "$.", and `time.Parse`. A path's index is a number
-- without bound here: one that does not fit an `int` is not modelled.
pub mod Normal
use Prim.Native.Char.{code}
use Prim.Native.String
use Prim.Native.String.{[], ◌∷◌}
use prm.Prelude.{
  ℕ, ◌+◌, ◌-◌, ◌*◌, String, Bool, ◌&&◌, leb, List, Option, none, some, if◌then◌else◌, ◌==◌,
  string_eq, Assoc, insert, lookup, Result, ok, err,
}
use prm.Channels.{Time}
use prm.Storage.{Bytes}
use prm.Inbound.{
  Event, AdapterError, bad_input, missing, Headers, Texts, truncate, normalize_severity,
}
use prm.Inbound.Values.{
  Json, null, text, object, array, bool, number, get_member, get_item, put_members, Fields,
  no_fields,
}

pub record Settings : Type 0 where
  pub service_path : String
  pub severity_path : String
  pub summary_path : String
  pub occurred_at_path : String
  pub severity_map : Assoc String String
  pub include_raw : Bool

pub record Calls : Type 0 where
  pub texts : Texts
  pub read_body : Bytes → Option Json
  -- Empty settings are the zero value; `none` where they cannot be read.
  pub read_settings : Bytes → Option Settings
  pub sprint : Json → String
  -- The parts of a path after its "$.", if it begins so.
  pub parts : String → Option (List String)
  pub parse_time : String → Option Time

digits : ℕ → String → Option ℕ
digits n [] = some n
digits n (c ∷ s) =
    let rest = digits (n * 10 + (code c - 48)) s in
    if leb 48 (code c) && leb (code c) 57 then rest else none

unfoldable pub parse_uint : String → Option ℕ
unfolding digits
parse_uint s = digits 0 s

item_at : Json → Option ℕ → Option Json
item_at (array items) (some i) = get_item i items
item_at v i = none

-- One part of a path; a missing key is nil, as is what lies below it.
step : Json → String → Option Json
unfolding item_at
step (object m) p = get_member p m
step (array items) p = item_at (array items) (parse_uint p)
step v p = none

walk : Option Json → List String → Option Json
unfolding step
walk v List.[] = v
walk none (List.◌∷◌ p ps) = none
walk (some v) (List.◌∷◌ p ps) = walk (step v p) ps

along : Json → Option (List String) → Option Json
along root none = none
along root (some ps) = walk (some root) ps

unfoldable pub path_lookup : Calls → Json → String → Option Json
unfolding walk along
path_lookup calls root path =
    if path == ""
    then some root
    else if path == "$"
    then some root
    else along root (calls.parts path)

shown : Calls → Option Json → String
shown calls none = ""
shown calls (some null) = ""
shown calls (some (text s)) = s
shown calls (some v) = calls.sprint v

unfoldable pub path_to_string : Calls → Json → String → String
unfolding shown
path_to_string calls root path = shown calls (path_lookup calls root path)

mapped : Calls → Settings → String → String
mapped calls s raw = elim (lookup raw s.severity_map) [
  | none ↦ normalize_severity calls.texts raw
  | some m ↦ normalize_severity calls.texts m
]

or_now : Option Time → Time → Time
or_now none now = now
or_now (some t) now = t

occurred : Calls → Settings → Json → Time → Time
unfolding or_now
occurred calls s root now =
    if s.occurred_at_path == ""
    then now
    else let str = path_to_string calls root s.occurred_at_path in
      if str == "" then now else or_now (calls.parse_time str) now

fields_of : Json → Fields
fields_of (object m) = put_members m no_fields
fields_of root = insert "body" root no_fields

event_of : Calls → Settings → Json → String → Bytes → Time → Event
unfolding mapped occurred fields_of
event_of calls s root summary body now = record {
  source = "generic";
  service = if s.service_path == "" then "" else path_to_string calls root s.service_path;
  severity =
      if s.severity_path == ""
      then ""
      else mapped calls s (path_to_string calls root s.severity_path);
  summary = truncate summary 200;
  fields = fields_of root;
  occurred_at = occurred calls s root now;
  raw = if s.include_raw then body else List.[];
}

read_root : Calls → Settings → Option Json → Bytes → Time → Result AdapterError Event
unfolding event_of
read_root calls s none body now = err bad_input
read_root calls s (some root) body now =
    let summary = path_to_string calls root s.summary_path in
    if summary == "" then err missing else ok (event_of calls s root summary body now)

read : Calls → Option Settings → Bytes → Time → Result AdapterError Event
unfolding read_root
read calls none body now = err bad_input
read calls (some s) body now =
    if s.summary_path == "" then err missing else read_root calls s (calls.read_body body) body now

unfoldable pub normalize : Calls → Bytes → Headers → Bytes → Time → Result AdapterError Event
unfolding read
normalize calls body headers settings now = read calls (calls.read_settings settings) body now
