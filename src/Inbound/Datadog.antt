-- ===== src/Inbound/Datadog.antt =====
-- internal/inbound/adapters/datadog.go. `calls` is `encoding/json`'s reading of the payload and of the
-- settings (those that cannot be read count as empty), and the time that an RFC 3339 text names.
pub mod Normal
use Prim.Native.Char.{Char}
use Prim.Native.String
use Prim.Native.String.{[], ◌∷◌, ◌++◌}
use prm.Prelude.{
  ℕ, List, String, Bool, Option, none, some, if◌then◌else◌, ◌==◌, string_eq, Assoc, insert, lookup,
  Result, ok, err,
}
use prm.Channels.{Time}
use prm.Storage.{Bytes}
use prm.Inbound.{
  Event, AdapterError, bad_input, missing, Headers, truncate, severity_info, severity_warn,
  severity_error,
}
use prm.Inbound.Values.{
  Json, Members, no_members, member, text, object, put_text, Fields, no_fields,
}

pub record Payload : Type 0 where
  pub id : String
  pub alert_type : String
  pub alert_title : String
  pub title : String
  pub body : String
  pub date : String
  pub event_msg : String
  pub event_type : String
  pub hostname : String
  pub tags : String
  pub org_name : String
  pub link : String

pub record Calls : Type 0 where
  pub read_payload : Bytes → Option Payload
  -- `service_tag`
  pub read_settings : Bytes → String
  pub parse_time : String → Option Time

unfoldable pub alert_type_severity : String → String
alert_type_severity t =
    if t == "error"
    then severity_error
    else if t == "warning"
    then severity_warn
    else if t == "success"
    then severity_info
    else if t == "info"
    then severity_info
    else severity_warn

-- The texts before and after the first place of a character, if it is there.
cut : Char → String → Option (String × String)
cut sign [] = none
cut sign (c ∷ s) =
    let rest = cut sign s in
    if c ∷ "" == sign ∷ ""
    then some ("", s)
    else elim rest [ none ↦ none | some (a, b) ↦ some (c ∷ a, b) ]

unfoldable pub first_line : String → String
unfolding cut
first_line s = elim (cut "\n" s) [ none ↦ s | some (a, b) ↦ a ]

abbrev Tags : Type 0
Tags = Assoc String String

-- A pair without a colon is skipped; an empty one has none.
put_tag : Option (String × String) → Tags → Tags
put_tag none tags = tags
put_tag (some (k, v)) tags = insert k v tags

-- The rest of the tags, with the pair so far.
split_tags : String → String → Tags → Tags
unfolding put_tag cut
split_tags pair [] tags = put_tag (cut ":" pair) tags
split_tags pair (c ∷ s) tags =
    let next = split_tags "" s (put_tag (cut ":" pair) tags) in
    let more = split_tags (pair ++ (c ∷ "")) s tags in if c ∷ "" == "," then next else more

unfoldable pub parse_tags : String → Tags
unfolding split_tags
parse_tags tags = split_tags "" tags List.[]

-- The first of the four that is not empty.
summary_of : Payload → String
summary_of p =
    if p.title == ""
    then (if p.alert_title == ""
        then (if p.event_msg == "" then first_line p.body else p.event_msg)
        else p.alert_title)
    else p.title

tag_members : Tags → Members
tag_members List.[] = no_members
tag_members (List.◌∷◌ (k, v) tags) = member k (text v) (tag_members tags)

fields_of : Payload → Tags → Fields
unfolding tag_members
fields_of p tags = put_text "link" p.link (
    put_text "org_name" p.org_name (
      insert "event_id" (text p.id) (
        insert "tags" (object (tag_members tags)) (
          insert "hostname" (text p.hostname) (
            insert "event_type" (text p.event_type)
              (insert "alert_type" (text p.alert_type) no_fields))))))

or_now : Option Time → Time → Time
or_now none now = now
or_now (some t) now = t

or_empty : Option String → String
or_empty none = ""
or_empty (some v) = v

event_of : Calls → Payload → String → String → Bytes → Time → Event
unfolding fields_of or_now or_empty
event_of calls p summary service_tag body now =
    let tags = parse_tags p.tags in
    record {
      source = "datadog";
      service = or_empty (lookup (if service_tag == "" then "service" else service_tag) tags);
      severity = alert_type_severity p.alert_type;
      summary = truncate summary 200;
      fields = fields_of p tags;
      occurred_at = if p.date == "" then now else or_now (calls.parse_time p.date) now;
      raw = body;
    }

read : Calls → Option Payload → Bytes → Bytes → Time → Result AdapterError Event
unfolding event_of summary_of
read calls none body settings now = err bad_input
read calls (some p) body settings now =
    if summary_of p == ""
    then err missing
    else ok (event_of calls p (summary_of p) (calls.read_settings settings) body now)

unfoldable pub normalize : Calls → Bytes → Headers → Bytes → Time → Result AdapterError Event
unfolding read
normalize calls body headers settings now = read calls (calls.read_payload body) body settings now
