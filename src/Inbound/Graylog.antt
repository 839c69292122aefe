-- ===== src/Inbound/Graylog.antt =====
-- internal/inbound/adapters/graylog.go. `calls` is `encoding/json`'s reading of the payload and of the
-- settings (those that cannot be read count as empty), and the text of a number.
pub mod Normal
use prm.Prelude.{
  ℕ, ℤ, pos, negsuc, suc, zero, String, Option, none, some, if◌then◌else◌, ◌==◌, ◌&&◌, string_eq,
  insert, Result, ok, err, nat_eq,
}
use prm.Channels.{Time}
use prm.Storage.{Bytes}
use prm.Inbound.{
  Event, AdapterError, bad_input, missing, Headers, Texts, truncate, normalize_severity,
  severity_info, severity_warn, severity_error,
}
use prm.Inbound.Values.{Members, text_member, put_members, put_text, Fields, no_fields, number}

pub record Inner : Type 0 where
  pub timestamp : Time
  pub message : String
  pub fields : Members
  pub priority : ℤ

pub record Payload : Type 0 where
  pub event_definition_id : String
  pub event_definition_type : String
  pub event_definition_title : String
  pub event : Inner

pub record Calls : Type 0 where
  pub texts : Texts
  pub read_payload : Bytes → Option Payload
  -- `service_field`
  pub read_settings : Bytes → String
  pub show_int : ℤ → String

unfoldable pub priority_severity : ℤ → String
priority_severity (pos n) =
    if n == 1
    then severity_info
    else if n == 2
    then severity_warn
    else if n == 3
    then severity_error
    else severity_warn
priority_severity (negsuc n) = severity_warn

fields_of : Calls → Payload → Fields
fields_of calls p = insert "priority" (number (calls.show_int p.event.priority)) (
    put_text "event_definition_title" p.event_definition_title (
      put_text "event_definition_type" p.event_definition_type (
        put_text "event_definition_id" p.event_definition_id
          (put_members p.event.fields no_fields))))

event_of : Calls → Payload → String → Bytes → Time → Event
unfolding fields_of
event_of calls p service_field body now = record {
  source = "graylog";
  service =
      elim (text_member (if service_field == "" then "service" else service_field) p.event.fields) [
        | none ↦ ""
        | some v ↦ v
      ];
  severity = elim (text_member "level" p.event.fields) [
    | none ↦ priority_severity p.event.priority
    | some v ↦ normalize_severity calls.texts v
  ];
  summary =
      truncate (if p.event.message == "" then p.event_definition_title else p.event.message) 200;
  fields = fields_of calls p;
  occurred_at = if p.event.timestamp == 0 then now else p.event.timestamp;
  raw = body;
}

read : Calls → Option Payload → Bytes → Bytes → Time → Result AdapterError Event
unfolding event_of
read calls none body settings now = err bad_input
read calls (some p) body settings now =
    if p.event.message == "" && p.event_definition_title == ""
    then err missing
    else ok (event_of calls p (calls.read_settings settings) body now)

unfoldable pub normalize : Calls → Bytes → Headers → Bytes → Time → Result AdapterError Event
unfolding read
normalize calls body headers settings now = read calls (calls.read_payload body) body settings now
