-- ===== src/Inbound/Github.antt =====
-- internal/inbound/adapters/github.go. `calls` is `encoding/json`'s reading of the body as an object, and
-- `%v`, of a value or of nil, and the text of a number.
pub mod Normal
use Prim.Native.String.{◌++◌}
use prm.Prelude.{
  ℕ, String, Bool, true, false, ◌||◌, ◌&&◌, Option, none, some, List, if◌then◌else◌, ◌==◌,
  string_eq, insert, Result, ok, err,
}
use prm.Channels.{Time}
use prm.Storage.{Bytes}
use prm.Inbound.{
  Event, AdapterError, bad_input, missing, Headers, truncate, severity_info, severity_warn,
  severity_error,
}
use prm.Inbound.Values.{
  Json, Members, null, bool, number, text, array, object, get_member, text_member, count, Fields,
  no_fields,
}

pub record Calls : Type 0 where
  pub read_object : Bytes → Option Members
  pub sprint : Json → String
  pub show_nat : ℕ → String

or_empty : Option String → String
or_empty none = ""
or_empty (some s) = s

unfoldable pub string_field : Members → String → String
unfolding or_empty
string_field m k = or_empty (text_member k m)

-- `m[k].(map[string]any)`
object_of : Option Json → Option Members
object_of (some (object m)) = some m
object_of v = none

in_object : Option Members → String → Option Json
in_object none k = none
in_object (some m) k = get_member k m

unfoldable pub nested_any : Members → String → String → Option Json
unfolding object_of in_object
nested_any m k1 k2 = in_object (object_of (get_member k1 m)) k2

in_string : Option Members → String → String
in_string none k = ""
in_string (some m) k = string_field m k

unfoldable pub nested_string : Members → String → String → String
unfolding object_of in_string
nested_string m k1 k2 = in_string (object_of (get_member k1 m)) k2

is_true : Option Json → Bool
is_true (some (bool b)) = b
is_true v = false

unfoldable pub nested_bool : Members → String → String → Bool
unfolding is_true
nested_bool m k1 k2 = is_true (nested_any m k1 k2)

items_in : Option Json → ℕ
items_in (some (array items)) = count items
items_in v = 0

abbrev or_null : Option Json → Json
or_null none = null
or_null (some v) = v

-- Summary, severity and fields.
pub record Details : Type 0 where
  pub summary : String
  pub severity : String
  pub fields : Fields

module _ (calls : Calls) (p : Members) where
  pushed : Details
  unfolding items_in
  pushed =
      let named = nested_string p "pusher" "name" in
      let who = if named == "" then nested_string p "sender" "login" else named in
      let ref = string_field p "ref" in
      let commits = calls.show_nat (items_in (get_member "commits" p)) in
      record {
        summary = who ++ " pushed " ++ commits ++ " commit(s) to " ++ ref;
        severity = severity_info;
        fields =
            insert "commits" (number commits)
              (insert "ref" (text ref) (insert "pusher" (text who) no_fields));
      }

  -- The fields of a pull request and of an issue.
  numbered : String → String → Json → Fields
  numbered action actor num =
      insert "actor" (text actor) (insert "number" num (insert "action" (text action) no_fields))

  pull_request : Details
  unfolding numbered
  pull_request =
      let action = string_field p "action" in
      let num = or_null (nested_any p "pull_request" "number") in
      let title = nested_string p "pull_request" "title" in
      let actor = nested_string p "sender" "login" in
      record {
        summary =
            if action == "closed" && nested_bool p "pull_request" "merged"
            then "PR #" ++ calls.sprint num ++ " merged by " ++ actor ++ ": " ++ title
            else "PR #" ++ calls.sprint num ++ " " ++ action ++ " by " ++ actor ++ ": " ++ title;
        severity = severity_info;
        fields = numbered action actor num;
      }

  deployment_status : Details
  deployment_status =
      let state = nested_string p "deployment_status" "state" in
      let env = nested_string p "deployment" "environment" in
      let actor = nested_string p "sender" "login" in
      record {
        summary = "deployment to " ++ env ++ ": " ++ state ++ " (by " ++ actor ++ ")";
        severity =
            if state == "failure" || state == "error"
            then severity_error
            else if state == "success"
            then severity_info
            else severity_warn;
        fields =
            insert "actor" (text actor)
              (insert "environment" (text env) (insert "state" (text state) no_fields));
      }

  issues : Details
  unfolding numbered
  issues =
      let action = string_field p "action" in
      let num = or_null (nested_any p "issue" "number") in
      let title = nested_string p "issue" "title" in
      let actor = nested_string p "sender" "login" in
      record {
        summary =
            "issue #" ++ calls.sprint num ++ " " ++ action ++ " by " ++ actor ++ ": " ++ title;
        severity = severity_info;
        fields = numbered action actor num;
      }

  release : Details
  release =
      let action = string_field p "action" in
      let tag = nested_string p "release" "tag_name" in
      let actor = nested_string p "sender" "login" in
      record {
        summary = "release " ++ tag ++ " " ++ action ++ " by " ++ actor;
        severity = severity_info;
        fields =
            insert "actor" (text actor)
              (insert "tag" (text tag) (insert "action" (text action) no_fields));
      }

  unfoldable pub event_details : String → Details
  unfolding pushed pull_request deployment_status issues release
  event_details event =
      if event == "push"
      then pushed
      else if event == "pull_request"
      then pull_request
      else if event == "deployment_status"
      then deployment_status
      else if event == "issues"
      then issues
      else if event == "release"
      then release
      else record { summary = ""; severity = severity_info; fields = no_fields }

  event_of : String → Bytes → Time → Event
  event_of event body now =
      let repository = nested_string p "repository" "full_name" in
      let details = event_details event in
      record {
        source = "github";
        service = repository;
        severity = details.severity;
        summary =
            truncate
              (if details.summary == ""
                then "github " ++ event ++ " in " ++ repository
                else details.summary)
              200;
        fields = insert "github_event" (text event) (
            if repository == ""
            then details.fields
            else insert "repository" (text repository) details.fields);
        occurred_at = now;
        raw = body;
      }

read : Calls → String → Option Members → Bytes → Time → Result AdapterError Event
unfolding event_of
read calls event none body now = err bad_input
read calls event (some p) body now = ok (event_of calls p event body now)

unfoldable pub normalize : Calls → Bytes → Headers → Bytes → Time → Result AdapterError Event
unfolding read
normalize calls body headers settings now =
    let event = headers "X-GitHub-Event" in
    if event == "" then err missing else read calls event (calls.read_object body) body now
