-- ===== src/Inbound/Normal/Tests.antt =====
-- A Splunk alert.
use prm.Prelude.{◌≡◌, refl, none, some, [], String, Result, ok, err, lookup, insert, string_eq}
use prm.Inbound.{Event, AdapterError, lookup_adapter, register}
use prm.Inbound.Values.{no_members}
use prm.Inbound.Splunk
use prm.Inbound.Bounds.{IsNormal}
use prm.Inbound.Standard.{Calls, standard}
use prm.Inbound.Normal.{lookup_adapter-IsNormal}

abbrev alert : Splunk.Payload
alert = record {
  sid = "";
  search_name = "disk down";
  app = "search";
  owner = "";
  results_link = "";
  result = no_members;
}

abbrev blank : Event
blank = record {
  source = "";
  service = "";
  severity = "";
  summary = "";
  fields = [];
  occurred_at = 0;
  raw = [];
}

abbrev calls : Calls
calls = record {
  datadog = record { read_payload = λ b. none; read_settings = λ b. ""; parse_time = λ s. none };
  generic = record {
    texts = record { trim_space = λ s. s; to_lower = λ s. s };
    read_body = λ b. none;
    read_settings = λ b. none;
    sprint = λ v. "";
    parts = λ p. none;
    parse_time = λ s. none;
  };
  github = record { read_object = λ b. none; sprint = λ v. ""; show_nat = λ n. "" };
  graylog = record {
    texts = record { trim_space = λ s. s; to_lower = λ s. s };
    read_payload = λ b. none;
    read_settings = λ b. "";
    show_int = λ n. "";
  };
  splunk = record {
    texts = record { trim_space = λ s. s; to_lower = λ s. s };
    read_payload = λ b. some alert;
    read_settings = λ b. record { service_field = ""; severity_field = "" };
    utf8 = λ s. [];
    sprint = λ v. "";
  };
}

abbrev name : String
name = "splunk"

splunk-found : lookup_adapter (standard calls) name ≡ ok (Splunk.normalize calls.splunk)
unfolding lookup_adapter standard register lookup insert
splunk-found = refl

abbrev made : Result AdapterError Event → Event
made (ok ev) = ev
made (err e) = blank

abbrev answer : Result AdapterError Event
answer = Splunk.normalize calls.splunk [] (λ h. "") [] 5

answered : answer ≡ ok (made answer)
unfolding Splunk.normalize Splunk.read
answered = refl

lookup_adapter-IsNormal_example : IsNormal name (made answer)
lookup_adapter-IsNormal_example =
    lookup_adapter-IsNormal calls name (Splunk.normalize calls.splunk) [] (λ h. "") [] 5
      (made answer) splunk-found answered
