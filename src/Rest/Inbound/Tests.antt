-- ===== src/Rest/Inbound/Tests.antt =====
-- An alert that is posted for the lobby.
use prm.Prelude.{◌≡◌, refl, true, false, none, some, [], ◌∷◌, ok, pos, string_eq, nat_eq, lookup}
use prm.Inbound.{Event, Adapters, lookup_adapter}
use prm.Server.{World}
use prm.Server.Messaging.{Env}
use prm.Server.{encodes}
use prm.Proto.Codec.{encode_bytes, marshal_with_type}
use prm.Proto.Search.{bytes_contains}
use prm.Server.Publish.{publish_inbound, publish_in}
use prm.Rest.{bearer, status}
use prm.Rest.Inbound.{
  Post, Calls, handle_inbound, admitted, integration_of, with_id, with_token, for_path, in_tenant,
  with_body, body_of, within, event_of, adapted, made, publish_event, replied,
}
use prm.Rest.Inbound.Accepting.{Accepted, handle_inbound_accepted}
use prm.Samples.{rows, permissive_engine, world}

abbrev calls : Calls
calls = record { trim_space = λ s. s; sha256 = λ s. 6 ∷ []; parse_uuid = λ s. some 50 }

abbrev alert : Event
alert = record {
  source = "splunk";
  service = "";
  severity = "error";
  summary = "disk down";
  fields = [];
  occurred_at = 0;
  raw = [];
}

abbrev adapters : Adapters
adapters = ("splunk", λ body headers settings now. ok alert) ∷ []

abbrev env : Env
env = record {
  engine = permissive_engine;
  reader = record { has_at = λ body. false; tokens = λ body. []; parse_uuid = λ text. none };
  clock = λ id. record { now = 1; drained = 2; today_start = 0 };
}

abbrev post : Post
post = record {
  path_id = "50";
  authorization = "Bearer secret";
  headers = λ h. "";
  content_length = pos 2;
  read_body = some (123 ∷ 125 ∷ []);
}

abbrev after : World (Unit {0})
after = (publish_inbound rows env world 1 20 7 alert 5).1

answered : handle_inbound rows calls true env adapters world post 5 ≡ (status 202, after)
unfolding handle_inbound admitted integration_of with_id with_token for_path in_tenant with_body
    body_of within event_of adapted made publish_event replied publish_inbound publish_in bearer
    encodes encode_bytes marshal_with_type bytes_contains lookup_adapter lookup
answered = refl

handle_inbound_accepted_example : Accepted rows calls env adapters world after post 5
handle_inbound_accepted_example =
    handle_inbound_accepted rows calls env adapters world after post 5 true answered
