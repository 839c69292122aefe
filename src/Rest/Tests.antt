-- ===== src/Rest/Tests.antt =====
-- The robot's token at the control plane, a header without one, a row of another account, and an alert
-- that is posted for the lobby.
use prm.Prelude.{◌≡◌, refl, String, none, some, [], ◌∷◌, ok, err, string_eq, nat_eq}
use prm.Storage
use prm.Storage.{Store, Bytes}
use prm.Subops
use prm.Subops.{UpdateInput}
use prm.Rest.{
  error, Request, Calls, bearer, authorize, bearer_known, token_known, tenant_known, account_known,
}
use prm.Rest.Authority.{ByBearer, authorize_sound}
use prm.Samples.{rows, permissive_engine, acme, robot, bearer as robot_token, stored_row}

abbrev patch : UpdateInput
patch = record {
  url = none;
  match_json = none;
  events = none;
  context_lines = none;
  debounce_ms = none;
  cooldown_ms = none;
  budget = none;
  disabled = none;
}

abbrev calls : Calls
calls = record {
  trim_space = λ s. s;
  sha256 = λ s. 9 ∷ [];
  decode_create = λ b. none;
  decode_update = λ b. some patch;
}

abbrev env : Subops.Env
env = record {
  engine = permissive_engine;
  parse_budget = λ json. none;
  reader = record { parse = λ raw. none; to_lower = λ s. s; trim_slash = λ s. s };
  parse_uuid = λ text. some 40;
}

abbrev header : String
header = "Bearer secret"

robot-in : authorize rows calls tt header ≡ ok (acme, (robot, robot_token))
unfolding authorize bearer bearer_known token_known tenant_known account_known
robot-in = refl

authorize_sound_example : ByBearer rows calls tt header acme robot robot_token
authorize_sound_example = authorize_sound rows calls tt acme robot robot_token header robot-in

abbrev naked : Request
naked = record { authorization = "Basic x"; path_id = "40"; body = [] }

naked-out : authorize rows calls tt "Basic x" ≡ err (error 401 "missing_bearer")
unfolding authorize bearer bearer_known
naked-out = refl

abbrev foreign : Storage.Subscription
foreign = record stored_row { account_id = 8 }

abbrev shared : Store (Unit {0})
shared = record rows { get_subscription_by_id = λ st tenant id. ok foreign }

abbrev ask : Request
ask = record { authorization = header; path_id = "40"; body = [] }
