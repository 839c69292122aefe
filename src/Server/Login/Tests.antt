-- ===== src/Server/Login/Tests.antt =====
-- A connection that signs in with the sample token, one that only sends pings, and one that is signed in.
use prm.Prelude.{◌≡◌, refl, ap, true, false, none, some, List, [], ◌∷◌, string_eq}
use prm.Auth.Tests.{plain, digest, bearer-accepted}
use prm.Proto.Frames.{AuthRequest}
use prm.Proto.Kinds.{Frame}
use prm.Samples.{rows, permissive_engine, robot_conn, world}
use prm.Server.{Conn}
use prm.Server.Identity.{Same}
use prm.Server.Login.{Wire, token_checked, sign_in, handle_auth_request}
use prm.Server.Login.Open.{Open}
use prm.Server.Dispatch.{Setup, Chance, dispatch, dispatch_open, read_loop}
use prm.Server.Dispatch.Gate.{Granted, dispatch-Granted, read_loop-Open}
use prm.Server.Dispatch.Identity.{read_loop-Same}

abbrev wire : Wire
wire = record {
  encode = λ bytes. "";
  decode = λ text. some (1 ∷ 2 ∷ []);
  sha256 = digest;
  server_name = "prmd";
  server_version = "0.0.0-dev";
}

abbrev setup : Setup (Unit {0})
setup = record {
  store = rows;
  wire = wire;
  messaging = record {
    engine = permissive_engine;
    reader = record { has_at = λ body. false; tokens = λ body. []; parse_uuid = λ text. none };
    clock = λ id. record { now = 1; drained = 2; today_start = 0 };
  };
  subops = record {
    engine = permissive_engine;
    parse_budget = λ json. none;
    reader = record { parse = λ raw. none; to_lower = λ s. s; trim_slash = λ s. s };
    parse_uuid = λ text. some 40;
  };
}

abbrev chance : Chance
chance = record { now = 5; nonce = 1 ∷ []; secret = 2 ∷ [] }

abbrev fresh : Conn
fresh = record robot_conn { tenant_id = 0; account_id = 0; display_name = ""; authed = false }

abbrev ask : AuthRequest
ask = record { id = "a1"; method = "token"; tenant = ""; username = ""; token = plain }

signed_in : (dispatch setup chance world fresh (Frame.auth_request ask)).0.authed ≡ true
unfolding dispatch dispatch_open handle_auth_request token_checked sign_in
signed_in = ap (λ a. (token_checked rows world fresh "a1" a).0.authed) bearer-accepted

dispatch-Granted_example :
    Granted setup world fresh
      (Frame.auth_request ask)
      (dispatch setup chance world fresh (Frame.auth_request ask)).0
dispatch-Granted_example =
    dispatch-Granted setup chance world fresh (Frame.auth_request ask) refl signed_in

abbrev pings : List (Chance × Frame)
pings =
    (chance, Frame.ping (record { id = "p1"; token = "t" }))
    ∷ (chance, Frame.join (record { id = "j1"; channel = "lobby" }))
    ∷ []

still_closed : (read_loop setup world fresh pings).0.authed ≡ false
unfolding read_loop dispatch dispatch_open
still_closed = refl

read_loop-Open_example : Open world fresh (read_loop setup world fresh pings)
read_loop-Open_example = read_loop-Open setup world fresh pings still_closed

read_loop-Same_example : Same robot_conn (read_loop setup world robot_conn pings).0
read_loop-Same_example = read_loop-Same setup world robot_conn pings refl
