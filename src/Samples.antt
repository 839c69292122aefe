-- ===== src/Samples.antt =====
-- Test data for the tests of the parts: rows, a store that always answers them, and rules.
use prm.Prelude.{true, false, some, none, [], ◌∷◌, ok, pos}
use prm.Matcher
use prm.Matcher.{Engine, Rules}
use prm.Storage
use prm.Storage.{
  Store, Tenant, Account, ChannelAclEntry, Token, Integration, account_bot, channel_public,
  role_owner, tenant_active,
}
use prm.Channels.Registry.{new_registry}
use prm.Proto.Codec.{Json}
use prm.Server.{Conn, World}
use prm.Webhook
use prm.Webhook.{Event}

abbrev pub acme : Tenant
acme = record {
  id = 1;
  slug = "acme";
  display_name = "Acme";
  status = tenant_active;
  created_at = 5;
}

abbrev pub robot : Account
robot = record {
  id = 7;
  tenant_id = 1;
  username = "robot";
  display_name = "Robot";
  kind = account_bot;
  password_hash = 1 ∷ 2 ∷ [];
  password_salt = 3 ∷ [];
  password_params = [];
}

abbrev pub lobby : Storage.Channel
lobby = record { id = 20; tenant_id = 1; name = "lobby"; owner_id = 7; visibility = channel_public }

abbrev pub bearer : Token
bearer = record { id = 30; tenant_id = 1; account_id = 7; hash = 9 ∷ []; label = "ci" }

abbrev pub stored_row : Storage.Subscription
stored_row = record {
  id = 40;
  tenant_id = 1;
  account_id = 7;
  channel_id = 20;
  url = "https://example.org/hook";
  secret = 8 ∷ [];
  match_json = "";
  events = "message" ∷ [];
  context_lines = pos 2;
  debounce_ms = pos 0;
  cooldown_ms = pos 5;
  budget_json = "";
  disabled_at = 0;
}

abbrev pub splunk_feed : Integration
splunk_feed = record {
  id = 50;
  tenant_id = 1;
  channel_id = 20;
  account_id = 7;
  adapter = "splunk";
  token_hash = 6 ∷ [];
  settings_json = [];
  disabled_at = 0;
}

-- Every read finds the rows above; every write succeeds and is forgotten.
abbrev pub rows : Store (Unit {0})
rows = record {
  get_tenant_by_id = λ st id. ok acme;
  get_tenant_by_slug = λ st slug. ok acme;
  get_account_by_id = λ st tenant id. ok robot;
  get_account_by_username = λ st tenant name. ok robot;
  get_channel_by_id = λ st tenant id. ok lobby;
  get_channel_by_name = λ st tenant name. ok lobby;
  get_channel_acl = λ st tenant channel account.
      ok (record { tenant_id = 1; channel_id = 20; account_id = 7; role = role_owner });
  create_token = λ st tenant account hash label. (ok bearer, st);
  get_token_by_hash = λ st hash. ok bearer;
  touch_token_last_used = λ st id. (ok tt, st);
  create_tenant = λ st t. (ok t, st);
  create_subscription = λ st tenant sub. (ok sub, st);
  get_subscription_by_id = λ st tenant id. ok stored_row;
  list_subscriptions_by_account = λ st tenant account. ok (stored_row ∷ []);
  list_subscriptions_by_channel = λ st tenant channel. ok (stored_row ∷ []);
  update_subscription = λ st tenant sub. (ok tt, st);
  delete_subscription = λ st tenant id. (ok tt, st);
  record_subscription_fire = λ st fire. (ok tt, st);
  count_subscription_fires_since = λ st tenant id at. ok 0;
  set_channel_bot_pause = λ st pause. (ok tt, st);
  remove_channel_bot_pause = λ st tenant channel bot. (ok tt, st);
  list_channel_bot_pauses = λ st tenant. ok [];
  list_channels = λ st tenant. ok (lobby ∷ []);
  record_moderation_event = λ st e. (ok tt, st);
  get_integration_by_token_hash = λ st hash. ok splunk_feed;
  record_message = λ st m. (ok tt, st);
  list_messages = λ st tenant channel limit before. ok [];
}

-- Every pattern compiles and matches every body.
abbrev pub permissive_engine : Engine
permissive_engine = record {
  regex_compile = λ p. some (λ body. true);
  path_match = λ p body. some true;
  trim_space = λ body. body;
  unmarshal = λ json. some (record { any_of = []; all_of = [] });
}

abbrev pub mention_rule : Matcher.Rule
mention_rule = record { kind = "mention"; pattern = ""; account_id = 7 }

abbrev pub regex_rule : Matcher.Rule
regex_rule = record { kind = "regex"; pattern = "deploy"; account_id = 0 }

abbrev pub two_rules : Rules
two_rules = record { any_of = mention_rule ∷ []; all_of = regex_rule ∷ [] }

abbrev pub compiled_rules : Matcher.Matcher
compiled_rules = record {
  any_of = Matcher.CompiledRule.mention 7 ∷ [];
  all_of = Matcher.CompiledRule.regex (λ body. true) "deploy" ∷ [];
}

-- No debounce, a cooldown of 5 ms.
abbrev pub live_sub : Webhook.Subscription
live_sub = record {
  id = 40;
  tenant_id = 1;
  account_id = 7;
  channel_id = 20;
  url = "https://example.org/hook";
  secret = 8 ∷ [];
  matcher = compiled_rules;
  events = "message" ∷ [];
  ctx_lines = pos 2;
  budget = record { daily_max_fires = pos 3 };
  debounce_ms = pos 0;
  cooldown_ms = pos 5;
  debounce_timer = false;
  pending_matches = [];
  pending_context = [];
  pending_chan_name = "";
  last_fire = 0;
  consec_4xx = 4;
}

abbrev pub deploy : Event
deploy = record {
  tenant_id = 1;
  channel_id = 20;
  channel_name = "lobby";
  sender = 9;
  display_name = "Ann";
  body = "deploy @robot";
  ts = 100;
  mentions = 7 ∷ [];
  context = record { sender = 9; display_name = "Ann"; ts = 90; body = "hi" } ∷ [];
}

abbrev pub robot_conn : Conn
robot_conn = record {
  id = 11;
  tenant_id = 1;
  account_id = 7;
  display_name = "Robot";
  authed = true;
  pending_chal = none;
  pongs = [];
  joined_channels = [];
  joined_roles = [];
}

-- Every frame is written as `{}`, which has the type already.
abbrev pub short_json : Json
short_json = record {
  marshal = λ f. some (123 ∷ 125 ∷ []);
  stamp = λ bytes t. some bytes;
  envelope = λ bytes. none;
  unmarshal = λ k bytes. none;
  needle = λ t. [];
}

abbrev pub world : World (Unit {0})
world = record {
  json = short_json;
  state = tt;
  registry = new_registry;
  webhooks = none;
  sent = [];
  queued = [];
  actions = [];
}
