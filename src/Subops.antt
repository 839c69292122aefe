-- ===== src/Subops.antt =====
-- internal/subops/subops.go: subscription CRUD, for the REST plane and for the realtime protocol.
-- `env.reader` is what `webhook.ValidateURL` calls to read a URL; `env.parse_uuid` is `uuid.Parse`. The new secret and the time are arguments. `CreateSubscription` gives back the row
-- that it stored. Bytes of JSON are text, and no bytes are the empty text.
pub mod Isolation
mod Tests
use prm.Prelude.{
  ℕ, ℤ, String, Bool, true, false, not, ◌&&◌, ◌||◌, Option, none, some, List, [], ◌∷◌,
  if◌then◌else◌, ◌==◌, nat_eq, string_eq, is_empty, Result, ok, err,
}
use prm.Channels.{Uuid, Time}
use prm.Matcher.{Engine, Matcher, CompileError, compile}
use prm.Storage
use prm.Storage.{Bytes, Store, Read, Tenant, Account, account_bot}
use prm.Webhook.{Budget}
use prm.Webhook.Transport.{UrlReader, validate_url}
use prm.Webhook.Manager.{Manager, add_or_update, remove}

-- `ErrBadRequest`, `ErrNotFound`, `ErrNotOwner`, `ErrInternal`.
pub data OpError : Type 0 where
  bad_request not_found not_owner internal : OpError

pub record Env : Type 0 where
  pub engine : Engine
  pub parse_budget : String → Option Budget
  pub reader : UrlReader
  pub parse_uuid : String → Option Uuid

pub record CreateInput : Type 0 where
  pub channel_name : String
  pub channel_id : String
  pub url : String
  pub match_json : String
  pub events : List String
  pub context_lines : ℤ
  pub debounce_ms : ℤ
  pub cooldown_ms : ℤ
  pub budget : String

-- A patch: what is `none` does not change.
pub record UpdateInput : Type 0 where
  pub url : Option String
  pub match_json : Option String
  pub events : Option (List String)
  pub context_lines : Option ℤ
  pub debounce_ms : Option ℤ
  pub cooldown_ms : Option ℤ
  pub budget : Option String
  pub disabled : Option Bool

-- `errors.Is(err, …)` at the callers only tells the four sentinels apart.
abbrev compiles : Engine → String → Bool
compiles engine json = elim (compile engine json) [ ok m ↦ true | err e ↦ false ]

abbrev valid_url : Env → String → Bool
valid_url env raw = elim (validate_url env.reader raw) [ ok u ↦ true | err e ↦ false ]

abbrev or_else {ℓ} : {A : Type ℓ} → Option A → A → A
or_else none a = a
or_else (some b) a = b

-- The cache where the server has one.
abbrev register : Env → Option Manager → Storage.Subscription → Option Manager
register env none sub = none
register env (some m) sub = some (add_or_update env.engine env.parse_budget m sub).1

abbrev unregister : Option Manager → Uuid → Option Manager
unregister none id = none
unregister (some m) id = some (remove m id)

module _ {S : Type 0} (store : Store S) (env : Env) where
  found_channel : Read Storage.Channel → Result OpError Uuid
  found_channel (err e) = err not_found
  found_channel (ok ch) = ok ch.id

  by_channel_id : S → Tenant → Option Uuid → Result OpError Uuid
  unfolding found_channel
  by_channel_id st tenant none = err bad_request
  by_channel_id st tenant (some id) = found_channel (store.get_channel_by_id st tenant.id id)

  -- A name or an id.
  unfoldable pub resolve_channel_id : S → Tenant → String → String → Result OpError Uuid
  unfolding by_channel_id
  resolve_channel_id st tenant name id =
      if id == ""
      then found_channel (store.get_channel_by_name st tenant.id name)
      else by_channel_id st tenant (env.parse_uuid id)

  abbrev new_row : Bytes → Account → CreateInput → Uuid → Storage.Subscription
  new_row secret bot i channel_id = record {
    id = 0;
    tenant_id = 0;
    account_id = bot.id;
    channel_id = channel_id;
    url = i.url;
    secret = secret;
    match_json = i.match_json;
    events = if is_empty i.events then "message" ∷ [] else i.events;
    context_lines = i.context_lines;
    debounce_ms = i.debounce_ms;
    cooldown_ms = i.cooldown_ms;
    budget_json = if i.budget == "" then "{}" else i.budget;
    disabled_at = 0;
  }

  abbrev Done : Type 0
  Done = Result OpError Storage.Subscription × (S × Option Manager)

  stored : Option Manager → Read Storage.Subscription × S → Done
  stored mgr (err e, st) = (err internal, (st, mgr))
  stored mgr (ok sub, st) = (ok sub, (st, register env mgr sub))

  create_in :
      Bytes → S → Option Manager → Tenant → Account → CreateInput → Result OpError Uuid → Done
  unfolding stored
  create_in secret st mgr tenant bot i (err e) = (err e, (st, mgr))
  create_in secret st mgr tenant bot i (ok channel_id) =
      if compiles env.engine i.match_json
      then stored mgr (store.create_subscription st tenant.id (new_row secret bot i channel_id))
      else (err bad_request, (st, mgr))

  -- The checks before the channel is looked up.
  abbrev acceptable : Account → CreateInput → Bool
  acceptable bot i =
      bot.kind == account_bot
      && (valid_url env i.url
          && (not (i.match_json == "")
              && not (i.channel_name == "" && i.channel_id == "")
              && not (not (i.channel_name == "") && not (i.channel_id == ""))))

  unfoldable pub create : Bytes → S → Option Manager → Tenant → Account → CreateInput → Done
  unfolding create_in
  create secret st mgr tenant bot i =
      if acceptable bot i
      then create_in secret st mgr tenant bot i
          (resolve_channel_id st tenant i.channel_name i.channel_id)
      else (err bad_request, (st, mgr))

  owned : Account → Read Storage.Subscription → Result OpError Storage.Subscription
  owned bot (err e) = err not_found
  owned bot (ok sub) = if sub.account_id == bot.id then ok sub else err not_owner

  get_by : S → Tenant → Account → Option Uuid → Result OpError Storage.Subscription
  unfolding owned
  get_by st tenant bot none = err bad_request
  get_by st tenant bot (some id) = owned bot (store.get_subscription_by_id st tenant.id id)

  unfoldable pub get : S → Tenant → Account → String → Result OpError Storage.Subscription
  unfolding get_by
  get st tenant bot subscription_id = get_by st tenant bot (env.parse_uuid subscription_id)

  listed : Read (List Storage.Subscription) → Result OpError (List Storage.Subscription)
  listed (err e) = err internal
  listed (ok subs) = ok subs

  unfoldable pub list : S → Tenant → Account → Result OpError (List Storage.Subscription)
  unfolding listed
  list st tenant bot = listed (store.list_subscriptions_by_account st tenant.id bot.id)

  disabled_after : Option Bool → Time → Time → Time
  disabled_after none now at = at
  disabled_after (some true) now at = if at == 0 then now else at
  disabled_after (some false) now at = 0

  -- The row with the patch, or nothing where the patch has a bad URL or bad rules.
  abbrev patch_ok : UpdateInput → Bool
  patch_ok i =
      elim i.url [ none ↦ true | some u ↦ valid_url env u ]
      && elim i.match_json [ none ↦ true | some j ↦ compiles env.engine j ]

  unfoldable pub patched : Time → Storage.Subscription → UpdateInput → Storage.Subscription
  unfolding disabled_after
  patched now sub i = record sub {
    url = or_else i.url sub.url;
    match_json = or_else i.match_json sub.match_json;
    events = or_else i.events sub.events;
    context_lines = or_else i.context_lines sub.context_lines;
    debounce_ms = or_else i.debounce_ms sub.debounce_ms;
    cooldown_ms = or_else i.cooldown_ms sub.cooldown_ms;
    budget_json = or_else i.budget sub.budget_json;
    disabled_at = disabled_after i.disabled now sub.disabled_at;
  }

  updated : Option Manager → Storage.Subscription → Read (Unit {0}) × S → Done
  updated mgr sub (err e, st) = (err internal, (st, mgr))
  updated mgr sub (ok _, st) =
      (ok sub, (st, if sub.disabled_at == 0 then register env mgr sub else unregister mgr sub.id))

  update_found :
      Time → S → Option Manager → Tenant → UpdateInput → Result OpError Storage.Subscription → Done
  unfolding updated patched
  update_found now st mgr tenant i (err e) = (err e, (st, mgr))
  update_found now st mgr tenant i (ok sub) =
      if patch_ok i
      then updated mgr (patched now sub i)
          (store.update_subscription st tenant.id (patched now sub i))
      else (err bad_request, (st, mgr))

  unfoldable pub update : Time → S → Option Manager → Tenant → Account → String → UpdateInput → Done
  unfolding update_found
  update now st mgr tenant bot subscription_id i =
      update_found now st mgr tenant i (get st tenant bot subscription_id)

  deleted :
      Option Manager → Uuid → Read (Unit {0}) × S → Result OpError (Unit {0}) × (S × Option Manager)
  deleted mgr id (err e, st) = (err internal, (st, mgr))
  deleted mgr id (ok _, st) = (ok tt, (st, unregister mgr id))

  delete_found :
      S
      → Option Manager
      → Tenant
      → Result OpError Storage.Subscription
      → Result OpError (Unit {0}) × (S × Option Manager)
  unfolding deleted
  delete_found st mgr tenant (err e) = (err e, (st, mgr))
  delete_found st mgr tenant (ok sub) =
      deleted mgr sub.id (store.delete_subscription st tenant.id sub.id)

  unfoldable pub delete :
      S
      → Option Manager
      → Tenant
      → Account
      → String
      → Result OpError (Unit {0}) × (S × Option Manager)
  unfolding delete_found
  delete st mgr tenant bot subscription_id =
      delete_found st mgr tenant (get st tenant bot subscription_id)
