-- ===== src/Storage/Sqlite.antt =====
-- internal/storage/sqlite/sqlite.go: the subscriptions, their fires, the tokens, the messages, the
-- pauses and the moderation log as tables. A statement works on the rows in the order of their
-- insertion; `now` is the clock in whole microseconds, as the columns keep a time, and `next_id`
-- the identifier that `uuid.NewV7` makes. A statement fails where the schema refuses it: a primary
-- key or a unique column that is there already, or a tenant that is not stored.
pub mod Ordering
pub mod Messages
pub mod Moderation
pub mod Isolation
pub mod Rows
pub mod Revoking
pub mod Hashes
use prm.Prelude.{
  ℕ, suc, ◌+◌, ◌*◌, ◌/◌, ℤ, pos, negsuc, String, Bool, true, false, not, ◌&&◌, ◌||◌, Option, none,
  some, List, [], ◌∷◌, ◌++◌, map, reverse, take, any, is_empty, ltb, leb, length, if◌then◌else◌,
  ◌==◌, nat_eq, string_eq, Result, ok, err,
}
use prm.Channels.{Uuid, Time}
use prm.Storage
use prm.Storage.{
  Bytes, Read, Write, StoreError, not_found, already_exists, invalid, driver, Tenant, StoredMessage,
  SubscriptionFire, ChannelBotPause, ModerationEvent, Token,
}
use prm.Auth.Parameters.{bytes_beq}
use prm.Storage.Sqlite.Ordering.{descending, ascending}
use prm.Storage.Sqlite.Rows.{first, keep, change}

-- A row with the time of its column `created_at`, `fired_at`, `paused_at` or `at`.
abbrev pub Stamped : Type 0 → Type 0
Stamped A = Time × A

-- `revoked_at` beside the token.
pub record Database : Type 0 where
  pub now : Time
  pub next_id : Uuid
  pub tenants : List Tenant
  pub subscriptions : List (Stamped Storage.Subscription)
  pub fires : List (Stamped SubscriptionFire)
  pub tokens : List (Stamped (Token × Time))
  pub messages : List StoredMessage
  pub pauses : List (Stamped ChannelBotPause)
  pub moderation : List (Stamped ModerationEvent)

-- `UnixMicro`: what a column keeps of a time.
abbrev pub micro : Time → Time
micro t = t / 1000 * 1000

abbrev or_default : String → String → String
or_default s d = if s == "" then d else s

-- The foreign key of every table.
abbrev has_tenant : Database → Uuid → Bool
has_tenant db tenant_id = any (λ t. t.id == tenant_id) db.tenants

-- One row, or `ErrNotFound`.
found {ℓ} : {A : Type ℓ} → Option A → Result StoreError A
found none = err not_found
found (some a) = ok a

-- `RowsAffected` of a statement that is `ErrNotFound` where it is zero.
affected : Bool → Database → Write Database (Unit {0})
affected true db = (ok tt, db)
affected false db = (err not_found, db)

-- subscriptions

abbrev pub is_sub : Uuid → Uuid → Stamped Storage.Subscription → Bool
is_sub tenant_id id r = r.1.tenant_id == tenant_id && r.1.id == id

row_of : Option (Stamped Storage.Subscription) → Option Storage.Subscription
row_of none = none
row_of (some (at, sub)) = some sub

unfoldable pub get_subscription_by_id : Database → Uuid → Uuid → Read Storage.Subscription
unfolding found row_of
get_subscription_by_id db tenant_id id =
    found (row_of (first (is_sub tenant_id id) db.subscriptions))

abbrev by_time : Database → (Stamped Storage.Subscription → Bool) → List Storage.Subscription
by_time db p = map (λ r. r.1) (ascending (λ r. r.0) (keep p db.subscriptions))

unfoldable pub list_subscriptions_by_account :
    Database → Uuid → Uuid → Read (List Storage.Subscription)
list_subscriptions_by_account db tenant_id account_id =
    ok (by_time db (λ r. r.1.tenant_id == tenant_id && r.1.account_id == account_id))

unfoldable pub list_subscriptions_by_channel :
    Database → Uuid → Uuid → Read (List Storage.Subscription)
list_subscriptions_by_channel db tenant_id channel_id = ok (
    by_time db
      (λ r. r.1.tenant_id == tenant_id && (r.1.channel_id == channel_id && r.1.disabled_at == 0)))

-- What is unset is filled in; `next_id` is the identifier where the subscription has none.
abbrev completed : Database → Uuid → Storage.Subscription → Storage.Subscription
completed db tenant_id sub = record sub {
  id = if sub.id == 0 then db.next_id else sub.id;
  tenant_id = tenant_id;
  events = if is_empty sub.events then "message" ∷ [] else sub.events;
}

-- The row as it is stored.
abbrev stored_sub : Database → Uuid → Storage.Subscription → Storage.Subscription
stored_sub db tenant_id sub = record (completed db tenant_id sub) {
  budget_json = or_default sub.budget_json "{}";
  disabled_at = micro sub.disabled_at;
}

-- `sub` as the caller has it afterwards, and as the row of it is stored.
insert_sub :
    Database → Storage.Subscription → Storage.Subscription → Write Database Storage.Subscription
insert_sub db sub row =
    if any (λ r. r.1.id == row.id) db.subscriptions || not (has_tenant db row.tenant_id)
    then (err driver, db)
    else (
      ok sub,
      record db {
        next_id = suc db.next_id;
        subscriptions = db.subscriptions ++ (db.now, row) ∷ [];
      },
    )

unfoldable pub create_subscription :
    Database → Uuid → Storage.Subscription → Write Database Storage.Subscription
unfolding insert_sub
create_subscription db tenant_id sub =
    if tenant_id == 0
    then (err invalid, db)
    else if not (sub.tenant_id == 0) && not (sub.tenant_id == tenant_id)
    then (err invalid, db)
    else if sub.url == ""
    then (err invalid, db)
    else if sub.match_json == ""
    then (err invalid, db)
    else insert_sub db (completed db tenant_id sub) (stored_sub db tenant_id sub)

-- The columns that an update sets.
abbrev written : Storage.Subscription → Stamped Storage.Subscription → Stamped Storage.Subscription
written sub (at, old) = (
  at,
  record old {
    url = sub.url;
    match_json = sub.match_json;
    events = sub.events;
    context_lines = sub.context_lines;
    debounce_ms = sub.debounce_ms;
    cooldown_ms = sub.cooldown_ms;
    budget_json = or_default sub.budget_json "{}";
    disabled_at = micro sub.disabled_at;
  },
)

unfoldable pub update_subscription :
    Database → Uuid → Storage.Subscription → Write Database (Unit {0})
unfolding affected
update_subscription db tenant_id sub =
    if tenant_id == 0 || sub.id == 0
    then (err invalid, db)
    else affected (any (is_sub tenant_id sub.id) db.subscriptions) (record db {
      subscriptions = change (is_sub tenant_id sub.id) (written sub) db.subscriptions;
    })

unfoldable pub delete_subscription : Database → Uuid → Uuid → Write Database (Unit {0})
unfolding affected
delete_subscription db tenant_id id =
    affected (any (is_sub tenant_id id) db.subscriptions)
      (record db { subscriptions = keep (λ r. not (is_sub tenant_id id r)) db.subscriptions })

-- fires

unfoldable pub record_subscription_fire : Database → SubscriptionFire → Write Database (Unit {0})
record_subscription_fire db f =
    if has_tenant db f.tenant_id
    then (ok tt, record db { next_id = suc db.next_id; fires = db.fires ++ (db.now, f) ∷ [] })
    else (err driver, db)

unfoldable pub count_subscription_fires_since : Database → Uuid → Uuid → Time → Read ℕ
count_subscription_fires_since db tenant_id sub_id since = ok (
    length (
      keep
        (λ f.
          f.1.tenant_id == tenant_id
          && (f.1.subscription_id == sub_id
              && (leb (micro since) f.0 && (f.1.status == "ok" || f.1.status == "retrying"))))
        db.fires))

-- tokens

unfoldable pub create_token : Database → Uuid → Uuid → Bytes → String → Write Database Token
create_token db tenant_id account_id hash label =
    let tok : Token = record {
      id = db.next_id;
      tenant_id = tenant_id;
      account_id = account_id;
      hash = hash;
      label = label;
    } in
    if tenant_id == 0 || account_id == 0
    then (err invalid, db)
    else if is_empty hash
    then (err invalid, db)
    else if any (λ r. r.1.0.id == tok.id || bytes_beq r.1.0.hash hash) db.tokens
    then (err already_exists, db)
    else if not (has_tenant db tenant_id)
    then (err driver, db)
    else (
      ok tok,
      record db { next_id = suc db.next_id; tokens = db.tokens ++ (db.now, (tok, 0)) ∷ [] },
    )

token_of : Option (Stamped (Token × Time)) → Option Token
token_of none = none
token_of (some (at, (tok, revoked_at))) = some tok

-- The token has the hash and is not revoked.
abbrev pub answers : Bytes → Stamped (Token × Time) → Bool
answers hash r = bytes_beq r.1.0.hash hash && r.1.1 == 0

unfoldable pub get_token_by_hash : Database → Bytes → Read Token
unfolding found token_of
get_token_by_hash db hash = found (token_of (first (answers hash) db.tokens))

unfoldable pub list_tokens : Database → Uuid → Uuid → Read (List Token)
list_tokens db tenant_id account_id = ok (
    map (λ r. r.1.0)
      (ascending (λ r. r.0)
        (keep (λ r. r.1.0.tenant_id == tenant_id && r.1.0.account_id == account_id) db.tokens)))

abbrev pub is_live : Uuid → Uuid → Stamped (Token × Time) → Bool
is_live tenant_id id r = r.1.0.tenant_id == tenant_id && (r.1.0.id == id && r.1.1 == 0)

unfoldable pub revoke_token : Database → Uuid → Uuid → Write Database (Unit {0})
unfolding affected
revoke_token db tenant_id id =
    affected (any (is_live tenant_id id) db.tokens)
      (record db { tokens = change (is_live tenant_id id) (λ r. (r.0, (r.1.0, db.now))) db.tokens })

-- pauses

abbrev is_pause : Uuid → Uuid → Uuid → Stamped ChannelBotPause → Bool
is_pause tenant_id channel_id bot_account_id r =
    r.1.tenant_id == tenant_id
    && (r.1.channel_id == channel_id && r.1.bot_account_id == bot_account_id)

-- A row of the same key is overwritten in its place.
put_pause : Bool → Database → ChannelBotPause → List (Stamped ChannelBotPause)
put_pause true db p =
    change (is_pause p.tenant_id p.channel_id p.bot_account_id) (λ r. (db.now, p)) db.pauses
put_pause false db p = db.pauses ++ (db.now, p) ∷ []

unfoldable pub set_channel_bot_pause : Database → ChannelBotPause → Write Database (Unit {0})
unfolding put_pause
set_channel_bot_pause db p =
    let present = any (is_pause p.tenant_id p.channel_id p.bot_account_id) db.pauses in
    if p.tenant_id == 0 || (p.channel_id == 0 || (p.bot_account_id == 0 || p.paused_by == 0))
    then (err invalid, db)
    else if not present && not (has_tenant db p.tenant_id)
    then (err driver, db)
    else (ok tt, record db { pauses = put_pause present db p })

unfoldable pub remove_channel_bot_pause : Database → Uuid → Uuid → Uuid → Write Database (Unit {0})
unfolding affected
remove_channel_bot_pause db tenant_id channel_id bot_account_id =
    affected (any (is_pause tenant_id channel_id bot_account_id) db.pauses) (record db {
      pauses = keep (λ r. not (is_pause tenant_id channel_id bot_account_id r)) db.pauses;
    })

unfoldable pub list_channel_bot_pauses : Database → Uuid → Read (List ChannelBotPause)
list_channel_bot_pauses db tenant_id =
    ok (map (λ r. r.1) (ascending (λ r. r.0) (keep (λ r. r.1.tenant_id == tenant_id) db.pauses)))
