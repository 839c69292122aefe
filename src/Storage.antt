-- ===== src/Storage.antt =====
-- internal/storage/storage.go: the stored rows, the roles, and the interface `Store` that the rest of
-- the program uses. A backend keeps a state `S`: a read is a function of it, a write returns the new
-- one. The named string types stay strings, as a row may hold any text.
mod Roles
pub mod Sqlite
use prm.Prelude.{ℕ, String, Bool, ◌||◌, Option, List, ◌==◌, string_eq, Result, ℤ}
use prm.Channels.{Uuid, Time}

abbrev pub Bytes : Type 0
Bytes = List ℕ

pub record Tenant : Type 0 where
  pub id : Uuid
  pub slug : String
  pub display_name : String
  pub status : String
  pub created_at : Time

abbrev pub tenant_active : String
tenant_active = "active"

abbrev pub tenant_suspended : String
tenant_suspended = "suspended"

abbrev pub account_human : String
account_human = "human"

abbrev pub account_bot : String
account_bot = "bot"

pub record Account : Type 0 where
  pub id : Uuid
  pub tenant_id : Uuid
  pub username : String
  pub display_name : String
  pub kind : String
  pub password_hash : Bytes
  pub password_salt : Bytes
  pub password_params : Bytes

abbrev pub channel_private : String
channel_private = "private"

abbrev pub channel_public : String
channel_public = "public"

pub record Channel : Type 0 where
  pub id : Uuid
  pub tenant_id : Uuid
  pub name : String
  pub owner_id : Uuid
  pub visibility : String

abbrev pub role_owner : String
role_owner = "owner"

abbrev pub role_admin : String
role_admin = "admin"

abbrev pub role_member : String
role_member = "member"

abbrev pub role_banned : String
role_banned = "banned"

abbrev pub role_channel_op : String
role_channel_op = "channel_op"

unfoldable pub can_join : String → Bool
can_join r = r == role_owner || (r == role_admin || (r == role_member || r == role_channel_op))

unfoldable pub can_moderate : String → Bool
can_moderate r = r == role_owner || (r == role_admin || r == role_channel_op)

pub record ChannelAclEntry : Type 0 where
  pub tenant_id : Uuid
  pub channel_id : Uuid
  pub account_id : Uuid
  pub role : String

pub record StoredMessage : Type 0 where
  pub id : Uuid
  pub tenant_id : Uuid
  pub channel_id : Uuid
  pub from_account_id : Uuid
  pub body : String
  pub ts : Time

-- `match_json` and `budget_json` are opaque to storage; a zero `disabled_at` is an active row.
pub record Subscription : Type 0 where
  pub id : Uuid
  pub tenant_id : Uuid
  pub account_id : Uuid
  pub channel_id : Uuid
  pub url : String
  pub secret : Bytes
  pub match_json : String
  pub events : List String
  pub context_lines : ℤ
  pub debounce_ms : ℤ
  pub cooldown_ms : ℤ
  pub budget_json : String
  pub disabled_at : Time

pub record SubscriptionFire : Type 0 where
  pub tenant_id : Uuid
  pub subscription_id : Uuid
  pub status : String
  pub attempts : ℕ
  pub last_error : String

pub record ChannelBotPause : Type 0 where
  pub tenant_id : Uuid
  pub channel_id : Uuid
  pub bot_account_id : Uuid
  pub paused_by : Uuid
  pub reason : String

abbrev pub mod_action_pause_bot : String
mod_action_pause_bot = "pause_bot"

abbrev pub mod_action_resume_bot : String
mod_action_resume_bot = "resume_bot"

pub record ModerationEvent : Type 0 where
  pub tenant_id : Uuid
  pub channel_id : Uuid
  pub actor_id : Uuid
  pub target_id : Uuid
  pub action : String
  pub reason : String

pub record Token : Type 0 where
  pub id : Uuid
  pub tenant_id : Uuid
  pub account_id : Uuid
  pub hash : Bytes
  pub label : String

pub record Integration : Type 0 where
  pub id : Uuid
  pub tenant_id : Uuid
  pub channel_id : Uuid
  pub account_id : Uuid
  pub adapter : String
  pub token_hash : Bytes
  pub settings_json : Bytes
  pub disabled_at : Time

-- `ErrNotFound`, `ErrAlreadyExists`, `ErrInvalid`, and a failure of the driver.
pub data StoreError : Type 0 where
  not_found already_exists invalid driver : StoreError

abbrev pub Read : Type 0 → Type 0
Read A = Result StoreError A

abbrev pub Write : Type 0 → Type 0 → Type 0
Write S A = Result StoreError A × S

-- The calls of `Store` that the modelled parts make.
pub record Store (S : Type 0) : Type 0 where
  pub get_tenant_by_id : S → Uuid → Read Tenant
  pub get_tenant_by_slug : S → String → Read Tenant
  pub get_account_by_id : S → Uuid → Uuid → Read Account
  pub get_account_by_username : S → Uuid → String → Read Account
  pub get_channel_by_id : S → Uuid → Uuid → Read Channel
  pub get_channel_by_name : S → Uuid → String → Read Channel
  pub get_channel_acl : S → Uuid → Uuid → Uuid → Read ChannelAclEntry
  pub create_token : S → Uuid → Uuid → Bytes → String → Write S Token
  pub get_token_by_hash : S → Bytes → Read Token
  pub touch_token_last_used : S → Uuid → Write S (Unit {0})
  pub create_tenant : S → Tenant → Write S Tenant
  pub create_subscription : S → Uuid → Subscription → Write S Subscription
  pub get_subscription_by_id : S → Uuid → Uuid → Read Subscription
  pub list_subscriptions_by_account : S → Uuid → Uuid → Read (List Subscription)
  pub list_subscriptions_by_channel : S → Uuid → Uuid → Read (List Subscription)
  pub update_subscription : S → Uuid → Subscription → Write S (Unit {0})
  pub delete_subscription : S → Uuid → Uuid → Write S (Unit {0})
  pub record_subscription_fire : S → SubscriptionFire → Write S (Unit {0})
  pub count_subscription_fires_since : S → Uuid → Uuid → Time → Read ℕ
  pub set_channel_bot_pause : S → ChannelBotPause → Write S (Unit {0})
  pub remove_channel_bot_pause : S → Uuid → Uuid → Uuid → Write S (Unit {0})
  pub list_channel_bot_pauses : S → Uuid → Read (List ChannelBotPause)
  pub list_channels : S → Uuid → Read (List Channel)
  pub record_moderation_event : S → ModerationEvent → Write S (Unit {0})
  pub get_integration_by_token_hash : S → Bytes → Read Integration
  pub record_message : S → StoredMessage → Write S (Unit {0})
  pub list_messages : S → Uuid → Uuid → ℤ → Time → Read (List StoredMessage)
