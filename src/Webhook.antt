-- ===== src/Webhook.antt =====
-- internal/webhook: the outbound webhook subsystem. The types that its parts share.
pub mod Gate
pub mod Sets
pub mod Manager
pub mod Worker
pub mod Transport
pub mod Payload
mod Tests
use prm.Prelude.{ℕ, String, Bool, Option, List, ℤ}
use prm.Channels.{Uuid, Time, HistoryEntry}
use prm.Matcher.{Matcher}
use prm.Storage.{Bytes}

-- `EstimatedCostPerFireUSD` is stored and never read.
pub record Budget : Type 0 where
  pub daily_max_fires : ℤ

-- payload.go: `Message`; `sender` is the account whose text form is `From`.
pub record Message : Type 0 where
  pub sender : Uuid
  pub display_name : String
  pub ts : Time
  pub body : String

pub record Subscription : Type 0 where
  pub id : Uuid
  pub tenant_id : Uuid
  pub account_id : Uuid
  pub channel_id : Uuid
  pub url : String
  pub secret : Bytes
  pub matcher : Matcher
  pub events : List String
  pub ctx_lines : ℤ
  pub debounce_ms : ℤ
  pub cooldown_ms : ℤ
  pub budget : Budget
  -- `debounceTimer != nil`
  pub debounce_timer : Bool
  pub pending_matches : List Message
  -- nil is the empty list: what is captured is never empty
  pub pending_context : List Message
  pub pending_chan_name : String
  pub last_fire : Time
  pub consec_4xx : ℕ

pub record Event : Type 0 where
  pub tenant_id : Uuid
  pub channel_id : Uuid
  pub channel_name : String
  pub sender : Uuid
  pub display_name : String
  pub body : String
  pub ts : Time
  pub mentions : List Uuid
  pub context : List HistoryEntry

pub record FireTask : Type 0 where
  pub sub : Subscription
  pub channel_name : String
  pub matches : List Message
  pub context : List Message
