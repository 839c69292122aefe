-- ===== src/Proto/Frames.antt =====
-- internal/proto/frames.go: the frames. The field `Type` of a frame is that of its kind. A field that the
-- server fills with the text of an identifier holds the identifier; `Detail` is for humans and left out.
-- Raw JSON is text, the empty text where it is absent; a pointer is an `Option`.
use prm.Prelude.{ℕ, String, Bool, Option, List, ℤ}
use prm.Channels.{Uuid, Time}
use prm.Storage.{Bytes}

pub record Hello : Type 0 where
  pub id : String
  pub client_name : String
  pub client_version : String
  pub cap_version : String
  pub capabilities : List String

pub record Welcome : Type 0 where
  pub id : String
  pub server_name : String
  pub server_version : String
  pub cap_version : String
  pub capabilities : List String

pub record AuthRequest : Type 0 where
  pub id : String
  pub method : String
  pub tenant : String
  pub username : String
  pub token : String

pub record AuthChallenge : Type 0 where
  pub id : String
  pub salt : String
  pub nonce : String
  pub params : Bytes

pub record AuthResponse : Type 0 where
  pub id : String
  pub proof : String

pub record AuthOk : Type 0 where
  pub id : String
  pub account_id : Uuid
  pub tenant_id : Uuid
  pub account_type : String
  pub display_name : String

pub record AuthErr : Type 0 where
  pub id : String
  pub reason : String

pub record Join : Type 0 where
  pub id : String
  pub channel : String

pub record Part : Type 0 where
  pub id : String
  pub channel : String

-- `To` is never read.
pub record Msg : Type 0 where
  pub id : String
  pub channel : String
  pub sender : Uuid
  pub from_role : String
  pub ts : Time
  pub body : String

pub record Presence : Type 0 where
  pub channel : String
  pub kind : String
  pub account_id : Uuid
  pub display_name : String

pub record Ping : Type 0 where
  pub id : String
  pub token : String

pub record Pong : Type 0 where
  pub id : String
  pub token : String

-- `secret` is there only in the answer to a creation.
pub record SubscriptionInfo : Type 0 where
  pub id : Uuid
  pub tenant_id : Uuid
  pub account_id : Uuid
  pub channel_id : Uuid
  pub url : String
  pub secret : Option Bytes
  pub match_json : String
  pub events : List String
  pub context_lines : ℤ
  pub debounce_ms : ℤ
  pub cooldown_ms : ℤ
  pub budget : String
  pub disabled_at : Option Time

pub record SubscriptionCreate : Type 0 where
  pub id : String
  pub channel_name : String
  pub channel_id : String
  pub url : String
  pub match_json : String
  pub events : List String
  pub context_lines : ℤ
  pub debounce_ms : ℤ
  pub cooldown_ms : ℤ
  pub budget : String

pub record SubscriptionList : Type 0 where
  pub id : String

pub record SubscriptionGet : Type 0 where
  pub id : String
  pub subscription_id : String

pub record SubscriptionUpdate : Type 0 where
  pub id : String
  pub subscription_id : String
  pub url : Option String
  pub match_json : Option String
  pub events : Option (List String)
  pub context_lines : Option ℤ
  pub debounce_ms : Option ℤ
  pub cooldown_ms : Option ℤ
  pub budget : Option String
  pub disabled : Option Bool

pub record SubscriptionDelete : Type 0 where
  pub id : String
  pub subscription_id : String

pub record SubscriptionOk : Type 0 where
  pub id : String
  pub subscription : SubscriptionInfo

pub record SubscriptionListOk : Type 0 where
  pub id : String
  pub subscriptions : List SubscriptionInfo

pub record SubscriptionDeleted : Type 0 where
  pub id : String
  pub subscription_id : String

pub record ChatHistory : Type 0 where
  pub id : String
  pub channel : String
  pub limit : ℤ
  pub before_ts : Time

pub record StoredMessageWire : Type 0 where
  pub id : Uuid
  pub sender : Uuid
  pub ts : Time
  pub body : String

pub record ChatHistoryOk : Type 0 where
  pub id : String
  pub channel : String
  pub messages : List StoredMessageWire

pub record Members : Type 0 where
  pub id : String
  pub channel : String

pub record MemberInfo : Type 0 where
  pub account_id : Uuid
  pub display_name : String
  pub account_type : String
  pub is_ghost : Bool
  pub conn_count : ℕ
  pub paused : Bool

pub record MembersOk : Type 0 where
  pub id : String
  pub channel : String
  pub members : List MemberInfo

-- `ChanopPauseBot` and `ChanopResumeBot` have the same fields.
pub record ChanopRequest : Type 0 where
  pub id : String
  pub channel : String
  pub bot_account_id : String
  pub reason : String

pub record ChanopOk : Type 0 where
  pub id : String
  pub action : String
  pub channel : String
  pub bot_account_id : Uuid

pub record Error : Type 0 where
  pub id : String
  pub reason : String
