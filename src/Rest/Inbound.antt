-- ===== src/Rest/Inbound.antt =====
-- internal/rest/inbound.go: an event that an upstream system posts. `read_body` is what `io.ReadAll` gets
-- of the body within the limit, `content_length` what the client claims.
pub mod Accepting
mod Tests
use prm.Prelude.{
  ℕ, ℤ, pos, negsuc, String, Bool, true, false, ltb, length, Option, none, some, if◌then◌else◌,
  ◌==◌, nat_eq, string_eq, Result, ok, err,
}
use prm.Channels.{Uuid, Time}
use prm.Storage.{Bytes, Store, Read, StoreError, Tenant, Integration, tenant_suspended}
use prm.Inbound.{
  Event, AdapterError, adapter_unknown, bad_input, missing, rate_limit, Headers, Normalize,
  Adapters, lookup_adapter,
}
use prm.Rest.{Reply, error, status, bearer}
use prm.Server.{World}
use prm.Server.Messaging.{Env}
use prm.Server.Publish.{PublishError, publish_inbound}

abbrev pub max_inbound_body_bytes : ℕ
max_inbound_body_bytes = 65536

pub record Post : Type 0 where
  pub path_id : String
  pub authorization : String
  pub headers : Headers
  pub content_length : ℤ
  pub read_body : Option Bytes

pub record Calls : Type 0 where
  pub trim_space : String → String
  pub sha256 : String → Bytes
  pub parse_uuid : String → Option Uuid

unfoldable pub map_inbound_reason : AdapterError → String
map_inbound_reason missing = "missing_field"
map_inbound_reason bad_input = "bad_input"
map_inbound_reason rate_limit = "rate_limited"
map_inbound_reason adapter_unknown = "adapter_error"

abbrev exceeds : ℤ → Bool
exceeds (pos n) = ltb max_inbound_body_bytes n
exceeds (negsuc n) = false

-- The status and the code of an error.
abbrev pub Refusal : Type 0
Refusal = ℕ × String

too_large : Refusal
too_large = (413, "payload_too_large")

module _ {S : Type 0} (store : Store S) (calls : Calls) where
  in_tenant : Integration → Read Tenant → Result Refusal Integration
  in_tenant integ (err e) = err (401, "invalid_token")
  in_tenant integ (ok tenant) =
      if tenant.status == tenant_suspended then err (403, "tenant_suspended") else ok integ

  for_path : S → Uuid → Read Integration → Result Refusal Integration
  unfolding in_tenant
  for_path st id (err e) = err (401, "invalid_token")
  for_path st id (ok integ) =
      if integ.id == id
      then in_tenant integ (store.get_tenant_by_id st integ.tenant_id)
      else err (401, "invalid_token")

  with_token : S → Uuid → Result String String → Result Refusal Integration
  unfolding for_path
  with_token st id (err code) = err (401, code)
  with_token st id (ok plain) =
      for_path st id (store.get_integration_by_token_hash st (calls.sha256 plain))

  with_id : S → Post → Option Uuid → Result Refusal Integration
  unfolding with_token
  with_id st p none = err (400, "bad_id")
  with_id st p (some id) = with_token st id (bearer calls.trim_space p.authorization)

  -- The integration that the token is of and that the path names.
  unfoldable pub integration_of : S → Post → Result Refusal Integration
  unfolding with_id
  integration_of st p = with_id st p (calls.parse_uuid p.path_id)

  within : Option Bytes → Result Refusal Bytes
  unfolding too_large
  within none = err (400, "read_body")
  within (some body) = if ltb max_inbound_body_bytes (length body) then err too_large else ok body

  unfoldable pub body_of : Post → Result Refusal Bytes
  unfolding within too_large
  body_of p = if exceeds p.content_length then err too_large else within p.read_body

  made : Result AdapterError Event → Result Refusal Event
  made (err e) = err (400, (map_inbound_reason e))
  made (ok ev) = ok ev

  adapted : Post → Integration → Bytes → Time → Result AdapterError Normalize → Result Refusal Event
  unfolding made
  adapted p integ body now (err e) = err (500, "adapter_unavailable")
  adapted p integ body now (ok normalize) = made (normalize body p.headers integ.settings_json now)

  unfoldable pub event_of : Adapters → Post → Integration → Bytes → Time → Result Refusal Event
  unfolding adapted
  event_of adapters p integ body now =
      adapted p integ body now (lookup_adapter adapters integ.adapter)

  replied : Result PublishError (Unit {0}) × World S → Reply × World S
  replied (err e, w) = (error 500 "publish_failed", w)
  replied (ok _, w) = (status 202, w)

  publish_event : Env → World S → Integration → Time → Result Refusal Event → Reply × World S
  unfolding replied
  publish_event env w integ now (err (n, code)) = (error n code, w)
  publish_event env w integ now (ok ev) =
      replied (publish_inbound store env w integ.tenant_id integ.channel_id integ.account_id ev now)

  with_body :
      Env → Adapters → World S → Post → Integration → Time → Result Refusal Bytes → Reply × World S
  unfolding publish_event
  with_body env adapters w p integ now (err (n, code)) = (error n code, w)
  with_body env adapters w p integ now (ok body) =
      publish_event env w integ now (event_of adapters p integ body now)

  admitted : Env → Adapters → World S → Post → Time → Result Refusal Integration → Reply × World S
  unfolding with_body
  admitted env adapters w p now (err (n, code)) = (error n code, w)
  admitted env adapters w p now (ok integ) = with_body env adapters w p integ now (body_of p)

  unfoldable pub handle_inbound : Bool → Env → Adapters → World S → Post → Time → Reply × World S
  unfolding admitted
  handle_inbound has_publisher env adapters w p now =
      if has_publisher
      then admitted env adapters w p now (integration_of w.state p)
      else (error 501 "no_publisher", w)
