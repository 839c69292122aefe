-- ===== src/Webhook/Transport.antt =====
-- internal/webhook/transport.go: the check of a subscription's URL, and the registry of transports.
-- `UrlReader` is what the file calls of the Go library: `url.Parse`, `strings.ToLower`, and
-- `strings.TrimPrefix` of a slash. A transport is a value of any type.
use prm.Prelude.{
  String, ◌≡◌, refl, Bool, ◌||◌, Option, none, some, List, [], ◌∷◌, any, if◌then◌else◌, ◌==◌,
  string_eq, Assoc, lookup, insert, lookup-insert, Result, ok, err,
}
use native.Mathlib.Omega.{arith}

pub record Url : Type 0 where
  pub scheme : String
  pub host : String
  pub path : String
  pub query : String → String

pub record UrlReader : Type 0 where
  pub parse : String → Option Url
  pub to_lower : String → String
  pub trim_slash : String → String

pub data UrlError : Type 0 where
  url_required malformed missing_host missing_routing_key missing_topic bad_qos unsupported_scheme :
      UrlError

module _ (reader : UrlReader) where
  validate_http : Url → Result UrlError (Unit {0})
  validate_http u = if u.host == "" then err missing_host else ok tt

  validate_amqp : Url → Result UrlError (Unit {0})
  validate_amqp u =
      if u.host == ""
      then err missing_host
      else if u.query "routing_key" == ""
      then err missing_routing_key
      else ok tt

  -- A `qos` that is absent and one that is empty read the same.
  valid_qos : String → Bool
  valid_qos q = q == "" || (q == "0" || (q == "1" || q == "2"))

  validate_mqtt : Url → Result UrlError (Unit {0})
  unfolding valid_qos
  validate_mqtt u =
      if u.host == ""
      then err missing_host
      else if reader.trim_slash u.path == ""
      then err missing_topic
      else if valid_qos (u.query "qos")
      then ok tt
      else err bad_qos

  validate_scheme : String → Url → Result UrlError (Unit {0})
  unfolding validate_http validate_amqp validate_mqtt
  validate_scheme scheme u =
      if scheme == "https" || scheme == "http"
      then validate_http u
      else if scheme == "amqp" || scheme == "amqps"
      then validate_amqp u
      else if scheme == "mqtt" || scheme == "mqtts"
      then validate_mqtt u
      else err unsupported_scheme

  validate_parsed : Option Url → Result UrlError (Unit {0})
  unfolding validate_scheme
  validate_parsed none = err malformed
  validate_parsed (some u) = validate_scheme (reader.to_lower u.scheme) u

  unfoldable pub validate_url : String → Result UrlError (Unit {0})
  unfolding validate_parsed
  validate_url raw = if raw == "" then err url_required else validate_parsed (reader.parse raw)

  scheme_of_parsed : Option Url → String
  scheme_of_parsed none = ""
  scheme_of_parsed (some u) = reader.to_lower u.scheme

  unfoldable pub scheme_of : String → String
  unfolding scheme_of_parsed
  scheme_of raw = scheme_of_parsed (reader.parse raw)

  module _ {T : Type 0} where
    -- The schemes of one transport are registered in turn.
    unfoldable pub register : List String → T → Assoc String T → Assoc String T
    register [] t r = r
    register (s ∷ schemes) t r = register schemes t (insert (reader.to_lower s) t r)

    unfoldable pub transport_for : String → Assoc String T → Option T
    transport_for scheme r = lookup (reader.to_lower scheme) r

    -- After a transport is registered for its schemes, a scheme that is one of them but for the case
    -- of its letters gets that transport, and any other the one it had.
    pub transport_for-register :
        (schemes : List String) (t : T) (r : Assoc String T) (scheme : String)
        → transport_for scheme (register schemes t r) ≡ (
            if any (λ s. reader.to_lower s == reader.to_lower scheme) schemes
            then some t
            else transport_for scheme r)
    unfolding transport_for register
    transport_for-register [] t r scheme = refl
    transport_for-register (s ∷ schemes) t r scheme =
        let rest = transport_for-register schemes t (insert (reader.to_lower s) t r) scheme in
        ground (arith, rest, lookup-insert (reader.to_lower s) (reader.to_lower scheme) t r)
