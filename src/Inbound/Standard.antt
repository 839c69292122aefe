-- ===== src/Inbound/Standard.antt =====
-- The adapters that register themselves: the `init` functions of internal/inbound/adapters.
use prm.Prelude.{[]}
use prm.Inbound.{Adapters, register}
use prm.Inbound.Splunk
use prm.Inbound.Graylog
use prm.Inbound.Datadog
use prm.Inbound.Generic
use prm.Inbound.Github

pub record Calls : Type 0 where
  pub datadog : Datadog.Calls
  pub generic : Generic.Calls
  pub github : Github.Calls
  pub graylog : Graylog.Calls
  pub splunk : Splunk.Calls

unfoldable pub standard : Calls → Adapters
standard calls =
    register
      (register
        (register
          (register (register [] "datadog" (Datadog.normalize calls.datadog)) "generic"
            (Generic.normalize calls.generic))
          "github" (Github.normalize calls.github))
        "graylog" (Graylog.normalize calls.graylog))
      "splunk" (Splunk.normalize calls.splunk)
