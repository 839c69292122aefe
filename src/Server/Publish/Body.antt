-- ===== src/Server/Publish/Body.antt =====
-- internal/server/publish.go: the text of an inbound event.
use Prim.Native.String.{◌++◌}
use prm.Prelude.{String, ◌==◌, string_eq, if◌then◌else◌}
use prm.Inbound.{Event, severity_info}

abbrev or_text : String → String → String
or_text s d = if s == "" then d else s

-- `[severity] source/service: summary`
unfoldable pub format_event_body : Event → String
format_event_body ev =
    let prefix =
      "["
      ++ or_text ev.severity severity_info
      ++ "] "
      ++ or_text ev.source "inbound"
      ++ (if ev.service == "" then "" else "/" ++ ev.service) in
    if ev.summary == "" then prefix else prefix ++ ": " ++ ev.summary
