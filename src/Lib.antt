-- ===== src/Lib.antt =====
-- PRM: a realtime message server with channels, and webhooks that fire on matching messages. A server
-- keeps channels in memory (internal/channels), fans each message out to the members, and hands it to
-- the webhook manager (internal/webhook), which holds the live subscriptions. A subscription's rules
-- (internal/matcher) select messages; its gate applies cooldown, daily budget and debounce; a worker
-- delivers what the gate lets through, with retries, and disables a subscription that keeps failing.
-- Accounts authenticate by password or token (internal/auth) against stored rows (internal/storage),
-- with tenants cached (internal/tenants); subscriptions are managed through internal/subops, over the
-- realtime protocol (internal/proto, internal/server) and over HTTP (internal/rest), where upstream
-- systems also post events that an adapter (internal/inbound) turns into messages.
--
-- Which file models what:
-- - Prelude: association lists for Go maps, native lists, `Result`, equality as an interface.
-- - Channels, internal/channels/channels.go: `Channel` with `AddMember`, `RemoveMember`, `Broadcast`,
--   `BroadcastExcept`, `AppendHistory`, `RecentMessages`; Channels/Registry: the 64 shards, `Get`,
--   `GetOrCreate`, `Remove`, `RemoveMemberFromAll`.
-- - Matcher, internal/matcher/matcher.go: `Compile`, `CompileRules`, `compileOne`, `Match`,
--   `evalRule`.
-- - Storage, internal/storage/storage.go: the rows, the roles, the interface `Store`.
-- - Storage.Sqlite, internal/storage/sqlite/sqlite.go: the tables of subscriptions, fires, tokens,
--   messages, pauses and moderation events as lists of rows in the order of insertion, each statement a
--   function on them.
-- - Auth, internal/auth/auth.go: `BeginPasswordAuth`, `CompletePasswordAuth`, `AuthenticateToken`,
--   `VerifyPassword`, `ComputeClientProof`; Auth/Parameters: `parseParams`.
-- - Tenants, internal/tenants/tenants.go: `BySlug`, `ByID`, `Create`, `Invalidate`.
-- - Subops, internal/subops/subops.go: `Create`, `Get`, `List`, `Update`, `Delete`.
-- - Webhook/Gate, internal/webhook/manager.go: `handleMatch`, `drainPendingLocked`, `flushDebounced`;
--   Webhook/Gate/Trace: the life of a subscription as a sequence of matches and timers.
-- - Webhook/Manager and Webhook/Sets, internal/webhook/manager.go: `AddOrUpdate`, `Remove`, `Reload`,
--   `SetBotPaused`, `IsBotPaused`; Webhook/Manager/Notify: `Notify`.
-- - Webhook/Payload, internal/webhook/payload.go: `Sign`, `Header`, `Verify`.
-- - Webhook/Transport, internal/webhook/transport.go: `ValidateURL`, `schemeOf`, the registry.
-- - Webhook/Worker, internal/webhook/worker.go: the queue, `deliver`, `autoDisable`.
-- - Proto/Frames and Proto/Kinds, internal/proto/frames.go: the frames and their types; Proto/Search and
--   Proto/Codec, internal/proto/codec.go: `bytesContains`, `EncodeBytes`, `Encode`, `Decode`,
--   `frameForType`.
-- - Server, internal/server: what the handlers share. Of internal/server/conn.go: Server/Dispatch,
--   `dispatch` and `readLoop`; Server/Login, `handleHello`, `handleAuthRequest`, `handleAuthResponse`;
--   Server/Joining, `handleJoin`, `handlePart`; Server/Messaging, `handleMsg`; Server/Outbound,
--   `Enqueue` and `writeLoop`.
-- - Server/Chanop, internal/server/chanop.go: `handleChanopPauseBot`, `handleChanopResumeBot`;
--   Server/Subscriptions, internal/server/subscriptions.go; Server/History,
--   internal/server/history.go; Server/Roster, internal/server/members.go: `handleMembers`,
--   `sortMembers`; Server/Publish, internal/server/publish.go: `PublishInbound`, `FormatEventBody`.
-- - Inbound, internal/inbound/adapter.go: the registry, `Truncate`, `NormalizeSeverity`; below it a
--   module for each adapter of internal/inbound/adapters; Inbound/Values: decoded JSON.
-- - Rest, internal/rest/rest.go: `auth` and the subscription handlers; Rest/Inbound,
--   internal/rest/inbound.go: `handleInbound`.
-- - Mention, internal/mention/mention.go: `Resolve`.
-- - Samples: rows and rules for the modules named Tests.
--
-- State is passed explicitly: an operation takes the old state and returns the new one, and says
-- beside it what it sends or leaves to be done. An operation is one step; the locks that make it one
-- are not modelled. Identifiers and times are numbers. Loops are structural recursion; the retry loop
-- recurses on the number of attempts left, which starts at the setting `MaxRetries`. The one loop on
-- fuel, `decode_all`, reads a stream of lines and is given more calls than it has frames. The queues
-- have the source's sizes: 1024 frames for a connection, 4096 messages for the history; a frame and a
-- posted body have at most 65536 bytes.
--
-- A parameter stands for each thing that the code only calls: the regular expressions, globs and JSON
-- reader (`Engine`), the JSON of frames (`Json`) and the lines of a `bufio.Scanner`, the database
-- (`Store`), base64, SHA-256 and Argon2, URL and UUID parsing, the transport of a delivery (`send`),
-- the MAC of a signature (`Calls`) and the clock.
--
-- Not modelled: the tables of internal/storage/sqlite other than those named above, and postgres; the
-- network transports of internal/webhook, which are clients of other systems; the listeners, the accept
-- loop and the timers of goroutines; leader election (internal/ha); the commands (cmd), which read flags
-- and connect the parts.
pub mod Prelude
pub mod Channels
pub mod Matcher
pub mod Storage
pub mod Auth
pub mod Tenants
pub mod Subops
pub mod Webhook
pub mod Proto
pub mod Inbound
pub mod Rest
pub mod Mention
pub mod Server
mod Samples
