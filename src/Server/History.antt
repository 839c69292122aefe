-- ===== src/Server/History.antt =====
-- internal/server/history.go: the writer of durable history with its bounded queue, and the request for
-- stored messages. A run of the writer's goroutine is a sequence of `write_next`.
use prm.Prelude.{
  ℕ, ◌+◌, List, [], ◌∷◌, ◌++◌, map, length, ltb, if◌then◌else◌, ◌==◌, string_eq, pos, is_positive,
  ok, err,
}
use prm.Storage
use prm.Storage.{Store, Read, StoredMessage}
use prm.Proto.Frames.{ChatHistory, StoredMessageWire}
use prm.Proto.Kinds.{Frame}
use prm.Server.{Conn, World, send_frame, send_error}

abbrev pub history_writer_depth : ℕ
history_writer_depth = 4096

-- `waiting` is the buffered channel `in`, the oldest message first.
pub record HistoryWriter : Type 0 where
  pub waiting : List StoredMessage
  pub dropped : ℕ

abbrev pub new_history_writer : HistoryWriter
new_history_writer = record { waiting = []; dropped = 0 }

unfoldable pub enqueue : HistoryWriter → StoredMessage → HistoryWriter
enqueue h m =
    if ltb (length h.waiting) history_writer_depth
    then record h { waiting = h.waiting ++ m ∷ [] }
    else record h { dropped = h.dropped + 1 }

module _ {S : Type 0} (store : Store S) where
  write : HistoryWriter → Read (Unit {0}) × S → S × HistoryWriter
  write h (ok _, st) = (st, h)
  write h (err e, st) = (st, record h { dropped = h.dropped + 1 })

  unfoldable pub write_next : S → HistoryWriter → S × HistoryWriter
  unfolding write
  write_next st h = elim h.waiting [
    | [] ↦ (st, h)
    | m ∷ rest ↦ write (record h { waiting = rest }) (store.record_message st m)
  ]

  abbrev wire_of : StoredMessage → StoredMessageWire
  wire_of m = record { id = m.id; sender = m.from_account_id; ts = m.ts; body = m.body }

  listed : World S → Conn → ChatHistory → Read (List StoredMessage) → World S
  listed w c m (err e) = send_error w c "internal" m.id
  listed w c m (ok messages) = send_frame w c (
      Frame.chathistory_ok
        (record { id = m.id; channel = m.channel; messages = map wire_of messages }))

  history_found : World S → Conn → ChatHistory → Read Storage.Channel → World S
  unfolding listed
  history_found w c m (err e) = send_error w c "channel_not_found" m.id
  history_found w c m (ok ch) = listed w c m (
      store.list_messages w.state c.tenant_id ch.id
        (if is_positive m.limit then m.limit else pos 50) m.before_ts)

  unfoldable pub handle_chat_history : World S → Conn → ChatHistory → World S
  unfolding history_found
  handle_chat_history w c m =
      if m.channel == ""
      then send_error w c "invalid_request" m.id
      else history_found w c m (store.get_channel_by_name w.state c.tenant_id m.channel)
