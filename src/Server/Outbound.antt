-- ===== src/Server/Outbound.antt =====
-- internal/server/conn.go: the outbound queue of a connection. A turn of the write goroutine takes the
-- oldest frame; it stops where the write fails, and after a write where too many frames were dropped.
pub mod Accounting
mod Tests
use prm.Prelude.{ℕ, ◌+◌, Bool, true, false, not, List, [], ◌∷◌, ◌++◌, length, ltb, if◌then◌else◌}
use prm.Storage.{Bytes}

abbrev pub outbound_queue_size : ℕ
outbound_queue_size = 1024

abbrev pub lagging_threshold : ℕ
lagging_threshold = 256

-- `written` is what the connection's `bufio.Writer` took, in order; what a flush of it loses, whose error
-- is ignored, is not followed. `writing` is false once the write goroutine has returned,
-- which alone does not close the connection.
pub record Outbound : Type 0 where
  pub out : List Bytes
  pub written : List Bytes
  pub drop_count : ℕ
  pub closed : Bool
  pub writing : Bool

abbrev pub new_outbound : Outbound
new_outbound = record { out = []; written = []; drop_count = 0; closed = false; writing = true }

unfoldable pub enqueue : Outbound → Bytes → Outbound
enqueue o frame =
    if o.closed
    then o
    else if ltb (length o.out) outbound_queue_size
    then record o { out = o.out ++ frame ∷ [] }
    else record o { drop_count = o.drop_count + 1 }

-- The first argument is whether the write succeeds; a frame whose write fails is gone.
write_frame : Bool → Outbound → Bytes → List Bytes → Outbound
write_frame false o frame rest = record o { out = rest; writing = false }
write_frame true o frame rest = record o {
  out = rest;
  written = o.written ++ frame ∷ [];
  writing = not (ltb lagging_threshold o.drop_count);
}

unfoldable pub write_next : Bool → Outbound → Outbound
unfolding write_frame
write_next success o =
    if o.writing then elim o.out [ [] ↦ o | frame ∷ rest ↦ write_frame success o frame rest ] else o
