-- ===== src/Server/Messaging/Relay/Tests.antt =====
-- The robot speaks in the lobby, and in a room that it has not joined.
use prm.Prelude.{
  String, ◌≡◌, ◌≢◌, ◌≤◌, refl, some, none, [], ◌∷◌, ◌++◌, lookup, nat_eq, string_eq, pair_eq,
  pair_beq_iff, eq_iff, Bool, true, ◌∙◌,
}
use native.Mathlib.Omega.{arith}
use prm.Channels.{Channel, new_channel, broadcast, append_history}
use prm.Channels.Registry.{Key, new_registry, get, update}
use prm.Channels.Registry.Laws.{IsSharded, get-update, update-IsSharded}
use prm.Mention
use prm.Mention.Distinct.{times, times-resolve}
use prm.Server.{Conn, World, encodes}
use prm.Proto.Codec.{encode_bytes, marshal_with_type}
use prm.Proto.Search.{bytes_contains}
use prm.Server.Messaging.{Env, entry_of, frame_of, handle_msg}
use prm.Server.Messaging.Relay.{handle_msg-relays}
use prm.Samples.{rows, permissive_engine, robot_conn, world}

abbrev env : Env
env = record {
  engine = permissive_engine;
  reader = record {
    has_at = λ body. Bool.true;
    tokens = λ body. "robot" ∷ "robot" ∷ [];
    parse_uuid = λ text. none;
  };
  clock = λ id. record { now = 1; drained = 2; today_start = 0 };
}

abbrev room : Channel
room = new_channel 1 20 "lobby"

abbrev key : Key
key = (1, 20)

abbrev busy : World (Unit {0})
busy = record world { registry = update new_registry key room }

abbrev speaker : Conn
speaker = record robot_conn { joined_channels = ("lobby", 20) ∷ [] }

abbrev lobby_name : String
lobby_name = "lobby"

abbrev text : String
text = "hi @robot"

named : lobby_name ≢ ""
named = λ e. absurd (ground (arith, (eq_iff lobby_name "").1 e))

spoken : text ≢ ""
spoken = λ e. absurd (ground (arith, (eq_iff text "").1 e))

new-IsSharded : IsSharded new_registry
unfolding new_registry
new-IsSharded = refl

joined : lookup lobby_name speaker.joined_channels ≡ some 20
unfolding lookup
joined = refl

room-live : get (update new_registry key room) key ≡ some room
room-live =
    get-update new_registry key key room new-IsSharded ∙ ground (arith, pair_beq_iff key key)

text-encoded : encodes busy (frame_of speaker lobby_name 5 text) ≡ true
unfolding encodes encode_bytes marshal_with_type bytes_contains
text-encoded = refl

handle_msg-relays_example :
    ((handle_msg rows env busy speaker "r3" lobby_name 5 text).0 ≡ speaker)
    × ((handle_msg rows env busy speaker "r3" lobby_name 5 text).1.sent
        ≡ [] ++ broadcast room (frame_of speaker lobby_name 5 text))
    × (get (handle_msg rows env busy speaker "r3" lobby_name 5 text).1.registry (1, 20)
        ≡ some (append_history room (entry_of speaker 5 text)))
handle_msg-relays_example =
    handle_msg-relays rows env busy speaker "r3" lobby_name 5 text 20 room named spoken joined
      room-live text-encoded (update-IsSharded new_registry key room new-IsSharded)

unjoined : lookup lobby_name robot_conn.joined_channels ≡ none
unfolding lookup
unjoined = refl

times-resolve_example : times 7 (Mention.resolve rows tt env.reader 1 text) ≤ 1
times-resolve_example = times-resolve rows tt env.reader 1 7 text
