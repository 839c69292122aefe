-- ===== src/Server/Joining/Tests.antt =====
-- The robot joins the lobby; and asks for a private room that has no entry for it.
use prm.Prelude.{
  String, ◌⊎◌, ◌≡◌, ◌≢◌, refl, true, false, some, lookup, nat_eq, string_eq, ok, err, eq_iff,
}
use native.Mathlib.Omega.{arith}
use prm.Channels.{Channel}
use prm.Channels.Registry.{new_registry, get}
use prm.Storage
use prm.Storage.{Store, not_found, channel_private}
use prm.Server.{member_of, may_join, acl_verdict}
use prm.Server.Joining.{handle_join, role_of}
use prm.Server.Joining.Entry.{handle_join-enters}
use prm.Server.Joining.Rights.{TurnedAway, Admits, handle_join_sound}
use prm.Samples.{rows, lobby, robot_conn, world}

abbrev cellar : Storage.Channel
cellar = record lobby { visibility = channel_private }

-- A store where the lobby is private and nobody has an entry.
abbrev locked : Store (Unit {0})
locked = record rows {
  get_channel_by_name = λ st tenant name. ok cellar;
  get_channel_acl = λ st tenant channel account. err not_found;
}

abbrev room : String
room = "lobby"

named : room ≢ ""
named = λ e. absurd (ground (arith, (eq_iff room "").1 e))

cellar-closed : may_join locked tt 1 cellar 7 ≡ (false, "not_in_acl")
unfolding may_join acl_verdict
cellar-closed = refl

handle_join_sound_example :
    TurnedAway world robot_conn (handle_join locked world robot_conn "r1" "lobby")
    ⊎ ((channel : Storage.Channel) × (locked.get_channel_by_name tt 1 "lobby" ≡ ok channel)
        × Admits locked tt 1 7 channel)
handle_join_sound_example = handle_join_sound locked world robot_conn "r1" "lobby"

lobby-open : (may_join rows tt 1 lobby 7).0 ≡ true
unfolding may_join acl_verdict
lobby-open = refl

handle_join-enters_example :
    (lookup "lobby" (handle_join rows world robot_conn "r1" "lobby").0.joined_channels ≡ some 20)
    × (lookup "lobby" (handle_join rows world robot_conn "r1" "lobby").0.joined_roles
        ≡ some (role_of (rows.get_channel_acl tt 1 20 7)))
    × (ch : Channel) × (get (handle_join rows world robot_conn "r1" "lobby").1.registry (1, 20)
        ≡ some ch)
    × (lookup 11 ch.members ≡ some (member_of robot_conn))
unfolding new_registry
handle_join-enters_example =
    handle_join-enters rows world robot_conn "r1" "lobby" lobby named refl lobby-open refl
