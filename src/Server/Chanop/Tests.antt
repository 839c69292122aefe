-- ===== src/Server/Chanop/Tests.antt =====
-- An owner and a plain member who ask for the robot to be paused.
use prm.Prelude.{String, ◌≡◌, refl, true, some, Option, [], ◌∷◌, lookup, string_eq, ok, err}
use prm.Channels.{Uuid}
use prm.Storage.{can_moderate, role_owner, role_member, account_bot}
use prm.Server.{Conn}
use prm.Proto.Frames.{ChanopRequest}
use prm.Server.Chanop.{
  or_empty_role, target_channel, target_account, target_id, target_joined, resolve_chanop_target,
}
use prm.Server.Chanop.Authority.{resolve_chanop_target_sound}
use prm.Samples.{rows, robot, lobby, robot_conn}

abbrev owner : Conn
owner = record robot_conn {
  joined_channels = ("lobby", 20) ∷ [];
  joined_roles = ("lobby", role_owner) ∷ [];
}

abbrev plain : Conn
plain = record owner { joined_roles = ("lobby", role_member) ∷ [] }

abbrev ask : ChanopRequest
ask = record { id = "r2"; channel = "lobby"; bot_account_id = "7"; reason = "loud" }

abbrev parse : String → Option Uuid
parse text = some 7

owner-resolves : resolve_chanop_target rows parse tt owner ask ≡ ok (robot, lobby)
unfolding resolve_chanop_target target_joined target_id target_account target_channel can_moderate
    lookup
owner-resolves = refl

resolve_chanop_target_sound_example :
    (can_moderate (or_empty_role (lookup "lobby" owner.joined_roles)) ≡ true)
    × (chan_id : Uuid) × (lookup "lobby" owner.joined_channels ≡ some chan_id)
    × (rows.get_channel_by_id tt 1 chan_id ≡ ok lobby)
    × (bot_id : Uuid) × (parse "7" ≡ some bot_id)
    × (rows.get_account_by_id tt 1 bot_id ≡ ok robot)
    × (robot.kind ≡ account_bot)
resolve_chanop_target_sound_example =
    resolve_chanop_target_sound rows parse tt robot lobby owner ask owner-resolves

plain-refused : resolve_chanop_target rows parse tt plain ask ≡ err "permission_denied"
unfolding resolve_chanop_target target_joined can_moderate lookup
plain-refused = refl
