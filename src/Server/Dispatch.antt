-- ===== src/Server/Dispatch.antt =====
-- internal/server/conn.go: what a frame of the client does, before and after authentication. `setup` is
-- what the server calls, `chance` the clock and the random bytes of one frame.
pub mod Gate
pub mod Identity
use prm.Prelude.{String, List, [], ◌∷◌, ◌++◌, ltb, length, if◌then◌else◌, true, false}
use prm.Channels.{Time}
use prm.Storage.{Bytes, Store}
use prm.Subops
use prm.Proto.Frames.{Pong}
use prm.Proto.Kinds.{Frame}
use prm.Server.{Conn, World, send_error}
use prm.Server.Joining.{handle_join, handle_part}
use prm.Server.Messaging
use prm.Server.Messaging.{handle_msg}
use prm.Server.Chanop.{handle_pause_bot, handle_resume_bot}
use prm.Server.Login.{Wire, handle_hello, handle_ping, handle_auth_request, handle_auth_response}
use prm.Server.Subscriptions.{
  handle_subscription_create, handle_subscription_list, handle_subscription_get,
  handle_subscription_update, handle_subscription_delete,
}
use prm.Server.History.{handle_chat_history}
use prm.Server.Roster.{handle_members}

pub record Setup (S : Type 0) : Type 0 where
  pub store : Store S
  pub wire : Wire
  pub messaging : Messaging.Env
  pub subops : Subops.Env

pub record Chance : Type 0 where
  pub now : Time
  pub nonce : Bytes
  pub secret : Bytes

-- The ping loop may not be reading: a fifth answer is dropped.
unfoldable pub handle_pong : Conn → Pong → Conn
handle_pong c p = if ltb (length c.pongs) 4 then record c { pongs = c.pongs ++ p.token ∷ [] } else c

module _ {S : Type 0} (setup : Setup S) (chance : Chance) where
  unfoldable pub dispatch_open : World S → Conn → Frame → Conn × World S
  dispatch_open w c (Frame.hello v) = (c, handle_hello setup.wire w c v)
  dispatch_open w c (Frame.auth_request v) =
      handle_auth_request setup.store setup.wire chance.nonce w c v
  dispatch_open w c (Frame.auth_response v) = handle_auth_response setup.store setup.wire w c v
  dispatch_open w c (Frame.pong v) = (handle_pong c v, w)
  dispatch_open w c (Frame.ping v) = (c, handle_ping w c v)
  dispatch_open w c f = (c, send_error w c "not_authenticated" "")

  unfoldable pub dispatch_authed : World S → Conn → Frame → Conn × World S
  dispatch_authed w c (Frame.join v) = handle_join setup.store w c v.id v.channel
  dispatch_authed w c (Frame.part v) = handle_part w c v.id v.channel
  dispatch_authed w c (Frame.msg v) =
      handle_msg setup.store setup.messaging w c v.id v.channel chance.now v.body
  dispatch_authed w c (Frame.ping v) = (c, handle_ping w c v)
  dispatch_authed w c (Frame.pong v) = (handle_pong c v, w)
  dispatch_authed w c (Frame.subscription_create v) =
      (c, handle_subscription_create setup.store setup.subops chance.secret w c v)
  dispatch_authed w c (Frame.subscription_list v) =
      (c, handle_subscription_list setup.store setup.subops w c v)
  dispatch_authed w c (Frame.subscription_get v) =
      (c, handle_subscription_get setup.store setup.subops w c v)
  dispatch_authed w c (Frame.subscription_update v) =
      (c, handle_subscription_update setup.store setup.subops chance.now w c v)
  dispatch_authed w c (Frame.subscription_delete v) =
      (c, handle_subscription_delete setup.store setup.subops w c v)
  dispatch_authed w c (Frame.chathistory v) = (c, handle_chat_history setup.store w c v)
  dispatch_authed w c (Frame.members v) = (c, handle_members setup.store w c v)
  dispatch_authed w c (Frame.chanop_pause_bot v) =
      (c, handle_pause_bot setup.store setup.subops.parse_uuid chance.now w c v)
  dispatch_authed w c (Frame.chanop_resume_bot v) =
      (c, handle_resume_bot setup.store setup.subops.parse_uuid chance.now w c v)
  dispatch_authed w c f = (c, send_error w c "unsupported" "")

  unfoldable pub dispatch : World S → Conn → Frame → Conn × World S
  dispatch w c f = if c.authed then dispatch_authed w c f else dispatch_open w c f

module _ {S : Type 0} (setup : Setup S) where
  -- The read loop over the frames of a client, each with its chance.
  unfoldable pub read_loop : World S → Conn → List (Chance × Frame) → Conn × World S
  unfolding dispatch
  read_loop w c [] = (c, w)
  read_loop w c ((chance, f) ∷ rest) =
      let (c', w') = dispatch setup chance w c f in read_loop w' c' rest
