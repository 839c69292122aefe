-- ===== src/Server/Messaging/Identity.antt =====
-- A message keeps the account of the connection.
use prm.Prelude.{refl, String, Bool, true, false, Option, none, some, ◌==◌, string_eq}
use prm.Channels.{Uuid, Time, Channel}
use prm.Storage.{Store}
use prm.Server.{Conn, World}
use prm.Server.Identity.{Same, Same-self, either}
use prm.Server.Messaging.{Env, handle_msg, msg_joined, msg_live, msg_encoded}

module _ {S : Type 0} (store : Store S) (env : Env) where
  msg_encoded-Same :
      (b : Bool) (ch : Channel) (w : World S) (c : Conn) (id name : String) (chan_id : Uuid)
      (now : Time) (body : String)
      → Same c (msg_encoded store env b ch w c id name chan_id now body).0
  unfolding msg_encoded
  msg_encoded-Same true ch w c id name chan_id now body = Same-self c
  msg_encoded-Same false ch w c id name chan_id now body = Same-self c

  msg_live-Same :
      (o : Option Channel) (w : World S) (c : Conn) (id name : String) (chan_id : Uuid) (now : Time)
      (body : String)
      → Same c (msg_live store env o w c id name chan_id now body).0
  unfolding msg_live
  msg_live-Same none w c id name chan_id now body = (refl, refl, refl, refl, refl)
  msg_live-Same (some ch) w c id name chan_id now body =
      msg_encoded-Same _ ch w c id name chan_id now body

  msg_joined-Same :
      (o : Option Uuid) (w : World S) (c : Conn) (id name : String) (now : Time) (body : String)
      → Same c (msg_joined store env o w c id name now body).0
  unfolding msg_joined
  msg_joined-Same none w c id name now body = Same-self c
  msg_joined-Same (some chan_id) w c id name now body = msg_live-Same _ w c id name chan_id now body

  pub handle_msg-Same :
      (w : World S) (c : Conn) (id name : String) (now : Time) (body : String)
      → Same c (handle_msg store env w c id name now body).0
  unfolding handle_msg
  handle_msg-Same w c id name now body =
      either (name == "") c _ _ (Same-self c)
        (either (body == "") c _ _ (Same-self c) (msg_joined-Same _ w c id name now body))
