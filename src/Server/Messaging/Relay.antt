-- ===== src/Server/Messaging/Relay.antt =====
-- What becomes of a message.
mod Tests
use prm.Prelude.{
  ℕ, String, ◌≡◌, ◌≢◌, refl, subst, sym, ap, ◌∙◌, Bool, true, false, Option, none, some, List, [],
  ◌∷◌, ◌++◌, if◌then◌else◌, ◌==◌, string_eq, nat_eq, pair_eq, pair_beq_iff, eq_iff, lookup,
}
use native.Mathlib.Omega.{arith}
use prm.Channels.{Uuid, Time, Channel, HistoryEntry, broadcast, append_history}
use prm.Channels.Registry.{Key, Registry, get, update}
use prm.Channels.Registry.Laws.{IsSharded, get-update}
use prm.Storage.{Store}
use prm.Webhook.Manager.{Manager}
use prm.Proto.Kinds.{Frame}
use prm.Server.{Conn, World, encodes, send_frames, send_error, queue}
use prm.Server.Messaging.{
  Env, entry_of, frame_of, notify_webhooks, relay, msg_live, msg_encoded, msg_joined, handle_msg,
}

module _ {S : Type 0} (store : Store S) (env : Env) where
  -- The notification sends no frame and leaves the channels alone.
  notify_webhooks_lem :
      (o : Option Manager) (w : World S) (c : Conn) (name : String) (chan_id : Uuid) (now : Time)
      (body : String) (hist : List HistoryEntry)
      → ((notify_webhooks store env o w c name chan_id now body hist).sent ≡ w.sent)
        × ((notify_webhooks store env o w c name chan_id now body hist).registry ≡ w.registry)
  unfolding notify_webhooks
  notify_webhooks_lem none w c name chan_id now body hist = (refl, refl)
  notify_webhooks_lem (some m) w c name chan_id now body hist = (refl, refl)

  relay_lem :
      (ch : Channel) (w : World S) (c : Conn) (name : String) (chan_id : Uuid) (now : Time)
      (body : String)
      → IsSharded w.registry
      → ((relay store env ch w c name chan_id now body).sent
          ≡ w.sent ++ broadcast ch (frame_of c name now body))
        × (get (relay store env ch w c name chan_id now body).registry (c.tenant_id, chan_id)
            ≡ some (append_history ch (entry_of c now body)))
  unfolding relay queue send_frames
  relay_lem ch w c name chan_id now body v =
      let k : Key = (c.tenant_id, chan_id) in
      let ch' = append_history ch (entry_of c now body) in
      let calm = notify_webhooks_lem w.webhooks _ c name chan_id now body _ in
      (
        calm.0,
        ap (λ r. get r k) calm.1
            ∙ get-update w.registry k k ch' v
            ∙ ground (arith, pair_beq_iff k k),
      )

  named :
      (w : World S) (c : Conn) (id name : String) (now : Time) (body : String)
      → name ≢ ""
      → body ≢ ""
      → handle_msg store env w c id name now body
        ≡ msg_joined store env (lookup name c.joined_channels) w c id name now body
  unfolding handle_msg
  named w c id name now body n b =
      by_tests (name == "") (body == "") (ground (arith, eq_iff name "", n))
        (ground (arith, eq_iff body "", b))
    where
      by_tests :
          (p q : Bool)
          → p ≡ false
          → q ≡ false
          → (if p
              then (c, send_error w c "invalid_request" id)
              else if q
              then (c, w)
              else msg_joined store env (lookup name c.joined_channels) w c id name now body)
            ≡ msg_joined store env (lookup name c.joined_channels) w c id name now body
      by_tests false false e f = refl
      by_tests true q e f = absurd (ground (arith, e))
      by_tests false true e f = absurd (ground (arith, f))

  -- A message that is not empty and that `EncodeBytes` accepts, to a channel that the connection
  -- has joined and that is in memory, enqueues one frame, with the sender and the server's time, as
  -- a broadcast of the channel and nothing else, and is appended to the channel's history; the
  -- connection stays as it was.
  pub handle_msg-relays :
      (w : World S) (c : Conn) (id name : String) (now : Time) (body : String) (chan_id : Uuid)
      (ch : Channel)
      → name ≢ ""
      → body ≢ ""
      → lookup name c.joined_channels ≡ some chan_id
      → get w.registry (c.tenant_id, chan_id) ≡ some ch
      → encodes w (frame_of c name now body) ≡ true
      → IsSharded w.registry
      → ((handle_msg store env w c id name now body).0 ≡ c)
        × ((handle_msg store env w c id name now body).1.sent
            ≡ w.sent ++ broadcast ch (frame_of c name now body))
        × (get (handle_msg store env w c id name now body).1.registry (c.tenant_id, chan_id)
            ≡ some (append_history ch (entry_of c now body)))
  unfolding msg_joined msg_live msg_encoded
  handle_msg-relays w c id name now body chan_id ch n b e f g v =
      let whole : handle_msg store env w c id name now body
          ≡ (c, relay store env ch w c name chan_id now body) =
        named w c id name now body n b
        ∙ ap (λ o. msg_joined store env o w c id name now body) e
        ∙ ap (λ o. msg_live store env o w c id name chan_id now body) f
        ∙ ap (λ b. msg_encoded store env b ch w c id name chan_id now body) g in
      let done = relay_lem ch w c name chan_id now body v in
      (
        ap (λ r. r.0) whole,
        ap (λ r. r.1.sent) whole ∙ done.0,
        ap (λ r. get r.1.registry (c.tenant_id, chan_id)) whole ∙ done.1,
      )

  -- A message that is not empty, to a channel that the connection has not joined, reaches nobody: one
  -- error frame to the connection is all that changes.
  pub handle_msg-unjoined :
      (w : World S) (c : Conn) (id name : String) (now : Time) (body : String)
      → name ≢ ""
      → body ≢ ""
      → lookup name c.joined_channels ≡ none
      → handle_msg store env w c id name now body ≡ (c, send_error w c "not_in_channel" id)
  unfolding msg_joined
  handle_msg-unjoined w c id name now body n b e =
      named w c id name now body n b ∙ ap (λ o. msg_joined store env o w c id name now body) e
