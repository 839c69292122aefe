-- ===== src/Server/Joining/Identity.antt =====
-- Joining and leaving keep the account of the connection.
use prm.Prelude.{
  refl, String, Bool, true, false, Option, none, some, ◌==◌, string_eq, lookup, ok, err,
}
use prm.Channels.{Uuid}
use prm.Storage
use prm.Storage.{Store, Read}
use prm.Server.{Conn, World}
use prm.Server.Identity.{Same, Same-self, either}
use prm.Server.Joining.{handle_join, join_found, join_allowed, handle_part, part_joined}

module _ {S : Type 0} where
  join_allowed-Same :
      (store : Store S) (w : World S) (c : Conn) (id name : String) (ch : Storage.Channel)
      (p : Bool × String)
      → Same c (join_allowed store w c id name ch p).0
  unfolding join_allowed
  join_allowed-Same store w c id name ch (true, reason) = (refl, refl, refl, refl, refl)
  join_allowed-Same store w c id name ch (false, reason) = Same-self c

  join_found-Same :
      (store : Store S) (w : World S) (c : Conn) (id name : String) (r : Read Storage.Channel)
      → Same c (join_found store w c id name r).0
  unfolding join_found
  join_found-Same store w c id name (ok ch) = join_allowed-Same store w c id name ch _
  join_found-Same store w c id name (err e) = Same-self c

  pub handle_join-Same :
      (store : Store S) (w : World S) (c : Conn) (id name : String)
      → Same c (handle_join store w c id name).0
  unfolding handle_join
  handle_join-Same store w c id name =
      either (name == "") c _ _ (Same-self c) (join_found-Same store w c id name _)

  part_joined-Same :
      (o : Option Uuid) (w : World S) (c : Conn) (name : String) → Same c (part_joined o w c name).0
  unfolding part_joined
  part_joined-Same none w c name = Same-self c
  part_joined-Same (some id) w c name = (refl, refl, refl, refl, refl)

  pub handle_part-Same :
      (w : World S) (c : Conn) (id name : String) → Same c (handle_part w c id name).0
  unfolding handle_part
  handle_part-Same w c id name =
      either (name == "") c _ _ (Same-self c)
        (part_joined-Same (lookup name c.joined_channels) w c name)
