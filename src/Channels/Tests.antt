-- ===== src/Channels/Tests.antt =====
-- A channel with three members and three messages, and a registry with it.
use prm.Prelude.{
  ℕ, ◌≡◌, refl, List, [], ◌∷◌, take, min, to_nat, reverse, pos, if◌then◌else◌, pair_eq, nat_eq,
  lookup,
}
use prm.Channels.{
  HistoryEntry, Channel, new_channel, broadcast, recent_messages, is_some, default_history_size,
}
use prm.Channels.Ring.{append_all}
use prm.Channels.Recent.{recent_messages-append_all}
use prm.Channels.Fanout.{IsKeyed, deliveries, deliveries-broadcast}
use prm.Channels.Registry.{Key}

abbrev message : ℕ → HistoryEntry
message ts = record { sender = 7; display_name = "Robot"; ts = ts; body = "hi" }

abbrev messages : List HistoryEntry
messages = message 1 ∷ message 2 ∷ message 3 ∷ []

recent_messages-append_all_example :
    recent_messages (append_all (new_channel 1 20 "lobby") messages) (pos 2)
    ≡ reverse (take (min (to_nat (pos 2)) default_history_size) (reverse messages))
recent_messages-append_all_example =
    recent_messages-append_all 1 20 "lobby" messages (pos 2) (refl, (refl, (refl, tt)))

abbrev crowd : Channel
crowd = record {
  tenant_id = 1;
  id = 20;
  name = "lobby";
  members =
      (11, record { conn_id = 11; account_id = 7; display_name = "Robot" })
      ∷ (12, record { conn_id = 12; account_id = 9; display_name = "Ann" })
      ∷ [];
  hist = [];
  hist_pos = 0;
}

crowd-IsKeyed : IsKeyed crowd.members
unfolding lookup
crowd-IsKeyed = (refl, refl, (refl, refl, tt))

abbrev frame : ℕ
frame = 5

deliveries-broadcast_example :
    deliveries 12 (broadcast crowd frame) ≡ (if is_some (lookup 12 crowd.members) then 1 else 0)
deliveries-broadcast_example = deliveries-broadcast crowd frame 12 crowd-IsKeyed

abbrev home : Key
home = (1, 20)
