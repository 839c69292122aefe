-- ===== src/Channels.antt =====
-- internal/channels/channels.go: the in-memory channels. A channel's members and its history ring.
-- Enqueueing on a connection is an effect of the caller: a broadcast returns the deliveries that it
-- makes, and the server applies them. The registry of all channels is in the child `Registry`.
pub mod Ring
pub mod Recent
pub mod Fanout
pub mod Registry
mod Tests
use prm.Prelude.{
  ℕ, zero, suc, ◌+◌, ◌-◌, ◌%◌, String, Bool, true, false, not, ◌&&◌, Option, none, some, List, [],
  ◌∷◌, map, reverse, ltb, if◌then◌else◌, ◌==◌, nat_eq, string_eq, length, get_or, set, replicate,
  Assoc, lookup, insert, delete, ℤ, pos, negsuc, is_positive, to_nat,
}

-- A 128-bit identifier, compared and hashed only; `uuid.Nil` is 0.
abbrev pub Uuid : Type 0
Uuid = ℕ

-- Nanoseconds; the zero `time.Time` is 0.
abbrev pub Time : Type 0
Time = ℕ

-- The interface `Member`: its `Enqueue` is the delivery to `conn_id`.
pub record Member : Type 0 where
  pub conn_id : Uuid
  pub account_id : Uuid
  pub display_name : String

pub record HistoryEntry : Type 0 where
  pub sender : Uuid
  pub display_name : String
  pub ts : Time
  pub body : String

-- `HistoryEntry{}`
abbrev pub zero_entry : HistoryEntry
zero_entry = record { sender = 0; display_name = ""; ts = 0; body = "" }

abbrev pub default_history_size : ℕ
default_history_size = 32

pub record Channel : Type 0 where
  pub tenant_id : Uuid
  pub id : Uuid
  pub name : String
  pub members : Assoc Uuid Member
  pub hist : List HistoryEntry
  pub hist_pos : ℕ

unfoldable pub new_channel : Uuid → Uuid → String → Channel
new_channel tenant_id id name = record {
  tenant_id = tenant_id;
  id = id;
  name = name;
  members = [];
  hist = replicate default_history_size zero_entry;
  hist_pos = 0;
}

abbrev pub is_some {ℓ} : {A : Type ℓ} → Option A → Bool
is_some none = false
is_some (some a) = true

-- The Boolean is true when the connection is new to the channel.
unfoldable pub add_member : Channel → Member → Channel × Bool
add_member c m = (
  record c { members = insert m.conn_id m c.members },
  not (is_some (lookup m.conn_id c.members)),
)

-- The Boolean is true when the connection was there.
unfoldable pub remove_member : Channel → Uuid → Channel × Bool
remove_member c conn_id =
    (record c { members = delete conn_id c.members }, is_some (lookup conn_id c.members))

module _ {ℓ} {F : Type ℓ} where
  deliver_all : F → Assoc Uuid Member → List (Uuid × F)
  deliver_all frame [] = []
  deliver_all frame ((id, m) ∷ rest) = (m.conn_id, frame) ∷ deliver_all frame rest

  deliver_except : F → Uuid → Assoc Uuid Member → List (Uuid × F)
  deliver_except frame skip [] = []
  deliver_except frame skip ((id, m) ∷ rest) =
      let others = deliver_except frame skip rest in
      if id == skip then others else (m.conn_id, frame) ∷ others

  unfoldable pub broadcast : Channel → F → List (Uuid × F)
  unfolding deliver_all
  broadcast c frame = deliver_all frame c.members

  unfoldable pub broadcast_except : Channel → F → Uuid → List (Uuid × F)
  unfolding deliver_except
  broadcast_except c frame skip = deliver_except frame skip c.members

unfoldable pub append_history : Channel → HistoryEntry → Channel
append_history c e = record c {
  hist = set c.hist c.hist_pos e;
  hist_pos = (c.hist_pos + 1) % length c.hist;
}

-- `e.TS.IsZero() && e.Body == ""`
abbrev pub is_unused : HistoryEntry → Bool
is_unused e = (e.ts == 0) && (e.body == "")

-- The entry that the `i`-th round of the loop reads: the `i`-th newest.
abbrev slot : Channel → ℕ → HistoryEntry
slot c i = get_or c.hist ((c.hist_pos + length c.hist - 1 - i) % length c.hist) zero_entry

-- The rounds `i`, `i + 1`, … of the loop, `k` of them left.
walk_back : Channel → ℕ → ℕ → List HistoryEntry
walk_back c i zero = []
walk_back c i (suc k) =
    let older = walk_back c (i + 1) k in if is_unused (slot c i) then [] else slot c i ∷ older

abbrev clamp : ℕ → ℕ → ℕ
clamp n depth = if ltb depth n then depth else n

unfoldable pub recent_messages : Channel → ℤ → List HistoryEntry
unfolding walk_back
recent_messages c n =
    if is_positive n then reverse (walk_back c 0 (clamp (to_nat n) (length c.hist))) else []

unfoldable pub member_count : Channel → ℕ
member_count c = length c.members

abbrev pair_member : Uuid × Member → Member
pair_member p = p.1

unfoldable pub members_of : Channel → List Member
members_of c = map pair_member c.members
