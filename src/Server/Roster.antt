-- ===== src/Server/Roster.antt =====
-- internal/server/members.go: who is in a channel. `sort.SliceStable` is an insertion sort that keeps
-- equal rows in order. The identifiers are compared as the numbers whose text they are.
pub mod Order
pub mod Sorting
pub mod Unique
mod Tests
use Prim.Native.String
use text.Mathlib.Text.{is_lt}
use prm.Prelude.{
  ℕ, ◌+◌, String, Bool, true, false, not, Option, none, some, List, [], ◌∷◌, ◌++◌, is_empty, ltb,
  if◌then◌else◌, ◌==◌, nat_eq, string_eq, Assoc, insert, lookup, Result, ok, err,
}
use prm.Channels.{Uuid, Member, Channel, members_of}
use prm.Channels.Registry.{get}
use prm.Storage
use prm.Storage.{Store, Read, Account, account_bot, account_human}
use prm.Webhook.Manager.{Manager, is_bot_paused}
use prm.Proto.Frames.{Members, MemberInfo}
use prm.Proto.Kinds.{Frame}
use prm.Server.{Conn, World, send_frame, send_error, may_join}

before_by_name : MemberInfo → MemberInfo → Bool
before_by_name x y =
    if x.display_name == y.display_name
    then ltb x.account_id y.account_id
    else is_lt (String.compare x.display_name y.display_name)

-- Whether the first row stands before the second.
unfoldable pub before : MemberInfo → MemberInfo → Bool
unfolding before_by_name
before x y =
    if x.is_ghost
    then (if y.is_ghost then before_by_name x y else false)
    else if y.is_ghost
    then true
    else before_by_name x y

-- After the rows that the new one does not stand before.
insert_row : MemberInfo → List MemberInfo → List MemberInfo
insert_row x [] = x ∷ []
insert_row x (y ∷ rows) =
    let rest = insert_row x rows in if before x y then x ∷ y ∷ rows else y ∷ rest

sort_onto : List MemberInfo → List MemberInfo → List MemberInfo
unfolding insert_row
sort_onto sorted [] = sorted
sort_onto sorted (x ∷ rows) = sort_onto (insert_row x sorted) rows

unfoldable pub sort_members : List MemberInfo → List MemberInfo
unfolding sort_onto
sort_members rows = sort_onto [] rows

-- `liveAggr`, the display name of the first connection and their number, under the account.
abbrev pub Live : Type 0
Live = Assoc Uuid (String × ℕ)

abbrev counted : Option (String × ℕ) → Member → String × ℕ
counted none m = (m.display_name, 1)
counted (some (name, n)) m = (name, n + 1)

unfoldable pub tally : Live → List Member → Live
tally live [] = live
tally live (m ∷ rest) = tally (insert m.account_id (counted (lookup m.account_id live) m) live) rest

abbrev members_in : Option Channel → List Member
members_in none = []
members_in (some ch) = members_of ch

-- The accounts of the subscriptions that are not live, each once.
ghosts : Live → Assoc Uuid (Unit {0}) → List Storage.Subscription → Assoc Uuid (Unit {0})
ghosts live found [] = found
ghosts live found (s ∷ rest) = elim (lookup s.account_id live) [
  | some a ↦ ghosts live found rest
  | none ↦ ghosts live (insert s.account_id tt found) rest
]

is_paused : Option Manager → Uuid → Uuid → String → Bool
is_paused none channel_id account_id kind = false
is_paused (some m) channel_id account_id kind =
    if kind == account_bot then is_bot_paused m channel_id account_id else false

-- The account of a live row may be gone.
live_kind : Read Account → String
live_kind (err e) = account_human
live_kind (ok acc) = acc.kind

live_name : Read Account → String → String
live_name (err e) name = name
live_name (ok acc) name = if name == "" then acc.display_name else name

module _ {S : Type 0} (store : Store S) where
  live_rows : World S → Conn → Uuid → Live → List MemberInfo
  unfolding live_kind live_name is_paused
  live_rows w c channel_id [] = []
  live_rows w c channel_id ((account_id, (name, n)) ∷ rest) =
      let acc = store.get_account_by_id w.state c.tenant_id account_id in
      record {
        account_id = account_id;
        display_name = live_name acc name;
        account_type = live_kind acc;
        is_ghost = false;
        conn_count = n;
        paused = is_paused w.webhooks channel_id account_id (live_kind acc);
      }
      ∷ live_rows w c channel_id rest

  -- A ghost whose account is gone has no row.
  ghost_row : Option Manager → Uuid → Uuid → Read Account → List MemberInfo
  unfolding is_paused
  ghost_row mgr channel_id account_id (err e) = []
  ghost_row mgr channel_id account_id (ok acc) =
      record {
        account_id = account_id;
        display_name = acc.display_name;
        account_type = acc.kind;
        is_ghost = true;
        conn_count = 0;
        paused = is_paused mgr channel_id account_id acc.kind;
      }
      ∷ []

  ghost_rows : World S → Conn → Uuid → Assoc Uuid (Unit {0}) → List MemberInfo
  unfolding ghost_row
  ghost_rows w c channel_id [] = []
  ghost_rows w c channel_id ((account_id, _) ∷ rest) =
      ghost_row w.webhooks channel_id account_id
        (store.get_account_by_id w.state c.tenant_id account_id)
      ++ ghost_rows w c channel_id rest

  subs_read : World S → Conn → Members → Uuid → Live → Read (List Storage.Subscription) → World S
  unfolding live_rows ghost_rows ghosts
  subs_read w c m channel_id live (err e) = send_error w c "internal" m.id
  subs_read w c m channel_id live (ok subs) =
      let rows = live_rows w c channel_id live ++ ghost_rows w c channel_id (ghosts live [] subs) in
      send_frame w c
        (Frame.members_ok (record { id = m.id; channel = m.channel; members = sort_members rows }))

  roster_for : World S → Conn → Members → Storage.Channel → Bool × String → World S
  unfolding subs_read
  roster_for w c m ch (false, reason) = send_error w c reason m.id
  roster_for w c m ch (true, reason) =
      subs_read w c m ch.id (tally [] (members_in (get w.registry (c.tenant_id, ch.id))))
        (store.list_subscriptions_by_channel w.state c.tenant_id ch.id)

  roster_found : World S → Conn → Members → Read Storage.Channel → World S
  unfolding roster_for
  roster_found w c m (err e) = send_error w c "channel_not_found" m.id
  roster_found w c m (ok ch) =
      roster_for w c m ch (may_join store w.state c.tenant_id ch c.account_id)

  unfoldable pub handle_members : World S → Conn → Members → World S
  unfolding roster_found
  handle_members w c m =
      if m.channel == ""
      then send_error w c "invalid_request" m.id
      else roster_found w c m (store.get_channel_by_name w.state c.tenant_id m.channel)
