-- ===== src/Webhook/Manager/Index.antt =====
-- The channel index names exactly the cached subscriptions of each channel.
use prm.Prelude.{
  String, ◌≡◌, refl, sym, ◌∙◌, Bool, false, Option, none, some, arith, if◌then◌else◌, ◌==◌, nat_eq,
  lookup, insert, lookup-insert, lookup-delete, Bool-cases, inl, inr, Result-cases,
}
use prm.Channels.{Uuid}
use prm.Matcher.{Engine}
use prm.Storage
use prm.Webhook.{Subscription, Budget}
use prm.Webhook.Sets.{
  has, add_to, drop_from, has-add_to, has-drop_from, IsLean, IsLean-add_to, IsLean-drop_from,
}
use prm.Webhook.Manager.{
  Manager, new_manager, put, unindex_old, add_live, drop_sub, remove, add_or_update,
  compile_subscription,
}

abbrev pub on_channel : Uuid → Option Subscription → Bool
on_channel c none = false
on_channel c (some s) = s.channel_id == c

-- The index and the cache agree; each entry stands under its id; no channel has an empty entry.
pub record IsIndexed (m : Manager) : Type 0 where
  pub agrees : (c i : Uuid) → has c i m.by_channel ≡ on_channel c (lookup i m.subs)
  pub keyed : (i : Uuid) (s : Subscription) → lookup i m.subs ≡ some s → s.id ≡ i
  pub lean : IsLean m.by_channel

pub IsIndexed-new_manager : IsIndexed new_manager
unfolding new_manager has lookup
IsIndexed-new_manager = record {
  agrees = λ c i. refl;
  keyed = λ i s h. cc;
  lean = record { at = λ c h. cc };
}

pub keyed-insert :
    (m : Manager) (live : Subscription)
    → IsIndexed m
    → (i : Uuid) (s : Subscription) → lookup i (insert live.id live m.subs) ≡ some s
    → s.id ≡ i
keyed-insert m live v i s h =
    let e = sym (lookup-insert live.id i live m.subs) ∙ h in ground (arith, v.keyed i s)

-- The index after the old version has left it.
agrees_without_old :
    (o : Option Subscription) (live : Subscription) (m : Manager)
    → lookup live.id m.subs ≡ o
    → IsIndexed m
    → (c i : Uuid)
    → has c i (add_to live.channel_id live.id (unindex_old o live m).by_channel)
      ≡ on_channel c (if live.id == i then some live else lookup i m.subs)
unfolding unindex_old
agrees_without_old none live m e v c i =
    rw (has-add_to live.channel_id live.id c i m.by_channel) (ground (arith, v.agrees c i))
agrees_without_old (some old) live m e v c i =
    elim (Bool-cases (old.channel_id == live.channel_id)) [
      | inl k ↦
          rw (k, has-add_to live.channel_id live.id c i m.by_channel) (ground (arith, v.agrees c i))
      | inr k ↦
          rw
            (
              k,
              has-add_to live.channel_id live.id c i (drop_from old.channel_id old.id m.by_channel),
              has-drop_from old.channel_id old.id c i m.by_channel,
            )
            (ground (arith, v.agrees c i, v.keyed live.id old e))
    ]

subs-unindex_old :
    (o : Option Subscription) (live : Subscription) (m : Manager)
    → (unindex_old o live m).subs ≡ m.subs
unfolding unindex_old
subs-unindex_old none live m = refl
subs-unindex_old (some old) live m = elim (Bool-cases (old.channel_id == live.channel_id)) [
  | inl k ↦ rw k
  | inr k ↦ rw k
]

IsLean-unindex_old :
    (o : Option Subscription) (live : Subscription) (m : Manager)
    → IsLean m.by_channel
    → IsLean (unindex_old o live m).by_channel
unfolding unindex_old
IsLean-unindex_old none live m l = l
IsLean-unindex_old (some old) live m l = elim (Bool-cases (old.channel_id == live.channel_id)) [
  | inl k ↦ rw k l
  | inr k ↦ rw k (IsLean-drop_from old.channel_id old.id m.by_channel l)
]

-- Caching a new or changed subscription keeps the channel index exact, with each entry under its id
-- and no empty entry, also when the subscription moves to another channel.
pub add_live-IsIndexed :
    (m : Manager) (live : Subscription) → IsIndexed m → IsIndexed (add_live m live)
unfolding add_live put
add_live-IsIndexed m live v =
    let o = lookup live.id m.subs in
    let same = subs-unindex_old o live m in
    record {
      agrees = λ c i.
          rw (same, lookup-insert live.id i live m.subs) (agrees_without_old o live m refl v c i);
      keyed = rw same (keyed-insert m live v);
      lean = IsLean-add_to live.channel_id live.id _ (IsLean-unindex_old o live m v.lean);
    }

drop_sub-IsIndexed :
    (o : Option Subscription) (id : Uuid) (m : Manager)
    → lookup id m.subs ≡ o
    → IsIndexed m
    → IsIndexed (drop_sub o id m)
unfolding drop_sub
drop_sub-IsIndexed none id m e v = v
drop_sub-IsIndexed (some sub) id m e v = record {
  agrees = λ c i.
      rw (has-drop_from sub.channel_id id c i m.by_channel, lookup-delete id i m.subs)
        (ground (arith, v.agrees c i));
  keyed = λ i s h. let k = sym (lookup-delete id i m.subs) ∙ h in ground (arith, v.keyed i s);
  lean = IsLean-drop_from sub.channel_id id m.by_channel v.lean;
}

-- So does dropping a subscription.
pub remove-IsIndexed : (m : Manager) (id : Uuid) → IsIndexed m → IsIndexed (remove m id)
unfolding remove
remove-IsIndexed m id v = drop_sub-IsIndexed (lookup id m.subs) id m refl v

drop_sub_lem :
    (o : Option Subscription) (id j : Uuid) (m : Manager)
    → lookup id m.subs ≡ o
    → lookup j (drop_sub o id m).subs ≡ (if id == j then none else lookup j m.subs)
unfolding drop_sub
drop_sub_lem none id j m e = ground arith
drop_sub_lem (some sub) id j m e = lookup-delete id j m.subs

pub lookup-remove :
    (m : Manager) (id j : Uuid)
    → lookup j (remove m id).subs ≡ (if id == j then none else lookup j m.subs)
unfolding remove
lookup-remove m id j = drop_sub_lem (lookup id m.subs) id j m refl

module _ (engine : Engine) (parse_budget : String → Option Budget) where
  -- `AddOrUpdate` keeps the channel index exact whether or not the row compiles.
  pub add_or_update-IsIndexed :
      (m : Manager) (sub : Storage.Subscription)
      → IsIndexed m
      → IsIndexed (add_or_update engine parse_budget m sub).1
  unfolding add_or_update
  add_or_update-IsIndexed m sub v =
      elim (Result-cases (compile_subscription engine parse_budget sub)) [
        | inl (live, e) ↦ rw (e, add_or_update) (add_live-IsIndexed m live v)
        | inr (bad, e) ↦ rw (e, add_or_update) v
      ]
