-- ===== src/Storage/Sqlite/Messages/Newest.antt =====
-- The messages that are listed are the newest.
use native.Mathlib.Omega.{arith}
use mathlib.Core.List.{Perm, Pairwise}
use prm.Prelude.{
  ◌==◌, nat_eq, All, ◌<◌, ◌*◌, ◌/◌, true, not, if◌then◌else◌, ℕ, zero, suc, ◌≤◌, ◌≡◌, ◌⊎◌, inl, inr,
  refl, sym, ap, subst, ℤ, pos, negsuc, Bool, false, List, [], ◌∷◌, ◌++◌, reverse, take, drop,
  length, ltb, nat_eq, ok,
}
use prm.Channels.{Uuid, Time}
use prm.Storage.{StoredMessage}
use prm.Storage.Sqlite.{Database}
use prm.Storage.Sqlite.Rows.{keep}
use prm.Storage.Sqlite.Rows.Laws.{keep-perm, All-keep}
use prm.Storage.Sqlite.Ordering.{sort_by}
use prm.Storage.Sqlite.Ordering.Laws.{IsOrder, sort_by-perm_nil, sort_by-Pairwise}
use prm.Storage.Sqlite.Messages.{clamp, asked_for, list_messages}

abbrev newer : StoredMessage → StoredMessage → Bool
newer x y = ltb y.ts x.ts

-- The first is not older than the second.
abbrev pub NotOlder : StoredMessage → StoredMessage → Type 0
NotOlder x y = ltb x.ts y.ts ≡ false

newer-IsOrder : IsOrder newer
newer-IsOrder = record {
  trans = λ x y z p q. ground (arith, p, q);
  asym = λ x y p. ground (arith, p);
}

module _ {ℓ} {A : Type ℓ} where
  take-drop : (n : ℕ) (l : List A) → take n l ++ drop n l ≡ l
  take-drop zero l = refl
  take-drop (suc n) [] = refl
  take-drop (suc n) (x ∷ l) = ap (λ m. x ∷ m) (take-drop n l)

  length-take : (n : ℕ) (l : List A) → length (take n l) ≤ n
  length-take zero l = omega arith
  length-take (suc n) [] = omega arith
  length-take (suc n) (x ∷ l) = omega (arith, length-take n l)

  full_or_all : (n : ℕ) (l : List A) → (drop n l ≡ []) ⊎ (length (take n l) ≡ n)
  full_or_all zero l = inr refl
  full_or_all (suc n) [] = inl refl
  full_or_all (suc n) (x ∷ l) = elim (full_or_all n l) [ inl e ↦ inl e | inr e ↦ inr (ap suc e) ]

-- How many messages a request is for.
pub data PageSize : ℤ → ℕ → Type 0 where
  negative : {n : ℕ} → PageSize (negsuc n) 50
  unset : PageSize (pos 0) 50
  as_asked : {n : ℕ} → 0 < n → n ≤ 500 → PageSize (pos n) n
  most : {n : ℕ} → 500 < n → PageSize (pos n) 500

clamp-PageSize : (limit : ℤ) → PageSize limit (clamp limit)
clamp-PageSize (negsuc n) = PageSize.negative
clamp-PageSize (pos n) = by_tests (n == 0) (ltb 500 n) refl refl
  where
    by_tests :
        (b c : Bool)
        → (n == 0) ≡ b
        → ltb 500 n ≡ c
        → PageSize (pos n) (if b then 50 else if c then 500 else n)
    by_tests true c e f =
        subst (λ k. PageSize (pos k) 50) (sym ((nat_eq.beq_iff n 0).0 e)) PageSize.unset
    by_tests false true e f = PageSize.most (ground (arith, f))
    by_tests false false e f = PageSize.as_asked (ground (arith, e)) (ground (arith, f))

-- A message of the tenant's channel, before the time to the microsecond, where one is given.
abbrev pub IsAsked : Uuid → Uuid → Time → StoredMessage → Type 0
IsAsked tenant_id channel_id before_ts m =
    (m.tenant_id ≡ tenant_id)
    × (m.channel_id ≡ channel_id)
    × ((before_ts ≡ 0) ⊎ (m.ts < before_ts / 1000 * 1000))

module _ (tenant_id channel_id : Uuid) (before_ts : Time) where
  asked_for-IsAsked :
      (m : StoredMessage)
      → asked_for tenant_id channel_id before_ts m ≡ true
      → IsAsked tenant_id channel_id before_ts m
  asked_for-IsAsked m e = ground (arith, e)

  not-IsAsked :
      (m : StoredMessage)
      → not (asked_for tenant_id channel_id before_ts m) ≡ true
      → ¬ IsAsked tenant_id channel_id before_ts m
  not-IsAsked m e h = ground (arith, e, h)

-- The answer is a page of messages, the oldest first. The messages that the tenant's channel has before
-- the time, to the microsecond, or at any time where none is given, are the page and the rest; none
-- stands before one of them that is newer; the page has at most as many as the limit asks for, which is
-- 50 where it is not positive and 500 where it is more, and fewer only where there is no rest.
pub list_messages-newest :
    (db : Database) (tenant_id channel_id : Uuid) (limit : ℤ) (before_ts : Time)
    → (page : List StoredMessage) × (rest : List StoredMessage) × (asked : List StoredMessage)
      × (others : List StoredMessage) × (size : ℕ) × (list_messages db tenant_id channel_id limit
            before_ts
          ≡ ok (reverse page))
      × Perm (asked ++ others) db.messages
      × All (IsAsked tenant_id channel_id before_ts) asked
      × All (λ m. ¬ IsAsked tenant_id channel_id before_ts m) others
      × Perm (page ++ rest) asked
      × Pairwise NotOlder (page ++ rest)
      × PageSize limit size
      × (length page ≤ size)
      × ((rest ≡ []) ⊎ (length page ≡ size))
unfolding list_messages
list_messages-newest db tenant_id channel_id limit before_ts =
    let p = asked_for tenant_id channel_id before_ts in
    let asked = keep p db.messages in
    let others = keep (λ m. not (p m)) db.messages in
    let sorted = sort_by newer [] asked in
    let n = clamp limit in
    let whole = take-drop n sorted in
    (
      take n sorted,
      drop n sorted,
      asked,
      others,
      n,
      refl,
      keep-perm p db.messages,
      All-keep p (asked_for-IsAsked tenant_id channel_id before_ts) db.messages,
      All-keep (λ m. not (p m)) (not-IsAsked tenant_id channel_id before_ts) db.messages,
      subst (λ l. Perm l asked) (sym whole) (sort_by-perm_nil newer asked),
      subst (Pairwise NotOlder) (sym whole)
          (sort_by-Pairwise newer newer-IsOrder [] asked Pairwise.nil),
      clamp-PageSize limit,
      length-take n sorted,
      full_or_all n sorted,
    )
