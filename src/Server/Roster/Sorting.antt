-- ===== src/Server/Roster/Sorting.antt =====
-- The roster is ordered, and does not depend on the order in which the maps yield their rows.
use Prim.Native.Nat.{Ordering}
use Prim.Native.String
use native.Mathlib.Omega.{arith}
use text.Mathlib.Text.{is_lt, is_eq}
use text.Mathlib.TextPositions.{compare_refl}
use mathlib.Core.List.{Mem, Perm, Pairwise, Pairwise-singleton, forall_mem-cons, perm_middle}
use mathlib.Core.List.Perm
use prm.Prelude.{
  ◌⊎◌, ◌==◌, string_eq, eq_iff, ltb, inl, inr, ◌≤◌, ◌≡◌, refl, sym, ap, subst, ◌∙◌, Bool, true,
  false, List, [], ◌∷◌, ◌++◌, if◌then◌else◌, append-nil,
}
use prm.Prelude.Orderings.{Coherent, text-Coherent}
use prm.Proto.Frames.{MemberInfo}
use prm.Server.Roster.{before, before_by_name, insert_row, sort_onto, sort_members}
use prm.Server.Roster.Order.{rows-Coherent, compare_rows_self, before_lem}

-- The second row does not stand before the first.
abbrev pub InOrder : MemberInfo → MemberInfo → Type 0
InOrder x y = before y x ≡ false

abbrev pub IsSorted : List MemberInfo → Type 0
IsSorted = Pairwise InOrder

unfoldable pub Below : MemberInfo → List MemberInfo → Type 0
Below a l = (x : MemberInfo) → Mem x l → InOrder a x

InOrder-prop : (a x : MemberInfo) → IsProp (InOrder a x)
InOrder-prop a x = hlevel

not_lt : (a b c : Ordering) → Coherent a b c → is_lt a ≡ false → is_lt b ≡ false → is_lt c ≡ false
not_lt Ordering.eq b c h p q = ap is_lt h ∙ q
not_lt Ordering.gt Ordering.eq c h p q = ap is_lt h
not_lt Ordering.gt Ordering.gt c h p q = ap is_lt h
not_lt Ordering.gt Ordering.lt c h p q = absurd (ground (arith, q))
not_lt Ordering.lt b c h p q = absurd (ground (arith, p))

both_lt : (a b c : Ordering) → Coherent a b c → c ≡ Ordering.eq → is_lt a ≡ true → is_lt b ≡ false
both_lt Ordering.lt Ordering.lt c h p q = absurd (ground (arith, h, p))
both_lt Ordering.lt Ordering.eq c h p q = refl
both_lt Ordering.lt Ordering.gt c h p q = refl
both_lt Ordering.eq b c h p q = absurd (ground (arith, q))
both_lt Ordering.gt b c h p q = absurd (ground (arith, q))

pub InOrder-self : (x : MemberInfo) → InOrder x x
InOrder-self x = before_lem x x ∙ ap is_lt (compare_rows_self x)

InOrder-trans : (x y z : MemberInfo) → InOrder x y → InOrder y z → InOrder x z
InOrder-trans x y z p q =
    before_lem z x
    ∙ not_lt _ _ _ (rows-Coherent z y x) (sym (before_lem z y) ∙ q) (sym (before_lem y x) ∙ p)

before-InOrder : (x y : MemberInfo) → before x y ≡ true → InOrder x y
before-InOrder x y p =
    before_lem y x
    ∙ both_lt _ _ _ (rows-Coherent x y x) (compare_rows_self x) (sym (before_lem x y) ∙ p)

Below-cons : (a b : MemberInfo) (l : List MemberInfo) → InOrder a b → Below a l → Below a (b ∷ l)
unfolding Below
Below-cons a b l p h = (forall_mem-cons (InOrder-prop a)).1 (p, h)

pub Below-perm : (a : MemberInfo) (l r : List MemberInfo) → Perm l r → Below a r → Below a l
unfolding Below
Below-perm a l r p h x m = h x ((Perm.mem_iff p).0 m)

pub Below-head :
    (a b : MemberInfo) (l : List MemberInfo) → InOrder a b → IsSorted (b ∷ l) → Below a (b ∷ l)
unfolding Below
Below-head a b l p (Pairwise.cons h _) = Below-cons a b l p (λ x m. InOrder-trans a b x p (h x m))

insert_row-perm : (x : MemberInfo) (l : List MemberInfo) → Perm (insert_row x l) (x ∷ l)
unfolding insert_row
insert_row-perm x [] = Perm.rfl
insert_row-perm x (y ∷ l) = by_test (before x y) (insert_row-perm x l)
  where
    by_test :
        (b : Bool)
        → Perm (insert_row x l) (x ∷ l)
        → Perm (if b then x ∷ y ∷ l else y ∷ insert_row x l) (x ∷ y ∷ l)
    by_test true p = Perm.rfl
    by_test false p = Perm.trans (Perm.cons y p) (Perm.swap x y l)

insert_row-IsSorted :
    (x : MemberInfo) (l : List MemberInfo) → IsSorted l → IsSorted (insert_row x l)
unfolding insert_row Below
insert_row-IsSorted x [] s = Pairwise-singleton _ x
insert_row-IsSorted x (y ∷ l) (Pairwise.cons below s) =
    by_test (before x y) refl (insert_row-IsSorted x l s)
  where
    by_test :
        (b : Bool)
        → before x y ≡ b
        → IsSorted (insert_row x l)
        → IsSorted (if b then x ∷ y ∷ l else y ∷ insert_row x l)
    by_test true e k =
        let whole : IsSorted (y ∷ l) = Pairwise.cons below s in
        Pairwise.cons (Below-head x y l (before-InOrder x y e) whole) whole
    by_test false e k =
        Pairwise.cons
          (Below-perm y (insert_row x l) (x ∷ l) (insert_row-perm x l) (Below-cons y x l e below)) k

sort_onto-IsSorted :
    (sorted rows : List MemberInfo) → IsSorted sorted → IsSorted (sort_onto sorted rows)
unfolding sort_onto
sort_onto-IsSorted sorted [] s = s
sort_onto-IsSorted sorted (x ∷ rows) s =
    sort_onto-IsSorted (insert_row x sorted) rows (insert_row-IsSorted x sorted s)

sort_onto-perm : (sorted rows : List MemberInfo) → Perm (sort_onto sorted rows) (rows ++ sorted)
unfolding sort_onto
sort_onto-perm sorted [] = Perm.rfl
sort_onto-perm sorted (x ∷ rows) =
    Perm.trans (sort_onto-perm (insert_row x sorted) rows)
      (Perm.trans (Perm.append_left rows (insert_row-perm x sorted)) (perm_middle rows sorted))

-- The first row may stand before the second: a live one before a ghost; of two live ones or two ghosts
-- the one with the lesser display name, and of the same name the one whose account is not greater.
abbrev pub Listed : MemberInfo → MemberInfo → Type 0
Listed x y =
    ((x.is_ghost ≡ false) × (y.is_ghost ≡ true))
    ⊎ ((x.is_ghost ≡ y.is_ghost)
        × ((String.compare x.display_name y.display_name ≡ Ordering.lt)
            ⊎ ((x.display_name ≡ y.display_name) × (x.account_id ≤ y.account_id))))

lt_of_gt : (a b : Ordering) → Coherent a b Ordering.eq → a ≡ Ordering.gt → b ≡ Ordering.lt
lt_of_gt Ordering.gt Ordering.lt h e = refl
lt_of_gt Ordering.gt Ordering.eq h e = absurd (ground (arith, h))
lt_of_gt Ordering.gt Ordering.gt h e = absurd (ground (arith, h))
lt_of_gt Ordering.eq b h e = absurd (ground (arith, e))
lt_of_gt Ordering.lt b h e = absurd (ground (arith, e))

name_gt :
    (x y : MemberInfo)
    → String.compare y.display_name x.display_name ≡ Ordering.gt
    → String.compare x.display_name y.display_name ≡ Ordering.lt
name_gt x y e =
    lt_of_gt _ _
      (subst
        (Coherent (String.compare y.display_name x.display_name)
          (String.compare x.display_name y.display_name))
        (compare_refl y.display_name) (text-Coherent y.display_name x.display_name y.display_name))
      e

-- The names and the accounts of rows that are both live or both ghosts.
abbrev ByName : MemberInfo → MemberInfo → Type 0
ByName x y =
    (String.compare x.display_name y.display_name ≡ Ordering.lt)
    ⊎ ((x.display_name ≡ y.display_name) × (x.account_id ≤ y.account_id))

not_before_by_name : (x y : MemberInfo) → before_by_name y x ≡ false → ByName x y
unfolding before_by_name
not_before_by_name x y e = by_name (String.compare y.display_name x.display_name) refl e
  where
    by_name :
        (o : Ordering)
        → String.compare y.display_name x.display_name ≡ o
        → (if is_eq o then ltb y.account_id x.account_id else is_lt o) ≡ false
        → ByName x y
    by_name Ordering.lt a k = absurd (ground (arith, k))
    by_name Ordering.gt a k = inl (name_gt x y a)
    by_name Ordering.eq a k =
        let same : (y.display_name == x.display_name) ≡ true = ap is_eq a in
        inr (sym ((eq_iff y.display_name x.display_name).0 same), ground (arith, k))

InOrder-Listed : (x y : MemberInfo) → InOrder x y → Listed x y
unfolding before
InOrder-Listed x y e = by_ghost x.is_ghost y.is_ghost refl refl e
  where
    by_ghost :
        (g h : Bool)
        → x.is_ghost ≡ g
        → y.is_ghost ≡ h
        → (if h
            then (if g then before_by_name y x else false)
            else if g
            then true
            else before_by_name y x)
          ≡ false
        → Listed x y
    by_ghost false true a b k = inl (a, b)
    by_ghost true false a b k = absurd (ground (arith, k))
    by_ghost true true a b k = inr (a ∙ sym b, not_before_by_name x y k)
    by_ghost false false a b k = inr (a ∙ sym b, not_before_by_name x y k)

Listed-sorted : (l : List MemberInfo) → IsSorted l → Pairwise Listed l
Listed-sorted [] s = Pairwise.nil
Listed-sorted (x ∷ l) (Pairwise.cons h s) =
    Pairwise.cons (λ y m. InOrder-Listed x y (h y m)) (Listed-sorted l s)

pub sort_members-IsSorted :
    (rows : List MemberInfo) → Perm (sort_members rows) rows × IsSorted (sort_members rows)
unfolding sort_members
sort_members-IsSorted rows = (
  subst (Perm (sort_onto [] rows)) (append-nil rows) (sort_onto-perm [] rows),
  sort_onto-IsSorted [] rows Pairwise.nil,
)

-- The sorted roster has the rows that it got, and of two of its rows the earlier one is live and the
-- later one a ghost, or both are live or both ghosts and the earlier has the lesser display name, or the
-- same name and an account that is not greater.
pub sort_members_sound :
    (rows : List MemberInfo) → Perm (sort_members rows) rows × Pairwise Listed (sort_members rows)
sort_members_sound rows =
    let (same, sorted) = sort_members-IsSorted rows in
    (same, Listed-sorted (sort_members rows) sorted)
