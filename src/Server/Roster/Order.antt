-- ===== src/Server/Roster/Order.antt =====
-- The order of the rows as one comparison: live before ghost, then the names, then the accounts.
use Prim.Native.Nat.{Ordering, compare as compare_ℕ}
use Prim.Native.String.{compare, then as and_then}
use text.Mathlib.Text.{is_lt, is_eq}
use text.Mathlib.TextPositions.{compare_refl, compare_self}
use prm.Prelude.{ℕ, ◌≡◌, refl, Bool, true, false, if◌then◌else◌, string_eq, ltb}
use prm.Prelude.Orderings.{Coherent, then-Coherent, number-Coherent, text-Coherent}
use prm.Proto.Frames.{MemberInfo}
use prm.Server.Roster.{before, before_by_name}

abbrev rank : Bool → ℕ
rank false = 0
rank true = 1

abbrev pub compare_rows : MemberInfo → MemberInfo → Ordering
compare_rows x y =
    and_then (compare_ℕ (rank x.is_ghost) (rank y.is_ghost))
      (and_then (compare x.display_name y.display_name) (compare_ℕ x.account_id y.account_id))

pub rows-Coherent :
    (x y z : MemberInfo) → Coherent (compare_rows x y) (compare_rows y z) (compare_rows x z)
rows-Coherent x y z =
    then-Coherent _ _ _ _ _ _
      (number-Coherent (rank x.is_ghost) (rank y.is_ghost) (rank z.is_ghost))
      (then-Coherent _ _ _ _ _ _ (text-Coherent x.display_name y.display_name z.display_name)
        (number-Coherent x.account_id y.account_id z.account_id))

pub compare_rows_self : (x : MemberInfo) → compare_rows x x ≡ Ordering.eq
compare_rows_self x =
    rw (compare_self (rank x.is_ghost), compare_refl x.display_name, compare_self x.account_id) refl

ltb_lem : (a b : ℕ) → ltb a b ≡ is_lt (compare_ℕ a b)
ltb_lem a b = answer (compare_ℕ a b)
  where
    answer : (o : Ordering) → (elim o [ Ordering.lt ↦ true | _ ↦ false ]) ≡ is_lt o
    answer Ordering.lt = refl
    answer Ordering.eq = refl
    answer Ordering.gt = refl

by_name :
    (x y : MemberInfo)
    → before_by_name x y
      ≡ is_lt
          (and_then (compare x.display_name y.display_name) (compare_ℕ x.account_id y.account_id))
unfolding before_by_name
by_name x y = cases (compare x.display_name y.display_name)
  where
    cases :
        (o : Ordering)
        → (if is_eq o then ltb x.account_id y.account_id else is_lt o)
          ≡ is_lt (and_then o (compare_ℕ x.account_id y.account_id))
    cases Ordering.lt = refl
    cases Ordering.gt = refl
    cases Ordering.eq = ltb_lem x.account_id y.account_id

pub before_lem : (x y : MemberInfo) → before x y ≡ is_lt (compare_rows x y)
unfolding before
before_lem x y = by_ghost x.is_ghost y.is_ghost
  where
    by_ghost :
        (g h : Bool)
        → (if g
            then (if h then before_by_name x y else false)
            else if h
            then true
            else before_by_name x y)
          ≡ is_lt (
              and_then (compare_ℕ (rank g) (rank h)) (
                and_then
                  (compare x.display_name y.display_name)
                  (compare_ℕ x.account_id y.account_id)))
    by_ghost true true = by_name x y
    by_ghost false false = by_name x y
    by_ghost true false = refl
    by_ghost false true = refl
