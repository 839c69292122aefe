-- ===== src/Server/Roster/Unique.antt =====
-- The roster does not depend on the order in which the maps yield their rows.
use Prim.Native.Nat.{Ordering, compare as compare_ℕ}
use Prim.Native.String.{then as and_then}
use native.Mathlib.Omega.{arith}
use text.Mathlib.Text.{is_lt}
use text.Mathlib.TextEquality.{IsScalar-prop}
use mathlib.Core.List.{Mem, Perm, Pairwise, mem-cons_self, forall_mem-cons}
use mathlib.Core.List.Perm
use mathlib.Core.List.Pairwise
use prm.Prelude.{ℕ, ◌≡◌, ◌≢◌, refl, sym, ap₂, ◌∙◌, false, List, [], ◌∷◌}
use prm.Prelude.Orderings.{Coherent}
use prm.Proto.Frames.{MemberInfo}
use prm.Server.Roster.{sort_members}
use prm.Server.Roster.Order.{rows-Coherent, compare_rows_self, before_lem}
use prm.Server.Roster.Sorting.{
  InOrder, InOrder-self, IsSorted, Below, Below-head, sort_members-IsSorted,
}

-- The rows are of different accounts.
abbrev pub Distinct : List MemberInfo → Type 0
Distinct = Pairwise (λ x y. x.account_id ≢ y.account_id)

MemberInfo-set : IsSet MemberInfo
MemberInfo-set = hlevel IsScalar-prop

equal :
    (a b c : Ordering)
    → Coherent a b c
    → c ≡ Ordering.eq
    → is_lt a ≡ false
    → is_lt b ≡ false
    → a ≡ Ordering.eq
equal Ordering.eq b c h p q r = refl
equal Ordering.lt b c h p q r = absurd (ground (arith, q))
equal Ordering.gt Ordering.lt c h p q r = absurd (ground (arith, r))
equal Ordering.gt Ordering.eq c h p q r = absurd (ground (arith, h, p))
equal Ordering.gt Ordering.gt c h p q r = absurd (ground (arith, h, p))

last : (a b : Ordering) → and_then a b ≡ Ordering.eq → b ≡ Ordering.eq
last Ordering.eq b h = h
last Ordering.lt b h = absurd (ground (arith, h))
last Ordering.gt b h = absurd (ground (arith, h))

same_number : (m n : ℕ) → compare_ℕ m n ≡ Ordering.eq → m ≡ n
same_number m n h = ground arith

InOrder-antisym : (a b : MemberInfo) → InOrder a b → InOrder b a → a.account_id ≡ b.account_id
InOrder-antisym a b p q = same_number a.account_id b.account_id (
    last _ _ (
      last _ _ (
        equal _ _ _ (rows-Coherent a b a) (compare_rows_self a) (sym (before_lem a b) ∙ q)
          (sym (before_lem b a) ∙ p))))

head_unique :
    (a b : MemberInfo) (l : List MemberInfo)
    → Distinct (a ∷ l)
    → Mem b (a ∷ l)
    → a.account_id ≡ b.account_id
    → a ≡ b
head_unique a b l (Pairwise.cons other _) m =
    (forall_mem-cons {p = λ x. a.account_id ≡ x.account_id → a ≡ x} (λ x. hlevel MemberInfo-set)).1
      ((λ e. refl), λ x k e. absurd (other x k e)) b m

eq_of_perm : (l r : List MemberInfo) → IsSorted l → IsSorted r → Distinct l → Perm l r → l ≡ r
unfolding Below
eq_of_perm [] r s t d p = Perm.nil-eq p
eq_of_perm (a ∷ l) [] s t d p = Perm.eq-nil p
eq_of_perm (a ∷ l) (b ∷ r) s t d p =
    let m : Mem b (a ∷ l) = (Perm.mem_iff p).1 mem-cons_self in
    let n : Mem a (b ∷ r) = (Perm.mem_iff p).0 mem-cons_self in
    let heads : a ≡ b = head_unique a b l d m (
      InOrder-antisym a b (Below-head a a l (InOrder-self a) s b m)
        (Below-head b b r (InOrder-self b) t a n)) in
    let tails = Perm.cons_inv (Perm.trans p (Perm.symm (Perm.cons' heads Perm.rfl))) in
    ap₂ ◌∷◌ heads
      (eq_of_perm l r (Pairwise.of_cons s) (Pairwise.of_cons t) (Pairwise.of_cons d) tails)

-- Rows of different accounts, in whatever order the maps yield them, are sorted to the same roster.
pub sort_members-perm :
    (rows rows' : List MemberInfo)
    → Distinct rows
    → Perm rows rows'
    → sort_members rows ≡ sort_members rows'
sort_members-perm rows rows' d p =
    let (p1, s1) = sort_members-IsSorted rows in
    let (p2, s2) = sort_members-IsSorted rows' in
    eq_of_perm (sort_members rows) (sort_members rows') s1 s2
      (Perm.pairwise (λ x y. hlevel) (λ x y n e. n (sym e)) (Perm.symm p1) d)
      (Perm.trans p1 (Perm.trans p (Perm.symm p2)))
