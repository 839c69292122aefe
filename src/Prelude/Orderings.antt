-- ===== src/Prelude/Orderings.antt =====
-- Comparisons with three answers: of numbers, of texts, and one after another.
use Prim.Native.Nat.compare as compare_ℕ
use Prim.Native.Nat.{ℕ, zero, suc, Ordering, compare as compare_ℕ}
use Prim.Native.Char.{code}
use Prim.Native.String.compare
use Prim.Native.String.{String, [], ◌∷◌, compare, then}
use mathlib.Core.Path.{◌≡◌, refl, subst, sym, ap}

-- How the answers for x and y, y and z, and x and z hang together.
abbrev pub Coherent : Ordering → Ordering → Ordering → Type 0
Coherent Ordering.eq b c = c ≡ b
Coherent Ordering.lt Ordering.gt c = Unit
Coherent Ordering.lt b c = c ≡ Ordering.lt
Coherent Ordering.gt Ordering.lt c = Unit
Coherent Ordering.gt b c = c ≡ Ordering.gt

pub then-Coherent :
    (a b c a' b' c' : Ordering)
    → Coherent a b c
    → Coherent a' b' c'
    → Coherent (then a a') (then b b') (then c c')
then-Coherent Ordering.lt Ordering.lt c a' b' c' h k = ap (λ o. then o c') h
then-Coherent Ordering.lt Ordering.eq c a' Ordering.lt c' h k = ap (λ o. then o c') h
then-Coherent Ordering.lt Ordering.eq c a' Ordering.eq c' h k = ap (λ o. then o c') h
then-Coherent Ordering.lt Ordering.eq c a' Ordering.gt c' h k = tt
then-Coherent Ordering.lt Ordering.gt c a' b' c' h k = tt
then-Coherent Ordering.gt Ordering.lt c a' b' c' h k = tt
then-Coherent Ordering.gt Ordering.eq c a' Ordering.lt c' h k = tt
then-Coherent Ordering.gt Ordering.eq c a' Ordering.eq c' h k = ap (λ o. then o c') h
then-Coherent Ordering.gt Ordering.eq c a' Ordering.gt c' h k = ap (λ o. then o c') h
then-Coherent Ordering.gt Ordering.gt c a' b' c' h k = ap (λ o. then o c') h
then-Coherent Ordering.eq Ordering.eq c a' b' c' h k =
    subst (λ o. Coherent a' b' (then o c')) (sym h) k
then-Coherent Ordering.eq Ordering.lt c Ordering.lt b' c' h k = ap (λ o. then o c') h
then-Coherent Ordering.eq Ordering.lt c Ordering.eq b' c' h k = ap (λ o. then o c') h
then-Coherent Ordering.eq Ordering.lt c Ordering.gt b' c' h k = tt
then-Coherent Ordering.eq Ordering.gt c Ordering.lt b' c' h k = tt
then-Coherent Ordering.eq Ordering.gt c Ordering.eq b' c' h k = ap (λ o. then o c') h
then-Coherent Ordering.eq Ordering.gt c Ordering.gt b' c' h k = ap (λ o. then o c') h

lt_first : (b : Ordering) → Coherent Ordering.lt b Ordering.lt
lt_first Ordering.lt = refl
lt_first Ordering.eq = refl
lt_first Ordering.gt = tt

gt_second : (a : Ordering) → Coherent a Ordering.gt Ordering.gt
gt_second Ordering.lt = tt
gt_second Ordering.eq = refl
gt_second Ordering.gt = refl

pub number-Coherent : (l m n : ℕ) → Coherent (compare_ℕ l m) (compare_ℕ m n) (compare_ℕ l n)
number-Coherent zero zero n = refl
number-Coherent zero (suc m) zero = rw (compare_ℕ.zero-suc m, compare_ℕ.suc-zero m) tt
number-Coherent zero (suc m) (suc n) = rw (compare_ℕ.zero-suc m, compare_ℕ.zero-suc n) (lt_first _)
number-Coherent (suc l) zero zero = rw (compare_ℕ.suc-zero l) refl
number-Coherent (suc l) zero (suc n) = rw (compare_ℕ.suc-zero l, compare_ℕ.zero-suc n) tt
number-Coherent (suc l) (suc m) zero = rw (compare_ℕ.suc-zero l, compare_ℕ.suc-zero m) (gt_second _)
number-Coherent (suc l) (suc m) (suc n) =
    rw (compare_ℕ.suc-suc l m, compare_ℕ.suc-suc m n, compare_ℕ.suc-suc l n) (number-Coherent l m n)

pub text-Coherent : (s t u : String) → Coherent (compare s t) (compare t u) (compare s u)
text-Coherent [] [] u = refl
text-Coherent [] (d ∷ t) [] = rw (compare.nil-cons d t, compare.cons-nil d t) tt
text-Coherent [] (d ∷ t) (e ∷ u) = rw (compare.nil-cons d t, compare.nil-cons e u) (lt_first _)
text-Coherent (c ∷ s) [] [] = rw (compare.cons-nil c s) refl
text-Coherent (c ∷ s) [] (e ∷ u) = rw (compare.cons-nil c s, compare.nil-cons e u) tt
text-Coherent (c ∷ s) (d ∷ t) [] = rw (compare.cons-nil c s, compare.cons-nil d t) (gt_second _)
text-Coherent (c ∷ s) (d ∷ t) (e ∷ u) =
    rw (compare.cons-cons c d s t, compare.cons-cons d e t u, compare.cons-cons c e s u)
      (then-Coherent _ _ _ _ _ _ (number-Coherent (code c) (code d) (code e)) (text-Coherent s t u))
