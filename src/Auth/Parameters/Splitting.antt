-- ===== src/Auth/Parameters/Splitting.antt =====
-- Splitting at commas, and cutting off a prefix.
use prm.Prelude.{
  ◌≡◌, ◌≢◌, refl, ap, Bool, true, false, some, [], ◌∷◌, ◌++◌, All, nat_beq, if◌then◌else◌,
}
use native.Mathlib.Omega.{arith}
use prm.Storage.{Bytes}
use prm.Auth.Parameters.{split_commas, grow, strip_prefix}

abbrev pub CommaFree : Bytes → Type 0
CommaFree = All (λ c. c ≢ 44)

pub split_commas_self : (xs : Bytes) → CommaFree xs → split_commas xs ≡ xs ∷ []
unfolding split_commas grow
split_commas_self [] h = refl
split_commas_self (x ∷ xs) (n, h) =
    by_test (nat_beq x 44) (ground (arith, n)) (split_commas_self xs h)
  where
    by_test :
        (b : Bool)
        → b ≡ false
        → split_commas xs ≡ xs ∷ []
        → (if b then [] ∷ split_commas xs else grow x (split_commas xs)) ≡ (x ∷ xs) ∷ []
    by_test true e k = absurd (ground (arith, e))
    by_test false e k = ap (grow x) k

pub split_commas-comma :
    (xs ys : Bytes) → CommaFree xs → split_commas (xs ++ 44 ∷ ys) ≡ xs ∷ split_commas ys
unfolding split_commas grow
split_commas-comma [] ys h = refl
split_commas-comma (x ∷ xs) ys (n, h) =
    by_test (nat_beq x 44) (ground (arith, n)) (split_commas-comma xs ys h)
  where
    by_test :
        (b : Bool)
        → b ≡ false
        → split_commas (xs ++ 44 ∷ ys) ≡ xs ∷ split_commas ys
        → (if b then [] ∷ split_commas (xs ++ 44 ∷ ys) else grow x (split_commas (xs ++ 44 ∷ ys)))
          ≡ (x ∷ xs) ∷ split_commas ys
    by_test true e k = absurd (ground (arith, e))
    by_test false e k = ap (grow x) k

pub strip_prefix-append : (p s : Bytes) → strip_prefix p (p ++ s) ≡ some s
unfolding strip_prefix
strip_prefix-append [] s = refl
strip_prefix-append (c ∷ p) s = ground (arith, strip_prefix-append p s)
