-- ===== src/Storage/Sqlite/Rows/Laws.antt =====
-- What a statement leaves of the rows that it does not name.
use native.Mathlib.Omega.{arith}
use mathlib.Core.List.{Perm, perm_middle}
use mathlib.Core.List.Perm
use prm.Prelude.{
  All, ◌≡◌, refl, ap, ◌∙◌, Bool, true, false, not, some, List, [], ◌∷◌, ◌++◌, if◌then◌else◌,
}
use prm.Storage.Sqlite.Rows.{first, keep, change}

module _ {ℓ} {A : Type ℓ} (p q : A → Bool) where
  pub first-keep :
      (apart : (x : A) → p x ≡ true → q x ≡ false) (l : List A)
      → first q (keep (λ x. not (p x)) l) ≡ first q l
  unfolding first keep
  first-keep apart [] = refl
  first-keep apart (x ∷ l) = by_test (p x) (apart x) (first-keep apart l)
    where
      by_test :
          (b : Bool)
          → (b ≡ true → q x ≡ false)
          → first q (keep (λ y. not (p y)) l) ≡ first q l
          → first q (if not b then x ∷ keep (λ y. not (p y)) l else keep (λ y. not (p y)) l)
            ≡ (if q x then some x else first q l)
      by_test false h e = ap (λ o. if q x then some x else o) e
      by_test true h e = e ∙ skip (q x) (h refl)
        where
          skip : (c : Bool) → c ≡ false → first q l ≡ (if c then some x else first q l)
          skip false k = refl
          skip true k = absurd (ground (arith, k))

  pub first-change :
      (f : A → A) (apart : (x : A) → p x ≡ true → (q x ≡ false) × (q (f x) ≡ false)) (l : List A)
      → first q (change p f l) ≡ first q l
  unfolding first change
  first-change f apart [] = refl
  first-change f apart (x ∷ l) = by_test (p x) (apart x) (first-change f apart l)
    where
      by_test :
          (b : Bool)
          → (b ≡ true → (q x ≡ false) × (q (f x) ≡ false))
          → first q (change p f l) ≡ first q l
          → (if q (if b then f x else x)
              then some (if b then f x else x)
              else first q (change p f l))
            ≡ (if q x then some x else first q l)
      by_test false h e = ap (λ o. if q x then some x else o) e
      by_test true h e = ground (arith, (h refl).0, (h refl).1, e)

  pub first-append : (l : List A) (x : A) → q x ≡ false → first q (l ++ x ∷ []) ≡ first q l
  unfolding first
  first-append [] x e = ground (arith, e)
  first-append (y ∷ l) x e = ap (λ o. if q y then some y else o) (first-append l x e)

module _ {ℓ} {A : Type ℓ} (p : A → Bool) where
  -- The rows that the condition holds of, and the others, are all of the rows.
  pub keep-perm : (l : List A) → Perm (keep p l ++ keep (λ x. not (p x)) l) l
  unfolding keep
  keep-perm [] = Perm.rfl
  keep-perm (x ∷ l) = by_test (p x) (keep-perm l)
    where
      by_test :
          (b : Bool)
          → Perm (keep p l ++ keep (λ y. not (p y)) l) l
          → Perm
              ((if b then x ∷ keep p l else keep p l)
                ++ (if not b then x ∷ keep (λ y. not (p y)) l else keep (λ y. not (p y)) l))
              (x ∷ l)
      by_test true h = Perm.cons x h
      by_test false h =
          Perm.trans (perm_middle (keep p l) (keep (λ y. not (p y)) l)) (Perm.cons x h)

  pub All-keep {κ} :
      {P : A → Type κ} (h : (x : A) → p x ≡ true → P x) (l : List A) → All P (keep p l)
  unfolding keep
  All-keep h [] = tt
  All-keep {P = P} h (x ∷ l) = by_test (p x) (h x) (All-keep h l)
    where
      by_test :
          (b : Bool)
          → (b ≡ true → P x)
          → All P (keep p l)
          → All P (if b then x ∷ keep p l else keep p l)
      by_test true k e = (k refl, e)
      by_test false k e = e
