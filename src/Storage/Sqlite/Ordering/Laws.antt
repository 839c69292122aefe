-- ===== src/Storage/Sqlite/Ordering/Laws.antt =====
-- A sorted list has the rows of the list, none of which stands before an earlier one.
use mathlib.Core.List.{Mem, Perm, Pairwise, Pairwise-singleton, forall_mem-cons, perm_middle}
use mathlib.Core.List.Perm
use prm.Prelude.{
  ◌≡◌, refl, subst, Bool, true, false, List, [], ◌∷◌, ◌++◌, if◌then◌else◌, append-nil,
}
use prm.Storage.Sqlite.Ordering.{insert_by, sort_by}

module _ {ℓ} {A : Type ℓ} (before : A → A → Bool) where
  abbrev pub InOrder : A → A → Type 0
  InOrder x y = before y x ≡ false

  -- `before` is a strict order of which what is not before is total.
  pub record IsOrder : Type ℓ where
    pub trans : (x y z : A) → InOrder x y → InOrder y z → InOrder x z
    pub asym : (x y : A) → before x y ≡ true → InOrder x y

  Below : A → List A → Type ℓ
  Below a l = (x : A) → Mem x l → InOrder a x

  Below-cons : (a b : A) (l : List A) → InOrder a b → Below a l → Below a (b ∷ l)
  unfolding Below
  Below-cons a b l p h = (forall_mem-cons {p = InOrder a} (λ x. hlevel)).1 (p, h)

  insert_by-perm : (x : A) (l : List A) → Perm (insert_by before x l) (x ∷ l)
  unfolding insert_by
  insert_by-perm x [] = Perm.rfl
  insert_by-perm x (y ∷ l) = by_test (before x y) (insert_by-perm x l)
    where
      by_test :
          (b : Bool)
          → Perm (insert_by before x l) (x ∷ l)
          → Perm (if b then x ∷ y ∷ l else y ∷ insert_by before x l) (x ∷ y ∷ l)
      by_test true p = Perm.rfl
      by_test false p = Perm.trans (Perm.cons y p) (Perm.swap x y l)

  sort_by-perm : (sorted l : List A) → Perm (sort_by before sorted l) (l ++ sorted)
  unfolding sort_by
  sort_by-perm sorted [] = Perm.rfl
  sort_by-perm sorted (x ∷ l) =
      Perm.trans (sort_by-perm (insert_by before x sorted) l)
        (Perm.trans (Perm.append_left l (insert_by-perm x sorted)) (perm_middle l sorted))

  pub sort_by-perm_nil : (l : List A) → Perm (sort_by before [] l) l
  sort_by-perm_nil l = subst (Perm (sort_by before [] l)) (append-nil l) (sort_by-perm [] l)

  module _ (o : IsOrder) where
    insert_by-Pairwise :
        (x : A) (l : List A) → Pairwise InOrder l → Pairwise InOrder (insert_by before x l)
    unfolding insert_by Below
    insert_by-Pairwise x [] s = Pairwise-singleton _ x
    insert_by-Pairwise x (y ∷ l) (Pairwise.cons below s) =
        by_test (before x y) refl (insert_by-Pairwise x l s)
      where
        by_test :
            (b : Bool)
            → before x y ≡ b
            → Pairwise InOrder (insert_by before x l)
            → Pairwise InOrder (if b then x ∷ y ∷ l else y ∷ insert_by before x l)
        by_test true e k =
            let p = o.asym x y e in
            Pairwise.cons (Below-cons x y l p (λ z m. o.trans x y z p (below z m)))
              (Pairwise.cons below s)
        by_test false e k =
            Pairwise.cons
              (λ z m. Below-cons y x l e below z ((Perm.mem_iff (insert_by-perm x l)).0 m)) k

    pub sort_by-Pairwise :
        (sorted l : List A) → Pairwise InOrder sorted → Pairwise InOrder (sort_by before sorted l)
    unfolding sort_by
    sort_by-Pairwise sorted [] s = s
    sort_by-Pairwise sorted (x ∷ l) s =
        sort_by-Pairwise (insert_by before x sorted) l (insert_by-Pairwise x sorted s)
