-- ===== src/Proto/Search/Infix.antt =====
-- What the search finds.
use prm.Prelude.{
  ℕ, zero, suc, ◌+◌, ◌-◌, ◌≤◌, ◌≡◌, ◌↔◌, inl, inr, refl, ap, ap₂, ◌∙◌, true, false, [], ◌∷◌, ◌++◌,
  ltb, if◌then◌else◌, length, length-append, Bool-cases,
}
use native.Mathlib.Omega.{arith}
use prm.Storage.{Bytes}
use prm.Proto.Search.{starts_with, search, bytes_contains}

starts_with_sound :
    (hay needle : Bytes) → starts_with hay needle ≡ true → (post : Bytes) × (hay ≡ needle ++ post)
unfolding starts_with
starts_with_sound hay [] e = (hay, refl)
starts_with_sound [] (n ∷ needle) e = absurd (ground (arith, e))
starts_with_sound (h ∷ hay) (n ∷ needle) e =
    let same : h ≡ n = ground (arith, e) in
    let tail : starts_with hay needle ≡ true = ground (arith, e) in
    let (post, split) = starts_with_sound hay needle tail in (post, ap₂ (λ x xs. x ∷ xs) same split)

starts_with-append : (needle post : Bytes) → starts_with (needle ++ post) needle ≡ true
unfolding starts_with
starts_with-append [] post = refl
starts_with-append (n ∷ needle) post = ground (arith, starts_with-append needle post)

abbrev Infix : Bytes → Bytes → Type 0
Infix hay needle = (pre : Bytes) × (post : Bytes) × (hay ≡ pre ++ (needle ++ post))

search_sound : (k : ℕ) (hay needle : Bytes) → search k hay needle ≡ true → Infix hay needle
unfolding search
search_sound zero hay needle e = absurd (ground (arith, e))
search_sound (suc k) [] needle e =
    let (post, split) = starts_with_sound [] needle e in ([], post, split)
search_sound (suc k) (h ∷ hay) needle e = elim (Bool-cases (starts_with (h ∷ hay) needle)) [
  | inl here ↦ let (post, split) = starts_with_sound (h ∷ hay) needle here in ([], post, split)
  | inr off ↦
      let later : search k hay needle ≡ true = ground (arith, e, off) in
      let (pre, post, split) = search_sound k hay needle later in
      (h ∷ pre, post, ap (λ xs. h ∷ xs) split)
]

search_complete :
    (k : ℕ) (pre needle post : Bytes)
    → length pre + 1 ≤ k
    → search k (pre ++ (needle ++ post)) needle ≡ true
unfolding search
search_complete zero pre needle post l = absurd (omega arith)
search_complete (suc k) [] needle post l =
    at_head k (needle ++ post) (starts_with-append needle post)
  where
    at_head :
        (k : ℕ) (hay : Bytes) → starts_with hay needle ≡ true → search (suc k) hay needle ≡ true
    at_head k [] e = e
    at_head k (h ∷ hay) e = rw e refl
search_complete (suc k) (p ∷ pre) needle post l =
    ground (arith, search_complete k pre needle post (omega arith))

-- The search answers yes exactly when the haystack is the needle with something before and after it.
pub bytes_contains_iff :
    (hay needle : Bytes)
    → (bytes_contains hay needle ≡ true)
      ↔ ((pre : Bytes) × (post : Bytes) × (hay ≡ pre ++ (needle ++ post)))
unfolding bytes_contains
bytes_contains_iff hay [] = (λ e. ([], hay, refl), λ h. refl)
bytes_contains_iff hay (n ∷ needle) = (to, from)
  where
    to :
        (if ltb (length hay) (length (n ∷ needle))
            then false
            else search (length hay - length (n ∷ needle) + 1) hay (n ∷ needle))
          ≡ true
        → Infix hay (n ∷ needle)
    to e = search_sound (length hay - length (n ∷ needle) + 1) hay (n ∷ needle) (ground (arith, e))

    from :
        Infix hay (n ∷ needle)
        → (if ltb (length hay) (length (n ∷ needle))
            then false
            else search (length hay - length (n ∷ needle) + 1) hay (n ∷ needle))
          ≡ true
    from (pre, post, split) =
        let long : length hay ≡ length pre + (length (n ∷ needle) + length post) =
          ap length split
          ∙ length-append pre ((n ∷ needle) ++ post)
          ∙ ap (λ m. length pre + m) (length-append (n ∷ needle) post) in
        let found : search (length hay - length (n ∷ needle) + 1) hay (n ∷ needle) ≡ true =
          ap (λ h. search (length hay - length (n ∷ needle) + 1) h (n ∷ needle)) split
          ∙ search_complete (length hay - length (n ∷ needle) + 1) pre (n ∷ needle) post
              (omega (arith, long)) in
        ground (arith, found, long)
