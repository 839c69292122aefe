-- ===== src/Matcher/Evaluation.antt =====
-- When an event matches a compiled rule set.
use mathlib.Core.Bool.{and-eq-true_iff}
use prm.Prelude.{
  ◌≡◌, ◌↔◌, ◌⊎◌, inl, inr, refl, Bool, true, some, List, [], ◌∷◌, arith, nat_eq, all, any, is_empty,
  All, sym, ◌∙◌, ◌&&◌, ◌||◌, Bool-cases, nat_beq_iff,
}
use prm.Matcher.{Engine, CompiledRule, mention, regex, glob, Matcher, Event, eval_rule, matches}

-- Some element of the list has the property.
pub data Some {ℓ κ} {A : Type ℓ} (P : A → Type κ) : List A → Type (ℓ ⊔ κ) where
  here : {x : A} {xs : List A} → P x → Some P (x ∷ xs)
  there : {x : A} {xs : List A} → Some P xs → Some P (x ∷ xs)

module _ {ℓ κ} {A : Type ℓ} (P : A → Type κ) (p : A → Bool)
    (decides : (a : A) → (p a ≡ true) ↔ P a) where
  pub all_iff : (xs : List A) → (all p xs ≡ true) ↔ All P xs
  all_iff [] = (λ h. tt, λ h. refl)
  all_iff (x ∷ xs) =
      let (to, from) = and-eq-true_iff (p x) (all p xs) in
      let (to_rest, from_rest) = all_iff xs in
      let (to_head, from_head) = decides x in
      (λ h. (to_head (to h).0, to_rest (to h).1), λ h. from (from_head h.0, from_rest h.1))

  any_sound : (xs : List A) → any p xs ≡ true → Some P xs
  any_sound [] h = cc
  any_sound (x ∷ xs) h = elim (Bool-cases (p x)) [
    | inl e ↦ here ((decides x).0 e)
    | inr e ↦ there (any_sound xs (ground arith))
  ]

  any_complete : {xs : List A} → Some P xs → any p xs ≡ true
  any_complete (here {x} h) = rw ((decides x).1 h)
  any_complete (there {x} h) = ground (arith, any_complete h)

  pub any_iff : (xs : List A) → (any p xs ≡ true) ↔ Some P xs
  any_iff xs = (any_sound xs, any_complete)

module _ (engine : Engine) where
  -- What a rule asks of an event.
  abbrev pub Fires : Event → CompiledRule → Type 0
  Fires ev (mention account_id) = Some (λ m. m ≡ account_id) ev.mentions
  Fires ev (regex re pattern) = re ev.body ≡ true
  Fires ev (glob pattern) = engine.path_match pattern (engine.trim_space ev.body) ≡ some true

  eval_rule_iff : (ev : Event) (r : CompiledRule) → (eval_rule engine ev r ≡ true) ↔ Fires ev r
  unfolding eval_rule
  eval_rule_iff ev (mention id) = any_iff _ _ (λ m. nat_beq_iff m id) ev.mentions
  eval_rule_iff ev (regex re pattern) = (λ h. h, λ h. h)
  eval_rule_iff ev (glob pattern) = ground arith

  pub matches-eq-and :
      (xs ys : List CompiledRule) (ev : Event)
      → matches engine (record { any_of = xs; all_of = ys }) ev
        ≡ (all (eval_rule engine ev) ys && (is_empty xs || any (eval_rule engine ev) xs))
  unfolding matches
  matches-eq-and [] [] ev = refl
  matches-eq-and [] (y ∷ ys) ev = ground arith
  matches-eq-and (x ∷ xs) [] ev = ground arith
  matches-eq-and (x ∷ xs) (y ∷ ys) ev = ground arith

  empty_or_Some_iff :
      (ev : Event) (xs : List CompiledRule)
      → ((is_empty xs || any (eval_rule engine ev) xs) ≡ true) ↔ ((xs ≡ []) ⊎ Some (Fires ev) xs)
  empty_or_Some_iff ev [] = (λ h. inl refl, λ h. refl)
  empty_or_Some_iff ev (x ∷ xs) =
      let (to, from) = any_iff (Fires ev) (eval_rule engine ev) (eval_rule_iff ev) (x ∷ xs) in
      (λ h. inr (to h), λ h. elim h [ inl e ↦ cc | inr s ↦ from s ])

  -- A compiled rule set matches an event exactly when every `all_of` rule fires on it and, unless
  -- `any_of` is empty, some `any_of` rule does.
  pub matches_iff :
      (m : Matcher) (ev : Event)
      → (matches engine m ev ≡ true)
        ↔ (All (Fires ev) m.all_of × ((m.any_of ≡ []) ⊎ Some (Fires ev) m.any_of))
  matches_iff m ev =
      let (to_all, from_all) =
        all_iff (Fires ev) (eval_rule engine ev) (eval_rule_iff ev) m.all_of in
      let (to_any, from_any) = empty_or_Some_iff ev m.any_of in
      let split = and-eq-true_iff (all (eval_rule engine ev) m.all_of) _ in
      let e = matches-eq-and m.any_of m.all_of ev in
      (
        λ h. let p = split.0 (sym e ∙ h) in (to_all p.0, to_any p.1),
        λ h. e ∙ split.1 (from_all h.0, from_any h.1),
      )
