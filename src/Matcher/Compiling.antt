-- ===== src/Matcher/Compiling.antt =====
-- Which rule documents compile, what a failure names, and that compiling keeps the meaning.
use prm.Prelude.{
  ℕ, ◌+◌, ◌≡◌, ◌≢◌, ◌↔◌, ◌⊎◌, inl, inr, refl, none, List, [], ◌∷◌, arith, nat_eq, string_eq, eq_iff,
  All, Option-cases, Result-cases, ok,
}
use prm.Matcher.{
  Engine, Rule, Rules, CompiledRule, mention, regex, glob, Matcher, RuleError, CompileError,
  in_any_of, in_all_of, compile_one, compile_list, compile_rules,
}

module _ (engine : Engine) where
  -- A rule that names a known kind and carries what that kind needs.
  pub data IsWellFormed (r : Rule) : Type 0 where
    mention_rule : r.kind ≡ "mention" → r.account_id ≢ 0 → IsWellFormed r
    regex_rule :
        r.kind ≡ "regex" → r.pattern ≢ "" → engine.regex_compile r.pattern ≢ none → IsWellFormed r
    glob_rule :
        r.kind ≡ "glob" → r.pattern ≢ "" → engine.path_match r.pattern "" ≢ none → IsWellFormed r

  compile_one_total :
      (r : Rule) → IsWellFormed r → (c : CompiledRule) × (compile_one engine r ≡ ok c)
  unfolding compile_one
  compile_one_total r (mention_rule k a) = (mention r.account_id, rw k (ground arith))
  compile_one_total r (regex_rule k p q) = elim (Option-cases (engine.regex_compile r.pattern)) [
    | inl e ↦ absurd (q e)
    | inr (re, e) ↦ (regex re r.pattern, rw (k, e) (ground (arith, eq_iff r.pattern "")))
  ]
  compile_one_total r (glob_rule k p q) = elim (Option-cases (engine.path_match r.pattern "")) [
    | inl e ↦ absurd (q e)
    | inr (b, e) ↦ (glob r.pattern, rw (k, e) (ground (arith, eq_iff r.pattern "")))
  ]

  kind_cases :
      (r : Rule) (c : CompiledRule)
      → compile_one engine r ≡ ok c
      → (r.kind ≡ "mention") ⊎ ((r.kind ≡ "regex") ⊎ (r.kind ≡ "glob"))
  unfolding compile_one
  kind_cases r c h =
      ground (arith, eq_iff r.kind "mention", eq_iff r.kind "regex", eq_iff r.kind "glob")

  compile_one-IsWellFormed :
      (r : Rule) (c : CompiledRule) → compile_one engine r ≡ ok c → IsWellFormed r
  unfolding compile_one
  compile_one-IsWellFormed r c h = elim (kind_cases r c h) [
    | inl k ↦ mention_rule k (λ z. let bad = rw (k, z) at h in cc)
    | inr (inl k) ↦
        let h' = rw k at h in
        regex_rule k (λ z. let bad = rw z at h' in cc)
          (λ z. let bad = rw z at h' in ground (arith, eq_iff r.pattern ""))
    | inr (inr k) ↦
        let h' = rw k at h in
        glob_rule k (λ z. let bad = rw z at h' in cc)
          (λ z. let bad = rw z at h' in ground (arith, eq_iff r.pattern ""))
  ]

  -- Rule for rule, what the loop makes of a list.
  pub data AllCompiled : List Rule → List CompiledRule → Type 0 where
    done : AllCompiled [] []
    more :
        {r : Rule} {c : CompiledRule} {rs : List Rule} {cs : List CompiledRule}
        → compile_one engine r ≡ ok c
        → AllCompiled rs cs
        → AllCompiled (r ∷ rs) (c ∷ cs)

  pub compile_list-AllCompiled :
      (place : ℕ → RuleError → CompileError) (i : ℕ) (rs : List Rule) (cs : List CompiledRule)
      → compile_list engine place i rs ≡ ok cs
      → AllCompiled rs cs
  unfolding compile_list
  compile_list-AllCompiled place i [] cs h = let e : cs ≡ [] = cc in rw e done
  compile_list-AllCompiled place i (r ∷ rs) cs h = elim (Result-cases (compile_one engine r)) [
    | inr (e, p) ↦ let h' = rw (p, compile_list) at h in cc
    | inl (c, p) ↦
        let h' = rw (p, compile_list) at h in
        elim (Result-cases (compile_list engine place (i + 1) rs)) [
          | inr (e, q) ↦ let bad = rw q at h' in cc
          | inl (ds, q) ↦
              let found = rw q at h' in
              let same : cs ≡ c ∷ ds = cc in
              rw same (more p (compile_list-AllCompiled place (i + 1) rs ds q))
        ]
  ]

  AllCompiled-All :
      {rs : List Rule} {cs : List CompiledRule} → AllCompiled rs cs → All IsWellFormed rs
  AllCompiled-All done = tt
  AllCompiled-All (more {r} {c} p a) = (compile_one-IsWellFormed r c p, AllCompiled-All a)

  compile_list_total :
      (place : ℕ → RuleError → CompileError) (i : ℕ) (rs : List Rule)
      → All IsWellFormed rs
      → (cs : List CompiledRule) × (compile_list engine place i rs ≡ ok cs)
  unfolding compile_list
  compile_list_total place i [] w = ([], refl)
  compile_list_total place i (r ∷ rs) w =
      let (c, p) = compile_one_total r w.0 in
      let (cs, q) = compile_list_total place (i + 1) rs w.1 in (c ∷ cs, rw (p, compile_list, q))

  -- A rule document compiles exactly when every rule in both of its lists is well formed.
  pub compile_rules_iff :
      (rs : Rules)
      → ((m : Matcher) × (compile_rules engine rs ≡ ok m))
        ↔ (All IsWellFormed rs.any_of × All IsWellFormed rs.all_of)
  unfolding compile_rules
  compile_rules_iff rs = (to, from)
    where
      to :
          (m : Matcher) × (compile_rules engine rs ≡ ok m)
          → All IsWellFormed rs.any_of × All IsWellFormed rs.all_of
      to (m, h) = elim (Result-cases (compile_list engine in_any_of 0 rs.any_of)) [
        | inr (e, p) ↦ let bad = rw p at h in cc
        | inl (xs, p) ↦
            let h' = rw p at h in
            elim (Result-cases (compile_list engine in_all_of 0 rs.all_of)) [
              | inr (e, q) ↦ let bad = rw q at h' in cc
              | inl (ys, q) ↦ (
                AllCompiled-All (compile_list-AllCompiled in_any_of 0 rs.any_of xs p),
                AllCompiled-All (compile_list-AllCompiled in_all_of 0 rs.all_of ys q),
              )
            ]
      ]

      from :
          All IsWellFormed rs.any_of × All IsWellFormed rs.all_of
          → (m : Matcher) × (compile_rules engine rs ≡ ok m)
      from (w, v) =
          let (xs, p) = compile_list_total in_any_of 0 rs.any_of w in
          let (ys, q) = compile_list_total in_all_of 0 rs.all_of v in
          (record { any_of = xs; all_of = ys }, rw (p, q))
