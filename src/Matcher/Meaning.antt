-- ===== src/Matcher/Meaning.antt =====
-- Compiling keeps the meaning of a rule document.
use prm.Prelude.{
  String, ◌≡◌, refl, ◌∙◌, Bool, false, Option, none, some, List, arith, nat_eq, string_eq, ◌==◌,
  if◌then◌else◌, all, any, is_empty, Result-cases, ok, ◌&&◌, ◌||◌, inl, inr,
}
use prm.Matcher.{
  Engine, Rule, Rules, CompiledRule, Matcher, Event, matched, in_any_of, in_all_of, compile_one,
  compile_list, compile_rules, eval_rule, matches,
}
use prm.Matcher.Compiling.{AllCompiled, done, more, compile_list-AllCompiled}
use prm.Matcher.Evaluation.{matches-eq-and}

module _ (engine : Engine) where
  abbrev regex_fires : String → Option (String → Bool) → Bool
  regex_fires body none = false
  regex_fires body (some re) = re body

  -- What an uncompiled rule says of an event.
  abbrev pub rule_fires : Event → Rule → Bool
  rule_fires ev r =
      if r.kind == "mention"
      then any (λ m. m == r.account_id) ev.mentions
      else if r.kind == "regex"
      then regex_fires ev.body (engine.regex_compile r.pattern)
      else if r.kind == "glob"
      then matched (engine.path_match r.pattern (engine.trim_space ev.body))
      else false

  eval_rule-compile_one :
      (ev : Event) (r : Rule) (c : CompiledRule)
      → compile_one engine r ≡ ok c
      → eval_rule engine ev c ≡ rule_fires ev r
  unfolding compile_one eval_rule
  eval_rule-compile_one ev r c h = ground (arith)

  all-AllCompiled :
      (ev : Event) {rs : List Rule} {cs : List CompiledRule}
      → AllCompiled engine rs cs
      → (all (eval_rule engine ev) cs ≡ all (rule_fires ev) rs)
        × (any (eval_rule engine ev) cs ≡ any (rule_fires ev) rs)
        × (is_empty cs ≡ is_empty rs)
  all-AllCompiled ev done = (refl, refl, refl)
  all-AllCompiled ev (more {r} {c} p a) =
      let (every, some_one, none_left) = all-AllCompiled ev a in
      let e = eval_rule-compile_one ev r c p in (rw (e, every), rw (e, some_one), refl)

  -- If a rule document compiles, then its matcher accepts an event exactly when all the rules of
  -- `all_of`, read as they were written, hold of it, and one of `any_of` does or there are none.
  pub matches-compile_rules :
      (rs : Rules) (m : Matcher) (ev : Event)
      → compile_rules engine rs ≡ ok m
      → matches engine m ev
        ≡ (all (rule_fires ev) rs.all_of && (is_empty rs.any_of || any (rule_fires ev) rs.any_of))
  unfolding compile_rules
  matches-compile_rules rs m ev h =
      elim (Result-cases (compile_list engine in_any_of 0 rs.any_of)) [
        | inr (e, p) ↦ let bad = rw p at h in cc
        | inl (xs, p) ↦
            let h' = rw p at h in
            elim (Result-cases (compile_list engine in_all_of 0 rs.all_of)) [
              | inr (e, q) ↦ let bad = rw q at h' in cc
              | inl (ys, q) ↦
                  let found = rw q at h' in
                  let same : m ≡ record { any_of = xs; all_of = ys } = cc in
                  let a =
                    all-AllCompiled ev
                      (compile_list-AllCompiled engine in_any_of 0 rs.any_of xs p) in
                  let b =
                    all-AllCompiled ev
                      (compile_list-AllCompiled engine in_all_of 0 rs.all_of ys q) in
                  rw same (matches-eq-and engine xs ys ev ∙ rw (b.0, a.1, a.2))
            ]
      ]
