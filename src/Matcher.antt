-- ===== src/Matcher.antt =====
-- internal/matcher/matcher.go: subscription match rules, their compilation and their evaluation.
-- The regular expressions, the globs, the trimming of white space and the JSON reader are a
-- parameter, `Engine`: the package only calls them. Of an error the model keeps the place and the
-- cause, not the text.
pub mod Compiling
pub mod Evaluation
pub mod Meaning
mod Tests
use prm.Prelude.{
  ℕ, zero, suc, ◌+◌, String, Bool, true, false, not, ◌&&◌, ◌||◌, Option, none, some, List, [], ◌∷◌,
  if◌then◌else◌, ◌==◌, nat_eq, string_eq, all, any, is_empty, Result, ok, err, ◌>>=◌,
}
use prm.Channels.{Uuid}

pub record Rule : Type 0 where
  pub kind : String
  pub pattern : String
  pub account_id : Uuid

pub record Rules : Type 0 where
  pub any_of : List Rule
  pub all_of : List Rule

-- What the package calls: `regexp.Compile` with `MatchString`, `path.Match` (`none` for a bad
-- pattern), `strings.TrimSpace` and `json.Unmarshal`.
pub record Engine : Type 0 where
  pub regex_compile : String → Option (String → Bool)
  pub path_match : String → String → Option Bool
  pub trim_space : String → String
  pub unmarshal : String → Option Rules

-- `compiledRule`, a constructor for each `kind`; the default branch of `evalRule` is out of reach.
pub data CompiledRule : Type 0 where
  mention : Uuid → CompiledRule
  regex : (String → Bool) → String → CompiledRule
  glob : String → CompiledRule

pub record Matcher : Type 0 where
  pub any_of : List CompiledRule
  pub all_of : List CompiledRule

pub record Event : Type 0 where
  pub body : String
  pub from_account_id : Uuid
  pub mentions : List Uuid

pub data RuleError : Type 0 where
  needs_account_id needs_pattern bad_regex bad_glob unknown_type : RuleError

-- `ErrInvalidRule` with the place it wraps.
pub data CompileError : Type 0 where
  bad_json : CompileError
  in_any_of : ℕ → RuleError → CompileError
  in_all_of : ℕ → RuleError → CompileError

-- `match, _ := path.Match(…)`: false for a bad pattern.
abbrev matched : Option Bool → Bool
matched none = false
matched (some b) = b

module _ (engine : Engine) where
  regex_rule : String → Option (String → Bool) → Result RuleError CompiledRule
  regex_rule pattern none = err bad_regex
  regex_rule pattern (some re) = ok (regex re pattern)

  glob_rule : String → Option Bool → Result RuleError CompiledRule
  glob_rule pattern none = err bad_glob
  glob_rule pattern (some probe) = ok (glob pattern)

  unfoldable pub compile_one : Rule → Result RuleError CompiledRule
  unfolding regex_rule glob_rule
  compile_one r =
      if r.kind == "mention"
      then (if r.account_id == 0 then err needs_account_id else ok (mention r.account_id))
      else if r.kind == "regex"
      then (if r.pattern == ""
          then err needs_pattern
          else regex_rule r.pattern (engine.regex_compile r.pattern))
      else if r.kind == "glob"
      then (if r.pattern == ""
          then err needs_pattern
          else glob_rule r.pattern (engine.path_match r.pattern ""))
      else err unknown_type

  -- One of the two loops of `CompileRules`, from index `i` on.
  unfoldable pub compile_list :
      (ℕ → RuleError → CompileError) → ℕ → List Rule → Result CompileError (List CompiledRule)
  compile_list place i [] = ok []
  compile_list place i (r ∷ rs) = elim (compile_one r) [
    | err e ↦ err (place i e)
    | ok c ↦ compile_list place (i + 1) rs >>= λ cs. ok (c ∷ cs)
  ]

  unfoldable pub compile_rules : Rules → Result CompileError Matcher
  compile_rules rs = do
    any_of ← compile_list in_any_of 0 rs.any_of
    all_of ← compile_list in_all_of 0 rs.all_of
    ok (record { any_of = any_of; all_of = all_of })

  unfoldable pub compile : String → Result CompileError Matcher
  compile rules_json =
      if rules_json == ""
      then ok (record { any_of = []; all_of = [] })
      else elim (engine.unmarshal rules_json) [ none ↦ err bad_json | some rs ↦ compile_rules rs ]

  unfoldable pub eval_rule : Event → CompiledRule → Bool
  eval_rule ev (mention account_id) = any (λ m. m == account_id) ev.mentions
  eval_rule ev (regex re pattern) = re ev.body
  eval_rule ev (glob pattern) = matched (engine.path_match pattern (engine.trim_space ev.body))

  unfoldable pub matches : Matcher → Event → Bool
  unfolding eval_rule
  matches m ev =
      if is_empty m.any_of && is_empty m.all_of
      then true
      else if not (all (eval_rule ev) m.all_of)
      then false
      else if is_empty m.any_of
      then true
      else any (eval_rule ev) m.any_of
