-- ===== src/Matcher/Tests.antt =====
-- One rule of each list: a mention and a pattern.
use prm.Prelude.{◌≡◌, ◌↔◌, ◌⊎◌, refl, Result, true, ◌&&◌, ◌||◌, all, any, is_empty, All, []}
use prm.Matcher.{Matcher, Event, compile_one, compile_list, compile_rules, matches}
use prm.Matcher.Evaluation.{Some, Fires, matches_iff}
use prm.Matcher.Compiling.{IsWellFormed, compile_rules_iff}
use prm.Matcher.Meaning.{rule_fires, matches-compile_rules}
use prm.Webhook.Manager.Notify.{matcher_event}
use prm.Samples.{permissive_engine, two_rules, compiled_rules, deploy}

abbrev event : Event
event = matcher_event deploy

matches_iff_example : (matches permissive_engine compiled_rules event ≡ true) ↔ (
    All (Fires permissive_engine event) compiled_rules.all_of
    × ((compiled_rules.any_of ≡ []) ⊎ Some (Fires permissive_engine event) compiled_rules.any_of))
matches_iff_example = matches_iff permissive_engine compiled_rules event

compile_rules_iff_example :
    ((m : Matcher) × (compile_rules permissive_engine two_rules ≡ Result.ok m)) ↔ (
      All (IsWellFormed permissive_engine) two_rules.any_of
      × All (IsWellFormed permissive_engine) two_rules.all_of)
compile_rules_iff_example = compile_rules_iff permissive_engine two_rules

two_rules-compile : compile_rules permissive_engine two_rules ≡ Result.ok compiled_rules
unfolding compile_rules compile_list compile_one
two_rules-compile = refl

matches-compile_rules_example : matches permissive_engine compiled_rules event ≡ (
    all (rule_fires permissive_engine event) two_rules.all_of
    && (is_empty two_rules.any_of || any (rule_fires permissive_engine event) two_rules.any_of))
matches-compile_rules_example =
    matches-compile_rules permissive_engine two_rules compiled_rules event two_rules-compile
