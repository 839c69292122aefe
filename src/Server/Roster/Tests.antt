-- ===== src/Server/Roster/Tests.antt =====
-- A ghost and two live rows, in two orders.
use native.Mathlib.Omega.{arith}
use mathlib.Core.List.{Perm, Pairwise, forall_mem-cons, Pairwise-singleton, not-mem-nil}
use mathlib.Core.List.Perm
use prm.Prelude.{ℕ, ◌≡◌, ◌≢◌, refl, String, Bool, true, false, List, [], ◌∷◌, nat_eq}
use prm.Proto.Frames.{MemberInfo}
use prm.Server.Roster.{sort_members, sort_onto, insert_row, before, before_by_name}
use prm.Server.Roster.Sorting.{Listed, sort_members_sound}
use prm.Server.Roster.Unique.{Distinct, sort_members-perm}

abbrev row : ℕ → String → Bool → MemberInfo
row id name ghost = record {
  account_id = id;
  display_name = name;
  account_type = "bot";
  is_ghost = ghost;
  conn_count = 1;
  paused = false;
}

abbrev ann : MemberInfo
ann = row 9 "Ann" false

abbrev bob : MemberInfo
bob = row 3 "Bob" false

abbrev ghost : MemberInfo
ghost = row 7 "Al" true

sorted : sort_members (ghost ∷ bob ∷ ann ∷ []) ≡ ann ∷ bob ∷ ghost ∷ []
unfolding sort_members sort_onto insert_row before before_by_name
sorted = refl

sort_members_sound_example :
    Perm (sort_members (ghost ∷ bob ∷ ann ∷ [])) (ghost ∷ bob ∷ ann ∷ [])
    × Pairwise Listed (sort_members (ghost ∷ bob ∷ ann ∷ []))
sort_members_sound_example = sort_members_sound (ghost ∷ bob ∷ ann ∷ [])

abbrev pair : List MemberInfo
pair = ghost ∷ bob ∷ []

pair-Distinct : Distinct pair
pair-Distinct =
    Pairwise.cons
      ((forall_mem-cons {p = λ x. 7 ≢ x.account_id} (λ x. hlevel)).1
        ((λ e. absurd (omega (arith, e))), λ x m. absurd (not-mem-nil m)))
      (Pairwise-singleton _ bob)

sort_members-perm_example : sort_members pair ≡ sort_members (bob ∷ ghost ∷ [])
sort_members-perm_example =
    sort_members-perm pair (bob ∷ ghost ∷ []) pair-Distinct (Perm.swap bob ghost [])
