-- ===== src/Ruleset/Examples.antt =====
-- The presets of core/internal/ruleset on concrete inputs: a region without a node.
use chiral.Prelude.{◌≡◌, refl, Bool, true, false, String, List, [], ◌∷◌, Option, none, some, str_eq}
use chiral.Prelude.Int.{pos}
use chiral.Ruleset.{Group, GroupType, is_builtin_policy}
use chiral.Ruleset.Groups.{
  expand, pass, settle, all_alive, settled, living, Resolved, resolve_groups,
}
use chiral.Ruleset.Groups.Fixpoint.{IsGreatest, settled-IsGreatest}

abbrev selects : String → List String → Option (String → Bool) → Group
selects name literals test = record {
  name = name;
  type = GroupType.select;
  literals = literals;
  matches = test;
  match_source = "";
  test_url = "";
  interval = pos 0;
  timeout = pos 0;
  tolerance = pos 0;
}

-- The region has no node, so it goes, and the group that only offers the region goes after it.
abbrev preset : List Group
preset =
    selects "Proxy" ("Asia" ∷ "Auto" ∷ "DIRECT" ∷ []) none
    ∷ selects "Asia" ("Tokyo" ∷ []) none
    ∷ selects "Tokyo" [] (some (λ p. str_eq p "jp-1"))
    ∷ selects "Auto" [] (some (λ p. true))
    ∷ []

abbrev nodes : List String
nodes = "us-1" ∷ "us-2" ∷ []

abbrev member_names : List Resolved → List (String × List String)
member_names [] = []
member_names (r ∷ rs) = (r.group.name, r.members) ∷ member_names rs

resolved :
    member_names (resolve_groups preset nodes).0
    ≡ ("Proxy", "Auto" ∷ "DIRECT" ∷ []) ∷ ("Auto", "us-1" ∷ "us-2" ∷ []) ∷ []
unfolding resolve_groups settled settle pass all_alive living expand is_builtin_policy
resolved = refl

reported : (resolve_groups preset nodes).1 ≡ "Tokyo" ∷ "Asia" ∷ []
unfolding resolve_groups settled settle pass all_alive living expand is_builtin_policy
reported = refl

settled-IsGreatest_example :
    ((settled preset nodes).changed ≡ false) × IsGreatest preset nodes (settled preset nodes).alive
settled-IsGreatest_example = settled-IsGreatest preset nodes
