-- ===== src/Ruleset/Groups.antt =====
-- `resolveGroups` of core/internal/ruleset/render.go: a group is dropped when it has no members, until
-- nothing more is dropped.
pub mod Rounds
pub mod Fixpoint
pub mod Closed
use chiral.Prelude.{
  ℕ, zero, suc, Bool, true, false, not, ◌&&◌, ◌||◌, String, List, [], ◌∷◌, ◌++◌, Option, none, some,
  if◌then◌else◌, keep, length,
}
use chiral.Prelude.Maps.{Map, lookup, insert}
use chiral.Ruleset.{Group, is_builtin_policy}

-- `alive[name]`, false where there is no entry.
abbrev or_false : Option Bool → Bool
or_false none = false
or_false (some b) = b

abbrev pub is_alive : Map Bool → String → Bool
is_alive alive name = or_false (lookup name alive)

abbrev pub matched : Option (String → Bool) → List String → List String
matched none proxies = []
matched (some test) proxies = keep test proxies

-- `expand`
unfoldable pub expand : Group → List String → Map Bool → List String
expand g proxies alive =
    keep (λ lit. is_builtin_policy lit || is_alive alive lit) g.literals
    ++ matched g.matches proxies

abbrev pub is_nil {ℓ} : {A : Type ℓ} → List A → Bool
is_nil [] = true
is_nil (_ ∷ _) = false

-- The variables of the loop.
pub record State : Type 0 where
  pub alive : Map Bool
  pub dropped : List String
  pub changed : Bool

abbrev pub drop_group : Group → State → State
drop_group g s = record {
  alive = insert g.name false s.alive;
  dropped = s.dropped ++ (g.name ∷ []);
  changed = true;
}

abbrev pub is_empty_group : Group → List String → Map Bool → Bool
is_empty_group g proxies alive = is_alive alive g.name && is_nil (expand g proxies alive)

-- The inner loop.
unfoldable pub pass : List String → List Group → State → State
pass proxies [] s = s
pass proxies (g ∷ groups) s =
    pass proxies groups (if is_empty_group g proxies s.alive then drop_group g s else s)

-- The outer loop, on fuel.
unfoldable pub settle : ℕ → List String → List Group → State → State
unfolding pass
settle zero proxies groups s = s
settle (suc fuel) proxies groups s =
    let s' = pass proxies groups (record s { changed = false }) in
    elim s'.changed [ true ↦ settle fuel proxies groups s' | false ↦ s' ]

unfoldable pub all_alive : List Group → Map Bool → Map Bool
all_alive [] alive = alive
all_alive (g ∷ groups) alive = all_alive groups (insert g.name true alive)

-- `resolved`
pub record Resolved : Type 0 where
  pub group : Group
  pub members : List String

unfoldable pub living : List String → Map Bool → List Group → List Resolved
living proxies alive [] = []
living proxies alive (g ∷ groups) =
    let rest = living proxies alive groups in
    if is_alive alive g.name
    then record { group = g; members = expand g proxies alive } ∷ rest
    else rest

-- The state in which `resolveGroups` leaves its loop: each round but the last drops a group, so a
-- round more than there are groups is enough.
unfoldable pub settled : List Group → List String → State
unfolding settle all_alive
settled groups proxies =
    settle (suc (length groups)) proxies groups
      (record { alive = all_alive groups []; dropped = []; changed = false })

-- `resolveGroups`, but for the order in which the dropped names are reported.
unfoldable pub resolve_groups : List Group → List String → List Resolved × List String
unfolding settled living
resolve_groups groups proxies =
    let s = settled groups proxies in (living proxies s.alive groups, s.dropped)
