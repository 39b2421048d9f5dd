-- ===== src/Ruleset/Groups/Closed.antt =====
-- What `resolveGroups` hands to the renderer.
use chiral.Prelude.{
  ◌≡◌, Bool, true, false, ◌&&◌, ◌||◌, String, List, [], ◌∷◌, arith, All, eq_iff, str_eq, any,
  contains,
}
use chiral.Prelude.Maps.{Map}
use chiral.Ruleset.{Group, is_builtin_policy}
use chiral.Ruleset.Groups.{is_alive, is_nil, Resolved, living}
use chiral.Ruleset.Groups.Rounds.{has_group}

abbrev pub has_resolved : String → List Resolved → Bool
has_resolved name = any (λ r. str_eq r.group.name name)

-- A member that the client can follow: a policy of its own, a group of the file, or a proxy.
abbrev pub IsKnown : List Resolved → List String → String → Type 0
IsKnown out proxies m = (is_builtin_policy m || has_resolved m out || contains proxies m) ≡ true

abbrev pub IsUsable : List Resolved → List String → Resolved → Type 0
IsUsable out proxies r = (is_nil r.members ≡ false) × All (IsKnown out proxies) r.members

pub has_resolved-living :
    (proxies : List String) (alive : Map Bool) (n : String) (groups : List Group)
    → has_resolved n (living proxies alive groups) ≡ (is_alive alive n && has_group n groups)
unfolding living
has_resolved-living proxies alive n [] = ground arith
has_resolved-living proxies alive n (g ∷ groups) =
    ground (arith, eq_iff g.name n, has_resolved-living proxies alive n groups)
