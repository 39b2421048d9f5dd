-- ===== src/Template/Layers.antt =====
-- `Merge`: which scope gives a variable its value.
use chiral.Prelude.{◌≡◌, refl, String, [], ◌∷◌, Option, none, some, arith, eq_iff}
use chiral.Prelude.Maps.{Map, lookup, insert, lookup-insert, IsMap}
use chiral.Template.{insert_all, merge}

-- The first of two that is there.
abbrev pub or_lower : Option String → Option String → Option String
or_lower none lower = lower
or_lower (some v) lower = some v

lookup-insert_all :
    (n : String) (out vars : Map String)
    → IsMap vars
    → lookup n (insert_all out vars) ≡ or_lower (lookup n vars) (lookup n out)
unfolding insert_all
lookup-insert_all n out [] h = refl
lookup-insert_all n out ((k, v) ∷ vars) (new, h) =
    ground
      (arith, lookup-insert_all n (insert k v out) vars, lookup-insert n k v out, eq_iff k n, new)

-- A variable has the value of the nearest scope that sets it, whatever the order in which the maps
-- are walked: the user's, else the node's, else the profile's, else the global one.
pub lookup-merge :
    (n : String) (globals profile node user : Map String)
    → IsMap globals
    → IsMap profile
    → IsMap node
    → IsMap user
    → lookup n (merge globals profile node user)
      ≡ or_lower
          (lookup n user)
          (or_lower (lookup n node) (or_lower (lookup n profile) (lookup n globals)))
unfolding merge
lookup-merge n globals profile node user hg hp hn hu =
    let a = insert_all [] globals in
    let b = insert_all a profile in
    let c = insert_all b node in
    ground (
      arith,
      lookup-insert_all n [] globals hg,
      lookup-insert_all n a profile hp,
      lookup-insert_all n b node hn,
      lookup-insert_all n c user hu,
    )
