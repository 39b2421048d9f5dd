-- ===== src/Online/Examples.antt =====
-- The registry on concrete inputs: two nodes see one user.
use chiral.Prelude.{◌≡◌, refl, true, false, String, [], ◌∷◌, some}
use chiral.Prelude.Int.{pos}
use chiral.Prelude.Maps.{keep_if}
use chiral.Online.{Registry, Observation, new_registry, see, see_all, replace, status, of_others}
use chiral.Online.Seen.{IsConsistent, seen, merged, seen-replace}

abbrev sees : String → Observation
sees ip = record { user_id = "u"; ip = ip; at = some 100 }

abbrev tokyo : Registry
tokyo = record {
  users =
      (
        "u",
        ("1.1.1.1", record { node_id = "t"; at = 100 })
            ∷ ("2.2.2.2", record { node_id = "t"; at = 90 })
            ∷ [],
      )
      ∷ [];
  nodes = ("t", record { at = 101; complete = true }) ∷ [];
  ttl = 180;
}

reported :
    replace "t"
      (sees "1.1.1.1" ∷ record { user_id = "u"; ip = "2.2.2.2"; at = some 90 } ∷ [])
      true
      101
      (new_registry (pos 0))
    ≡ tokyo
unfolding replace see see_all
reported = refl

shown : status tokyo "u" 275 ≡ record { count = 1; partial = false; nodes_reporting = 1 }
unfolding status
shown = refl

tokyo-IsConsistent : IsConsistent tokyo
tokyo-IsConsistent = record { users = ((refl, tt), (((refl, (refl, tt)), tt))); nodes = (refl, tt) }

seen-replace_example :
    seen (replace "t" (sees "1.1.1.1" ∷ []) true 120 tokyo).users "u" "2.2.2.2"
    ≡ merged "t" 120
        (sees "1.1.1.1" ∷ [])
        "u"
        "2.2.2.2"
        (keep_if (of_others "t") (seen tokyo.users "u" "2.2.2.2"))
seen-replace_example =
    seen-replace tokyo "t" (sees "1.1.1.1" ∷ []) true 120 "u" "2.2.2.2" tokyo-IsConsistent
