-- ===== src/Groups/Examples.antt =====
-- A group on concrete inputs: a member with an exception, and one with a grant and a refusal at once.
use chiral.Prelude.{String, List, ◌≡◌, ◌≢◌, refl, true, false, [], ◌∷◌, none, some, contains}
use chiral.Prelude.Maps.{lookup}
use chiral.Groups.{
  node, Member, Group, denies_of, is_denied, has_profile, detach_user, set_user_group,
  bind_user_profile, Tables, is_admitted, delete_subscriber_group, set_user_node_access,
}
use chiral.Groups.Leaving.{Same, delete_subscriber_group-Same}
use chiral.Groups.Editing.{end_state, is_denied-set_user_node_access}

abbrev basic : Group
basic = record {
  profiles = "vless" ∷ "ss" ∷ [];
  denies = λ _. "tokyo" ∷ "paris" ∷ [];
  ruleset_id = "r";
}

abbrev alice : Member
alice = record {
  group_id = "g";
  profiles = [];
  profile_denies = "ss" ∷ [];
  exceptions = λ _. record { denies = []; allows = "tokyo" ∷ [] };
  ruleset_id = "";
  ruleset_none = false;
}

-- An operator grants what the subscriber is personally refused: it takes effect when the group goes.
bound : has_profile (some basic) (bind_user_profile "ss" alice) "ss" ≡ false
unfolding has_profile bind_user_profile
bound = refl

left :
    has_profile none (set_user_group (("g", basic) ∷ []) "" (bind_user_profile "ss" alice)) "ss"
    ≡ true
unfolding has_profile bind_user_profile set_user_group detach_user
left = refl

-- A restricted destination that admits the group, and one that admits another.
abbrev tables : Tables
tables = record {
  groups = ("g", basic) ∷ [];
  members = ("a", alice) ∷ [];
  allows =
      record { dest_id = "lan"; group_id = "g" } ∷ record { dest_id = "lan"; group_id = "h" } ∷ [];
}

abbrev after : Tables
after = delete_subscriber_group "g" tables

-- Alice could reach it, and cannot after her group is deleted.
admitted : is_admitted [] tables.allows "lan" "a" alice ≡ true
unfolding is_admitted
admitted = refl

shut_out : is_admitted [] after.allows "lan" "a" (record alice { group_id = "" }) ≡ false
unfolding is_admitted delete_subscriber_group
shut_out = refl

delete_subscriber_group-Same_example :
    (alice.group_id ≡ "g"
      → (n : Member) × (lookup "a" after.members ≡ some n)
        × Same basic alice n
        × ((names : List String) (dest_id : String)
            → is_admitted names after.allows dest_id "a" n ≡ contains names "a"))
    × (alice.group_id ≢ "g"
        → (lookup "a" after.members ≡ some alice)
          × ((names : List String) (dest_id : String)
              → is_admitted names after.allows dest_id "a" alice
                ≡ is_admitted names tables.allows dest_id "a" alice))
delete_subscriber_group-Same_example =
    delete_subscriber_group-Same "g" "a" tables basic alice refl refl

abbrev saved : Member
saved =
    set_user_node_access (some basic) (λ _. "tokyo" ∷ "paris" ∷ "oslo" ∷ []) ("oslo" ∷ "paris" ∷ [])
      [] [] alice

is_denied-set_user_node_access_example :
    (is_denied (some basic) saved node "oslo"
      ≡ contains (end_state ("oslo" ∷ "paris" ∷ []) [] [] node) "oslo")
    × (contains (saved.exceptions node).denies "oslo" ≡ true
        → contains (denies_of (some basic) node) "oslo" ≡ false)
    × (contains (saved.exceptions node).allows "oslo" ≡ true
        → contains (denies_of (some basic) node) "oslo" ≡ true)
is_denied-set_user_node_access_example =
    is_denied-set_user_node_access (some basic) (λ _. "tokyo" ∷ "paris" ∷ "oslo" ∷ [])
      ("oslo" ∷ "paris" ∷ []) [] [] alice node "oslo" refl
