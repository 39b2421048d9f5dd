-- ===== src/Groups.antt =====
-- Subscriber groups: core/internal/store/group.go, with what decides a subscriber's access in user.go
-- and external.go. The rows that belong to one subscriber are a record of sets of ids, as lists, and
-- an id or text that is NULL is empty.
pub mod Leaving
pub mod Editing
mod Examples
use chiral.Prelude.{
  Bool, true, false, not, ◌&&◌, ◌||◌, String, List, [], ◌∷◌, ◌++◌, Option, none, some, keep, any,
  contains, if◌then◌else◌, str_eq,
}
use chiral.Prelude.Maps.{Map, lookup, delete, retain}

-- The three kinds of objects of `accessTables`.
pub data Kind : Type 0 where
  node relay external : Kind

-- A subscriber's exceptions for one kind.
pub record Exceptions : Type 0 where
  pub denies : List String
  pub allows : List String

-- `UserOwnAccess`, with the columns of `users` that groups touch.
pub record Member : Type 0 where
  pub group_id : String
  pub profiles : List String
  pub profile_denies : List String
  pub exceptions : Kind → Exceptions
  pub ruleset_id : String
  pub ruleset_none : Bool

-- `SubscriberGroup` with what it grants and withholds.
pub record Group : Type 0 where
  pub profiles : List String
  pub denies : Kind → List String
  pub ruleset_id : String

-- No group grants no profile, denies nothing and has no rule set.
abbrev pub profiles_of : Option Group → List String
profiles_of none = []
profiles_of (some g) = g.profiles

abbrev pub denies_of : Option Group → Kind → List String
denies_of none k = []
denies_of (some g) k = g.denies k

abbrev pub ruleset_of : Option Group → String
ruleset_of none = ""
ruleset_of (some g) = g.ruleset_id

abbrev pub group_of : Map Group → Member → Option Group
group_of groups m = if str_eq m.group_id "" then none else lookup m.group_id groups

-- `effectiveDenies`, asked about one object.
unfoldable pub is_denied : Option Group → Member → Kind → String → Bool
is_denied g m k id =
    contains (m.exceptions k).denies id
    || (contains (denies_of g k) id && not (contains (m.exceptions k).allows id))

-- `UserProfileIDs`, asked about one profile.
unfoldable pub has_profile : Option Group → Member → String → Bool
has_profile g m id =
    (contains m.profiles id || contains (profiles_of g) id) && not (contains m.profile_denies id)

-- `EffectiveRulesetID`
unfoldable pub effective_ruleset_id : Option Group → Member → String
effective_ruleset_id g m =
    if not (str_eq m.ruleset_id "")
    then m.ruleset_id
    else if m.ruleset_none
    then ""
    else ruleset_of g

-- `INSERT OR IGNORE ... SELECT ... WHERE ... NOT IN`
abbrev pub insert_missing : List String → List String → List String → List String
insert_missing rows from except = rows ++ keep (λ id. not (contains except id)) from

abbrev pub detach_kind : Group → Member → Kind → Exceptions
detach_kind g m k = record {
  denies = insert_missing (m.exceptions k).denies (g.denies k) (m.exceptions k).allows;
  allows = [];
}

-- `COALESCE`
abbrev pub coalesce : String → String → String
coalesce a b = if str_eq a "" then b else a

-- `detachUser`
unfoldable pub detach_user : Group → Member → Member
detach_user g m = record m {
  profiles = insert_missing m.profiles g.profiles m.profile_denies;
  profile_denies = [];
  exceptions = detach_kind g m;
  ruleset_id = if m.ruleset_none then m.ruleset_id else coalesce m.ruleset_id g.ruleset_id;
}

abbrev pub detach_from : Option Group → Member → Member
detach_from none m = m
detach_from (some g) m = detach_user g m

-- What a join discards.
abbrev pub discard_own : Member → Member
discard_own m = record m {
  profiles = [];
  profile_denies = [];
  exceptions = λ _. record { denies = []; allows = [] };
}

-- `SetUserGroup`, for the row of the subscriber.
unfoldable pub set_user_group : Map Group → String → Member → Member
unfolding detach_user
set_user_group groups group_id m =
    let left =
      if not (str_eq m.group_id "") && str_eq group_id ""
      then detach_from (group_of groups m) m
      else m in
    let moved = record left { group_id = group_id } in
    if str_eq group_id "" then moved else discard_own moved

-- `DeleteSubscriberGroup`. Deleting the row clears the column of its members.
abbrev pub detach_member : String → Group → Member → Member
detach_member id g m =
    if str_eq m.group_id id then record (detach_user g m) { group_id = "" } else m

unfoldable pub detach_all : String → Group → Map Member → Map Member
unfolding detach_user
detach_all id g [] = []
detach_all id g ((user_id, m) ∷ members) = (user_id, detach_member id g m) ∷ detach_all id g members

-- A row of `restricted_destination_group_allows`, which goes with its group (`ON DELETE CASCADE`).
pub record GroupAllow : Type 0 where
  pub dest_id : String
  pub group_id : String

unfoldable pub drop_allows : String → List GroupAllow → List GroupAllow
drop_allows id allows = keep (λ a. not (str_eq a.group_id id)) allows

-- The tables that a deletion touches.
pub record Tables : Type 0 where
  pub groups : Map Group
  pub members : Map Member
  pub allows : List GroupAllow

abbrev pub dissolve : String → Tables → Option Group → Tables
dissolve id t none = t
dissolve id t (some g) = record {
  groups = delete id t.groups;
  members = detach_all id g t.members;
  allows = drop_allows id t.allows;
}

unfoldable pub delete_subscriber_group : String → Tables → Tables
unfolding detach_all drop_allows
delete_subscriber_group id t = dissolve id t (lookup id t.groups)

-- Whether a restricted destination lets a subscriber through: by name, or as a member of a group.
unfoldable pub is_admitted : List String → List GroupAllow → String → String → Member → Bool
is_admitted names allows dest_id user_id m =
    contains names user_id
    || any
        (λ a.
          str_eq a.dest_id dest_id && str_eq a.group_id m.group_id && not (str_eq m.group_id ""))
        allows

-- `BindUserProfile`
unfoldable pub bind_user_profile : String → Member → Member
bind_user_profile id m =
    if contains m.profiles id then m else record m { profiles = m.profiles ++ (id ∷ []) }

-- What `setUserDimension` writes, object by object.
unfoldable pub decide : List String → List String → List String → Exceptions → Exceptions
decide want by_group [] e = e
decide want by_group (id ∷ all) e = decide want by_group all (
    if contains want id && not (contains by_group id)
    then record e { denies = e.denies ++ (id ∷ []) }
    else if not (contains want id) && contains by_group id
    then record e { allows = e.allows ++ (id ∷ []) }
    else e)

-- `setUserDimension`, with the ids of all objects of the kind.
unfoldable pub set_user_dimension : Option Group → Kind → List String → List String → Exceptions
unfolding decide
set_user_dimension g k universe denied =
    decide denied (denies_of g k) universe (record { denies = []; allows = [] })

abbrev pub pick_exceptions : Exceptions → Exceptions → Exceptions → Kind → Exceptions
pick_exceptions n r x node = n
pick_exceptions n r x relay = r
pick_exceptions n r x external = x

-- `SetUserNodeAccess`
unfoldable pub set_user_node_access :
    Option Group → (Kind → List String) → List String → List String → List String → Member → Member
unfolding set_user_dimension
set_user_node_access g universe denied_nodes denied_proxies denied_relays m = record m {
  exceptions =
      pick_exceptions (set_user_dimension g node (universe node) denied_nodes)
        (set_user_dimension g relay (universe relay) denied_relays)
        (set_user_dimension g external (universe external) denied_proxies);
}
