-- ===== src/Groups/Leaving.antt =====
-- What a subscriber holds after leaving a group, and after the group is deleted.
use chiral.Prelude.{
  ◌≡◌, ◌≢◌, refl, sym, ◌∙◌, ap, subst, Bool, true, false, not, ◌&&◌, ◌||◌, String, List, [], ◌∷◌,
  ◌++◌, Option, none, some, arith, inl, inr, keep, any, contains, if◌then◌else◌, str_eq, eq_iff,
  Bool-cases, ne→str_ne,
}
use chiral.Prelude.Maps.{Map, lookup}
use chiral.Groups.{
  Kind, Member, Group, is_denied, has_profile, effective_ruleset_id, insert_missing, coalesce,
  detach_user, detach_member, detach_all, group_of, detach_from, set_user_group, dissolve,
  GroupAllow, Tables, drop_allows, is_admitted, delete_subscriber_group,
}

pub contains-append :
    (xs ys : List String) (s : String) → contains (xs ++ ys) s ≡ (contains xs s || contains ys s)
contains-append [] ys s = refl
contains-append (x ∷ xs) ys s = ground (arith, contains-append xs ys s)

contains-keep_missing :
    (except l : List String) (s : String)
    → contains (keep (λ id. not (contains except id)) l) s
      ≡ (contains l s && not (contains except s))
contains-keep_missing except [] s = refl
contains-keep_missing except (x ∷ l) s = elim (Bool-cases (str_eq x s)) [
  | inl e ↦ ground (arith, (eq_iff x s).0 e, contains-keep_missing except l s)
  | inr e ↦ ground (arith, e, contains-keep_missing except l s)
]

contains-insert_missing :
    (rows from except : List String) (s : String)
    → contains (insert_missing rows from except) s
      ≡ (contains rows s || (contains from s && not (contains except s)))
contains-insert_missing rows from except s =
    contains-append rows (keep (λ id. not (contains except id)) from) s
    ∙ ap (λ b. contains rows s || b) (contains-keep_missing except from s)

-- What a member of the group held, against what they hold without one.
pub record Same (g : Group) (m n : Member) : Type 0 where
  pub group_id : n.group_id ≡ ""
  pub denied : (k : Kind) (id : String) → is_denied none n k id ≡ is_denied (some g) m k id
  pub profile :
      (id : String)
      → has_profile none n id
        ≡ (has_profile (some g) m id || (contains m.profiles id && contains m.profile_denies id))
  pub rules : effective_ruleset_id none n ≡ effective_ruleset_id (some g) m

-- The rule set that a subscriber has on their own, with the group's copied in.
abbrev chosen : String → Bool → String → String
chosen own none_at_all from_group =
    if not (str_eq own "") then own else if none_at_all then "" else from_group

without_other : (b : String) → (if not (str_eq b "") then b else "") ≡ b
without_other b = elim (Bool-cases (str_eq b "")) [
  | inl e ↦ ap (λ x. if not x then b else "") e ∙ sym ((eq_iff b "").0 e)
  | inr e ↦ ap (λ x. if not x then b else "") e
]

chosen-coalesce :
    (a b : String) (n : Bool) → chosen (if n then a else coalesce a b) n "" ≡ chosen a n b
chosen-coalesce a b true = refl
chosen-coalesce a b false = elim (Bool-cases (str_eq a "")) [
  | inl e ↦
      ap (λ x. chosen (if x then b else a) false "") e
      ∙ without_other b
      ∙ sym (ap (λ x. if not x then a else b) e)
  | inr e ↦
      ap (λ x. chosen (if x then b else a) false "") e
      ∙ (ap (λ x. if not x then a else "") e ∙ sym (ap (λ x. if not x then a else b) e))
]

detach_user-Same : (g : Group) (m : Member) → Same g m (record (detach_user g m) { group_id = "" })
unfolding detach_user is_denied has_profile effective_ruleset_id
detach_user-Same g m = record {
  group_id = refl;
  denied = λ k id. ground (
    arith,
    contains-insert_missing (m.exceptions k).denies (g.denies k) (m.exceptions k).allows id,
  );
  profile = λ id. ground (arith, contains-insert_missing m.profiles g.profiles m.profile_denies id);
  rules = chosen-coalesce m.ruleset_id g.ruleset_id m.ruleset_none;
}

-- Leaving by hand.
pub set_user_group-Same :
    (groups : Map Group) (g : Group) (m : Member)
    → m.group_id ≢ ""
    → lookup m.group_id groups ≡ some g
    → Same g m (set_user_group groups "" m)
unfolding set_user_group
set_user_group-Same groups g m h e =
    let in_one = ne→str_ne m.group_id "" h in
    let left : detach_from (group_of groups m) m ≡ detach_user g m = rw in_one (rw e refl) in
    let whole : set_user_group groups "" m ≡ record (detach_user g m) { group_id = "" } =
      ap
        (λ b. record (if not b && true then detach_from (group_of groups m) m else m) {
          group_id = "";
        })
        in_one
      ∙ ap (λ (x : Member). record x { group_id = "" }) left in
    subst (Same g m) (sym whole) (detach_user-Same g m)

abbrev map_some : (Member → Member) → Option Member → Option Member
map_some f none = none
map_some f (some m) = some (f m)

lookup-detach_all :
    (id user_id : String) (g : Group) (members : Map Member)
    → lookup user_id (detach_all id g members)
      ≡ map_some (detach_member id g) (lookup user_id members)
unfolding detach_all
lookup-detach_all id user_id g [] = refl
lookup-detach_all id user_id g ((j, m) ∷ members) = elim (Bool-cases (str_eq j user_id)) [
  | inl e ↦ rw e refl
  | inr e ↦ rw e (lookup-detach_all id user_id g members)
]

or_false : (b : Bool) → (b || false) ≡ b
or_false b = ground arith

-- The test of a row of `restricted_destination_group_allows` for a subscriber.
abbrev admits : String → Member → GroupAllow → Bool
admits dest_id m a =
    str_eq a.dest_id dest_id && str_eq a.group_id m.group_id && not (str_eq m.group_id "")

any-admits-none :
    (dest_id : String) (m : Member) (allows : List GroupAllow)
    → m.group_id ≡ ""
    → any (admits dest_id m) allows ≡ false
any-admits-none dest_id m [] h = refl
any-admits-none dest_id m (a ∷ allows) h =
    let rest = any-admits-none dest_id m allows h in
    let empty = (eq_iff m.group_id "").1 h in ground (arith, rest, empty)

any-admits-drop :
    (id dest_id : String) (m : Member) (allows : List GroupAllow)
    → m.group_id ≢ id
    → any (admits dest_id m) (drop_allows id allows) ≡ any (admits dest_id m) allows
unfolding drop_allows
any-admits-drop id dest_id m [] h = refl
any-admits-drop id dest_id m (a ∷ allows) h =
    let rest = any-admits-drop id dest_id m allows h in
    elim (Bool-cases (str_eq a.group_id id)) [
      | inl e ↦
          let other : str_eq a.group_id m.group_id ≡ false =
            ne→str_ne a.group_id m.group_id (λ q. h (sym q ∙ (eq_iff a.group_id id).0 e)) in
          ground (arith, e, rest, other)
      | inr e ↦ ground (arith, e, rest)
    ]

-- Deleting a group, for the row of each subscriber. A member is left without a group, refused the same
-- nodes, relays and external proxies as before, with the same rule set, and with the same profiles but
-- for one that they had both a grant of their own and a refusal of, which the refusal no longer covers.
-- A restricted destination then lets them through only by their own name: what it granted through the
-- group is lost. Nobody else's row changes, nor which restricted destinations let them through.
pub delete_subscriber_group-Same :
    (id user_id : String) (t : Tables) (g : Group) (m : Member)
    → lookup id t.groups ≡ some g
    → lookup user_id t.members ≡ some m
    → let after = delete_subscriber_group id t in
      (m.group_id ≡ id
        → (n : Member) × (lookup user_id after.members ≡ some n)
          × Same g m n
          × ((names : List String) (dest_id : String)
              → is_admitted names after.allows dest_id user_id n ≡ contains names user_id))
      × (m.group_id ≢ id
          → (lookup user_id after.members ≡ some m)
            × ((names : List String) (dest_id : String)
                → is_admitted names after.allows dest_id user_id m
                  ≡ is_admitted names t.allows dest_id user_id m))
unfolding delete_subscriber_group is_admitted
delete_subscriber_group-Same id user_id t g m e f =
    let rows = drop_allows id t.allows in
    let n : Member = record (detach_user g m) { group_id = "" } in
    let whole = ap (dissolve id t) e in
    let after =
      ap (λ x. lookup user_id x.members) whole
      ∙ lookup-detach_all id user_id g t.members
      ∙ ap (map_some (detach_member id g)) f in
    let left = ap (λ x. x.allows) whole in
    (
      λ h. (
        n,
        after ∙ ap (λ b. some (if b then n else m)) ((eq_iff m.group_id id).1 h),
        detach_user-Same g m,
        λ names dest_id.
            ap (λ x. contains names user_id || any (admits dest_id n) x) left
            ∙ ap (λ b. contains names user_id || b) (any-admits-none dest_id n rows refl)
            ∙ or_false (contains names user_id),
      ),
      λ h. (
        after ∙ ap (λ b. some (if b then n else m)) (ne→str_ne m.group_id id h),
        λ names dest_id.
            ap (λ x. contains names user_id || any (admits dest_id m) x) left
            ∙ ap (λ b. contains names user_id || b) (any-admits-drop id dest_id m t.allows h),
      ),
    )
