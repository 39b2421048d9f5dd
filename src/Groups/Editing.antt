-- ===== src/Groups/Editing.antt =====
-- Saving a subscriber's access from the editor, which hands over an end state.
use chiral.Prelude.{
  ◌≡◌, refl, ◌∙◌, ap, Bool, true, false, not, ◌&&◌, ◌||◌, String, List, [], ◌∷◌, ◌++◌, Option,
  arith, inl, inr, contains, if◌then◌else◌, str_eq, eq_iff, Bool-cases,
}
use chiral.Groups.{
  Kind, node, relay, external, Exceptions, Member, Group, denies_of, is_denied, decide,
  set_user_dimension, set_user_node_access,
}
use chiral.Groups.Leaving.{contains-append}

module _ (want by_group : List String) where
  abbrev refused : String → Bool
  refused id = contains want id && not (contains by_group id)

  abbrev excused : String → Bool
  excused id = not (contains want id) && contains by_group id

  -- One object's rows.
  abbrev step : String → Exceptions → Exceptions
  step id e =
      if refused id
      then record e { denies = e.denies ++ (id ∷ []) }
      else if excused id
      then record e { allows = e.allows ++ (id ∷ []) }
      else e

  denies-step :
      (id s : String) (e : Exceptions)
      → contains (step id e).denies s ≡ (contains e.denies s || (str_eq id s && refused s))
  denies-step id s e = elim (Bool-cases (str_eq id s)) [
    | inl q ↦ ground (arith, (eq_iff id s).0 q, q, contains-append e.denies (id ∷ []) s)
    | inr q ↦ ground (arith, q, contains-append e.denies (id ∷ []) s)
  ]

  allows-step :
      (id s : String) (e : Exceptions)
      → contains (step id e).allows s ≡ (contains e.allows s || (str_eq id s && excused s))
  allows-step id s e = elim (Bool-cases (str_eq id s)) [
    | inl q ↦ ground (arith, (eq_iff id s).0 q, q, contains-append e.allows (id ∷ []) s)
    | inr q ↦ ground (arith, q, contains-append e.allows (id ∷ []) s)
  ]

  denies-decide :
      (all : List String) (e : Exceptions) (s : String)
      → contains (decide want by_group all e).denies s
        ≡ (contains e.denies s || (contains all s && refused s))
  unfolding decide
  denies-decide [] e s = ground arith
  denies-decide (id ∷ all) e s = ground (arith, denies-decide all (step id e) s, denies-step id s e)

  allows-decide :
      (all : List String) (e : Exceptions) (s : String)
      → contains (decide want by_group all e).allows s
        ≡ (contains e.allows s || (contains all s && excused s))
  unfolding decide
  allows-decide [] e s = ground arith
  allows-decide (id ∷ all) e s = ground (arith, allows-decide all (step id e) s, allows-step id s e)

abbrev pub end_state : List String → List String → List String → Kind → List String
end_state denied_nodes denied_proxies denied_relays node = denied_nodes
end_state denied_nodes denied_proxies denied_relays relay = denied_relays
end_state denied_nodes denied_proxies denied_relays external = denied_proxies

dimension_lem :
    (g : Option Group) (k : Kind) (universe denied : List String) (m : Member) (id : String)
    → contains universe id ≡ true
    → m.exceptions k ≡ set_user_dimension g k universe denied
    → (is_denied g m k id ≡ contains denied id)
      × (contains (m.exceptions k).denies id ≡ true → contains (denies_of g k) id ≡ false)
      × (contains (m.exceptions k).allows id ≡ true → contains (denies_of g k) id ≡ true)
unfolding set_user_dimension is_denied
dimension_lem g k universe denied m id h e =
    let none_yet : Exceptions = record { denies = []; allows = [] } in
    let by_group = denies_of g k in
    let d =
      ap (λ (x : Exceptions). contains x.denies id) e
      ∙ denies-decide denied by_group universe none_yet id in
    let a =
      ap (λ (x : Exceptions). contains x.allows id) e
      ∙ allows-decide denied by_group universe none_yet id in
    (ground (arith, h, d, a), (λ x. ground (arith, h, d, x)), (λ x. ground (arith, h, a, x)))

-- After a save from the editor a subscriber is refused, of the objects there are, exactly those that
-- were to be refused,
-- whatever their group says and whatever exceptions they had; and an exception is written only where
-- the group decides otherwise, so that the group still decides the rest.
pub is_denied-set_user_node_access :
    (g : Option Group) (universe : Kind → List String)
    (denied_nodes denied_proxies denied_relays : List String) (m : Member) (k : Kind) (id : String)
    → contains (universe k) id ≡ true
    → let n = set_user_node_access g universe denied_nodes denied_proxies denied_relays m in
      (is_denied g n k id ≡ contains (end_state denied_nodes denied_proxies denied_relays k) id)
      × (contains (n.exceptions k).denies id ≡ true → contains (denies_of g k) id ≡ false)
      × (contains (n.exceptions k).allows id ≡ true → contains (denies_of g k) id ≡ true)
unfolding set_user_node_access
is_denied-set_user_node_access g universe dn dp dr m node id h =
    dimension_lem g node (universe node) dn (set_user_node_access g universe dn dp dr m) id h refl
is_denied-set_user_node_access g universe dn dp dr m relay id h =
    dimension_lem g relay (universe relay) dr (set_user_node_access g universe dn dp dr m) id h refl
is_denied-set_user_node_access g universe dn dp dr m external id h =
    dimension_lem g external (universe external) dp (set_user_node_access g universe dn dp dr m) id
      h refl
