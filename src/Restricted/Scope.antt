-- ===== src/Restricted/Scope.antt =====
-- `RestrictedNodeIDs` against the test of `blocksFor`.
use chiral.Prelude.{
  ◌≡◌, refl, sym, Bool, false, ◌&&◌, ◌||◌, String, List, [], ◌∷◌, ◌++◌, arith, inl, inr, map, keep,
  any, contains, str_eq, eq_iff, str_eq_sym, Bool-cases,
}
use chiral.Restricted.{
  NodeRelay, EgressRule, Destination, Tables, relays_from_entry, egress_rules_on, lands, exit_of,
  in_scope, add_id, add_all, add_entry, add_entries, egress_source_nodes_for, restricted_node_ids,
}

pub contains-append :
    (xs ys : List String) (s : String) → contains (xs ++ ys) s ≡ (contains xs s || contains ys s)
contains-append [] ys s = refl
contains-append (x ∷ xs) ys s = ground (arith, contains-append xs ys s)

contains-add_id :
    (id : String) (out : List String) (n : String)
    → contains (add_id id out) n ≡ (str_eq id n || contains out n)
contains-add_id id out n = ground (arith, contains-append out (id ∷ []) n, eq_iff id n)

contains-add_all :
    (ids out : List String) (n : String)
    → contains (add_all ids out) n ≡ (contains ids n || contains out n)
contains-add_all [] out n = refl
contains-add_all (id ∷ ids) out n =
    ground (arith, contains-add_all ids (add_id id out) n, contains-add_id id out n)

contains-add_entry :
    (r : NodeRelay) (ids out : List String) (n : String)
    → contains (add_entry r ids out) n
      ≡ ((contains ids r.exit_node_id && str_eq r.entry_node_id n) || contains out n)
contains-add_entry r [] out n = refl
contains-add_entry r (nid ∷ ids) out n = elim (Bool-cases (str_eq r.exit_node_id nid)) [
  | inl e ↦ rw e (
      ground (
        arith,
        e,
        str_eq_sym r.exit_node_id nid,
        contains-add_entry r ids (add_id r.entry_node_id out) n,
        contains-add_id r.entry_node_id out n,
      ))
  | inr e ↦ rw e (ground (arith, e, str_eq_sym r.exit_node_id nid, contains-add_entry r ids out n))
]

-- Whether the node is the entry of an enabled relay that ends in the scope, or has a rule that lands
-- there.
abbrev enters : List String → String → NodeRelay → Bool
enters ids n r = r.enabled && contains ids r.exit_node_id && str_eq r.entry_node_id n

abbrev sends : List String → String → EgressRule → Bool
sends ids n r = lands r && contains ids r.target_node_id && str_eq r.node_id n

contains-add_entries :
    (relays : List NodeRelay) (ids out : List String) (n : String)
    → contains (add_entries relays ids out) n ≡ (any (enters ids n) relays || contains out n)
unfolding add_entries
contains-add_entries [] ids out n = refl
contains-add_entries (r ∷ relays) ids out n = elim (Bool-cases r.enabled) [
  | inl e ↦ ground (
    arith,
    e,
    contains-add_entries relays ids (add_entry r ids out) n,
    contains-add_entry r ids out n,
  )
  | inr e ↦ ground (arith, e, contains-add_entries relays ids out n)
]

contains-sources :
    (rules : List EgressRule) (ids : List String) (n : String)
    → contains (map (λ r. r.node_id) (keep (λ r. lands r && contains ids r.target_node_id) rules)) n
      ≡ any (sends ids n) rules
contains-sources [] ids n = refl
contains-sources (r ∷ rules) ids n = elim (Bool-cases (lands r && contains ids r.target_node_id)) [
  | inl e ↦ ground (arith, e, contains-sources rules ids n)
  | inr e ↦ ground (arith, e, contains-sources rules ids n)
]

abbrev meets : List String → List String → Bool
meets ids = any (contains ids)

meets-cons :
    (nid : String) (ids exits : List String)
    → meets (nid ∷ ids) exits ≡ (contains exits nid || meets ids exits)
meets-cons nid ids [] = refl
meets-cons nid ids (e ∷ exits) = ground (arith, meets-cons nid ids exits, str_eq_sym nid e)

any_scope :
    (n : String) (exits ids : List String)
    → any (λ nid. str_eq nid n || contains exits nid) ids ≡ (contains ids n || meets ids exits)
any_scope n exits [] = sym (no_meet exits)
  where
    no_meet : (exits : List String) → meets [] exits ≡ false
    no_meet [] = refl
    no_meet (e ∷ exits) = no_meet exits
any_scope n exits (nid ∷ ids) = ground (arith, any_scope n exits ids, meets-cons nid ids exits)

meets-append : (ids xs ys : List String) → meets ids (xs ++ ys) ≡ (meets ids xs || meets ids ys)
meets-append ids [] ys = refl
meets-append ids (x ∷ xs) ys = ground (arith, meets-append ids xs ys)

meets-relays :
    (ids : List String) (n : String) (relays : List NodeRelay)
    → meets ids
        (map (λ r. r.exit_node_id) (keep (λ r. str_eq r.entry_node_id n && r.enabled) relays))
      ≡ any (enters ids n) relays
meets-relays ids n [] = refl
meets-relays ids n (r ∷ relays) = elim (Bool-cases (str_eq r.entry_node_id n && r.enabled)) [
  | inl e ↦ ground (arith, e, meets-relays ids n relays)
  | inr e ↦ ground (arith, e, meets-relays ids n relays)
]

meets-rules :
    (ids : List String) (n : String) (rules : List EgressRule)
    → meets ids (map (λ r. r.target_node_id) (keep lands (keep (λ r. str_eq r.node_id n) rules)))
      ≡ any (sends ids n) rules
meets-rules ids n [] = refl
meets-rules ids n (r ∷ rules) = elim (Bool-cases (str_eq r.node_id n)) [
  | inl e ↦ elim (Bool-cases (lands r)) [
    | inl f ↦ rw e (rw f (ground (arith, e, f, meets-rules ids n rules)))
    | inr f ↦ rw e (rw f (ground (arith, e, f, meets-rules ids n rules)))
  ]
  | inr e ↦ rw e (ground (arith, e, meets-rules ids n rules))
]

-- The nodes that are pushed to after a change of a destination are exactly those whose configuration
-- has it in scope: its own nodes, the entries of enabled relays that end on one, and the nodes with an
-- enabled egress rule that lands on one.
pub contains-restricted_node_ids :
    (t : Tables) (d : Destination) (n : String)
    → contains (restricted_node_ids t d) n ≡ in_scope t n d
unfolding restricted_node_ids egress_source_nodes_for in_scope exit_of relays_from_entry
    egress_rules_on
contains-restricted_node_ids t d n =
    let ids = d.node_ids in
    let own = add_all ids [] in
    let entries = add_entries t.relays ids own in
    let sources =
      map (λ (r : EgressRule). r.node_id)
        (keep (λ r. lands r && contains ids r.target_node_id) t.egress) in
    let from_relays =
      map (λ (r : NodeRelay). r.exit_node_id)
        (keep (λ r. str_eq r.entry_node_id n && r.enabled) t.relays) in
    let from_rules =
      map (λ (r : EgressRule). r.target_node_id)
        (keep lands (keep (λ r. str_eq r.node_id n) t.egress)) in
    ground (
      arith,
      contains-add_all sources entries n,
      contains-add_entries t.relays ids own n,
      contains-add_all ids [] n,
      contains-sources t.egress ids n,
      any_scope n (from_relays ++ from_rules) ids,
      meets-append ids from_relays from_rules,
      meets-relays ids n t.relays,
      meets-rules ids n t.egress,
    )
