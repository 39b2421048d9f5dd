-- ===== src/Online/Seen.antt =====
-- The sighting of a user at an address after each operation of core/internal/online/online.go.
use chiral.Prelude.{
  ℕ, ◌≡◌, refl, ◌∙◌, ap, Bool, not, ◌&&◌, ◌||◌, String, List, [], ◌∷◌, Option, none, some, arith,
  if◌then◌else◌, str_eq, eq_iff, All,
}
use chiral.Prelude.Maps.{
  Map, lookup, insert, IsMap, keep_if, lookup-retain, lookup-insert, retain-IsMap, insert-IsMap,
  delete-IsMap,
}
use chiral.Online.{
  Sighting, Registry, Observation, drop_sightings, of_others, or_empty, or_now, newer, see, see_all,
  replace, forget, fresh, prune,
}

-- The sighting of a user at an address.
abbrev pub seen : Map (Map Sighting) → String → String → Option Sighting
seen users user_id ip = lookup ip (or_empty (lookup user_id users))

abbrev pub Nested : Map (Map Sighting) → Type 0
Nested users = IsMap users × All (λ u. IsMap u.1) users

module _ (keep : Sighting → Bool) where
  pub lookup-drop_sightings-none :
      (user_id : String) (users : Map (Map Sighting))
      → lookup user_id users ≡ none
      → lookup user_id (drop_sightings keep users) ≡ none
  lookup-drop_sightings-none user_id [] h = refl
  lookup-drop_sightings-none user_id ((v, ips) ∷ users) h =
      ground (arith, lookup-drop_sightings-none user_id users)

  -- Dropping acts on each sighting by itself.
  pub seen-drop_sightings :
      (users : Map (Map Sighting)) (user_id ip : String)
      → Nested users
      → seen (drop_sightings keep users) user_id ip ≡ keep_if keep (seen users user_id ip)
  seen-drop_sightings [] user_id ip h = refl
  seen-drop_sightings ((v, ips) ∷ users) user_id ip ((n, m), (i, is)) = ground (
    arith,
    eq_iff v user_id,
    seen-drop_sightings users user_id ip (m, is),
    lookup-drop_sightings-none user_id users,
    lookup-retain ip (λ ip. keep) ips i,
  )

  All-drop_sightings :
      (users : Map (Map Sighting))
      → All (λ u. IsMap u.1) users
      → All (λ u. IsMap u.1) (drop_sightings keep users)
  All-drop_sightings [] h = tt
  All-drop_sightings ((v, ips) ∷ users) (i, is) =
      ground (arith, retain-IsMap (λ ip. keep) ips i, All-drop_sightings users is)

  drop_sightings-IsMap :
      (users : Map (Map Sighting)) → IsMap users → IsMap (drop_sightings keep users)
  drop_sightings-IsMap [] h = tt
  drop_sightings-IsMap ((v, ips) ∷ users) (n, m) =
      ground (arith, drop_sightings-IsMap users m, lookup-drop_sightings-none v users n)

  drop_sightings-Nested :
      (users : Map (Map Sighting)) → Nested users → Nested (drop_sightings keep users)
  drop_sightings-Nested users (m, is) = (drop_sightings-IsMap users m, All-drop_sightings users is)

lookup-All :
    (users : Map (Map Sighting)) (user_id : String)
    → All (λ u. IsMap u.1) users
    → IsMap (or_empty (lookup user_id users))
lookup-All [] user_id h = tt
lookup-All ((v, ips) ∷ users) user_id (i, is) = ground (arith, lookup-All users user_id is)

insert-All :
    (users : Map (Map Sighting)) (user_id : String) (ips : Map Sighting)
    → All (λ u. IsMap u.1) users
    → IsMap ips
    → All (λ u. IsMap u.1) (insert user_id ips users)
insert-All [] user_id ips h i = (i, tt)
insert-All ((v, w) ∷ users) user_id ips (j, js) i =
    ground (arith, insert-All users user_id ips js i)

-- What an observation makes of the sighting at its user and address.
abbrev pub latest : String → ℕ → Option Sighting → Option Sighting
latest node_id at prev =
    if newer at prev then some (record { node_id = node_id; at = at }) else prev

abbrev pub is_for : Observation → String → String → Bool
is_for o user_id ip =
    not (str_eq o.user_id "" || str_eq o.ip "") && str_eq o.user_id user_id && str_eq o.ip ip

module _ (node_id : String) (now : ℕ) where
  see-Nested :
      (o : Observation) (users : Map (Map Sighting))
      → Nested users
      → Nested (see node_id now o users)
  unfolding see
  see-Nested o users (m, is) =
      let ips = or_empty (lookup o.user_id users) in
      let s : Sighting = record { node_id = node_id; at = or_now now o.at } in
      ground (
        arith,
        insert-IsMap o.user_id (insert o.ip s ips) users m,
        insert-All users o.user_id (insert o.ip s ips) is
            (insert-IsMap o.ip s ips (lookup-All users o.user_id is)),
      )

  seen-see :
      (o : Observation) (users : Map (Map Sighting)) (user_id ip : String)
      → seen (see node_id now o users) user_id ip ≡ (
          if is_for o user_id ip
          then latest node_id (or_now now o.at) (seen users user_id ip)
          else seen users user_id ip)
  unfolding see
  seen-see o users user_id ip =
      let ips = or_empty (lookup o.user_id users) in
      let s : Sighting = record { node_id = node_id; at = or_now now o.at } in
      ground (
        arith,
        eq_iff o.user_id user_id,
        eq_iff o.ip ip,
        lookup-insert user_id o.user_id (insert o.ip s ips) users,
        lookup-insert ip o.ip s ips,
      )

  see_all-Nested :
      (obs : List Observation) (users : Map (Map Sighting))
      → Nested users
      → Nested (see_all node_id now obs users)
  unfolding see_all
  see_all-Nested [] users h = h
  see_all-Nested (o ∷ obs) users h =
      see_all-Nested obs (see node_id now o users) (see-Nested o users h)

  -- What a list of observations makes of one sighting.
  abbrev pub merged : List Observation → String → String → Option Sighting → Option Sighting
  merged [] user_id ip prev = prev
  merged (o ∷ obs) user_id ip prev =
      merged obs user_id ip
        (if is_for o user_id ip then latest node_id (or_now now o.at) prev else prev)

  seen-see_all :
      (obs : List Observation) (users : Map (Map Sighting)) (user_id ip : String)
      → seen (see_all node_id now obs users) user_id ip
        ≡ merged obs user_id ip (seen users user_id ip)
  unfolding see_all
  seen-see_all [] users user_id ip = refl
  seen-see_all (o ∷ obs) users user_id ip =
      seen-see_all obs (see node_id now o users) user_id ip
      ∙ ap (merged obs user_id ip) (seen-see o users user_id ip)

-- Each user and each node stands once, and so does each address of a user.
pub record IsConsistent (r : Registry) : Type 0 where
  pub users : Nested r.users
  pub nodes : IsMap r.nodes

-- A report, a disconnection and a sweep keep the registry consistent.
pub operations-IsConsistent :
    (r : Registry) (node_id : String) (obs : List Observation) (complete : Bool) (now : ℕ)
    → IsConsistent r
    → IsConsistent (replace node_id obs complete now r)
      × IsConsistent (forget node_id r)
      × IsConsistent (prune r now)
unfolding replace forget prune
operations-IsConsistent r node_id obs complete now h = (
  record {
    users =
        see_all-Nested node_id now obs _
          (drop_sightings-Nested (of_others node_id) r.users h.users);
    nodes = insert-IsMap node_id _ r.nodes h.nodes;
  },
  record {
    users = drop_sightings-Nested (of_others node_id) r.users h.users;
    nodes = delete-IsMap node_id r.nodes h.nodes;
  },
  record {
    users = drop_sightings-Nested (λ s. fresh r.ttl now s.at) r.users h.users;
    nodes = retain-IsMap (λ id n. fresh r.ttl now n.at) r.nodes h.nodes;
  },
)

-- After a report from a node, an address stands for a user as the report says: the sightings of the
-- other nodes with the report's observations merged in, the later sighting winning. What the node
-- itself had reported before plays no part.
pub seen-replace :
    (r : Registry) (node_id : String) (obs : List Observation) (complete : Bool) (now : ℕ)
    (user_id ip : String)
    → IsConsistent r
    → seen (replace node_id obs complete now r).users user_id ip
      ≡ merged node_id now obs user_id ip (keep_if (of_others node_id) (seen r.users user_id ip))
unfolding replace
seen-replace r node_id obs complete now user_id ip h =
    seen-see_all node_id now obs (drop_sightings (of_others node_id) r.users) user_id ip
    ∙ ap (merged node_id now obs user_id ip)
        (seen-drop_sightings (of_others node_id) r.users user_id ip h.users)
