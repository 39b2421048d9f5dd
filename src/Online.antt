-- ===== src/Online.antt =====
-- Who is online from where: core/internal/online/online.go. A time is unix seconds and a duration is
-- seconds; the zero time of an observation is `none`. The mutex makes each operation one step.
pub mod Seen
pub mod Counting
mod Examples
use chiral.Prelude.{
  ℕ, ◌+◌, ◌-◌, Bool, true, false, not, ◌&&◌, ◌||◌, String, List, [], ◌∷◌, Option, none, some, ltb,
  leb, if◌then◌else◌, str_eq, suc,
}
use chiral.Prelude.Int.{ℤ, nonpositive, to_nat}
use chiral.Prelude.Maps.{Map, lookup, insert, retain, delete}

-- `sighting`
pub record Sighting : Type 0 where
  pub node_id : String
  pub at : ℕ

-- `nodeState`
pub record NodeState : Type 0 where
  pub at : ℕ
  pub complete : Bool

pub record Registry : Type 0 where
  pub users : Map (Map Sighting)
  pub nodes : Map NodeState
  pub ttl : ℕ

pub record Observation : Type 0 where
  pub user_id : String
  pub ip : String
  pub at : Option ℕ

-- `New`
abbrev pub new_registry : ℤ → Registry
new_registry ttl = record {
  users = [];
  nodes = [];
  ttl = if nonpositive ttl then 180 else to_nat ttl;
}

-- The sightings that pass a test. A user with none left goes with them.
abbrev pub drop_sightings : (Sighting → Bool) → Map (Map Sighting) → Map (Map Sighting)
drop_sightings keep [] = []
drop_sightings keep ((user_id, ips) ∷ users) =
    let rest = drop_sightings keep users in
    elim (retain (λ ip. keep) ips) [ [] ↦ rest | s ∷ left ↦ (user_id, s ∷ left) ∷ rest ]

-- The sightings that are not a node's.
abbrev pub of_others : String → Sighting → Bool
of_others node_id s = not (str_eq s.node_id node_id)

abbrev pub or_empty : Option (Map Sighting) → Map Sighting
or_empty none = []
or_empty (some ips) = ips

abbrev pub or_now : ℕ → Option ℕ → ℕ
or_now now none = now
or_now now (some at) = at

-- `!ok || at.After(prev.at)`
abbrev pub newer : ℕ → Option Sighting → Bool
newer at none = true
newer at (some prev) = ltb prev.at at

-- One observation of the loop of `Replace`.
unfoldable pub see : String → ℕ → Observation → Map (Map Sighting) → Map (Map Sighting)
see node_id now o users =
    let ips = or_empty (lookup o.user_id users) in
    let at = or_now now o.at in
    if str_eq o.user_id "" || str_eq o.ip ""
    then users
    else if newer at (lookup o.ip ips)
    then insert o.user_id (insert o.ip (record { node_id = node_id; at = at }) ips) users
    else users

unfoldable pub see_all : String → ℕ → List Observation → Map (Map Sighting) → Map (Map Sighting)
see_all node_id now [] users = users
see_all node_id now (o ∷ obs) users = see_all node_id now obs (see node_id now o users)

-- `Replace`
unfoldable pub replace : String → List Observation → Bool → ℕ → Registry → Registry
replace node_id obs complete now r = record r {
  nodes = insert node_id (record { at = now; complete = complete }) r.nodes;
  users = see_all node_id now obs (drop_sightings (of_others node_id) r.users);
}

-- `Forget`
unfoldable pub forget : String → Registry → Registry
forget node_id r = record r {
  nodes = delete node_id r.nodes;
  users = drop_sightings (of_others node_id) r.users;
}

-- `now.Sub(at) <= ttl`, which also holds of a time to come.
abbrev pub fresh : ℕ → ℕ → ℕ → Bool
fresh ttl now at = leb (now - at) ttl

abbrev pub count_if {ℓ} : {V : Type ℓ} → (V → Bool) → Map V → ℕ
count_if p [] = 0
count_if p ((k, v) ∷ m) = if p v then suc (count_if p m) else count_if p m

abbrev pub any_if {ℓ} : {V : Type ℓ} → (V → Bool) → Map V → Bool
any_if p [] = false
any_if p ((k, v) ∷ m) = p v || any_if p m

-- `Status`
pub record Status : Type 0 where
  pub count : ℕ
  pub partial : Bool
  pub nodes_reporting : ℕ

unfoldable pub status : Registry → String → ℕ → Status
status r user_id now = record {
  count = count_if (λ s. fresh r.ttl now s.at) (or_empty (lookup user_id r.users));
  partial = any_if (λ n. fresh r.ttl now n.at && not n.complete) r.nodes;
  nodes_reporting = count_if (λ n. fresh r.ttl now n.at) r.nodes;
}

-- The loop of `Counts`, with the map so far.
unfoldable pub counts_onto : ℕ → ℕ → Map ℕ → Map (Map Sighting) → Map ℕ
counts_onto ttl now out [] = out
counts_onto ttl now out ((user_id, ips) ∷ users) =
    let n = count_if (λ s. fresh ttl now s.at) ips in
    counts_onto ttl now (if ltb 0 n then insert user_id n out else out) users

-- `Counts`
unfoldable pub counts : Registry → ℕ → Map ℕ
unfolding counts_onto
counts r now = counts_onto r.ttl now [] r.users

-- `Prune`
unfoldable pub prune : Registry → ℕ → Registry
prune r now = record r {
  nodes = retain (λ id n. fresh r.ttl now n.at) r.nodes;
  users = drop_sightings (λ s. fresh r.ttl now s.at) r.users;
}
