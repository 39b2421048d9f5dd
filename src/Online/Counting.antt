-- ===== src/Online/Counting.antt =====
-- `Status`, `Counts` and `Prune` of core/internal/online/online.go.
use chiral.Prelude.{
  ℕ, ◌≤◌, ◌≡◌, refl, Bool, true, not, ◌&&◌, String, [], ◌∷◌, Option, none, some, arith, ltb,
  if◌then◌else◌, eq_iff,
}
use chiral.Prelude.Maps.{Map, lookup, insert, retain, IsMap, lookup-insert}
use chiral.Online.{
  Sighting, NodeState, Registry, drop_sightings, or_empty, fresh, prune, count_if, any_if, status,
  counts_onto, counts,
}
use chiral.Online.Seen.{IsConsistent, lookup-drop_sightings-none}

abbrev pub or_zero : Option ℕ → ℕ
or_zero none = 0
or_zero (some n) = n

-- The count that stands for a user whose addresses are these, over what the map held already.
abbrev over : ℕ → Option ℕ → ℕ
over n out = if ltb 0 n then n else or_zero out

module _ (ttl now : ℕ) (user_id : String) where
  abbrev current : Map (Map Sighting) → ℕ
  current users = count_if (λ s. fresh ttl now s.at) (or_empty (lookup user_id users))

  current-none : (users : Map (Map Sighting)) → lookup user_id users ≡ none → current users ≡ 0
  current-none users h = rw h

  lookup-counts_onto :
      (out : Map ℕ) (users : Map (Map Sighting))
      → IsMap users
      → or_zero (lookup user_id (counts_onto ttl now out users))
        ≡ over (current users) (lookup user_id out)
  unfolding counts_onto
  lookup-counts_onto out [] h = refl
  lookup-counts_onto out ((v, ips) ∷ users) (n, m) =
      let c = count_if (λ s. fresh ttl now s.at) ips in
      ground (
        arith,
        eq_iff v user_id,
        lookup-counts_onto (if ltb 0 c then insert v c out else out) users m,
        current-none users,
        lookup-insert user_id v c out,
      )

-- `Counts` says of every user what `Status` says, a user who is absent standing for 0.
pub lookup-counts :
    (r : Registry) (user_id : String) (now : ℕ)
    → IsConsistent r
    → or_zero (lookup user_id (counts r now)) ≡ (status r user_id now).count
unfolding counts status
lookup-counts r user_id now h =
    ground (arith, lookup-counts_onto r.ttl now user_id [] r.users h.users.0)

module _ {ℓ} {V : Type ℓ} where
  -- What a sweep removes, a narrower count does not miss.
  count_if-retain :
      (p q : V → Bool) (m : Map V)
      → ((v : V) → p v ≡ true → q v ≡ true)
      → count_if p (retain (λ k. q) m) ≡ count_if p m
  count_if-retain p q [] h = refl
  count_if-retain p q ((k, v) ∷ m) h = ground (arith, count_if-retain p q m h, h v)

  any_if-retain :
      (p q : V → Bool) (m : Map V)
      → ((v : V) → p v ≡ true → q v ≡ true)
      → any_if p (retain (λ k. q) m) ≡ any_if p m
  any_if-retain p q [] h = refl
  any_if-retain p q ((k, v) ∷ m) h = ground (arith, any_if-retain p q m h, h v)

module _ (p q : Sighting → Bool) (h : (s : Sighting) → p s ≡ true → q s ≡ true) where
  count_if-drop_sightings :
      (users : Map (Map Sighting)) (user_id : String)
      → IsMap users
      → count_if p (or_empty (lookup user_id (drop_sightings q users)))
        ≡ count_if p (or_empty (lookup user_id users))
  count_if-drop_sightings [] user_id m = refl
  count_if-drop_sightings ((v, ips) ∷ users) user_id (n, m) = ground (
    arith,
    eq_iff v user_id,
    count_if-drop_sightings users user_id m,
    lookup-drop_sightings-none q user_id users,
    count_if-retain p q ips h,
  )

fresh_before :
    (ttl now later at : ℕ) → now ≤ later → fresh ttl later at ≡ true → fresh ttl now at ≡ true
fresh_before ttl now later at l h = ground arith

fresh_and :
    (ttl now later : ℕ) (n : NodeState)
    → now ≤ later
    → (fresh ttl later n.at && not n.complete) ≡ true
    → fresh ttl now n.at ≡ true
fresh_and ttl now later n l h = ground arith

-- A sweep only forgets what no longer counts: from its time on, the panel shows the same with it
-- and without it.
pub status-prune :
    (r : Registry) (user_id : String) (now later : ℕ)
    → IsConsistent r
    → now ≤ later
    → status (prune r now) user_id later ≡ status r user_id later
unfolding status prune
status-prune r user_id now later h l =
    let a =
      count_if-drop_sightings (λ s. fresh r.ttl later s.at) (λ s. fresh r.ttl now s.at)
        (λ s. fresh_before r.ttl now later s.at l) r.users user_id h.users.0 in
    let b =
      any_if-retain (λ n. fresh r.ttl later n.at && not n.complete) (λ n. fresh r.ttl now n.at)
        r.nodes (λ n. fresh_and r.ttl now later n l) in
    let c =
      count_if-retain (λ n. fresh r.ttl later n.at) (λ n. fresh r.ttl now n.at) r.nodes
        (λ n. fresh_before r.ttl now later n.at l) in
    ground (arith, a, b, c)
