-- ===== src/Sessions/Tracked.antt =====
-- Open sessions and the table of core/internal/node/manager.go.
use chiral.Prelude.{
  ℕ, ◌≡◌, ◌≢◌, ◌⊎◌, inl, inr, refl, Bool, true, false, String, List, [], ◌∷◌, ◌++◌, Option, none,
  some, arith, if◌then◌else◌, eq_iff, All, Option-cases,
}
use chiral.Prelude.Maps.{
  Map, lookup, insert, delete, lookup-insert, lookup-delete, lookup-insert_self,
}
use chiral.Online.{Sighting, Registry, forget, of_others}
use chiral.Online.Seen.{IsConsistent, seen, seen-drop_sightings}
use chiral.Sessions.{
  Frame, Session, Manager, change_session, close, close_old, attach, is_session, detach,
  end_session, close_session, close_each, close_all, touch, get_some, enqueue_to, enqueue,
}

-- The session is closed, or it is the one that the table has for its node.
abbrev pub Accounted : Map ℕ → Session → Type 0
Accounted sessions s = (s.closed ≡ true) ⊎ (lookup s.node_id sessions ≡ some s.id)

abbrev pub IsTracked : Manager → Type 0
IsTracked m = All (Accounted m.sessions) m.heap

-- A change that closes no less and keeps a session's name keeps it accounted for.
All-change_session :
    (sessions : Map ℕ) (id : ℕ) (change : Session → Session) (heap : List Session)
    → ((s : Session) → Accounted sessions s → Accounted sessions (change s))
    → All (Accounted sessions) heap
    → All (Accounted sessions) (change_session id change heap)
All-change_session sessions id change [] k h = tt
All-change_session sessions id change (s ∷ heap) k (a, h) =
    ground (arith, k s a, All-change_session sessions id change heap k h)

All-close_old :
    (sessions : Map ℕ) (o : Option ℕ) (heap : List Session)
    → All (Accounted sessions) heap
    → All (Accounted sessions) (close_old o heap)
All-close_old sessions none heap h = h
All-close_old sessions (some id) heap h =
    All-change_session sessions id close heap (λ s a. inl refl) h

All-close_each :
    (sessions left : Map ℕ) (heap : List Session)
    → All (Accounted sessions) heap
    → All (Accounted sessions) (close_each left heap)
All-close_each sessions [] heap h = h
All-close_each sessions ((node_id, id) ∷ left) heap h =
    All-close_each sessions left (change_session id close heap)
      (All-change_session sessions id close heap (λ s a. inl refl) h)

insert-Accounted :
    (sessions : Map ℕ) (node_id : String) (id : ℕ) (s : Session)
    → Accounted sessions s
    → (lookup node_id sessions ≡ some s.id → s.closed ≡ true)
    → Accounted (insert node_id id sessions) s
insert-Accounted sessions node_id id s (inl c) k = inl c
insert-Accounted sessions node_id id s (inr l) k =
    ground (arith, k, eq_iff node_id s.node_id, lookup-insert s.node_id node_id id sessions)

All-insert :
    (sessions : Map ℕ) (node_id : String) (id : ℕ) (heap : List Session)
    → All (Accounted sessions) heap
    → All (Accounted (insert node_id id sessions)) (close_old (lookup node_id sessions) heap)
All-insert sessions node_id id heap h = elim (Option-cases (lookup node_id sessions)) [
  | inl e ↦ rw e (kept heap h e)
  | inr (j, e) ↦ rw e (closed j heap h e)
]
  where
    kept :
        (heap : List Session)
        → All (Accounted sessions) heap
        → lookup node_id sessions ≡ none
        → All (Accounted (insert node_id id sessions)) heap
    kept [] h e = tt
    kept (s ∷ heap) (a, h) e = (
      insert-Accounted sessions node_id id s a (λ l. absurd (ground (arith, e, l))),
      kept heap h e,
    )

    closed :
        (j : ℕ) (heap : List Session)
        → All (Accounted sessions) heap
        → lookup node_id sessions ≡ some j
        → All (Accounted (insert node_id id sessions)) (change_session j close heap)
    closed j [] h e = tt
    closed j (s ∷ heap) (a, h) e =
        (ground (arith, e, insert-Accounted sessions node_id id s a), closed j heap h e)

detach-Accounted :
    (sessions : Map ℕ) (node_id : String) (id : ℕ) (heap : List Session)
    → All (Accounted sessions) heap
    → All
        (Accounted
          (if is_session (lookup node_id sessions) id then delete node_id sessions else sessions))
        (change_session id (λ s. record s { closed = true; ended = true }) heap)
detach-Accounted sessions node_id id [] h = tt
detach-Accounted sessions node_id id (s ∷ heap) (a, h) = (
  ground (arith, a, eq_iff node_id s.node_id, lookup-delete s.node_id node_id sessions),
  detach-Accounted sessions node_id id heap h,
)

-- What streams, requests and the shutdown do, in any order.
pub data Step (m n : Manager) : Type 0 where
  attached : (node_id : String) (id now : ℕ) → n ≡ attach node_id id now m → Step m n
  returned : (node_id : String) (id : ℕ) → n ≡ end_session node_id id m → Step m n
  forced : (node_id : String) → n ≡ close_session node_id m → Step m n
  shut_down : n ≡ close_all m → Step m n
  touched : (id now : ℕ) → n ≡ touch id now m → Step m n
  sent : (pick : Bool) (node_id : String) (f : Frame) → n ≡ (enqueue pick node_id f m).0 → Step m n

pub data Reach (m : Manager) : Manager → Type 0 where
  here : Reach m m
  next : {n k : Manager} → Reach m n → Step n k → Reach m k

enqueue_to-IsTracked :
    (pick : Bool) (f : Frame) (o : Option Session) (m : Manager)
    → IsTracked m
    → IsTracked (enqueue_to pick f o m).0
unfolding enqueue_to
enqueue_to-IsTracked pick f none m h = h
enqueue_to-IsTracked pick f (some s) m h = ground (
  arith,
  h,
  All-change_session m.sessions s.id (λ t. record t { send = t.send ++ (f ∷ []) }) m.heap (λ t a. a)
      h,
)

-- Every step keeps each session that was ever attached closed or current.
pub Step-IsTracked : {m n : Manager} → Step m n → IsTracked m → IsTracked n
unfolding attach end_session detach close_session close_all touch enqueue
Step-IsTracked {m} (attached node_id id now e) h =
    rw e (inr (lookup-insert_self node_id id m.sessions), All-insert m.sessions node_id id m.heap h)
Step-IsTracked {m} (returned node_id id e) h =
    rw e (detach-Accounted m.sessions node_id id m.heap h)
Step-IsTracked {m} (forced node_id e) h =
    rw e (All-close_old m.sessions (lookup node_id m.sessions) m.heap h)
Step-IsTracked {m} (shut_down e) h = rw e (All-close_each m.sessions m.sessions m.heap h)
Step-IsTracked {m} (touched id now e) h =
    rw e (All-change_session m.sessions id (λ s. record s { last_seen = now }) m.heap (λ s a. a) h)
Step-IsTracked {m} (sent pick node_id f e) h =
    rw e (enqueue_to-IsTracked pick f (get_some (lookup node_id m.sessions) m.heap) m h)

-- An open session of a node is the one that the node's frames go to.
abbrev pub IsCurrent : Manager → Session → Type 0
IsCurrent m s = s.closed ≡ false → lookup s.node_id m.sessions ≡ some s.id

All-IsCurrent :
    (m : Manager) (heap : List Session) → All (Accounted m.sessions) heap → All (IsCurrent m) heap
All-IsCurrent m [] h = tt
All-IsCurrent m (s ∷ heap) (a, h) = (λ o. ground (arith, a, o), All-IsCurrent m heap h)

-- However streams connect, return, are closed and are replaced: a session whose stream has not been
-- told to end is the one that the table has for its node. So a node has at most one open session,
-- and a handler that returns late never takes a newer session out of the table.
pub Reach-IsCurrent : {m n : Manager} → Reach m n → IsTracked m → All (IsCurrent n) n.heap
Reach-IsCurrent {m} {n} r h = All-IsCurrent n n.heap (held r)
  where
    held : {k : Manager} → Reach m k → IsTracked k
    held here = h
    held (next s t) = Step-IsTracked t (held s)

-- Where a node reconnects and the handler of its old session returns after that, the new session
-- stays in the table, but the registry of addresses forgets the node: nothing that the node has
-- reported is left, reports over the new session included.
pub end_session-attach :
    (m : Manager) (node_id user_id ip : String) (old id now : ℕ) (o : Registry) (s : Sighting)
    → IsConsistent o
    → old ≢ id
    → let n = end_session node_id old (record (attach node_id id now m) { online = o }) in
      (lookup node_id n.sessions ≡ some id)
      × (seen n.online.users user_id ip ≡ some s → s.node_id ≢ node_id)
unfolding end_session detach attach forget
end_session-attach m node_id user_id ip old id now o s c d = (
  ground (arith, d, lookup-insert_self node_id id m.sessions),
  λ h e. ground (
    arith,
    h,
    e,
    eq_iff s.node_id node_id,
    seen-drop_sightings (of_others node_id) o.users user_id ip c.users,
  ),
)
