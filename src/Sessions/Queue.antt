-- ===== src/Sessions/Queue.antt =====
-- `enqueue` of core/internal/node/manager.go.
use chiral.Prelude.{
  ℕ, ◌≤◌, ◌<◌, ◌≡◌, ◌≢◌, refl, sym, Bool, true, String, List, [], ◌∷◌, ◌++◌, Option, none, some,
  arith, length, length-append, ◌⊎◌, subst,
}
use chiral.Prelude.Maps.{lookup}
use chiral.Sessions.{
  Frame, Session, Manager, send_queue_size, change_session, get_session, get_some, enqueue_to,
  enqueue, Answer, queued,
}

get_session-id :
    (id : ℕ) (heap : List Session) {s : Session} → get_session id heap ≡ some s → s.id ≡ id
get_session-id id [] h = cc
get_session-id id (x ∷ heap) {s} h = ground (arith, get_session-id id heap {s = s})

get_session-change_session :
    (id : ℕ) (change : Session → Session) (heap : List Session) {s : Session}
    → ((x : Session) → (change x).id ≡ x.id)
    → get_session id heap ≡ some s
    → get_session id (change_session id change heap) ≡ some (change s)
get_session-change_session id change [] k h = cc
get_session-change_session id change (x ∷ heap) {s} k h =
    ground (arith, k x, get_session-change_session id change heap {s = s} k)

-- The frame is the last of the session's queue, within the bound; or nothing changed, and the
-- session is closed or its queue full.
abbrev pub Answers : String → Frame → Manager → Session → Manager × Answer → Type 0
Answers node_id f m s (n, answer) =
    ((answer ≡ queued)
      × (length s.send < send_queue_size)
      × (get_some (lookup node_id n.sessions) n.heap
          ≡ some (record s { send = s.send ++ (f ∷ []) }))
      × (length (s.send ++ (f ∷ [])) ≤ send_queue_size))
    ⊎ ((answer ≢ queued) × (n ≡ m) × ((s.closed ≡ true) ⊎ (send_queue_size ≤ length s.send)))

module _ (node_id : String) (f : Frame) (m : Manager) {s : Session} where
  get_some-change_session :
      (o : Option ℕ)
      → get_some o m.heap ≡ some s
      → get_some o (change_session s.id (λ t. record t { send = t.send ++ (f ∷ []) }) m.heap)
        ≡ some (record s { send = s.send ++ (f ∷ []) })
  get_some-change_session none h = cc
  get_some-change_session (some id) h =
      let e = get_session-id id m.heap {s = s} h in
      subst
        (λ i.
          get_session id (change_session i (λ t. record t { send = t.send ++ (f ∷ []) }) m.heap)
          ≡ some (record s { send = s.send ++ (f ∷ []) }))
        (sym e)
        (get_session-change_session id (λ t. record t { send = t.send ++ (f ∷ []) }) m.heap {s = s}
          (λ x. refl) h)

  enqueue_to-Answers :
      (pick : Bool)
      → get_some (lookup node_id m.sessions) m.heap ≡ some s
      → Answers node_id f m s (enqueue_to pick f (some s) m)
  unfolding enqueue_to
  enqueue_to-Answers pick h = ground (
    arith,
    h,
    get_some-change_session (lookup node_id m.sessions) h,
    length-append s.send (f ∷ []),
  )

-- A frame for a node goes to its current session and to no other: it is taken where the queue has
-- room, and then it stands last in that queue, which is within its bound; and where it is not taken,
-- nothing changes, and the session was closed or its queue full. This holds whichever case the
-- `select` picks.
pub enqueue-Answers :
    (pick : Bool) (node_id : String) (f : Frame) (m : Manager) {s : Session}
    → get_some (lookup node_id m.sessions) m.heap ≡ some s
    → Answers node_id f m s (enqueue pick node_id f m)
unfolding enqueue
enqueue-Answers pick node_id f m {s} h =
    subst (λ o. Answers node_id f m s (enqueue_to pick f o m)) (sym h)
      (enqueue_to-Answers node_id f m {s = s} pick h)
