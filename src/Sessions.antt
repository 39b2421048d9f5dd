-- ===== src/Sessions.antt =====
-- The live sessions of the nodes: core/internal/node/manager.go, and the end of a session's handler
-- in core/internal/node/service.go. A session is known by a number in place of its pointer; `heap`
-- holds every session that was ever attached. Frames are what a stream sends.
pub mod Tracked
pub mod Queue
mod Examples
use chiral.Prelude.{
  ℕ, ◌-◌, Bool, true, false, not, ◌&&◌, ◌||◌, String, List, [], ◌∷◌, ◌++◌, Option, none, some, ltb,
  ◌==◌, if◌then◌else◌, length,
}
use chiral.Prelude.Maps.{Map, lookup, insert, delete}
use chiral.Online.{Registry, forget}

-- A frame for an agent.
pub record Frame : Type 0 where
  pub kind : String
  pub payload : String

-- `Session`; `ended` says that its handler has returned.
pub record Session : Type 0 where
  pub id : ℕ
  pub node_id : String
  pub send : List Frame
  pub closed : Bool
  pub ended : Bool
  pub last_seen : ℕ

-- `Manager`, with the registry of addresses that a handler's end tells.
pub record Manager : Type 0 where
  pub sessions : Map ℕ
  pub heap : List Session
  pub hb_timeout : ℕ
  pub online : Registry

abbrev pub send_queue_size : ℕ
send_queue_size = 16

abbrev pub change_session : ℕ → (Session → Session) → List Session → List Session
change_session id change [] = []
change_session id change (s ∷ heap) =
    (if s.id == id then change s else s) ∷ change_session id change heap

-- `Session.close`, which closes once.
abbrev pub close : Session → Session
close s = record s { closed = true }

abbrev pub close_old : Option ℕ → List Session → List Session
close_old none heap = heap
close_old (some id) heap = change_session id close heap

-- `attach` of a new session
unfoldable pub attach : String → ℕ → ℕ → Manager → Manager
attach node_id id now m =
    let s : Session = record {
      id = id;
      node_id = node_id;
      send = [];
      closed = false;
      ended = false;
      last_seen = now;
    } in
    record m {
      sessions = insert node_id id m.sessions;
      heap = s ∷ close_old (lookup node_id m.sessions) m.heap;
    }

abbrev pub is_session : Option ℕ → ℕ → Bool
is_session none id = false
is_session (some j) id = j == id

-- `detach`
unfoldable pub detach : String → ℕ → Manager → Manager
detach node_id id m = record m {
  sessions =
      if is_session (lookup node_id m.sessions) id then delete node_id m.sessions else m.sessions;
}

-- What `Channel` defers: close, detach, and forget the node's addresses.
unfoldable pub end_session : String → ℕ → Manager → Manager
unfolding detach
end_session node_id id m =
    let m' = record m {
      heap = change_session id (λ s. record s { closed = true; ended = true }) m.heap;
    } in
    record (detach node_id id m') { online = forget node_id m.online }

-- `CloseSession`
unfoldable pub close_session : String → Manager → Manager
close_session node_id m = record m { heap = close_old (lookup node_id m.sessions) m.heap }

abbrev pub close_each : Map ℕ → List Session → List Session
close_each [] heap = heap
close_each ((node_id, id) ∷ sessions) heap = close_each sessions (change_session id close heap)

-- `CloseAll`
unfoldable pub close_all : Manager → Manager
close_all m = record m { heap = close_each m.sessions m.heap }

-- `touch`
unfoldable pub touch : ℕ → ℕ → Manager → Manager
touch id now m = record m { heap = change_session id (λ s. record s { last_seen = now }) m.heap }

abbrev pub get_session : ℕ → List Session → Option Session
get_session id [] = none
get_session id (s ∷ heap) = if s.id == id then some s else get_session id heap

abbrev pub get_some : Option ℕ → List Session → Option Session
get_some none heap = none
get_some (some id) heap = get_session id heap

abbrev pub recent : ℕ → ℕ → Option Session → Bool
recent now timeout none = false
recent now timeout (some s) = ltb (now - s.last_seen) timeout

-- `IsOnline`
unfoldable pub is_online : String → ℕ → Manager → Bool
is_online node_id now m = recent now m.hb_timeout (get_some (lookup node_id m.sessions) m.heap)

pub data Answer : Type 0 where
  queued node_offline queue_full : Answer

-- The `select` of `enqueue`: where the queue has room and the session is done, Go picks either
-- case, so the pick is an argument.
unfoldable pub enqueue_to : Bool → Frame → Option Session → Manager → Manager × Answer
enqueue_to pick f none m = (m, node_offline)
enqueue_to pick f (some s) m =
    let room = ltb (length s.send) send_queue_size in
    if room && (pick || not s.closed)
    then (
      record m { heap = change_session s.id (λ t. record t { send = t.send ++ (f ∷ []) }) m.heap },
      queued,
    )
    else if s.closed
    then (m, node_offline)
    else (m, queue_full)

-- `enqueue`, behind every `Send` and `PushConfig`
unfoldable pub enqueue : Bool → String → Frame → Manager → Manager × Answer
unfolding enqueue_to
enqueue pick node_id f m = enqueue_to pick f (get_some (lookup node_id m.sessions) m.heap) m
