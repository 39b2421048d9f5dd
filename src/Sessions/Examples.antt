-- ===== src/Sessions/Examples.antt =====
-- Sessions on concrete inputs: a node that reconnects.
use chiral.Prelude.{String, ◌≡◌, ◌≢◌, refl, true, false, [], ◌∷◌, some, All}
use chiral.Prelude.Maps.{lookup}
use chiral.Online.{Registry}
use chiral.Online.Seen.{IsConsistent, seen}
use chiral.Sessions.{
  Frame, Session, Manager, attach, end_session, enqueue, enqueue_to, queued, is_online,
}
use chiral.Sessions.Tracked.{
  IsTracked, IsCurrent, attached, returned, here, next, Reach-IsCurrent, end_session-attach,
}

abbrev seen_at_n : Registry
seen_at_n = record {
  users = ("u", ("1.1.1.1", record { node_id = "n"; at = 5 }) ∷ []) ∷ [];
  nodes = [];
  ttl = 180;
}

abbrev empty : Manager
empty = record { sessions = []; heap = []; hb_timeout = 90; online = seen_at_n }

abbrev first : Session
first = record { id = 1; node_id = "n"; send = []; closed = false; ended = false; last_seen = 10 }

abbrev one : Manager
one = record empty { sessions = ("n", 1) ∷ []; heap = first ∷ [] }

abbrev frame : Frame
frame = record { kind = "push"; payload = "{}" }

connects : attach "n" 1 10 empty ≡ one
unfolding attach
connects = refl

up : is_online "n" 99 one ≡ true
unfolding is_online
up = refl

takes : (enqueue false "n" frame one).1 ≡ queued
unfolding enqueue enqueue_to
takes = refl

empty-IsTracked : IsTracked empty
empty-IsTracked = tt

Reach-IsCurrent_example :
    All
      (IsCurrent (end_session "n" 1 (attach "n" 2 20 (attach "n" 1 10 empty))))
      (end_session "n" 1 (attach "n" 2 20 (attach "n" 1 10 empty))).heap
Reach-IsCurrent_example =
    Reach-IsCurrent
      (next (next (next here (attached "n" 1 10 refl)) (attached "n" 2 20 refl))
        (returned "n" 1 refl))
      empty-IsTracked

seen_at_n-IsConsistent : IsConsistent seen_at_n
seen_at_n-IsConsistent = record { users = ((refl, tt), ((refl, tt), tt)); nodes = tt }

end_session-attach_example :
    (lookup "n" (end_session "n" 1 (record (attach "n" 2 20 one) { online = seen_at_n })).sessions
      ≡ some 2)
    × (seen
            (end_session "n" 1 (record (attach "n" 2 20 one) { online = seen_at_n })).online.users
            "u"
            "1.1.1.1"
          ≡ some (record { node_id = "n"; at = 5 })
        → ◌≢◌ {A = String} "n" "n")
end_session-attach_example =
    end_session-attach one "n" "u" "1.1.1.1" 1 2 20 seen_at_n (record { node_id = "n"; at = 5 })
      seen_at_n-IsConsistent (λ e. cc)
