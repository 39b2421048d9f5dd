-- ===== src/Alert/Tables.antt =====
-- The loops of `Sweep`, core/internal/alert/alert.go, seen from one node's row.
use chiral.Prelude.{
  ℕ, ◌≡◌, refl, Bool, String, List, [], ◌∷◌, Option, none, some, arith, if◌then◌else◌, str_eq,
  eq_iff, any, inl, inr, Option-cases,
}
use chiral.Prelude.Maps.{Map, lookup, lookup-insert}
use chiral.Alert.{
  AlertTarget, NodeAlertState, observed, observe_node, mark_announced, Node, Event, message, World,
  Alerts, notify, notify_some, observe_all, is_due, announce_node, announce_all,
}

abbrev pub has_node : String → List Node → Bool
has_node id = any (λ n. str_eq n.id id)

observed_twice :
    (online : Bool) (now : ℕ) (o : Option NodeAlertState)
    → observed online now (some (observed online now o)) ≡ observed online now o
observed_twice online now none = ground arith
observed_twice online now (some st) = ground arith

lookup-observe_node :
    (id j : String) (online : Bool) (now : ℕ) (states : Map NodeAlertState)
    → lookup id (observe_node j online now states)
      ≡ (if str_eq j id then some (observed online now (lookup id states)) else lookup id states)
unfolding observe_node
lookup-observe_node id j online now states =
    ground (arith, eq_iff j id, lookup-insert id j (observed online now (lookup j states)) states)

-- The first loop observes each node of the list, and touches no other row.
pub lookup-observe_all :
    (w : World) (ns : List Node) (id : String) (states : Map NodeAlertState)
    → lookup id (observe_all w ns states) ≡ (
        if has_node id ns
        then some (observed (w.is_online id) w.now (lookup id states))
        else lookup id states)
unfolding observe_all
lookup-observe_all w [] id states = refl
lookup-observe_all w (n ∷ ns) id states = ground (
  arith,
  eq_iff n.id id,
  lookup-observe_all w ns id (observe_node n.id (w.is_online n.id) w.now states),
  lookup-observe_node id n.id (w.is_online n.id) w.now states,
  observed_twice (w.is_online id) w.now (lookup id states),
)

abbrev pub marked : Bool → ℕ → Option NodeAlertState → Option NodeAlertState
marked online now none = none
marked online now (some st) = some (record st { announced_online = online; announced_at = now })

lookup-mark_announced :
    (id j : String) (online : Bool) (now : ℕ) (states : Map NodeAlertState)
    → lookup id (mark_announced j online now states)
      ≡ (if str_eq j id then marked online now (lookup id states) else lookup id states)
unfolding mark_announced
lookup-mark_announced id j online now [] = ground arith
lookup-mark_announced id j online now ((k, st) ∷ states) =
    ground
      (arith, eq_iff j id, eq_iff k id, eq_iff k j, lookup-mark_announced id j online now states)

-- What the second loop makes of a row, from the row as it was read.
abbrev pub settle : ℕ → Option NodeAlertState → Option NodeAlertState → Option NodeAlertState
settle now none o = o
settle now (some st) o = if is_due now (some st) then marked st.observed_online now o else o

settle_twice :
    (now : ℕ) (r o : Option NodeAlertState) → settle now r (settle now r o) ≡ settle now r o
settle_twice now none o = refl
settle_twice now (some st) none = ground arith
settle_twice now (some st) (some x) = ground arith

notify_some-states :
    (w : World) (targets : List AlertTarget) (e : Event) (a : Alerts)
    → (notify_some w targets e a).states ≡ a.states
unfolding notify_some notify
notify_some-states w [] e a = refl
notify_some-states w (t ∷ targets) e a = refl

module _ (w : World) (states : Map NodeAlertState) (targets : List AlertTarget) where
  -- One round of the second loop.
  unfoldable pub round : Node → Alerts × ℕ → Alerts × ℕ
  round n s =
      let st = lookup n.id states in if is_due w.now st then announce_node w targets n st s else s

  lookup-round :
      (n : Node) (id : String) (s : Alerts × ℕ)
      → lookup id (round n s).0.states ≡ (
          if str_eq n.id id
          then settle w.now (lookup id states) (lookup id s.0.states)
          else lookup id s.0.states)
  unfolding round announce_node
  lookup-round n id (a, sent) = elim (Option-cases (lookup n.id states)) [
    | inl e ↦ ground (arith, e, eq_iff n.id id)
    | inr (st, e) ↦
        let a' = record a { states = mark_announced n.id st.observed_online w.now a.states } in
        ground (
          arith,
          e,
          eq_iff n.id id,
          notify_some-states w targets (message n.name st.observed_online st.changed_at) a',
          lookup-mark_announced id n.id st.observed_online w.now a.states,
        )
  ]

  pub lookup-announce_all :
      (ns : List Node) (id : String) (s : Alerts × ℕ)
      → lookup id (announce_all w states targets ns s).0.states ≡ (
          if has_node id ns
          then settle w.now (lookup id states) (lookup id s.0.states)
          else lookup id s.0.states)
  unfolding announce_all round
  lookup-announce_all [] id s = refl
  lookup-announce_all (n ∷ ns) id s = ground (
    arith,
    lookup-announce_all ns id (round n s),
    lookup-round n id s,
    settle_twice w.now (lookup id states) (lookup id s.0.states),
  )
