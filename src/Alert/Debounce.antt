-- ===== src/Alert/Debounce.antt =====
-- `Sweep` of core/internal/alert/alert.go: what it tells, and what it leaves recorded.
use chiral.Prelude.{
  ℕ, ◌+◌, ◌-◌, ◌≤◌, ◌<◌, ◌≡◌, ◌⊎◌, refl, sym, ◌∙◌, ap, subst, true, false, String, List, [], ◌∷◌,
  ◌++◌, Option, none, some, arith, if◌then◌else◌, eq_iff, length, append_assoc, append-nil, inl,
  inr, Bool-cases, All, All-append, length-append,
}
use chiral.Prelude.Maps.{lookup}
use chiral.Alert.{
  AlertTarget, NodeAlertState, same, observed, Node, Event, message, debounce, World, Alerts,
  notify, notify_some, enabled_targets, observe_all, is_due, announce_node, announce_all, sweep,
}
use chiral.Alert.Tables.{has_node, lookup-observe_all, settle, round, lookup-announce_all}

-- After a sweep, each node is recorded as it is, and the record has been announced unless it has
-- stood for less than the two minutes of the debounce.
pub lookup-sweep :
    (w : World) (a : Alerts) (id : String)
    → has_node id a.nodes ≡ true
    → (st : NodeAlertState) × (lookup id (sweep w a).0.states ≡ some st)
      × (st.observed_online ≡ w.is_online id)
      × ((st.announced_online ≡ st.observed_online) ⊎ (w.now - st.changed_at < debounce))
unfolding sweep
lookup-sweep w a id h =
    let states = observe_all w a.nodes a.states in
    let o = observed (w.is_online id) w.now (lookup id a.states) in
    let read : lookup id states ≡ some o =
      ground (arith, lookup-observe_all w a.nodes id a.states) in
    let left : lookup id (sweep w a).0.states ≡ settle w.now (some o) (some o) = ground (
      arith,
      read,
      lookup-announce_all w states (enabled_targets a.targets) a.nodes id
          (record a { states = states }, 0),
    ) in
    let seen : o.observed_online ≡ w.is_online id = observed_online_observed (lookup id a.states) in
    elim (Bool-cases (is_due w.now (some o))) [
      | inl d ↦ (
        record o { announced_online = o.observed_online; announced_at = w.now },
        left ∙ ground arith,
        seen,
        inl refl,
      )
      | inr d ↦ (o, left ∙ ground arith, seen, ground arith)
    ]
  where
    observed_online_observed :
        (p : Option NodeAlertState)
        → (observed (w.is_online id) w.now p).observed_online ≡ w.is_online id
    observed_online_observed none = refl
    observed_online_observed (some st) = refl

-- Why an event is sent: the node's row before the sweep already showed the state that the node is
-- in now, another one had been announced, and it has stood for the whole debounce.
abbrev pub Settled : World → Alerts → Event → Type 0
Settled w a e =
    (n : Node) × (st : NodeAlertState) × (lookup n.id a.states ≡ some st)
    × (e ≡ message n.name st.observed_online st.changed_at)
    × (same st.observed_online (w.is_online n.id) ≡ true)
    × (same st.observed_online st.announced_online ≡ false)
    × (debounce ≤ w.now - st.changed_at)

-- The events that a call adds, and how many it counts.
abbrev pub Says : World → Alerts → Alerts × ℕ → Alerts × ℕ → Type 0
Says w a s t =
    (told : List Event) × (t.0.events ≡ s.0.events ++ told)
    × (t.1 ≡ s.1 + length told)
    × All (Settled w a) told

module _ (w : World) (a : Alerts) where
  observed-Settled :
      (n : Node) (st : NodeAlertState) (p : Option NodeAlertState)
      → p ≡ lookup n.id a.states
      → st ≡ observed (w.is_online n.id) w.now p
      → is_due w.now (some st) ≡ true
      → Settled w a (message n.name st.observed_online st.changed_at)
  observed-Settled n st none l e d = ground arith
  observed-Settled n st (some x) l e d =
      (n, x, sym l, ground arith, ground arith, ground arith, ground arith)

  announce_node-Says :
      (targets : List AlertTarget) (n : Node) (st : NodeAlertState) (s : Alerts × ℕ)
      → Settled w a (message n.name st.observed_online st.changed_at)
      → Says w a s (announce_node w targets n (some st) s)
  unfolding announce_node notify_some notify
  announce_node-Says [] n st (b, sent) h = ([], sym (append-nil b.events), omega arith, tt)
  announce_node-Says (t ∷ targets) n st (b, sent) h =
      (message n.name st.observed_online st.changed_at ∷ [], refl, omega arith, (h, tt))

  round-Says :
      (targets : List AlertTarget) (n : Node) (s : Alerts × ℕ)
      → has_node n.id a.nodes ≡ true
      → Says w a s (round w (observe_all w a.nodes a.states) targets n s)
  unfolding round
  round-Says targets n s h =
      let states = observe_all w a.nodes a.states in
      let st = observed (w.is_online n.id) w.now (lookup n.id a.states) in
      let read : lookup n.id states ≡ some st =
        ground (arith, h, lookup-observe_all w a.nodes n.id a.states) in
      subst (λ o. Says w a s (if is_due w.now o then announce_node w targets n o s else s))
        (sym read)
        (elim (Bool-cases (is_due w.now (some st))) [
          | inl d ↦
              subst (λ b. Says w a s (if b then announce_node w targets n (some st) s else s))
                (sym d)
                (announce_node-Says targets n st s
                  (observed-Settled n st (lookup n.id a.states) refl refl d))
          | inr d ↦
              subst (λ b. Says w a s (if b then announce_node w targets n (some st) s else s))
                (sym d) ([], sym (append-nil s.0.events), omega arith, tt)
        ])

  announce_all-Says :
      (targets : List AlertTarget) (ns : List Node) (s : Alerts × ℕ)
      → All (λ n. has_node n.id a.nodes ≡ true) ns
      → Says w a s (announce_all w (observe_all w a.nodes a.states) targets ns s)
  unfolding announce_all round
  announce_all-Says targets [] s h = ([], sym (append-nil s.0.events), omega arith, tt)
  announce_all-Says targets (n ∷ ns) s (hn, h) =
      let t = round w (observe_all w a.nodes a.states) targets n s in
      let (told, e, c, settled) = round-Says targets n s hn in
      let (rest, e', c', settled') = announce_all-Says targets ns t h in
      (
        told ++ rest,
        e' ∙ ap (λ l. l ++ rest) e ∙ append_assoc s.0.events told rest,
        omega (arith, c, c', length-append told rest),
        All-append (Settled w a) told rest settled settled',
      )

All-has_node : (pre ns : List Node) → All (λ n. has_node n.id (pre ++ ns) ≡ true) ns
All-has_node pre [] = tt
All-has_node pre (n ∷ ns) = (
  within pre,
  subst (λ l. All (λ x. has_node x.id l ≡ true) ns) (append_assoc pre (n ∷ []) ns)
      (All-has_node (pre ++ (n ∷ [])) ns),
)
  where
    within : (xs : List Node) → has_node n.id (xs ++ (n ∷ ns)) ≡ true
    within [] = ground (arith, eq_iff n.id n.id)
    within (x ∷ xs) = ground (arith, within xs)

-- A sweep tells of a node only where the node has been seen in its present state before, another
-- state was announced last, and the present one has lasted two minutes by now; and it counts what
-- it tells.
pub sweep-Says : (w : World) (a : Alerts) → Says w a (a, 0) (sweep w a)
unfolding sweep
sweep-Says w a =
    announce_all-Says w a (enabled_targets a.targets) a.nodes
      (record a { states = observe_all w a.nodes a.states }, 0) (All-has_node [] a.nodes)
