-- ===== src/Alert.antt =====
-- Alerts on the availability of nodes: core/internal/alert/alert.go over the tables of
-- core/internal/store/alert.go. Delivering to a target is an argument, and a sealed config stands as
-- its plain text. Times are unix seconds.
pub mod Tables
pub mod Debounce
mod Examples
use Prim.Native.String.{◌++◌ as str_append}
use chiral.Prelude.{
  ℕ, ◌+◌, ◌-◌, Bool, true, false, not, ◌&&◌, ◌||◌, String, List, [], ◌∷◌, ◌++◌, Option, none, some,
  ltb, if◌then◌else◌, str_eq, keep, suc,
}
use chiral.Prelude.Maps.{Map, lookup, insert}

-- `AlertTarget`
pub record AlertTarget : Type 0 where
  pub id : String
  pub kind : String
  pub name : String
  pub config : String
  pub enabled : Bool
  pub last_error : String
  pub last_sent_at : ℕ

-- `NodeAlertState`, under the node's id.
pub record NodeAlertState : Type 0 where
  pub announced_online : Bool
  pub observed_online : Bool
  pub changed_at : ℕ
  pub announced_at : ℕ

abbrev pub same : Bool → Bool → Bool
same true b = b
same false b = not b

-- The row that the upsert of `ObserveNode` leaves.
abbrev pub observed : Bool → ℕ → Option NodeAlertState → NodeAlertState
observed online now none = record {
  announced_online = online;
  observed_online = online;
  changed_at = now;
  announced_at = now;
}
observed online now (some st) = record st {
  changed_at = if same st.observed_online online then st.changed_at else now;
  observed_online = online;
}

-- `ObserveNode`
unfoldable pub observe_node : String → Bool → ℕ → Map NodeAlertState → Map NodeAlertState
observe_node node_id online now states =
    insert node_id (observed online now (lookup node_id states)) states

-- `MarkAnnounced`
unfoldable pub mark_announced : String → Bool → ℕ → Map NodeAlertState → Map NodeAlertState
mark_announced node_id online now [] = []
mark_announced node_id online now ((j, st) ∷ states) =
    let rest = mark_announced node_id online now states in
    if str_eq j node_id
    then (j, record st { announced_online = online; announced_at = now }) ∷ rest
    else (j, st) ∷ rest

-- `RecordAlertResult`
unfoldable pub record_alert_result : String → String → ℕ → List AlertTarget → List AlertTarget
record_alert_result id msg now [] = []
record_alert_result id msg now (t ∷ targets) =
    (if str_eq t.id id then record t { last_error = msg; last_sent_at = now } else t)
    ∷ record_alert_result id msg now targets

-- A node as `Sweep` reads it.
pub record Node : Type 0 where
  pub id : String
  pub name : String

-- `Event`
pub record Event : Type 0 where
  pub title : String
  pub body : String
  pub node : String
  pub online : Bool
  pub at : ℕ

unfoldable pub message : String → Bool → ℕ → Event
message node_name true changed_at = record {
  title = "Node back online";
  body = str_append node_name " is reachable again.";
  node = node_name;
  online = true;
  at = changed_at;
}
message node_name false changed_at = record {
  title = "Node offline";
  body = str_append node_name " stopped sending heartbeats.";
  node = node_name;
  online = false;
  at = changed_at;
}

-- `Debounce`
abbrev pub debounce : ℕ
debounce = 120

-- The outside of a sweep: which nodes are up, what a delivery answers (the error's text, empty for
-- none), and the time.
pub record World : Type 0 where
  pub is_online : String → Bool
  pub deliver : AlertTarget → Event → String
  pub now : ℕ

-- The tables, and the events that targets were asked to take, the newest last.
pub record Alerts : Type 0 where
  pub nodes : List Node
  pub states : Map NodeAlertState
  pub targets : List AlertTarget
  pub events : List Event

-- `enabledTargets`
abbrev pub enabled_targets : List AlertTarget → List AlertTarget
enabled_targets = keep (λ t. t.enabled)

-- `notify`: each target's outcome is recorded, whatever the others' are.
unfoldable pub notify_all : World → Event → List AlertTarget → List AlertTarget → List AlertTarget
notify_all w e [] all = all
notify_all w e (t ∷ targets) all =
    notify_all w e targets (record_alert_result t.id (w.deliver t e) w.now all)

unfoldable pub notify : World → List AlertTarget → Event → Alerts → Alerts
unfolding notify_all
notify w targets e a = record a {
  targets = notify_all w e targets a.targets;
  events = a.events ++ (e ∷ []);
}

unfoldable pub notify_some : World → List AlertTarget → Event → Alerts → Alerts
notify_some w [] e a = a
notify_some w (t ∷ targets) e a = notify w (t ∷ targets) e a

-- `Announce`
unfoldable pub announce : World → Event → Alerts → Alerts
unfolding notify_some
announce w e a = notify_some w (enabled_targets a.targets) e a

-- The first loop of `Sweep`.
unfoldable pub observe_all : World → List Node → Map NodeAlertState → Map NodeAlertState
observe_all w [] states = states
observe_all w (n ∷ ns) states = observe_all w ns (observe_node n.id (w.is_online n.id) w.now states)

-- The guards of the second loop: a change that has not been announced and has settled.
abbrev pub is_due : ℕ → Option NodeAlertState → Bool
is_due now none = false
is_due now (some st) =
    not (same st.observed_online st.announced_online) && not (ltb (now - st.changed_at) debounce)

abbrev pub counted : List AlertTarget → ℕ → ℕ
counted [] sent = sent
counted (t ∷ targets) sent = suc sent

-- The rest of the loop's body: mark first, then tell, if there is anybody to tell.
unfoldable pub announce_node :
    World → List AlertTarget → Node → Option NodeAlertState → Alerts × ℕ → Alerts × ℕ
unfolding notify_some
announce_node w targets n none s = s
announce_node w targets n (some st) (a, sent) =
    let a' = record a { states = mark_announced n.id st.observed_online w.now a.states } in
    (
      notify_some w targets (message n.name st.observed_online st.changed_at) a',
      counted targets sent,
    )

-- The second loop, with the states and the targets read before it.
unfoldable pub announce_all :
    World → Map NodeAlertState → List AlertTarget → List Node → Alerts × ℕ → Alerts × ℕ
unfolding announce_node
announce_all w states targets [] s = s
announce_all w states targets (n ∷ ns) s =
    let st = lookup n.id states in
    announce_all w states targets ns (if is_due w.now st then announce_node w targets n st s else s)

-- `Sweep`, and how many notifications it sent.
unfoldable pub sweep : World → Alerts → Alerts × ℕ
unfolding observe_all announce_all
sweep w a =
    let states = observe_all w a.nodes a.states in
    announce_all w states (enabled_targets a.targets) a.nodes (record a { states = states }, 0)
