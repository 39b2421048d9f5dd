-- ===== src/Alert/Examples.antt =====
-- Sweeps on concrete inputs: one node that has been down for two minutes, and one for one.
use chiral.Prelude.{ℕ, ◌≡◌, ◌⊎◌, ◌<◌, ◌-◌, refl, true, false, [], ◌∷◌, some}
use chiral.Prelude.Maps.{lookup}
use chiral.Alert.{
  AlertTarget, NodeAlertState, World, Alerts, debounce, message, observe_node, mark_announced,
  record_alert_result, notify, notify_all, notify_some, announce_node, announce_all, observe_all,
  sweep,
}
use chiral.Alert.Debounce.{lookup-sweep, Says, sweep-Says}

abbrev down_since : ℕ → NodeAlertState
down_since at = record {
  announced_online = true;
  observed_online = false;
  changed_at = at;
  announced_at = 0;
}

abbrev webhook : AlertTarget
webhook = record {
  id = "w";
  kind = "webhook";
  name = "hook";
  config = "https://example.com";
  enabled = true;
  last_error = "";
  last_sent_at = 0;
}

abbrev alerts : Alerts
alerts = record {
  nodes = record { id = "n1"; name = "tokyo" } ∷ record { id = "n2"; name = "oslo" } ∷ [];
  states = ("n1", down_since 80) ∷ ("n2", down_since 140) ∷ [];
  targets = webhook ∷ [];
  events = [];
}

abbrev world : World
world = record { is_online = λ id. false; deliver = λ t e. "timeout"; now = 200 }

told : (sweep world alerts).0.events ≡ message "tokyo" false 80 ∷ []
unfolding sweep observe_all observe_node announce_all announce_node notify_some notify
told = refl

failure :
    (sweep world alerts).0.targets
    ≡ record webhook { last_error = "timeout"; last_sent_at = 200 } ∷ []
unfolding sweep observe_all observe_node announce_all announce_node notify_some notify notify_all
    record_alert_result message mark_announced
failure = refl

lookup-sweep_example :
    (st : NodeAlertState) × (lookup "n2" (sweep world alerts).0.states ≡ some st)
    × (st.observed_online ≡ false)
    × ((st.announced_online ≡ st.observed_online) ⊎ (200 - st.changed_at < debounce))
lookup-sweep_example = lookup-sweep world alerts "n2" refl

sweep-Says_example : Says world alerts (alerts, 0) (sweep world alerts)
sweep-Says_example = sweep-Says world alerts
