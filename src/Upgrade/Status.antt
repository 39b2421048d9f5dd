-- ===== src/Upgrade/Status.antt =====
-- What an agent's report does: `HandleStatus` of core/internal/upgrade/upgrade.go, `advance`,
-- `block` and `checkPromotionComplete` of canary.go.
use chiral.Prelude.{
  ℕ, ◌+◌, Bool, true, false, not, ◌&&◌, String, List, [], ◌∷◌, Option, none, some, if◌then◌else◌,
  str_eq, length,
}
use chiral.Prelude.Maps.{Map, lookup}
use chiral.Version.{normalize_version}
use chiral.Upgrade.Rows.{
  UpgradeState, canary, awaiting_promote, promoting, done, blocked, Phase, installed, active,
  inconclusive, failed, rolled_back, Upgrade, XrayInstall, Node, Message, canary_running,
  canary_unconfirmed, running_on, stopped_by, active_upgrade, get_node, update_install,
  update_install_hit, set_xray_versions,
}
use chiral.Upgrade.Install.{Fleet, Announcement}
use chiral.Upgrade.Control.{finish, promotion_targets}

-- `XrayStatus`
pub record Report : Type 0 where
  pub version : String
  pub phase : Phase
  pub message : String
  pub running_version : String
  pub installed_version : String

abbrev pub name_or : String → Option Node → String
name_or node_id none = node_id
name_or node_id (some n) = n.name

abbrev pub is_rollback : Phase → Bool
is_rollback rolled_back = true
is_rollback _ = false

unfoldable pub announce : Announcement → Fleet × Bool → Fleet
announce a (f, false) = f
announce a (f, true) = if f.alerts_enabled then record f { announced = a ∷ f.announced } else f

-- `block`
unfoldable pub block : Fleet → Upgrade → String → Report → ℕ → Fleet
unfolding announce finish
block f u node_id st now =
    let name = name_or node_id (get_node node_id f.nodes) in
    let back = is_rollback st.phase in
    let why = stopped_by name back u.version st.message in
    announce (record { node = name; online = back; body = why; running = st.running_version })
      (finish f u u.state blocked why now)

-- The phases that `checkPromotionComplete` takes for settled.
abbrev pub is_settled : Phase → Bool
is_settled active = true
is_settled inconclusive = true
is_settled installed = true
is_settled _ = false

abbrev pub settled_row : String → Option XrayInstall → Bool
settled_row version none = false
settled_row version (some row) = str_eq row.version version && is_settled row.phase

abbrev pub all_settled : String → Map XrayInstall → List Node → Bool
all_settled version rows [] = true
all_settled version rows (n ∷ ns) =
    settled_row version (lookup n.id rows) && all_settled version rows ns

-- `checkPromotionComplete`
unfoldable pub check_promotion_complete : Fleet → Upgrade → ℕ → Fleet
unfolding finish
check_promotion_complete f u now =
    let targets = promotion_targets f u in
    if all_settled u.version f.installs targets
    then (finish f u promoting done (running_on u.version (length targets + 1)) now).0
    else f

unfoldable pub canary_message : Upgrade → Report → Phase → Message
canary_message u st inconclusive = canary_unconfirmed u.version st.message
canary_message u st _ = canary_running u.version

-- The `switch` on the upgrade's state, for a node that runs the new kernel.
unfoldable pub succeed : UpgradeState → Fleet → Upgrade → String → Report → ℕ → Fleet
unfolding finish check_promotion_complete canary_message
succeed canary f u node_id st now =
    if not (str_eq node_id u.canary_node_id)
    then f
    else (finish f u canary awaiting_promote (canary_message u st st.phase) now).0
succeed promoting f u node_id st now = check_promotion_complete f u now
succeed _ f u node_id st now = f

-- The `switch` on the phase.
unfoldable pub react : Phase → Fleet → Upgrade → String → Report → ℕ → Fleet
unfolding block succeed
react rolled_back f u node_id st now = block f u node_id st now
react failed f u node_id st now = block f u node_id st now
react active f u node_id st now = succeed u.state f u node_id st now
react inconclusive f u node_id st now = succeed u.state f u node_id st now
react _ f u node_id st now = f

abbrev pub is_blocked : UpgradeState → Bool
is_blocked blocked = true
is_blocked _ = false

unfoldable pub advance_found : Fleet → Option Upgrade → String → Report → ℕ → Fleet
unfolding react
advance_found f none node_id st now = f
advance_found f (some u) node_id st now =
    if not (str_eq (normalize_version st.version) u.version)
    then f
    else if is_blocked u.state
    then f
    else react st.phase f u node_id st now

-- `advance`
unfoldable pub advance : Fleet → String → Report → ℕ → Fleet
unfolding advance_found
advance f node_id st now = advance_found f (active_upgrade f.upgrades) node_id st now

-- The rows that a report writes.
abbrev pub recorded : Fleet → String → Report → ℕ → Fleet
recorded f node_id st now = record f {
  installs =
      update_install node_id (normalize_version st.version) st.phase st.message now f.installs;
  nodes = set_xray_versions node_id st.running_version st.installed_version f.nodes;
}

-- `HandleStatus`: a report on an attempt that was superseded changes nothing.
unfoldable pub handle_status : Fleet → String → Report → ℕ → Fleet
unfolding advance
handle_status f node_id st now =
    if update_install_hit node_id (normalize_version st.version) f.installs
    then advance (recorded f node_id st now) node_id st now
    else f
