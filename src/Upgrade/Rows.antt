-- ===== src/Upgrade/Rows.antt =====
-- The tables of core/internal/store/xrayupgrade.go and xrayinstall.go. A row is a record, a query a
-- function of the rows; a failing database is not modelled. Times are unix seconds.
use chiral.Prelude.{
  ℕ, Bool, true, false, not, ◌&&◌, ◌||◌, String, List, [], ◌∷◌, ◌++◌, Option, none, some,
  if◌then◌else◌, str_eq, any,
}
use chiral.Prelude.Maps.{Map, insert}

-- The values of `Upgrade.State`.
pub data UpgradeState : Type 0 where
  canary awaiting_promote promoting done blocked : UpgradeState

-- The phases of an agent's install report.
pub data Phase : Type 0 where
  unspecified downloading verifying installed activating active : Phase
  inconclusive failed rolled_back : Phase

-- What can stop `InstallOn`.
pub data InstallError : Type 0 where
  unknown_node no_platform no_release no_asset no_checksum : InstallError
  panel_has_no_asset panel_cannot_install unreachable : InstallError

-- What `fmt` and concatenation make of a transition, as its parts.
pub data Message : Type 0 where
  no_message : Message
  could_not_start could_not_restart : InstallError → Message
  only_canary : Message
  not_reached : ℕ → ℕ → List (String × InstallError) → Message
  abandoned : Message
  canary_running : String → Message
  canary_unconfirmed : String → String → Message
  running_on : String → ℕ → Message
  -- The node's name, whether it rolled back, the version and the agent's own words.
  stopped_by : String → Bool → String → String → Message

-- `Upgrade`
pub record Upgrade : Type 0 where
  pub id : String
  pub version : String
  pub state : UpgradeState
  pub canary_node_id : String
  pub message : Message
  pub started_at : ℕ
  pub updated_at : ℕ

-- `XrayInstall`
pub record XrayInstall : Type 0 where
  pub node_id : String
  pub version : String
  pub download_url : String
  pub sha256 : String
  pub activate : Bool
  pub phase : Phase
  pub message : String
  pub started_at : ℕ
  pub updated_at : ℕ

-- The columns of `nodes` that upgrades read or write.
pub record Node : Type 0 where
  pub id : String
  pub name : String
  pub platform : String
  pub xray_version : String
  pub xray_installed_version : String

-- `==` of two states.
abbrev pub same_state : UpgradeState → UpgradeState → Bool
same_state canary canary = true
same_state awaiting_promote awaiting_promote = true
same_state promoting promoting = true
same_state done done = true
same_state blocked blocked = true
same_state _ _ = false

-- `InFlight`, which is also the condition of the column `active_marker`.
abbrev pub in_flight : UpgradeState → Bool
in_flight done = false
in_flight _ = true

abbrev pub is_active : Upgrade → Bool
is_active u = in_flight u.state

-- `ActiveUpgrade`
abbrev pub active_upgrade : List Upgrade → Option Upgrade
active_upgrade [] = none
active_upgrade (u ∷ us) = if is_active u then some u else active_upgrade us

-- The row that the guarded `UPDATE` writes.
abbrev pub moved : UpgradeState → Message → ℕ → Upgrade → Upgrade
moved to why at u = record u { state = to; message = why; updated_at = at }

-- `WHERE id = ? AND state = ?`
abbrev pub guarded : String → UpgradeState → Upgrade → Bool
guarded id from u = str_eq u.id id && same_state u.state from

-- `SetUpgradeState`: the rows after it, and whether it changed one.
unfoldable pub set_upgrade_rows :
    String → UpgradeState → UpgradeState → Message → ℕ → List Upgrade → List Upgrade
set_upgrade_rows id from to why at [] = []
set_upgrade_rows id from to why at (u ∷ us) =
    (if guarded id from u then moved to why at u else u) ∷ set_upgrade_rows id from to why at us

unfoldable pub set_upgrade_moved : String → UpgradeState → List Upgrade → Bool
set_upgrade_moved id from us = any (guarded id from) us

-- Whether a node is there for the foreign key, which an empty id does not use.
abbrev pub get_node : String → List Node → Option Node
get_node id [] = none
get_node id (n ∷ ns) = if str_eq n.id id then some n else get_node id ns

abbrev pub is_some {ℓ} : {A : Type ℓ} → Option A → Bool
is_some none = false
is_some (some _) = true

abbrev pub node_exists : String → List Node → Bool
node_exists id ns = str_eq id "" || is_some (get_node id ns)

-- What the `INSERT` of `StartUpgrade` answers.
pub data Started : Type 0 where
  started : Upgrade → Started
  no_such_node : Started
  already_in_progress : Started

abbrev pub new_upgrade : String → String → String → ℕ → Upgrade
new_upgrade id version canary_node_id at = record {
  id = id;
  version = version;
  state = canary;
  canary_node_id = canary_node_id;
  message = no_message;
  started_at = at;
  updated_at = at;
}

abbrev pub constraint_error : Option Upgrade → Started
constraint_error none = no_such_node
constraint_error (some _) = already_in_progress

-- `StartUpgrade`: the unique index on the active rows and the foreign key refuse the insert, and
-- the error asks which it was. `id` is the fresh `NewID()`.
unfoldable pub start_upgrade :
    String → String → String → ℕ → List Node → List Upgrade → List Upgrade × Started
start_upgrade id version canary_node_id at ns us =
    let u = new_upgrade id version canary_node_id at in
    if any is_active us || not (node_exists canary_node_id ns)
    then (us, constraint_error (active_upgrade us))
    else (us ++ (u ∷ []), started u)

-- `StartXrayInstall`: the node's row is replaced.
unfoldable pub start_xray_install : XrayInstall → ℕ → Map XrayInstall → Map XrayInstall
start_xray_install row at rows =
    insert row.node_id (record row { message = ""; started_at = at; updated_at = at }) rows

-- `UpdateXrayInstall`: only the attempt at that version takes the report.
unfoldable pub update_install :
    String → String → Phase → String → ℕ → Map XrayInstall → Map XrayInstall
update_install node_id version reported text at [] = []
update_install node_id version reported text at ((j, row) ∷ rows) =
    let rest = update_install node_id version reported text at rows in
    if str_eq j node_id && str_eq row.version version
    then (j, record row { phase = reported; message = text; updated_at = at }) ∷ rest
    else (j, row) ∷ rest

unfoldable pub update_install_hit : String → String → Map XrayInstall → Bool
update_install_hit node_id version = any (λ r. str_eq r.0 node_id && str_eq r.1.version version)

-- `SetXrayVersions`
unfoldable pub set_xray_versions : String → String → String → List Node → List Node
set_xray_versions id running inst [] = []
set_xray_versions id running inst (n ∷ ns) =
    (if str_eq n.id id && not (str_eq running "" && str_eq inst "")
      then record n { xray_version = running; xray_installed_version = inst }
      else n)
    ∷ set_xray_versions id running inst ns
