-- ===== src/Upgrade/Install.antt =====
-- `InstallOn` of core/internal/upgrade/upgrade.go: what is decided before anything changes, the
-- panel's own copy, and the instruction to the node.
use chiral.Prelude.{ℕ, Bool, String, List, [], ◌∷◌, Option, none, some, if◌then◌else◌, str_eq}
use chiral.Prelude.Maps.{Map}
use chiral.Prelude.Text.{trim_space}
use chiral.Version.{normalize_version}
use chiral.Release.{Release, asset_for, AssetAnswer, found, missing}
use chiral.Kernel.{Kernels, has, install}
use chiral.Upgrade.Rows.{
  Upgrade, XrayInstall, Node, unspecified, InstallError, unknown_node, no_platform, no_release,
  no_asset, no_checksum, panel_has_no_asset, panel_cannot_install, unreachable, Message,
  start_xray_install, get_node,
}

-- What the outside answers during one call: GitHub (`releases.Latest`, cached or not, `List(30)`
-- and `Checksum`), the panel's own download of a version (the version that the unpacked binary
-- reports), whether the node's session takes the frame, the panel's platform and the clock.
pub record World : Type 0 where
  pub latest : Option Release
  pub recent : Option (List Release)
  pub checksum : String → Option String
  pub unpacked : String → Option String
  pub reachable : String → Bool
  pub core_platform : String
  pub now : ℕ

-- A goroutine that has been started and has work left: one install, with the message that its
-- failure is recorded under, or the rest of a fan-out with the failures so far.
pub data Job : Type 0 where
  install_job : Upgrade → String → (InstallError → Message) → Job
  fan_out_job : Upgrade → List Node → List Node → List (String × InstallError) → Job

-- An `XrayInstall` frame that a node's session took.
pub record Instruction : Type 0 where
  pub node_id : String
  pub version : String
  pub activate : Bool

-- `alert.Event` as `block` fills it in; `Online` is whether the node rolled back.
pub record Announcement : Type 0 where
  pub node : String
  pub online : Bool
  pub body : Message
  pub running : String

-- The service with the tables and the kernels it works on. `sent` and `announced` record what went
-- out, the newest first.
pub record Fleet : Type 0 where
  pub nodes : List Node
  pub upgrades : List Upgrade
  pub installs : Map XrayInstall
  pub kernels : Kernels
  pub jobs : List Job
  pub sent : List Instruction
  pub alerts_enabled : Bool
  pub announced : List Announcement

unfoldable pub find_version : String → List Release → Option Release
find_version version [] = none
find_version version (r ∷ rest) =
    if str_eq r.version version then some r else find_version version rest

unfoldable pub from_recent : String → Option (List Release) → Option Release
unfolding find_version
from_recent version none = none
from_recent version (some all) = find_version version all

unfoldable pub from_latest : String → Option Release → Option (List Release) → Option Release
unfolding from_recent
from_latest version none recent = from_recent version recent
from_latest version (some r) recent =
    if str_eq r.version version then some r else from_recent version recent

-- `releaseFor`
unfoldable pub release_for : World → String → Option Release
unfolding from_latest
release_for w version = from_latest version w.latest w.recent

pub data Result (A : Type 0) : Type 0 where
  ok : A → Result A
  err : InstallError → Result A

infixl 5 ◌>>=◌
abbrev pub ◌>>=◌ : {A B : Type 0} → Result A → (A → Result B) → Result B
ok a >>= f = f a
err e >>= f = err e

unfoldable pub some_or : {A : Type 0} → InstallError → Option A → Result A
some_or e none = err e
some_or e (some a) = ok a

-- The archive's and the checksum's URLs.
unfoldable pub asset_or : InstallError → AssetAnswer → Result (String × String)
asset_or e (missing why) = err e
asset_or e (found archive digest) = ok (archive, digest)

unfoldable pub reported_platform : Node → Result String
reported_platform n =
    let platform = trim_space n.platform in
    if str_eq platform "" then err no_platform else ok platform

-- The release, and the archive's URL and hash for the node's platform.
pub record Plan : Type 0 where
  pub release : Release
  pub archive_url : String
  pub sum : String

-- What `InstallOn` settles before anything changes.
unfoldable pub plan_install : World → List Node → String → String → Result Plan
unfolding some_or asset_or reported_platform release_for
plan_install w ns node_id version = do
  n ← some_or unknown_node (get_node node_id ns)
  platform ← reported_platform n
  rel ← some_or no_release (release_for w version)
  urls ← asset_or no_asset (asset_for rel platform)
  sum ← some_or no_checksum (w.checksum urls.1)
  ok (record { release = rel; archive_url = urls.0; sum = sum })

-- The hash of the panel's own archive.
unfoldable pub panel_sum : World → Release → Result String
unfolding some_or asset_or
panel_sum w rel = do
  urls ← asset_or panel_has_no_asset (asset_for rel w.core_platform)
  some_or no_checksum (w.checksum urls.1)

unfoldable pub fetch_for_panel :
    World → Kernels → String → Result String → Kernels × Option InstallError
fetch_for_panel w k version (err e) = (k, some e)
fetch_for_panel w k version (ok sum) =
    let (k', done) = install k version (w.unpacked version) in
    (k', if done then none else some panel_cannot_install)

-- The panel's own copy, for validation, unless it has one.
unfoldable pub ensure_panel : World → Kernels → Release → String → Kernels × Option InstallError
unfolding panel_sum fetch_for_panel
ensure_panel w k rel version =
    if has k.registry version then (k, none) else fetch_for_panel w k version (panel_sum w rel)

-- The node's row, then the frame to the node. The row stays if the node cannot be reached.
unfoldable pub tell_node :
    World → Fleet → String → String → Bool → Plan → Fleet × Option InstallError
tell_node w f node_id version activate p =
    let row : XrayInstall = record {
      node_id = node_id;
      version = version;
      download_url = p.archive_url;
      sha256 = p.sum;
      activate = activate;
      phase = unspecified;
      message = "";
      started_at = 0;
      updated_at = 0;
    } in
    let f' = record f { installs = start_xray_install row w.now f.installs } in
    if w.reachable node_id
    then (
      record f' {
        sent = record { node_id = node_id; version = version; activate = activate } ∷ f.sent;
      },
      none,
    )
    else (f', some unreachable)

-- A panel that cannot get the version for itself tells no node.
unfoldable pub after_panel :
    World
    → Fleet
    → String
    → String
    → Bool
    → Plan
    → Kernels × Option InstallError
    → Fleet × Option InstallError
unfolding tell_node
after_panel w f node_id version activate p (k, some e) = (record f { kernels = k }, some e)
after_panel w f node_id version activate p (k, none) =
    tell_node w (record f { kernels = k }) node_id version activate p

unfoldable pub carry_out :
    World → Fleet → String → String → Bool → Result Plan → Fleet × Option InstallError
unfolding after_panel
carry_out w f node_id version activate (err e) = (f, some e)
carry_out w f node_id version activate (ok p) =
    after_panel w f node_id version activate p (ensure_panel w f.kernels p.release version)

-- `InstallOn`, with the error that it returns.
unfoldable pub install_on : World → Fleet → String → String → Bool → Fleet × Option InstallError
unfolding carry_out
install_on w f node_id asked activate =
    let version = normalize_version asked in
    carry_out w f node_id version activate (plan_install w f.nodes node_id version)
