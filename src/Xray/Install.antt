-- ===== src/Xray/Install.antt =====
-- `Install` of agent/internal/xray/install.go over the directory of versions on the node's disk.
pub mod Checked
use Prim.Native.String
use chiral.Prelude.{
  ℕ, Bool, true, false, not, ◌&&◌, ◌||◌, String, List, [], ◌∷◌, Option, none, some, if◌then◌else◌,
  str_eq, contains, ◌==◌,
}
use chiral.Prelude.Maps.{Map, lookup, insert, delete, retain}
use chiral.Prelude.Text.{trim_space, trim_prefix}
use chiral.Xray.{Manager}
use chiral.Xray.Activate.{Outcome, Reason, Trial, activate}
use chiral.Archive.{
  binary_name, File, ZipEntry, VerifyError, verify, UnpackError, Unpacked, unpacked, not_unpacked,
  unpack,
}
use chiral.Relay.Transfer.{Download, downloaded, download_failed, out_of_fuel, RelayError}
use chiral.Upgrade.Rows.{Phase, installed, failed, active, inconclusive, rolled_back}

-- The directory of versions: the files of each.
abbrev pub Disk : Type 0
Disk = Map (Map File)

-- `Installer`, with the manager, the directory and the file that names the active version.
pub record Installer : Type 0 where
  pub mgr : Manager
  pub disk : Disk
  pub active_file : Option String

-- `XrayInstall`
pub record Request : Type 0 where
  pub version : String
  pub download_url : String
  pub sha256 : String
  pub activate : Bool
  pub relay_available : Bool

-- What the system answers during one call: the direct download, the transfer through the panel, the
-- entries of a zip file, what a path prints as its version with a directory as it is, and what happens
-- while the binary is activated. `path` is where a version's binary lies.
pub record Outside : Type 0 where
  pub direct : Option (List ℕ)
  pub relayed : Download
  pub hash : List ℕ → String
  pub entries : List ℕ → Option (List ZipEntry)
  pub path : String → String
  pub version_of : Disk → String → String
  pub trial : Trial
  pub active_written : Bool

pub data InstallError : Type 0 where
  no_version no_checksum no_relay endless : InstallError
  relay_failed : RelayError → InstallError
  not_verified : VerifyError → InstallError
  no_files : UnpackError → InstallError
  reports : String → InstallError

-- The message that goes with a phase.
pub data Detail : Type 0 where
  staged : Detail
  because : InstallError → Detail
  judged : Reason → Detail

abbrev pub has_binary : Option (Map File) → Bool
has_binary none = false
has_binary (some files) = runs (lookup binary_name files)
  where
    runs : Option File → Bool
    runs none = false
    runs (some f) = f.executable

-- `BinaryFor`: whether the version is on disk.
unfoldable pub is_installed : Disk → String → Bool
is_installed disk version = has_binary (lookup version disk)

pub data Fetched : Type 0 where
  fetched : List ℕ → Fetched
  not_fetched : InstallError → Fetched

abbrev pub via_relay : Download → Fetched
via_relay (downloaded archive) = fetched archive
via_relay (download_failed e) = not_fetched (relay_failed e)
via_relay out_of_fuel = not_fetched endless

abbrev pub direct_or : Fetched → Option (List ℕ) → Fetched
direct_or other none = other
direct_or other (some archive) = fetched archive

-- The two ways to an archive.
unfoldable pub fetch : Outside → Request → Fetched
fetch o r =
    direct_or (if r.relay_available then via_relay o.relayed else not_fetched no_relay)
      (if str_eq r.download_url "" then none else o.direct)

-- What an `Unpack` that failed has written lies in the staging directory, which is removed.
abbrev pub put_files : String → Disk → Unpacked → Disk × Option InstallError
put_files version disk (unpacked files) = (insert version files (delete version disk), none)
put_files version disk (not_unpacked files e) = (disk, some (no_files e))

abbrev pub verified :
    Outside → String → List ℕ → Disk → Option VerifyError → Disk × Option InstallError
verified o version archive disk (some e) = (disk, some (not_verified e))
verified o version archive disk none = put_files version disk (unpack (o.entries archive))

abbrev pub unpack_fetched : Outside → Request → String → Disk → Fetched → Disk × Option InstallError
unpack_fetched o r version disk (not_fetched e) = (disk, some e)
unpack_fetched o r version disk (fetched archive) =
    verified o version archive disk (verify o.hash archive r.sha256)

-- `fetchAndUnpack`
unfoldable pub fetch_and_unpack : Outside → Request → String → Disk → Disk × Option InstallError
unfolding fetch
fetch_and_unpack o r version disk = unpack_fetched o r version disk (fetch o r)

-- `SetActive`
abbrev pub set_active : Outside → String → Installer → Installer
set_active o version i =
    if o.active_written then record i { active_file = some (String.◌++◌ version "\n") } else i

abbrev pub concluded :
    Outside → String → Installer → Manager × Outcome × Reason → Installer × Phase × Detail
concluded o version i (m, Outcome.active, why) =
    (set_active o version (record i { mgr = m }), active, judged why)
concluded o version i (m, Outcome.inconclusive, why) =
    (set_active o version (record i { mgr = m }), inconclusive, judged why)
concluded o version i (m, Outcome.failed, why) = (record i { mgr = m }, rolled_back, judged why)

-- From the check of the binary on.
unfoldable pub run_installed : Outside → Request → String → Installer → Installer × Phase × Detail
run_installed o r version i =
    let got = o.version_of i.disk (o.path version) in
    if not (str_eq got version)
    then (record i { disk = delete version i.disk }, failed, because (reports got))
    else if not r.activate
    then (i, installed, staged)
    else concluded o version i (activate (o.version_of i.disk) o.trial (o.path version) i.mgr)

abbrev pub with_disk :
    Outside → Request → String → Installer → Disk × Option InstallError → Installer × Phase × Detail
with_disk o r version i (disk, some e) = (record i { disk = disk }, failed, because e)
with_disk o r version i (disk, none) = run_installed o r version (record i { disk = disk })

-- `Install`
unfoldable pub install : Outside → Request → Installer → Installer × Phase × Detail
unfolding is_installed fetch_and_unpack run_installed
install o r i =
    let version = trim_prefix b'v' (trim_space r.version) in
    if str_eq version ""
    then (i, failed, because no_version)
    else if not (String.len r.sha256 == 64)
    then (i, failed, because no_checksum)
    else with_disk o r version i (
        if is_installed i.disk version then (i.disk, none) else fetch_and_unpack o r version i.disk)

-- `SetActive` and `ActiveBinary`: the version that a restart of the agent comes back to.
unfoldable pub active_binary : Outside → Installer → Option String
unfolding is_installed
active_binary o i = from_file i.active_file
  where
    if_right : String → Option String
    if_right version =
        if str_eq version ""
          || not (is_installed i.disk version)
          || not (str_eq (o.version_of i.disk (o.path version)) version)
        then none
        else some (o.path version)

    from_file : Option String → Option String
    from_file none = none
    from_file (some text) = if_right (trim_space text)

-- `Prune`
unfoldable pub prune : List String → Disk → Disk
prune keeping disk =
    retain (λ v files. not (has_binary (some files)) || (contains keeping v && not (str_eq v "")))
      disk
