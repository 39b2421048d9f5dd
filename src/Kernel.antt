-- ===== src/Kernel.antt =====
-- The panel's set of Xray binaries: core/internal/kernel/registry.go and `Fetcher.Install` of
-- core/internal/kernel/fetch.go. The file system under the registry's directory is a list of its
-- entries in the order of `os.ReadDir`; downloading and unpacking an archive is an argument.
pub mod Exact
mod Examples
use Prim.Native.String.{◌++◌ as str_append}
use chiral.Prelude.{
  ℕ, Bool, true, false, not, ◌&&◌, ◌||◌, String, List, [], ◌∷◌, ◌++◌, Option, none, some,
  if◌then◌else◌, str_eq,
}
use chiral.Prelude.Maps.{Map, lookup, insert}
use chiral.Prelude.Text.{codes, contains_text}
use chiral.Version.{normalize_version}

-- An entry of the registry's directory: whether it holds an executable `xray`, and what that
-- binary prints as its version.
pub record Entry : Type 0 where
  pub name : String
  pub is_dir : Bool
  pub executable : Bool
  pub reports : String

-- `Registry`: the baked binary stands as its path and the version that it reports.
pub record Registry : Type 0 where
  pub dir : String
  pub baked : String
  pub baked_version : String
  pub scanned : Map String

abbrev pub archive_dir : String
archive_dir = ".archives"

abbrev pub bin_path : String → String → String
bin_path dir name = str_append (str_append (str_append dir "/") name) "/xray"

-- The archive cache and an unpack in progress are no versions.
unfoldable pub skipped : String → Bool
unfolding contains_text
skipped name = str_eq name archive_dir || contains_text (codes name) (codes ".staging-")

-- The tests of the loop of `Rescan`.
unfoldable pub counts : Entry → Bool
unfolding skipped
counts e =
    e.is_dir && not (skipped e.name) && not (str_eq (normalize_version e.name) "") && e.executable

unfoldable pub scan : String → Map String → List Entry → Map String
unfolding counts
scan dir found [] = found
scan dir found (e ∷ entries) =
    scan dir
      (if counts e then insert (normalize_version e.name) (bin_path dir e.name) found else found)
      entries

-- `Rescan`
unfoldable pub rescan : Registry → List Entry → Registry
unfolding scan
rescan r entries = record r { scanned = if str_eq r.dir "" then [] else scan r.dir [] entries }

-- `Resolution`
pub record Resolution : Type 0 where
  pub xray : String
  pub version : String
  pub want : String
  pub exact : Bool

unfoldable pub baked_resolution : Registry → String → Resolution
baked_resolution r want = record {
  xray = r.baked;
  version = r.baked_version;
  want = want;
  exact = not (str_eq want "") && str_eq want r.baked_version;
}

unfoldable pub resolve : Registry → String → Option String → Resolution
unfolding baked_resolution
resolve r want none = baked_resolution r want
resolve r want (some bin) =
    if not (str_eq want "")
    then record { xray = bin; version = want; want = want; exact = true }
    else baked_resolution r want

-- `Registry.For`
unfoldable pub for_version : Registry → String → Resolution
unfolding resolve
for_version r asked = let want = normalize_version asked in resolve r want (lookup want r.scanned)

abbrev pub is_some {ℓ} : {A : Type ℓ} → Option A → Bool
is_some none = false
is_some (some _) = true

-- `Registry.Has`
unfoldable pub has : Registry → String → Bool
has r asked =
    let version = normalize_version asked in
    if str_eq version ""
    then false
    else is_some (lookup version r.scanned) || str_eq version r.baked_version

-- The panel's kernels: the registry, and the directory that it was scanned from.
pub record Kernels : Type 0 where
  pub registry : Registry
  pub disk : List Entry

abbrev pub remove_entry : String → List Entry → List Entry
remove_entry name [] = []
remove_entry name (e ∷ entries) =
    if str_eq e.name name then remove_entry name entries else e ∷ remove_entry name entries

-- The unpacked archive moved to its version's directory.
abbrev pub unpacked_entry : String → String → Entry
unpacked_entry version reports = record {
  name = version;
  is_dir = true;
  executable = true;
  reports = reports;
}

-- The end of `Install`, once the directory is in place: rescan, and ask the registry.
unfoldable pub settle : Kernels → String → String → Kernels × Bool
settle k version reports =
    let disk' = remove_entry version k.disk ++ (unpacked_entry version reports ∷ []) in
    let reg = rescan k.registry disk' in
    if (for_version reg version).exact then (record { registry = reg; disk = disk' }, true) else (
      record {
        registry = rescan reg (remove_entry version disk');
        disk = remove_entry version disk';
      },
      false,
    )

unfoldable pub unpack_answer : Kernels → String → Option String → Kernels × Bool
unfolding settle
unpack_answer k version none = (k, false)
unpack_answer k version (some reports) = settle k version reports

-- `Fetcher.Install`, and whether it succeeds. `unpacked` is the outcome of fetching, verifying and
-- unpacking the archive: nothing, or a binary that reports some version.
unfoldable pub install : Kernels → String → Option String → Kernels × Bool
unfolding unpack_answer
install k version unpacked =
    if str_eq k.registry.dir ""
    then (k, false)
    else if has k.registry version
    then (k, true)
    else unpack_answer k version unpacked
