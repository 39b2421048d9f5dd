-- ===== src/Release.antt =====
-- The upstream releases of core/internal/release/release.go: which archive a platform needs, and
-- which release is the newest. The HTTP client is not modelled; its answers are arguments.
pub mod Latest
mod Examples
use Prim.Native.String.{◌++◌}
use chiral.Prelude.{
  ℕ, Bool, true, false, not, ◌&&◌, ◌||◌, String, List, [], ◌∷◌, Option, none, some, if◌then◌else◌,
  str_eq,
}
use chiral.Prelude.Maps.{Map, lookup}
use chiral.Prelude.Text.{trim_space}
use chiral.Version.{Sign, less, equal, greater, compare_versions}

-- `Release`; `published_at` is carried and never read.
pub record Release : Type 0 where
  pub version : String
  pub tag : String
  pub prerelease : Bool
  pub published_at : ℕ
  pub assets : Map String

-- The platforms that the panel can upgrade, and the archive that each needs.
abbrev pub assets_table : Map String
assets_table =
    ("linux/amd64", "Xray-linux-64.zip")
    ∷ ("linux/arm64", "Xray-linux-arm64-v8a.zip")
    ∷ ("linux/386", "Xray-linux-32.zip")
    ∷ ("linux/arm", "Xray-linux-arm32-v7a.zip")
    ∷ ("linux/riscv64", "Xray-linux-riscv64.zip")
    ∷ ("linux/s390x", "Xray-linux-s390x.zip")
    ∷ ("linux/ppc64le", "Xray-linux-ppc64le.zip")
    ∷ ("linux/loong64", "Xray-linux-loong64.zip")
    ∷ ("darwin/amd64", "Xray-macos-64.zip")
    ∷ ("darwin/arm64", "Xray-macos-arm64-v8a.zip")
    ∷ ("freebsd/amd64", "Xray-freebsd-64.zip")
    ∷ ("freebsd/arm64", "Xray-freebsd-arm64-v8a.zip")
    ∷ []

unfoldable pub asset_name : String → Option String
unfolding trim_space
asset_name platform = lookup (trim_space platform) assets_table

-- Why a release has nothing for a platform.
pub data AssetError : Type 0 where
  no_asset_published : AssetError
  no_archive : AssetError
  no_checksum : AssetError

pub data AssetAnswer : Type 0 where
  found : String → String → AssetAnswer
  missing : AssetError → AssetAnswer

with_digest : String → Option String → AssetAnswer
with_digest archive none = missing no_checksum
with_digest archive (some digest) = found archive digest

with_archive : Release → String → Option String → AssetAnswer
unfolding with_digest
with_archive r name none = missing no_archive
with_archive r name (some archive) = with_digest archive (lookup (name ++ ".dgst") r.assets)

with_name : Release → Option String → AssetAnswer
unfolding with_archive
with_name r none = missing no_asset_published
with_name r (some name) = with_archive r name (lookup name r.assets)

-- `Release.AssetFor`: the archive's URL and its checksum's, or why there is none.
unfoldable pub asset_for : Release → String → AssetAnswer
unfolding with_name asset_name
asset_for r platform = with_name r (asset_name platform)

abbrev pub is_greater : Sign → Bool
is_greater greater = true
is_greater _ = false

abbrev no_release : Release
no_release = record { version = ""; tag = ""; prerelease = false; published_at = 0; assets = [] }

-- The test of the loop of `pickLatest`: whether a release takes the best one's place.
pub takes_over : Bool → Release → Release → Bool
takes_over include_prerelease r best =
    not (r.prerelease && not include_prerelease)
    && (str_eq best.version "" || is_greater (compare_versions r.version best.version))

pick_from : Bool → Release → List Release → Release
unfolding takes_over
pick_from include_prerelease best [] = best
pick_from include_prerelease best (r ∷ rest) =
    pick_from include_prerelease (if takes_over include_prerelease r best then r else best) rest

unfoldable pub pick_latest : List Release → Bool → Release
unfolding pick_from
pick_latest all include_prerelease = pick_from include_prerelease no_release all
