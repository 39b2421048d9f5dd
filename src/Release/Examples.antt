-- ===== src/Release/Examples.antt =====
-- Releases on concrete inputs.
use chiral.Prelude.{◌≡◌, refl, true, false, List, [], ◌∷◌, str_ne}
use chiral.Release.{Release, asset_for, found, missing, no_checksum, pick_latest}
use chiral.Release.Latest.{IsLatest, pick_latest-IsLatest}
use chiral.Version.{compare_versions}

abbrev snapshot : Release
snapshot = record {
  version = "26.10.1-rc1";
  tag = "v26.10.1-rc1";
  prerelease = true;
  published_at = 9;
  assets =
      ("Xray-linux-64.zip", "u")
      ∷ ("Xray-linux-64.zip.dgst", "d")
      ∷ ("Xray-linux-32.zip", "w")
      ∷ [];
}

abbrev stable : Release
stable = record {
  version = "26.9.3";
  tag = "v26.9.3";
  prerelease = false;
  published_at = 7;
  assets = [];
}

abbrev both : List Release
both = stable ∷ snapshot ∷ []

newest : pick_latest both true ≡ snapshot
unfolding pick_latest compare_versions
newest = refl

newest_stable : pick_latest both false ≡ stable
unfolding pick_latest compare_versions
newest_stable = refl

asset : asset_for snapshot " linux/amd64" ≡ found "u" "d"
unfolding asset_for
asset = refl

-- An archive without a checksum is refused.
unchecked : asset_for snapshot "linux/386" ≡ missing no_checksum
unfolding asset_for
unchecked = refl

pick_latest-IsLatest_example : IsLatest true both (pick_latest both true)
pick_latest-IsLatest_example =
    pick_latest-IsLatest both true (str_ne "26.9.3" "" refl, (str_ne "26.10.1-rc1" "" refl, tt))
