-- ===== src/Version/Examples.antt =====
-- The order of versions on concrete inputs.
use chiral.Prelude.{◌≡◌, refl}
use chiral.Version.{less, normalize_version, compare_versions}
use chiral.Version.Order.{AtMost}

-- Segments compare as numbers, and a final release stands above its candidate.
numeric : compare_versions "26.3.27" "v26.10.1" ≡ less
unfolding compare_versions
numeric = refl

candidate : compare_versions "26.7.11-rc1" "26.7.11" ≡ less
unfolding compare_versions
candidate = refl

garbage : compare_versions "26.x" "26" ≡ less
unfolding compare_versions
garbage = refl

trimmed : normalize_version "  v26.7.11 " ≡ "26.7.11"
unfolding normalize_version
trimmed = refl

-- The prefix goes once, so a second application can change the text again.
twice_differs : normalize_version (normalize_version "vv26") ≡ "26"
unfolding normalize_version
twice_differs = refl

once : normalize_version "vv26" ≡ "v26"
unfolding normalize_version
once = refl

step_one : AtMost (compare_versions "26.7-rc1" "26.7.0-rc2")
unfolding compare_versions
step_one h = cc

step_two : AtMost (compare_versions "26.7.0-rc2" "26.7")
unfolding compare_versions
step_two h = cc
