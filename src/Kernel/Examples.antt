-- ===== src/Kernel/Examples.antt =====
-- The registry on concrete inputs.
use chiral.Prelude.{◌≡◌, refl, true, false, String, [], ◌∷◌, some, str_ne}
use chiral.Kernel.{Entry, Registry, Kernels, for_version, has, rescan, install, skipped, counts}
use chiral.Kernel.Exact.{install_any_binary}
use chiral.Version.{normalize_version}

abbrev empty : Registry
empty = record { dir = "/k"; baked = "/usr/bin/xray"; baked_version = "26.3.27"; scanned = [] }

abbrev kernels : Kernels
kernels = record { registry = empty; disk = [] }

abbrev entry : String → Entry
entry name = record { name = name; is_dir = true; executable = true; reports = "" }

staged :
    (rescan empty (entry "26.9.1.staging-4711" ∷ entry ".archives" ∷ entry "v26.9.1" ∷ [])).scanned
    ≡ ("26.9.1", "/k/v26.9.1/xray") ∷ []
unfolding rescan counts skipped normalize_version
staged = refl

baked_is_exact : (for_version empty "v26.3.27").exact ≡ true
unfolding for_version normalize_version
baked_is_exact = refl

absent : has empty "26.9.1" ≡ false
unfolding has normalize_version
absent = refl

taken : skipped "26.9.1" ≡ false
unfolding skipped
taken = refl

named : normalize_version "26.9.1" ≡ "26.9.1"
unfolding normalize_version
named = refl

-- A binary that reports 1.8.4 passes for 26.9.1.
install_any_binary_example : (install kernels "26.9.1" (some "1.8.4")).1 ≡ true
install_any_binary_example =
    install_any_binary kernels "26.9.1" "1.8.4" (str_ne "/k" "" refl) absent taken
      (rw named (str_ne "26.9.1" "" refl))
