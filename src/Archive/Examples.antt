-- ===== src/Archive/Examples.antt =====
-- An archive with a path in it, and with a file that nobody wants.
use chiral.Prelude.{◌≡◌, refl, true, false, List, [], ◌∷◌, none, some}
use chiral.Archive.{
  ZipEntry, unpacked, not_unpacked, unreadable, unpack, unpack_entries, base_name, last_part,
  trim_slashes,
}
use chiral.Archive.Wanted.{Holds, unpack-Holds}

abbrev entries : List ZipEntry
entries =
    record { name = "../xray"; content = some (1 ∷ []) }
    ∷ record { name = "etc/passwd"; content = some (2 ∷ []) }
    ∷ record { name = "geoip.dat"; content = some (3 ∷ []) }
    ∷ []

flattened :
    unpack (some entries)
    ≡ unpacked (
        ("xray", record { bytes = 1 ∷ []; executable = true })
        ∷ ("geoip.dat", record { bytes = 3 ∷ []; executable = false })
        ∷ [])
unfolding unpack unpack_entries base_name last_part trim_slashes
flattened = refl

-- An entry that cannot be read, after the binary was written: the binary stays in the directory.
abbrev broken : List ZipEntry
broken =
    record { name = "etc/passwd"; content = some (2 ∷ []) }
    ∷ record { name = "xray"; content = some (1 ∷ []) }
    ∷ record { name = "geoip.dat"; content = none }
    ∷ []

kept_after_error :
    unpack (some broken)
    ≡ not_unpacked
        (("xray", record { bytes = 1 ∷ []; executable = true }) ∷ [])
        (unreadable "geoip.dat")
unfolding unpack unpack_entries base_name last_part trim_slashes
kept_after_error = refl

unpack-Holds_example : Holds (unpack (some broken))
unpack-Holds_example = unpack-Holds (some broken)
