-- ===== src/Archive.antt =====
-- A release archive: internal/xrayarchive/archive.go. The entries of a zip file and SHA-256 are
-- arguments; a directory is a map from names to files.
pub mod Wanted
mod Examples
use Prim.Native.Char.{Char, code}
use Prim.Native.String
use chiral.Prelude.{
  ℕ, Bool, true, false, not, ◌&&◌, ◌||◌, String, List, [], ◌∷◌, Option, none, some, ltb, leb, ◌+◌,
  ◌==◌, if◌then◌else◌, str_eq, length, ◌⊎◌, inl, inr,
}
use chiral.Prelude.Maps.{Map, insert}
use chiral.Prelude.Text.{codes}

-- `BinaryName`
abbrev pub binary_name : String
binary_name = "xray"

-- `wanted`
abbrev pub wanted : String → Bool
wanted name = str_eq name binary_name || str_eq name "geoip.dat" || str_eq name "geosite.dat"

-- `maxEntry`
abbrev pub max_entry : ℕ
max_entry = 268435456

abbrev to_lower : ℕ → ℕ
to_lower c = if leb b'A' c && leb c b'Z' then c + 32 else c

-- `strings.EqualFold`, where one of the two is hexadecimal, which no letter outside ASCII folds to.
unfoldable pub equal_fold : List ℕ → List ℕ → Bool
equal_fold [] [] = true
equal_fold [] (d ∷ t) = false
equal_fold (c ∷ s) [] = false
equal_fold (c ∷ s) (d ∷ t) = to_lower c == to_lower d && equal_fold s t

pub data VerifyError : Type 0 where
  no_sha256 mismatch : VerifyError

-- `Verify` of an archive that can be read.
unfoldable pub verify : (List ℕ → String) → List ℕ → String → Option VerifyError
unfolding equal_fold
verify sha256 archive want_hex =
    if not (String.len want_hex == 64)
    then some no_sha256
    else if equal_fold (codes (sha256 archive)) (codes want_hex)
    then none
    else some mismatch

-- A file on disk, and an entry of a zip file; `content` is missing where the entry cannot be read.
pub record File : Type 0 where
  pub bytes : List ℕ
  pub executable : Bool

pub record ZipEntry : Type 0 where
  pub name : String
  pub content : Option (List ℕ)

abbrev is_slash : Char → Bool
is_slash c = code c == b'/'

abbrev has_slash : String → Bool
has_slash String.[] = false
has_slash (String.◌∷◌ c s) = is_slash c || has_slash s

abbrev cut_slash : Char → String → String
cut_slash c String.[] = if is_slash c then String.[] else String.◌∷◌ c String.[]
cut_slash c (String.◌∷◌ d s) = String.◌∷◌ c (String.◌∷◌ d s)

-- The text without the slashes at its end, and what stands after the last slash.
unfoldable pub trim_slashes : String → String
trim_slashes String.[] = String.[]
trim_slashes (String.◌∷◌ c s) = cut_slash c (trim_slashes s)

unfoldable pub last_part : String → String
last_part String.[] = String.[]
last_part (String.◌∷◌ c s) =
    let rest = last_part s in if has_slash (String.◌∷◌ c s) then rest else String.◌∷◌ c s

-- `filepath.Base`
unfoldable pub base_name : String → String
unfolding trim_slashes last_part
base_name path =
    if str_eq path ""
    then "."
    else let t = trim_slashes path in if str_eq t "" then "/" else last_part t

pub data UnpackError : Type 0 where
  not_a_zip no_binary : UnpackError
  unreadable too_large : String → UnpackError

abbrev pub extracted : String → Option (List ℕ) → File ⊎ UnpackError
extracted name none = inr (unreadable name)
extracted name (some bytes) =
    if ltb max_entry (length bytes)
    then inr (too_large name)
    else inl (record { bytes = bytes; executable = str_eq name binary_name })

-- The directory after an `Unpack`: after an error too it keeps the files written before it.
pub data Unpacked : Type 0 where
  unpacked : Map File → Unpacked
  not_unpacked : Map File → UnpackError → Unpacked

-- What the loop of `Unpack` does with an entry that is wanted.
abbrev pub put :
    (Map File → Bool → Unpacked) → String → Map File → Bool → File ⊎ UnpackError → Unpacked
put again name files found (inr e) = not_unpacked files e
put again name files found (inl f) = again (insert name f files) (str_eq name binary_name || found)

-- The loop of `Unpack`: the files so far, and whether the binary was among them.
unfoldable pub unpack_entries : List ZipEntry → Map File → Bool → Unpacked
unfolding base_name
unpack_entries [] files found = if found then unpacked files else not_unpacked files no_binary
unpack_entries (e ∷ entries) files found =
    let name = base_name e.name in
    elim (wanted name) [
      | true ↦ put (unpack_entries entries) name files found (extracted name e.content)
      | false ↦ unpack_entries entries files found
    ]

-- `Unpack` into a new directory.
unfoldable pub unpack : Option (List ZipEntry) → Unpacked
unfolding unpack_entries
unpack none = not_unpacked [] not_a_zip
unpack (some entries) = unpack_entries entries [] false
