-- ===== src/Archive/Wanted.antt =====
-- What `Unpack` can write.
use mathlib.Core.Bool.{false≢true}
use mathlib.Core.Option.{some_inj}
use chiral.Prelude.{
  ℕ, ◌≤◌, ◌≡◌, ◌⊎◌, inl, inr, refl, sym, ◌∙◌, ap, subst, Bool, true, false, ◌||◌, String, List, [],
  ◌∷◌, Option, none, some, arith, ltb, if◌then◌else◌, Bool-cases, eq_iff, str_eq, ltb→le, length,
}
use chiral.Prelude.Maps.{Map, lookup, insert, lookup-insert}
use chiral.Archive.{
  wanted, binary_name, max_entry, File, ZipEntry, base_name, extracted, Unpacked, unpacked,
  not_unpacked, UnpackError, put, unpack_entries, unpack,
}

-- Each file has one of the wanted names, is no larger than the limit, and only the binary can be run.
abbrev pub IsWanted : Map File → Type 0
IsWanted files =
    (name : String) (f : File)
    → lookup name files ≡ some f
    → (wanted name ≡ true) × (length f.bytes ≤ max_entry) × (f.executable ≡ str_eq name binary_name)

abbrev HasBinary : Map File → Type 0
HasBinary files = (f : File) × (lookup binary_name files ≡ some f)

-- What is known of the outcome of an unpacking.
abbrev pub Holds : Unpacked → Type 0
Holds (unpacked files) = IsWanted files × HasBinary files
Holds (not_unpacked files e) = IsWanted files

abbrev IsFile : String → File → Type 0
IsFile name f = (length f.bytes ≤ max_entry) × (f.executable ≡ str_eq name binary_name)

abbrev Extracted : String → File ⊎ UnpackError → Type 0
Extracted name (inl f) = IsFile name f
Extracted name (inr e) = Unit

extracted-IsFile :
    (name : String) (content : Option (List ℕ)) → Extracted name (extracted name content)
extracted-IsFile name none = tt
extracted-IsFile name (some bytes) = elim (Bool-cases (ltb max_entry (length bytes))) [
  | inl e ↦ rw e tt
  | inr e ↦ rw e (ltb→le max_entry (length bytes) e, refl)
]

insert-IsWanted :
    (name : String) (f : File) (files : Map File)
    → wanted name ≡ true
    → IsFile name f
    → IsWanted files
    → IsWanted (insert name f files)
insert-IsWanted name f files w (l, x) h n g e = elim (Bool-cases (str_eq name n)) [
  | inl same ↦
      let eq = (eq_iff name n).0 same in
      let at : f ≡ g = some_inj.0 (
        sym (ap (λ b. if b then some f else lookup n files) same)
        ∙ sym (lookup-insert n name f files)
        ∙ e) in
      subst
        (λ k.
          (wanted k ≡ true) × (length g.bytes ≤ max_entry) × (g.executable ≡ str_eq k binary_name))
        eq
        (subst
          (λ k.
            (wanted name ≡ true)
            × (length k.bytes ≤ max_entry)
            × (k.executable ≡ str_eq name binary_name))
          at (w, l, x))
  | inr other ↦ h n g (
      sym (ap (λ b. if b then some f else lookup n files) other)
      ∙ sym (lookup-insert n name f files)
      ∙ e)
]

insert-HasBinary :
    (name : String) (f : File) (files : Map File) (found : Bool)
    → (found ≡ true → HasBinary files)
    → (str_eq name binary_name || found) ≡ true
    → HasBinary (insert name f files)
insert-HasBinary name f files found h e = elim (Bool-cases (str_eq name binary_name)) [
  | inl same ↦ (
    f,
    lookup-insert binary_name name f files
        ∙ ap (λ b. if b then some f else lookup binary_name files) same,
  )
  | inr other ↦
      let old = h (ground (arith, other, e)) in
      (
        old.0,
        lookup-insert binary_name name f files
            ∙ (ap (λ b. if b then some f else lookup binary_name files) other ∙ old.1),
      )
]

entry-Holds :
    (is : Bool) (name : String) (files : Map File) (found : Bool) (x : File ⊎ UnpackError)
    (again : Map File → Bool → Unpacked)
    → wanted name ≡ is
    → Extracted name x
    → IsWanted files
    → (found ≡ true → HasBinary files)
    → ((files' : Map File) (found' : Bool)
        → IsWanted files'
        → (found' ≡ true → HasBinary files')
        → Holds (again files' found'))
    → Holds (elim is [ true ↦ put again name files found x | false ↦ again files found ])
entry-Holds true name files found (inl f) again w ok h b next =
    next (insert name f files) (str_eq name binary_name || found)
      (insert-IsWanted name f files w ok h) (insert-HasBinary name f files found b)
entry-Holds true name files found (inr e) again w ok h b next = h
entry-Holds false name files found x again w ok h b next = next files found h b

unpack_entries-Holds :
    (entries : List ZipEntry) (files : Map File) (found : Bool)
    → IsWanted files
    → (found ≡ true → HasBinary files)
    → Holds (unpack_entries entries files found)
unfolding unpack_entries
unpack_entries-Holds [] files true w b = (w, b refl)
unpack_entries-Holds [] files false w b = w
unpack_entries-Holds (e ∷ entries) files found w b =
    let name = base_name e.name in
    let rest = unpack_entries-Holds entries in
    entry-Holds (wanted name) name files found (extracted name e.content) (unpack_entries entries)
      refl (extracted-IsFile name e.content) w b rest

no_files-IsWanted : IsWanted []
no_files-IsWanted n f e = absurd (ground (arith, e))

-- Whatever is in an archive, and whether `Unpack` succeeds or stops at an error: the files that it has
-- written to the new directory by then have wanted names, none is larger than the limit, and the binary
-- is the one that is executable. When it succeeds, the binary is among them.
pub unpack-Holds : (entries : Option (List ZipEntry)) → Holds (unpack entries)
unfolding unpack
unpack-Holds none = no_files-IsWanted
unpack-Holds (some entries) =
    unpack_entries-Holds entries [] false no_files-IsWanted (λ e. absurd (false≢true e))
