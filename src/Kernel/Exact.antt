-- ===== src/Kernel/Exact.antt =====
-- What the registry's answers say of each other, and of the binaries.
use chiral.Prelude.{
  ◌≡◌, ◌≢◌, inl, inr, sym, ◌∙◌, true, false, ◌||◌, String, List, [], ◌∷◌, ◌++◌, Option, none, some,
  arith, if◌then◌else◌, str_eq, Bool-cases, ne→str_ne,
}
use mathlib.Core.Bool.{false≢true}
use chiral.Prelude.Maps.{Map, lookup, insert, lookup-insert_self}
use chiral.Version.{normalize_version}
use chiral.Kernel.{
  Entry, Registry, Kernels, bin_path, skipped, counts, scan, rescan, baked_resolution, resolve,
  for_version, has, settle, unpack_answer, install, unpacked_entry, remove_entry, is_some,
}

exact-resolve :
    (r : Registry) (want : String) (o : Option String)
    → (resolve r want o).exact
      ≡ (if str_eq want "" then false else is_some o || str_eq want r.baked_version)
unfolding resolve baked_resolution
exact-resolve r want none = ground arith
exact-resolve r want (some bin) = ground arith

-- `For` answers exactly just where `Has` says that the panel has the version.
pub exact-for_version : (r : Registry) (v : String) → (for_version r v).exact ≡ has r v
unfolding for_version has
exact-for_version r v =
    exact-resolve r (normalize_version v) (lookup (normalize_version v) r.scanned)

settle-has :
    (k : Kernels) (v reports : String)
    → (settle k v reports).1 ≡ true
    → has (settle k v reports).0.registry v ≡ true
unfolding settle
settle-has k v reports h =
    let reg = rescan k.registry (remove_entry v k.disk ++ (unpacked_entry v reports ∷ [])) in
    elim (Bool-cases (for_version reg v).exact) [
      | inl e ↦ rw e (sym (exact-for_version reg v) ∙ e)
      | inr e ↦ absurd (false≢true (rw e at h))
    ]

-- After an installation that succeeds the panel can validate for the version, whatever the archive
-- was.
pub install-has :
    (k : Kernels) (v : String) (unpacked : Option String)
    → (install k v unpacked).1 ≡ true
    → has (install k v unpacked).0.registry v ≡ true
unfolding install unpack_answer
install-has k v none h = ground arith
install-has k v (some reports) h = ground (arith, settle-has k v reports)

-- The entry scanned last decides the version that it names.
scan-last :
    (dir : String) (found : Map String) (entries : List Entry) (e : Entry)
    → counts e ≡ true
    → scan dir found (entries ++ (e ∷ []))
      ≡ insert (normalize_version e.name) (bin_path dir e.name) (scan dir found entries)
unfolding scan
scan-last dir found [] e h = rw h
scan-last dir found (x ∷ entries) e h =
    scan-last dir
      (if counts x then insert (normalize_version x.name) (bin_path dir x.name) found else found)
      entries e h

lookup-rescan :
    (r : Registry) (entries : List Entry) (e : Entry)
    → r.dir ≢ ""
    → counts e ≡ true
    → lookup (normalize_version e.name) (rescan r (entries ++ (e ∷ []))).scanned
      ≡ some (bin_path r.dir e.name)
unfolding rescan
lookup-rescan r entries e d h = rw (ne→str_ne r.dir "" d) (
    rw (scan-last r.dir [] entries e h)
      (lookup-insert_self (normalize_version e.name) (bin_path r.dir e.name) _))

has-rescan :
    (r : Registry) (entries : List Entry) (e : Entry)
    → r.dir ≢ ""
    → counts e ≡ true
    → normalize_version e.name ≢ ""
    → has (rescan r (entries ++ (e ∷ []))) e.name ≡ true
unfolding has
has-rescan r entries e d h n =
    rw (ne→str_ne (normalize_version e.name) "" n) (rw (lookup-rescan r entries e d h))

counts-unpacked_entry :
    (v reports : String)
    → skipped v ≡ false
    → normalize_version v ≢ ""
    → counts (unpacked_entry v reports) ≡ true
unfolding counts
counts-unpacked_entry v reports s n = rw (s, ne→str_ne (normalize_version v) "" n)

settle_succeeds :
    (k : Kernels) (v reports : String)
    → k.registry.dir ≢ ""
    → skipped v ≡ false
    → normalize_version v ≢ ""
    → (settle k v reports).1 ≡ true
unfolding settle
settle_succeeds k v reports d s n =
    let e = unpacked_entry v reports in
    rw (
      exact-for_version (rescan k.registry (remove_entry v k.disk ++ (e ∷ []))) v
      ∙ has-rescan k.registry (remove_entry v k.disk) e d (counts-unpacked_entry v reports s n) n)

-- The check at the end of `Install` asks the registry, and the registry never runs a binary that
-- it has scanned: where the panel has a kernel directory and not yet the version, and the version
-- is a name that the scan takes, an unpacked archive passes whatever version its binary reports.
pub install_any_binary :
    (k : Kernels) (v reports : String)
    → k.registry.dir ≢ ""
    → has k.registry v ≡ false
    → skipped v ≡ false
    → normalize_version v ≢ ""
    → (install k v (some reports)).1 ≡ true
unfolding install unpack_answer
install_any_binary k v reports d h s n =
    rw (ne→str_ne k.registry.dir "" d) (rw h (settle_succeeds k v reports d s n))
