-- ===== src/Xray/Install/Checked.antt =====
-- What an `Install` may leave on a node.
use Prim.Native.String
use chiral.Prelude.{
  ℕ, ◌≡◌, ◌⊎◌, inl, inr, refl, sym, ◌∙◌, ap, subst, true, String, List, Option, none, some, arith,
  ◌==◌, if◌then◌else◌, Bool-cases, eq_iff, str_eq,
}
use chiral.Prelude.Maps.{Map, lookup, delete, lookup-insert, lookup-delete}
use chiral.Prelude.Text.{trim_space, trim_prefix}
use chiral.Version.{normalize_version}
use chiral.Xray.{Manager}
use chiral.Xray.Activate.{Outcome, Reason, activate}
use chiral.Xray.Activate.Binary.{Left, activate-Left}
use chiral.Archive.{File, VerifyError, verify, Unpacked, unpacked, not_unpacked, unpack}
use chiral.Upgrade.Rows.{Phase}
use chiral.Xray.Install.{
  Disk, Installer, Request, Outside, InstallError, Detail, is_installed, Fetched, fetched,
  not_fetched, fetch, put_files, verified, unpack_fetched, fetch_and_unpack, set_active, concluded,
  run_installed, with_disk, install,
}

-- The files come from an archive with the checksum of the request.
abbrev pub FromVerified : Outside → Request → Map File → Type 0
FromVerified o r files =
    (archive : List ℕ) × (verify o.hash archive r.sha256 ≡ none)
    × (unpack (o.entries archive) ≡ unpacked files)

-- What may have become of a version's files.
abbrev pub Sourced : Outside → Request → String → Disk → Disk → Type 0
Sourced o r version before after =
    (v : String)
    → (lookup v after ≡ lookup v before)
      ⊎ ((v ≡ version)
          × ((lookup v after ≡ none)
              ⊎ ((files : Map File) × (lookup v after ≡ some files) × FromVerified o r files)))

module _ (o : Outside) (r : Request) (version : String) where
  put_files-Sourced :
      (disk : Disk) (archive : List ℕ) (u : Unpacked)
      → verify o.hash archive r.sha256 ≡ none
      → unpack (o.entries archive) ≡ u
      → Sourced o r version disk (put_files version disk u).0
  put_files-Sourced disk archive (not_unpacked files e) h k v = inl refl
  put_files-Sourced disk archive (unpacked files) h k v =
      let rest = delete version disk in
      let look = lookup-insert v version files rest in
      elim (Bool-cases (str_eq version v)) [
        | inl e ↦ inr (
          sym ((eq_iff version v).0 e),
          inr (files, look ∙ ap (λ b. if b then some files else lookup v rest) e, (archive, h, k)),
        )
        | inr e ↦ inl (
            look
            ∙ ap (λ b. if b then some files else lookup v rest) e
            ∙ lookup-delete v version disk
            ∙ ap (λ b. if b then none else lookup v disk) e)
      ]

  unpack_fetched-Sourced :
      (disk : Disk) (f : Fetched) → Sourced o r version disk (unpack_fetched o r version disk f).0
  unpack_fetched-Sourced disk (not_fetched e) v = inl refl
  unpack_fetched-Sourced disk (fetched archive) v =
      verified-Sourced (verify o.hash archive r.sha256) refl v
    where
      verified-Sourced :
          (x : Option VerifyError)
          → verify o.hash archive r.sha256 ≡ x
          → Sourced o r version disk (verified o version archive disk x).0
      verified-Sourced (some e) h v = inl refl
      verified-Sourced none h v =
          put_files-Sourced disk archive (unpack (o.entries archive)) h refl v

  delete-Sourced :
      (before disk : Disk)
      → Sourced o r version before disk
      → Sourced o r version before (delete version disk)
  delete-Sourced before disk h v =
      let look = lookup-delete v version disk in
      elim (Bool-cases (str_eq version v)) [
        | inl e ↦ inr (
          sym ((eq_iff version v).0 e),
          inl (look ∙ ap (λ b. if b then none else lookup v disk) e),
        )
        | inr e ↦
            subst
              (λ x.
                (x ≡ lookup v before)
                ⊎ ((v ≡ version)
                    × ((x ≡ none)
                        ⊎ ((files : Map File) × (x ≡ some files) × FromVerified o r files))))
              (sym (look ∙ ap (λ b. if b then none else lookup v disk) e)) (h v)
      ]

  -- The binary of the version is there and names itself so.
  abbrev pub Named : Installer → Type 0
  Named j = o.version_of j.disk (o.path version) ≡ version

  abbrev pub Recorded : Installer → Type 0
  Recorded j = o.active_written ≡ true → j.active_file ≡ some (String.◌++◌ version "\n")

  -- What a phase says of the node, given the installer before and after.
  abbrev pub Says : Installer → Installer → Phase → Type 0
  Says i j Phase.active = Named j × Recorded j × (j.mgr.bin ≡ o.path version)
  Says i j Phase.inconclusive =
      Named j × Recorded j × ((j.mgr ≡ i.mgr) ⊎ (j.mgr.bin ≡ o.path version))
  Says i j Phase.rolled_back = Named j × (j.active_file ≡ i.active_file) × (j.mgr.bin ≡ i.mgr.bin)
  Says i j Phase.installed = Named j × (j.mgr ≡ i.mgr) × (j.active_file ≡ i.active_file)
  Says i j _ = (j.mgr ≡ i.mgr) × (j.active_file ≡ i.active_file)

  set_active-Recorded : (j : Installer) → Recorded (set_active o version j)
  set_active-Recorded j e = rw e refl

  set_active-disk : (j : Installer) → (set_active o version j).disk ≡ j.disk
  set_active-disk j = ground arith

  set_active-mgr : (j : Installer) → (set_active o version j).mgr ≡ j.mgr
  set_active-mgr j = ground arith

  abbrev Right : Installer → Installer × Phase × Detail → Type 0
  Right i a = Sourced o r version i.disk (a.0).disk × Says i a.0 a.1

  set_active-Right :
      (P : Manager → Type 0) (i : Installer) (disk : Disk) (m : Manager)
      → Sourced o r version i.disk disk
      → o.version_of disk (o.path version) ≡ version
      → P m
      → let j = set_active o version (record i { disk = disk; mgr = m }) in
        Sourced o r version i.disk j.disk × (Named j × Recorded j × P j.mgr)
  set_active-Right P i disk m s n b =
      let j : Installer = record i { disk = disk; mgr = m } in
      let d = sym (set_active-disk j) in
      (
        subst (Sourced o r version i.disk) d s,
        (
          subst (λ x. o.version_of x (o.path version) ≡ version) d n,
          set_active-Recorded j,
          subst P (sym (set_active-mgr j)) b,
        ),
      )

  concluded-Right :
      (i : Installer) (disk : Disk) (a : Manager × Outcome × Reason)
      → Sourced o r version i.disk disk
      → o.version_of disk (o.path version) ≡ version
      → Left (o.path version) i.mgr a.0 a.1
      → Right i (concluded o version (record i { disk = disk }) a)
  concluded-Right i disk (m, Outcome.active, why) s n b =
      set_active-Right (λ x. x.bin ≡ o.path version) i disk m s n b
  concluded-Right i disk (m, Outcome.inconclusive, why) s n b =
      set_active-Right (λ x. (x ≡ i.mgr) ⊎ (x.bin ≡ o.path version)) i disk m s n b
  concluded-Right i disk (m, Outcome.failed, why) s n b = (s, (n, refl, b))

  run_installed-Right :
      (i : Installer) (disk : Disk)
      → Sourced o r version i.disk disk
      → Right i (run_installed o r version (record i { disk = disk }))
  unfolding run_installed
  run_installed-Right i disk s =
      let j : Installer = record i { disk = disk } in
      let got = o.version_of disk (o.path version) in
      elim (Bool-cases (str_eq got version)) [
        | inr e ↦ rw e (delete-Sourced i.disk disk s, (refl, refl))
        | inl e ↦
            let n = (eq_iff got version).0 e in
            rw e (elim (Bool-cases r.activate) [
              | inr f ↦ rw f (s, (n, refl, refl))
              | inl f ↦ rw f (
                  concluded-Right i disk
                    (activate (o.version_of disk) o.trial (o.path version) i.mgr) s n
                    (activate-Left (o.version_of disk) o.trial (o.path version) i.mgr))
            ])
      ]

  with_disk-Right :
      (i : Installer) (disk : Disk) (e : Option InstallError)
      → Sourced o r version i.disk disk
      → Right i (with_disk o r version i (disk, e))
  with_disk-Right i disk (some e) s = (s, (refl, refl))
  with_disk-Right i disk none s = run_installed-Right i disk s

-- Whatever the network answers: an install changes no other version's files, and those of its own
-- version only to remove them or to put what an archive with the request's checksum unpacks to. Ending
-- active, inconclusive, rolled back or installed, it leaves a binary that says that it is the version.
-- Active: the manager has the version's binary, and the version is recorded for a restart, if the file
-- can be written. Inconclusive: it is recorded likewise, though the manager either has the version's
-- binary or is as it was. Rolled back: the manager has the old binary, and the record is as before. In
-- every other phase, failed and installed among them, the manager and the record are as before.
pub install-Sourced :
    (o : Outside) (r : Request) (i : Installer)
    → Sourced o r (normalize_version r.version) i.disk ((install o r i).0).disk
      × Says o r (normalize_version r.version) i (install o r i).0 (install o r i).1
unfolding install normalize_version fetch_and_unpack
install-Sourced o r i =
    let version = trim_prefix b'v' (trim_space r.version) in
    let same : Sourced o r version i.disk i.disk = λ v. inl refl in
    let f = unpack_fetched o r version i.disk (fetch o r) in
    elim (Bool-cases (str_eq version "")) [
      | inl e ↦ rw e (same, (refl, refl))
      | inr e ↦ rw e (elim (Bool-cases (String.len r.sha256 == 64)) [
        | inr g ↦ rw g (same, (refl, refl))
        | inl g ↦ rw g (elim (Bool-cases (is_installed i.disk version)) [
          | inl h ↦ rw h (with_disk-Right o r version i i.disk none same)
          | inr h ↦ rw h (
              with_disk-Right o r version i f.0 f.1
                (unpack_fetched-Sourced o r version i.disk (fetch o r)))
        ])
      ])
    ]
