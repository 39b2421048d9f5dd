-- ===== src/SecondFactor/Race/Budget.antt =====
-- The wrong answers that a challenge can hear from requests that run at once: core/internal/api/mfa.go.
use chiral.Prelude.{
  ℕ, ◌+◌, ◌≤◌, ◌<◌, ◌≡◌, ◌≢◌, refl, ◌∙◌, ap, Bool, false, String, List, [], ◌∷◌, Option, none, some,
  arith, inl, inr, ltb, str_eq, eq_iff, ltb→lt, length, Bool-cases, Option-cases,
}
use chiral.Prelude.Maps.{lookup}
use chiral.SecondFactor.{
  Challenge, Admin, Store, World, login, get_challenge, get_admin, is_exhausted,
}
use chiral.Prelude.Text.{trim_space}
use chiral.SecondFactor.Race.{
  Thread, Ask, admit, admit_challenge, admit_admin, statement, Panel, thread_at, put_thread,
  Happening, begins, goes_on, issues, drops, joined, after_statement, happen, happen_all, heard,
}
use chiral.SecondFactor.Race.Counts.{
  is_open, is_failing, is_counted, of_option, total, total-put_thread, length-put_thread,
  totals_most,
}
use chiral.SecondFactor.Race.Judged.{Fine, Fine-heard}
use chiral.SecondFactor.Race.Moves.{statement-Advances, issues-Fine, drops-Fine, live_found}

-- No challenge that is there has been exhausted.
abbrev pub NoneExhausted : Store → Type 0
NoneExhausted s = (key : String) → is_exhausted (lookup key s.challenges) ≡ false

-- A panel with no request in flight and nothing remembered yet.
abbrev pub idle : Store → Panel
idle s = record { store = s; threads = []; log = [] }

module _ (n : ℕ) (key : String) where
  -- The requests in flight and the count of the challenge.
  abbrev IsCounted : Panel → Type 0
  IsCounted p =
      (length p.threads ≤ n)
      × Fine n (lookup key p.store.challenges) (heard key p.log) (total (is_failing key) p.threads)
          (total (is_counted key) p.threads) (total (is_open key) p.threads)

  within :
      (p : Panel)
      → length p.threads ≤ n
      → total (is_failing key) p.threads
          + total (is_counted key) p.threads
          + total (is_open key) p.threads
        ≤ n
  within p h = omega (arith, h, totals_most key p.threads)

  idle-IsCounted : (s : Store) → NoneExhausted s → IsCounted (idle s)
  unfolding heard total
  idle-IsCounted s v = (omega arith, at (lookup key s.challenges) (v key))
    where
      at : (o : Option Challenge) → is_exhausted o ≡ false → Fine n o 0 0 0 0
      at none e = omega arith
      at (some c) e = (omega arith, ground (arith, e))

  -- A request that has just read its challenge adds an open thread for a challenge that is there.
  joined-IsCounted :
      (p : Panel) (o : Option Thread)
      → of_option (is_failing key) o ≡ 0
      → of_option (is_counted key) o ≡ 0
      → (lookup key p.store.challenges ≡ none → of_option (is_open key) o ≡ 0)
      → length p.threads < n
      → IsCounted p
      → IsCounted (joined p o)
  unfolding total
  joined-IsCounted p none a b c l h = h
  joined-IsCounted p (some t) a b c l (h, x) =
      (omega (arith, l), at (lookup key p.store.challenges) c x)
    where
      at :
          (o : Option Challenge)
          → (o ≡ none → is_open key t ≡ 0)
          → Fine n o
              (heard key p.log)
              (total (is_failing key) p.threads)
              (total (is_counted key) p.threads)
              (total (is_open key) p.threads)
          → Fine n o
              (heard key p.log)
              (is_failing key t + total (is_failing key) p.threads)
              (is_counted key t + total (is_counted key) p.threads)
              (is_open key t + total (is_open key) p.threads)
      at none q y = omega (arith, q refl, y)
      at (some r) q (y, z) = (omega (arith, y, a), omega (arith, z, b))

  -- What a request that begins counts for: at most an answer against the challenge it has read.
  abbrev Joins : Bool → Option Thread → Type 0
  Joins is o =
      (of_option (is_failing key) o ≡ 0)
      × (of_option (is_counted key) o ≡ 0)
      × (is ≡ false → of_option (is_open key) o ≡ 0)

  admit_admin-Joins :
      (a : Option Admin) (challenge k : String) (ask : Ask)
      → Joins (str_eq k key) (admit_admin a challenge k ask)
  admit_admin-Joins none challenge k ask = (refl, refl, λ g. refl)
  admit_admin-Joins (some a) challenge k ask = elim (Bool-cases a.disabled) [
    | inl e ↦ rw e (refl, refl, λ g. refl)
    | inr e ↦ rw e (refl, refl, λ g. rw g refl)
  ]

  admit_challenge-Joins :
      (admins : List Admin) (c : Option Challenge) (challenge k : String) (ask : Ask) (s : Store)
      → ((x : Challenge) → c ≡ some x → lookup k s.challenges ≢ none)
      → let o = admit_challenge admins c challenge k ask in
        (of_option (is_failing key) o ≡ 0)
        × (of_option (is_counted key) o ≡ 0)
        × (lookup key s.challenges ≡ none → of_option (is_open key) o ≡ 0)
  admit_challenge-Joins admins none challenge k ask s q = (refl, refl, λ g. refl)
  admit_challenge-Joins admins (some c) challenge k ask s q =
      let (x, y, z) = admit_admin-Joins (get_admin c.admin_id admins) challenge k ask in
      (
        x,
        y,
        λ g. elim (Bool-cases (str_eq k key)) [
          | inl e ↦ absurd (q c refl (ap (λ i. lookup i s.challenges) ((eq_iff k key).0 e) ∙ g))
          | inr e ↦ z e
        ],
      )

  begins-IsCounted :
      (w : World) (challenge : String) (ask : Ask) (p : Panel)
      → length p.threads < n
      → IsCounted p
      → IsCounted (joined p (admit w challenge ask p.store))
  unfolding admit
  begins-IsCounted w challenge ask p l h = elim (Bool-cases (str_eq (trim_space challenge) "")) [
    | inl e ↦ rw e h
    | inr e ↦
        let k = w.hash challenge in
        let c = get_challenge k login w.now p.store in
        let (x, y, z) =
          admit_challenge-Joins p.store.admins c challenge k ask p.store
            (λ r g. live_found login w.now (lookup k p.store.challenges) {c = r} g) in
        rw e (joined-IsCounted p (admit_challenge p.store.admins c challenge k ask) x y z l h)
  ]

  after_statement-IsCounted :
      (w : World) (i : ℕ) (p : Panel) (t : Thread)
      → thread_at i p.threads ≡ some t
      → IsCounted p
      → IsCounted (after_statement p i (statement w t p.store))
  after_statement-IsCounted w i p t at (l, x) =
      let o = (statement w t p.store).1 in
      (
        omega (arith, l, length-put_thread i o p.threads),
        statement-Advances n key p.log w t p.store (total (is_failing key) p.threads)
            (total (is_counted key) p.threads) (total (is_open key) p.threads)
            (total (is_failing key) (put_thread i o p.threads))
            (total (is_counted key) (put_thread i o p.threads))
            (total (is_open key) (put_thread i o p.threads)) (within p l)
            (total-put_thread (is_failing key) i o p.threads {t = t} at)
            (total-put_thread (is_counted key) i o p.threads {t = t} at)
            (total-put_thread (is_open key) i o p.threads {t = t} at) x,
      )

  happen-IsCounted : (h : Happening) (p : Panel) → IsCounted p → IsCounted (happen n h p)
  unfolding happen
  happen-IsCounted (begins w challenge ask) p c = elim (Bool-cases (ltb (length p.threads) n)) [
    | inl e ↦ rw e (begins-IsCounted w challenge ask p (ltb→lt (length p.threads) n e) c)
    | inr e ↦ rw e c
  ]
  happen-IsCounted (goes_on w i) p c = elim (Option-cases (thread_at i p.threads)) [
    | inl e ↦ rw e c
    | inr (t, e) ↦ rw e (after_statement-IsCounted w i p t e c)
  ]
  happen-IsCounted (issues w k admin_id purpose data_hash ttl) p (l, x) = (
    l,
    issues-Fine n key p.log k admin_id purpose data_hash w.now ttl p.store
        (total (is_failing key) p.threads) (total (is_counted key) p.threads)
        (total (is_open key) p.threads) x,
  )
  happen-IsCounted (drops k) p (l, x) = (
    l,
    drops-Fine n key p.log k p.store (total (is_failing key) p.threads)
        (total (is_counted key) p.threads) (total (is_open key) p.threads)
        (total (is_counted key) p.threads) (within p l) (λ g. refl) x,
  )

  happen_all-IsCounted :
      (hs : List Happening) (p : Panel) → IsCounted p → IsCounted (happen_all n hs p)
  unfolding happen_all
  happen_all-IsCounted [] p c = c
  happen_all-IsCounted (h ∷ hs) p c =
      happen_all-IsCounted hs (happen n h p) (happen-IsCounted h p c)

-- With at most `n` requests of the second step in flight at once, whatever they bring and however
-- their statements fall among each other, among new challenges and codes and among deletions: since
-- it was last issued, a challenge has heard no more than 4 + `n` wrong answers, which is five where
-- requests come one after another. At the start none is in flight and no challenge that is there is
-- exhausted.
pub heard_few :
    (n : ℕ) (key : String) (hs : List Happening) (s : Store)
    → NoneExhausted s
    → heard key (happen_all n hs (idle s)).log ≤ 4 + n
heard_few n key hs s v =
    let p = happen_all n hs (idle s) in
    let (l, x) = happen_all-IsCounted n key hs (idle s) (idle-IsCounted n key s v) in
    let most =
      Fine-heard n (lookup key p.store.challenges) (heard key p.log)
        (total (is_failing key) p.threads) (total (is_counted key) p.threads)
        (total (is_open key) p.threads) (within n key p l) x in
    omega (arith, most)
