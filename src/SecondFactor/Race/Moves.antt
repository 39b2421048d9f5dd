-- ===== src/SecondFactor/Race/Moves.antt =====
-- How the next statement of a thread keeps the count of a challenge: core/internal/api/mfa.go.
use Prim.Native.String.{◌++◌ as str_append}
use chiral.Prelude.{
  ℕ, ◌+◌, ◌≤◌, ◌≡◌, ◌≢◌, refl, sym, subst, Bool, true, false, String, List, [], ◌∷◌, ◌++◌, Option,
  none, some, arith, if◌then◌else◌, str_eq, eq_iff,
}
use chiral.Prelude.Maps.{lookup, lookup-insert, lookup-delete}
use chiral.Prelude.Text.{trim_space}
use chiral.SecondFactor.{
  Challenge, Admin, Store, World, Purpose, create_challenge, delete_challenge, is_exhausted, live,
  get_challenge, email_code, Method, totp, recovery, email, unknown_method,
}
use chiral.SecondFactor.Race.{
  Thread, admitted, refusing, failing, raised, burning, ending, Event, issued, Ask, code, passkey,
  send_email, email_code_ttl, Moved, answered, answer, answer_code, answer_email, statement, heard,
}
use chiral.SecondFactor.Race.Counts.{is_open, is_failing, is_counted, of_option}
use chiral.SecondFactor.Race.Judged.{
  Fine, lookup-bumped, deleted-Fine, bumped-Fine, spared-Fine, heard-Fine, issued-Fine, recounted,
}

pub live_found :
    (p : Purpose) (now : ℕ) (o : Option Challenge) {c : Challenge}
    → live p now o ≡ some c
    → o ≢ none
live_found p now none h = cc
live_found p now (some x) h = ground arith

module _ (n : ℕ) (key : String) (log : List Event) where
  -- A statement of the thread `t` keeps the count, whatever the other threads are.
  abbrev pub Advances : Thread → Store → Moved → Type 0
  Advances t s (s', o, es) =
      (f l j f' l' j' : ℕ)
      → f + l + j ≤ n
      → f' + is_failing key t ≡ f + of_option (is_failing key) o
      → l' + is_counted key t ≡ l + of_option (is_counted key) o
      → j' + is_open key t ≡ j + of_option (is_open key) o
      → Fine n (lookup key s.challenges) (heard key log) f l j
      → Fine n (lookup key s'.challenges) (heard key (es ++ log)) f' l' j'

  pub issues-Fine :
      (k admin_id : String) (purpose : Purpose) (data_hash : String) (now ttl : ℕ) (s : Store)
      (f l j : ℕ)
      → Fine n (lookup key s.challenges) (heard key log) f l j
      → Fine n
          (lookup key (create_challenge k admin_id purpose data_hash now ttl s).challenges)
          (heard key (issued k ∷ log))
          f
          l
          j
  unfolding create_challenge heard
  issues-Fine k admin_id purpose data_hash now ttl s f l j x =
      let c : Challenge = record {
        admin_id = admin_id;
        purpose = purpose;
        data_hash = data_hash;
        attempts = 0;
        expires_at = now + ttl;
      } in
      subst (λ o. Fine n o (if str_eq k key then 0 else heard key log) f l j)
        (sym (lookup-insert key k c s.challenges))
        (issued-Fine (str_eq k key) n c (lookup key s.challenges) (heard key log) f l j refl x)

  pub drops-Fine :
      (k : String) (s : Store) (f l j l' : ℕ)
      → f + l + j ≤ n
      → (str_eq k key ≡ false → l ≡ l')
      → Fine n (lookup key s.challenges) (heard key log) f l j
      → Fine n (lookup key (delete_challenge k s).challenges) (heard key log) f l' j
  drops-Fine k s f l j l' b e x =
      subst (λ o. Fine n o (heard key log) f l' j) (sym (lookup-delete key k s.challenges))
        (deleted-Fine (str_eq k key) n (lookup key s.challenges) (heard key log) f l j l' b e x)

  module _ (a : Admin) (challenge k : String) (ask : Ask) where
    answered-Advances :
        (right : Bool) (k2 : String) (spent : List String) (s s' : Store)
        → s'.challenges ≡ s.challenges
        → (str_eq k2 key ≡ true → str_eq k key ≡ false → lookup key s.challenges ≢ none)
        → Advances (admitted a challenge k ask) s (answered right k2 spent s' s)
    unfolding heard
    answered-Advances true k2 spent s s' same q f l j f' l' j' b e1 e2 e3 x =
        subst (λ m. Fine n (lookup key m) (heard key log) f' l' j') (sym same)
          (recounted n (lookup key s.challenges) (heard key log) f l j f' l' j' (omega (arith, e1))
            (omega (arith, e2)) (omega (arith, e3)) x)
    answered-Advances false k2 spent s s' same q f l j f' l' j' b e1 e2 e3 x =
        heard-Fine (str_eq k2 key) (str_eq k key) n (lookup key s.challenges) (heard key log) f l j
          f' l' j' q (omega (arith, e1)) (omega (arith, e2)) (omega (arith, e3)) x

    -- A thread that is done without an answer.
    silent-Advances : (s : Store) → Advances (admitted a challenge k ask) s (s, none, [])
    silent-Advances s f l j f' l' j' b e1 e2 e3 x =
        recounted n (lookup key s.challenges) (heard key log) f l j f' l' j' (omega (arith, e1))
          (omega (arith, e2)) (omega (arith, e3)) x

    answer_email-Advances :
        (w : World) (email_key text : String) (o : Option Challenge) (s : Store)
        → get_challenge email_key email_code w.now s ≡ o
        → Advances (admitted a challenge k ask) s (answer_email w k email_key text o s)
    answer_email-Advances w email_key text none s e = silent-Advances s
    answer_email-Advances w email_key text (some c) s e =
        answered-Advances (str_eq c.data_hash (w.hash (trim_space text))) email_key
          (email_key ∷ k ∷ []) s s refl
          (λ g d.
            subst (λ i. lookup i s.challenges ≢ none) ((eq_iff email_key key).0 g)
              (live_found email_code w.now (lookup email_key s.challenges) {c = c} e))

    answer_code-Advances :
        (w : World) (m : Method) (text : String) (s : Store)
        → Advances (admitted a challenge k ask) s (answer_code w a challenge k m text s)
    answer_code-Advances w totp text s = answered-Advances _ k (k ∷ []) s s refl (λ g d. cc)
    answer_code-Advances w recovery text s = answered-Advances _ k (k ∷ []) s _ refl (λ g d. cc)
    answer_code-Advances w email text s =
        let email_key = w.hash (str_append challenge ":email") in
        answer_email-Advances w email_key text (get_challenge email_key email_code w.now s) s refl
    answer_code-Advances w unknown_method text s = silent-Advances s

    answer-Advances :
        (w : World) (asked : Ask) (s : Store)
        → Advances (admitted a challenge k ask) s (answer w a challenge k asked s)
    answer-Advances w (code m text) s = answer_code-Advances w m text s
    answer-Advances w (passkey false accepted) s = silent-Advances s
    answer-Advances w (passkey true false) s = answered-Advances false k [] s s refl (λ g d. cc)
    answer-Advances w (passkey true true) s = answered-Advances true k [] s s refl (λ g d. cc)
    answer-Advances w (send_email data_hash) s = λ f l j f' l' j' b e1 e2 e3 x.
        issues-Fine (w.hash (str_append challenge ":email")) a.id email_code data_hash w.now
          email_code_ttl s f' l' j' (silent-Advances s f l j f' l' j' b e1 e2 e3 x)

  -- A thread that deletes a challenge and counts for the same one as before.
  deletes-Advances :
      (k : String) (t : Thread) (o : Option Thread) (s : Store)
      → is_failing key t ≡ of_option (is_failing key) o
      → (str_eq k key ≡ false → is_counted key t ≡ of_option (is_counted key) o)
      → of_option (is_counted key) o ≡ 0
      → is_open key t ≡ of_option (is_open key) o
      → Advances t s (delete_challenge k s, o, [])
  deletes-Advances k t o s c1 c2 c3 c4 f l j f' l' j' b e1 e2 e3 x =
      recounted n (lookup key (delete_challenge k s).challenges) (heard key log) f l' j f' l' j'
        (omega (arith, e1, c1)) refl (omega (arith, e3, c4))
        (drops-Fine k s f l j l' b (λ g. omega (arith, e2, c2 g)) x)

  -- Every statement of every thread keeps the count.
  pub statement-Advances : (w : World) (t : Thread) (s : Store) → Advances t s (statement w t s)
  unfolding statement
  statement-Advances w (admitted a challenge k ask) s = answer-Advances a challenge k ask w ask s
  statement-Advances w (refusing wa_key k) s =
      deletes-Advances wa_key (refusing wa_key k) (some (failing k)) s refl (λ g. refl) refl refl
  statement-Advances w (failing k) s = λ f l j f' l' j' b e1 e2 e3 x.
      subst (λ o. Fine n o (heard key log) f' l' j') (sym (lookup-bumped key k s.challenges))
        (recounted n _ (heard key log) f' l' j f' l' j' refl refl (omega (arith, e3)) (
          bumped-Fine (str_eq k key) n (lookup key s.challenges) (heard key log) f l j f' l'
            (omega (arith, e1)) (omega (arith, e2)) x))
  statement-Advances w (raised k) s = raised-Advances (is_exhausted (lookup k s.challenges)) refl
    where
      raised-Advances :
          (full : Bool)
          → is_exhausted (lookup k s.challenges) ≡ full
          → Advances (raised k) s (s, if full then some (burning k) else none, [])
      raised-Advances true e f l j f' l' j' b e1 e2 e3 x =
          recounted n (lookup key s.challenges) (heard key log) f l j f' l' j' (omega (arith, e1))
            (omega (arith, e2)) (omega (arith, e3)) x
      raised-Advances false e f l j f' l' j' b e1 e2 e3 x =
          recounted n (lookup key s.challenges) (heard key log) f l' j f' l' j' (omega (arith, e1))
            refl (omega (arith, e3))
            (spared-Fine (str_eq k key) n (lookup key s.challenges) (heard key log) f l j l'
              (λ g.
                subst (λ i. is_exhausted (lookup i s.challenges) ≡ false) ((eq_iff k key).0 g) e)
              (omega (arith, e2)) x)
  statement-Advances w (burning k) s =
      deletes-Advances k (burning k) none s refl (λ g. rw g refl) refl refl
  statement-Advances w (ending []) s = λ f l j f' l' j' b e1 e2 e3 x.
      recounted n (lookup key s.challenges) (heard key log) f l j f' l' j' (omega (arith, e1))
        (omega (arith, e2)) (omega (arith, e3)) x
  statement-Advances w (ending (k ∷ ks)) s =
      deletes-Advances k (ending (k ∷ ks)) (some (ending ks)) s refl (λ g. refl) refl refl
