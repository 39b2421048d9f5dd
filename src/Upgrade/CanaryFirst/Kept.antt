-- ===== src/Upgrade/CanaryFirst/Kept.antt =====
-- The machine's steps while the fleet waits behind its canary: core/internal/upgrade/canary.go.
use chiral.Prelude.{
  ℕ, ◌≡◌, refl, sym, ◌∙◌, ap, subst, true, String, List, [], ◌∷◌, ◌++◌, Option, none, some, arith,
  inl, inr, All, All-append, append_assoc, map,
}
use chiral.Version.{normalize_version}
use chiral.Upgrade.Rows.{blocked, canary, Upgrade, is_active, in_flight, Message, InstallError}
use chiral.Upgrade.Install.{World, Job, install_job, fan_out_job, Instruction, Fleet, install_on}
use chiral.Upgrade.Control.{run_job, installed_async}
use chiral.Upgrade.Status.{Report, handle_status, recorded}
use chiral.Upgrade.Steps.{MachineStep, report, turn, MachineReach, stay, move, install_on-Keeps}
use chiral.Upgrade.Panel.{SendsChecked, install_on-SendsChecked}
use chiral.Upgrade.CanaryFirst.{
  NotPromoting, OwnCanary, canaries, Among, Waiting, Stayed, Calm, Calm-refl, finish-Calm,
  advance-Calm,
}

handle_status-Calm :
    (f : Fleet) (node_id : String) (st : Report) (now : ℕ)
    → All NotPromoting f.upgrades
    → Calm f (handle_status f node_id st now)
unfolding handle_status
handle_status-Calm f node_id st now r =
    let c = advance-Calm (recorded f node_id st now) r node_id st now in
    ground (arith, Calm-refl f r, c)

installed_async-Calm :
    (u : Upgrade) (what : InstallError → Message) (now : ℕ) (p : Fleet × Option InstallError)
    → All NotPromoting p.0.upgrades
    → u.state ≡ canary
    → Calm p.0 (installed_async u what now p)
unfolding installed_async
installed_async-Calm u what now (f, none) r c = Calm-refl f r
installed_async-Calm u what now (f, some e) r c =
    finish-Calm f u u.state blocked (what e) now r (ap in_flight c) refl refl

module _ (x : String) where
  Among-left_out :
      (before after : List Job) (j : Job)
      → Among x (canaries (before ++ after))
      → Among x (canaries (before ++ (j ∷ after)))
  Among-left_out [] after (install_job u n what) h = inr h
  Among-left_out [] after (fan_out_job u targets left failures) h = h
  Among-left_out (install_job u n what ∷ before) after j (inl e) = inl e
  Among-left_out (install_job u n what ∷ before) after j (inr h) =
      inr (Among-left_out before after j h)
  Among-left_out (fan_out_job u targets left failures ∷ before) after j h =
      Among-left_out before after j h

Among-own :
    (before after : List Job) (u : Upgrade) (n : String) (what : InstallError → Message)
    → Among u.canary_node_id (canaries (before ++ (install_job u n what ∷ after)))
Among-own [] after u n what = inl refl
Among-own (install_job v m w ∷ before) after u n what = inr (Among-own before after u n what)
Among-own (fan_out_job v targets left failures ∷ before) after u n what =
    Among-own before after u n what

own-split :
    (before after : List Job) (j : Job)
    → All OwnCanary (before ++ (j ∷ after))
    → OwnCanary j × All OwnCanary (before ++ after)
own-split [] after j h = h
own-split (x ∷ before) after j (hx, h) =
    let (hj, rest) = own-split before after j h in (hj, (hx, rest))

-- What one turn of a canary's goroutine sends.
sent_by :
    (f : Fleet) (node_id version : String) (p : Fleet × Option InstallError)
    → SendsChecked f node_id version true p
    → (fresh : List Instruction) × (p.0.sent ≡ fresh ++ f.sent)
      × All (λ i. i.node_id ≡ node_id) fresh
sent_by f node_id version (g, e) (inl h) = ([], h.0, tt)
sent_by f node_id version (g, e) (inr h) =
    (record { node_id = node_id; version = version; activate = true } ∷ [], h.0, (refl, tt))

-- The same instructions, with where they may go said of the goroutines.
All-Among :
    (jobs : List Job) (node canary_node : String) (fresh : List Instruction)
    → node ≡ canary_node
    → Among canary_node (canaries jobs)
    → All (λ i. i.node_id ≡ node) fresh
    → All (λ i. Among i.node_id (canaries jobs)) fresh
All-Among jobs node canary_node [] e a h = tt
All-Among jobs node canary_node (i ∷ fresh) e a (hi, h) = (
  subst (λ x. Among x (canaries jobs)) (sym (hi ∙ e)) a,
  All-Among jobs node canary_node fresh e a h,
)

run_job-Calm :
    (w : World) (f : Fleet) (u : Upgrade) (node_id : String) (what : InstallError → Message)
    → All NotPromoting f.upgrades
    → u.state ≡ canary
    → let g = run_job w f (install_job u node_id what) in
      All NotPromoting g.upgrades
      × (g.jobs ≡ f.jobs)
      × (map is_active g.upgrades ≡ map is_active f.upgrades)
      × (g.sent ≡ (install_on w f node_id u.version true).0.sent)
unfolding run_job
run_job-Calm w f u node_id what r c =
    let k = install_on-Keeps w f node_id u.version true in
    let p = install_on w f node_id u.version true in
    let calm =
      installed_async-Calm u what w.now p (subst (All NotPromoting) (sym k.upgrades) r) c in
    (calm.rows, calm.jobs ∙ k.jobs, calm.flags ∙ ap (map is_active) k.upgrades, calm.sent)

turn-Stayed :
    (w : World) (f : Fleet) (before after : List Job) (j : Job)
    → Waiting f
    → f.jobs ≡ before ++ (j ∷ after)
    → let g = run_job w (record f { jobs = before ++ after }) j in Waiting g × Stayed f g
turn-Stayed w f before after (fan_out_job u targets left failures) v q =
    absurd (own-split before after _ (subst (All OwnCanary) q v.own)).0
turn-Stayed w f before after (install_job u n what) v q =
    let f' = record f { jobs = before ++ after } in
    let j = install_job u n what in
    let (hj, rest) = own-split before after j (subst (All OwnCanary) q v.own) in
    let (rows, jobs, flags, sent) = run_job-Calm w f' u n what v.rows hj.0 in
    let (fresh, more, to) =
      sent_by f' n (normalize_version u.version) (install_on w f' n u.version true)
        (install_on-SendsChecked w f' n u.version true) in
    (
      record { rows = rows; own = subst (All OwnCanary) (sym jobs) rest },
      record {
        flags = flags;
        fresh = fresh;
        sent = sent ∙ more;
        to_canaries =
            All-Among f.jobs n u.canary_node_id fresh hj.1
              (subst (λ js. Among u.canary_node_id (canaries js)) (sym q)
                (Among-own before after u n what))
              to;
        fewer = λ x h.
            subst (λ js. Among x (canaries js)) (sym q)
              (Among-left_out x before after j (subst (λ js. Among x (canaries js)) jobs h));
      },
    )

MachineStep-Stayed : {f g : Fleet} → MachineStep f g → Waiting f → Waiting g × Stayed f g
MachineStep-Stayed {f} {g} (report node_id st now e) v =
    let c = handle_status-Calm f node_id st now v.rows in
    rw e (
      record { rows = c.rows; own = subst (All OwnCanary) (sym c.jobs) v.own },
      record {
        flags = c.flags;
        fresh = [];
        sent = c.sent;
        to_canaries = tt;
        fewer = λ x h. subst (λ js. Among x (canaries js)) c.jobs h;
      },
    )
MachineStep-Stayed {f} {g} (turn w before j after q e) v = rw e (turn-Stayed w f before after j v q)

All-fewer :
    (js ks : List Job) (fresh : List Instruction)
    → ((x : String) → Among x (canaries js) → Among x (canaries ks))
    → All (λ i. Among i.node_id (canaries js)) fresh
    → All (λ i. Among i.node_id (canaries ks)) fresh
All-fewer js ks [] sub h = tt
All-fewer js ks (i ∷ fresh) sub (hi, h) = (sub i.node_id hi, All-fewer js ks fresh sub h)

Stayed-trans : {f g h : Fleet} → Stayed f g → Stayed g h → Stayed f h
Stayed-trans {f} {g} {h} s t = record {
  flags = t.flags ∙ s.flags;
  fresh = t.fresh ++ s.fresh;
  sent = t.sent ∙ ap (λ l. t.fresh ++ l) s.sent ∙ sym (append_assoc t.fresh s.fresh f.sent);
  to_canaries =
      All-append (λ i. Among i.node_id (canaries f.jobs)) t.fresh s.fresh
        (All-fewer g.jobs f.jobs t.fresh s.fewer t.to_canaries) s.to_canaries;
  fewer = λ x a. s.fewer x (t.fewer x a);
}

-- Until an operator promotes, the fleet waits: from a state in which no upgrade is being rolled
-- out and each goroutine installs on its upgrade's own canary, any sequence of reports and
-- goroutine turns leads to such a state again, the same upgrades are in flight, and every
-- instruction sent meanwhile went to a canary that a goroutine was about to tell.
pub MachineReach-Stayed : {f g : Fleet} → MachineReach f g → Waiting f → Waiting g × Stayed f g
MachineReach-Stayed {f} stay v =
    (v, record { flags = refl; fresh = []; sent = refl; to_canaries = tt; fewer = λ x h. h })
MachineReach-Stayed {f} (move r s) v =
    let (w, before) = MachineReach-Stayed r v in
    let (w', after) = MachineStep-Stayed s w in (w', Stayed-trans before after)
