-- ===== src/Upgrade/Control.antt =====
-- What an operator presses, and the goroutines that it starts: core/internal/upgrade/canary.go.
use chiral.Prelude.{
  ℕ, Bool, true, false, not, String, List, [], ◌∷◌, ◌++◌, Option, none, some, if◌then◌else◌, str_eq,
  length, keep,
}
use chiral.Prelude.Text.{codes}
use chiral.Version.{Sign, normalize_version, compare_text}
use chiral.Upgrade.Rows.{
  UpgradeState, canary, awaiting_promote, promoting, done, blocked, Upgrade, Node, InstallError,
  Message, no_message, could_not_start, could_not_restart, only_canary, not_reached, abandoned,
  same_state, active_upgrade, set_upgrade_rows, set_upgrade_moved, Started, started, no_such_node,
  already_in_progress, start_upgrade,
}
use chiral.Upgrade.Install.{World, Job, install_job, fan_out_job, Fleet, install_on}

-- `finish`: the guarded transition, and whether it was this call that made it.
unfoldable pub finish : Fleet → Upgrade → UpgradeState → UpgradeState → Message → ℕ → Fleet × Bool
finish f u from to why now = if same_state from to then (f, false) else (
  record f { upgrades = set_upgrade_rows u.id from to why now f.upgrades },
  set_upgrade_moved u.id from f.upgrades,
)

-- Why an operator's request is refused.
pub data Refusal : Type 0 where
  version_required canary_required unknown_canary in_progress : Refusal
  none_in_progress state_changed no_canary : Refusal
  wrong_state : UpgradeState → Refusal

pub data Reply : Type 0 where
  accepted : Upgrade → Reply
  refused : Refusal → Reply

abbrev pub with_job : Job → Fleet → Fleet
with_job j f = record f { jobs = f.jobs ++ (j ∷ []) }

unfoldable pub after_start : Fleet → List Upgrade × Started → Fleet × Reply
after_start f (us, started u) = (
  with_job (install_job u u.canary_node_id could_not_start) (record f { upgrades = us }),
  accepted u,
)
after_start f (us, no_such_node) = (f, refused unknown_canary)
after_start f (us, already_in_progress) = (f, refused in_progress)

-- `StartCanary`, with the id that the row gets.
unfoldable pub start_canary : String → String → String → ℕ → Fleet → Fleet × Reply
unfolding after_start start_upgrade
start_canary id asked canary_node_id now f =
    let version = normalize_version asked in
    if str_eq version ""
    then (f, refused version_required)
    else if str_eq canary_node_id ""
    then (f, refused canary_required)
    else after_start f (start_upgrade id version canary_node_id now f.nodes f.upgrades)

-- `sort.Slice` by name; names are unique.
unfoldable pub insert_by_name : Node → List Node → List Node
insert_by_name n [] = n ∷ []
insert_by_name n (m ∷ ns) = elim (compare_text (codes n.name) (codes m.name)) [
  | Sign.less ↦ n ∷ m ∷ ns
  | _ ↦ m ∷ insert_by_name n ns
]

unfoldable pub sort_by_name : List Node → List Node
unfolding insert_by_name
sort_by_name [] = []
sort_by_name (n ∷ ns) = insert_by_name n (sort_by_name ns)

-- `promotionTargets`
unfoldable pub promotion_targets : Fleet → Upgrade → List Node
unfolding sort_by_name
promotion_targets f u = sort_by_name (keep (λ n. not (str_eq n.id u.canary_node_id)) f.nodes)

unfoldable pub fan_out : Fleet → Upgrade → ℕ → List Node → Fleet × Reply
unfolding finish
fan_out f u now [] =
    ((finish f u promoting done only_canary now).0, accepted (record u { state = done }))
fan_out f u now (n ∷ ns) = (with_job (fan_out_job u (n ∷ ns) (n ∷ ns) []) f, accepted u)

unfoldable pub promote_active : Fleet → Upgrade → ℕ → Fleet × Reply
unfolding fan_out promotion_targets set_upgrade_moved
promote_active f u now =
    if not (same_state u.state awaiting_promote)
    then (f, refused (wrong_state u.state))
    else if not (set_upgrade_moved u.id awaiting_promote f.upgrades)
    then (f, refused state_changed)
    else let u' = record u { state = promoting } in
      let f' = record f {
        upgrades = set_upgrade_rows u.id awaiting_promote promoting no_message now f.upgrades;
      } in
      fan_out f' u' now (promotion_targets f' u')

unfoldable pub promote_found : Fleet → Option Upgrade → ℕ → Fleet × Reply
unfolding promote_active
promote_found f none now = (f, refused none_in_progress)
promote_found f (some u) now = promote_active f u now

-- `Promote`
unfoldable pub promote : ℕ → Fleet → Fleet × Reply
unfolding promote_found
promote now f = promote_found f (active_upgrade f.upgrades) now

unfoldable pub retry_active : Fleet → Upgrade → ℕ → Fleet × Reply
unfolding set_upgrade_moved
retry_active f u now =
    if not (same_state u.state blocked)
    then (f, refused (wrong_state u.state))
    else if str_eq u.canary_node_id ""
    then (f, refused no_canary)
    else if not (set_upgrade_moved u.id blocked f.upgrades)
    then (f, refused state_changed)
    else let u' = record u { state = canary; message = no_message } in
      (
        with_job (install_job u' u.canary_node_id could_not_restart) (record f {
          upgrades = set_upgrade_rows u.id blocked canary no_message now f.upgrades;
        }),
        accepted u',
      )

unfoldable pub retry_found : Fleet → Option Upgrade → ℕ → Fleet × Reply
unfolding retry_active
retry_found f none now = (f, refused none_in_progress)
retry_found f (some u) now = retry_active f u now

-- `Retry`
unfoldable pub retry : ℕ → Fleet → Fleet × Reply
unfolding retry_found
retry now f = retry_found f (active_upgrade f.upgrades) now

unfoldable pub abandon_found : Fleet → Option Upgrade → ℕ → Fleet × Reply
unfolding set_upgrade_moved
abandon_found f none now = (f, refused none_in_progress)
abandon_found f (some u) now =
    if not (set_upgrade_moved u.id u.state f.upgrades) then (f, refused state_changed) else (
      record f { upgrades = set_upgrade_rows u.id u.state done abandoned now f.upgrades },
      accepted (record u { state = done }),
    )

-- `Abandon`
unfoldable pub abandon : ℕ → Fleet → Fleet × Reply
unfolding abandon_found
abandon now f = abandon_found f (active_upgrade f.upgrades) now

-- What `installAsync` does when the install returns.
unfoldable pub installed_async :
    Upgrade → (InstallError → Message) → ℕ → Fleet × Option InstallError → Fleet
unfolding finish
installed_async u what now (f, none) = f
installed_async u what now (f, some e) = (finish f u u.state blocked (what e) now).0

unfoldable pub noted :
    Node → Option InstallError → List (String × InstallError) → List (String × InstallError)
noted n none failures = failures
noted n (some e) failures = failures ++ ((n.name, e) ∷ [])

-- One round of the loop of `fanOut`: the goroutine goes on with the nodes that are left.
unfoldable pub fan_out_next :
    Upgrade
    → List Node
    → Node
    → List Node
    → List (String × InstallError)
    → Fleet × Option InstallError
    → Fleet
unfolding noted
fan_out_next u targets n ns failures (f, e) =
    with_job (fan_out_job u targets ns (noted n e failures)) f

unfoldable pub fan_out_end : Fleet → Upgrade → List Node → List (String × InstallError) → ℕ → Fleet
unfolding finish
fan_out_end f u targets [] now = f
fan_out_end f u targets (x ∷ failures) now =
    (finish f u promoting blocked
      (not_reached (length (x ∷ failures)) (length targets) (x ∷ failures)) now).0

-- What a goroutine does before it next waits: the fleet is the one without its job.
unfoldable pub run_job : World → Fleet → Job → Fleet
unfolding installed_async fan_out_next fan_out_end
run_job w f (install_job u node_id what) =
    installed_async u what w.now (install_on w f node_id u.version true)
run_job w f (fan_out_job u targets [] failures) = fan_out_end f u targets failures w.now
run_job w f (fan_out_job u targets (n ∷ ns) failures) =
    fan_out_next u targets n ns failures (install_on w f n.id u.version true)
