-- ===== src/Upgrade/Panel.antt =====
-- The panel's own copy in `InstallOn`, core/internal/upgrade/upgrade.go.
use chiral.Prelude.{◌≡◌, ◌≢◌, ◌⊎◌, inl, refl, Bool, true, String, ◌∷◌, Option, none, some, arith}
use chiral.Version.{normalize_version}
use chiral.Release.{Release}
use chiral.Kernel.{Kernels, has}
use chiral.Kernel.Exact.{install-has}
use chiral.Upgrade.Rows.{InstallError}
use chiral.Upgrade.Install.{
  World, Fleet, Plan, Result, ok, err, plan_install, panel_sum, fetch_for_panel, ensure_panel,
  tell_node, after_panel, carry_out, install_on,
}

fetch_for_panel-has :
    (w : World) (k : Kernels) (version : String) (sum : Result String)
    → (fetch_for_panel w k version sum).1 ≡ none
    → has (fetch_for_panel w k version sum).0.registry version ≡ true
unfolding fetch_for_panel
fetch_for_panel-has w k version (err e) h = cc
fetch_for_panel-has w k version (ok sum) h =
    ground (arith, install-has k version (w.unpacked version))

-- Where the panel's own copy is settled without an error, the panel has the version.
ensure_panel-has :
    (w : World) (k : Kernels) (rel : Release) (version : String)
    → (ensure_panel w k rel version).1 ≡ none
    → has (ensure_panel w k rel version).0.registry version ≡ true
unfolding ensure_panel
ensure_panel-has w k rel version h =
    ground (arith, fetch_for_panel-has w k version (panel_sum w rel))

-- What an install may send: nothing, or one instruction for the version, which the panel has by
-- then.
abbrev pub SendsChecked : Fleet → String → String → Bool → Fleet × Option InstallError → Type 0
SendsChecked f node_id version activate (g, e) =
    ((g.sent ≡ f.sent) × (e ≢ none))
    ⊎ ((g.sent ≡ record { node_id = node_id; version = version; activate = activate } ∷ f.sent)
        × (e ≡ none)
        × (has g.kernels.registry version ≡ true))

module _ (w : World) (node_id version : String) (activate : Bool) where
  tell_node-SendsChecked :
      (f : Fleet) (p : Plan)
      → has f.kernels.registry version ≡ true
      → SendsChecked f node_id version activate (tell_node w f node_id version activate p)
  unfolding tell_node
  tell_node-SendsChecked f p h = ground arith

  after_panel-SendsChecked :
      (f : Fleet) (p : Plan) (k : Kernels) (e : Option InstallError)
      → (e ≡ none → has k.registry version ≡ true)
      → SendsChecked f node_id version activate (after_panel w f node_id version activate p (k, e))
  unfolding after_panel
  after_panel-SendsChecked f p k none h =
      tell_node-SendsChecked (record f { kernels = k }) p (h refl)
  after_panel-SendsChecked f p k (some e) h = inl (refl, λ x. cc)

  carry_out-SendsChecked :
      (f : Fleet) (r : Result Plan)
      → SendsChecked f node_id version activate (carry_out w f node_id version activate r)
  unfolding carry_out
  carry_out-SendsChecked f (err e) = inl (refl, λ x. cc)
  carry_out-SendsChecked f (ok p) =
      after_panel-SendsChecked f p (ensure_panel w f.kernels p.release version).0
        (ensure_panel w f.kernels p.release version).1
        (ensure_panel-has w f.kernels p.release version)

-- A node is told to install a version only once the panel has that version to validate configs
-- with, and only if the call reports success; on every error nothing is sent.
pub install_on-SendsChecked :
    (w : World) (f : Fleet) (node_id asked : String) (activate : Bool)
    → SendsChecked f node_id
        (normalize_version asked)
        activate
        (install_on w f node_id asked activate)
unfolding install_on
install_on-SendsChecked w f node_id asked activate =
    carry_out-SendsChecked w node_id (normalize_version asked) activate f
      (plan_install w f.nodes node_id (normalize_version asked))
