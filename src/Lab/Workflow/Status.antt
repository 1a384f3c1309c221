-- ===== src/Lab/Workflow/Status.antt =====
-- The status of a service report of tools/xolis_aws_lab.py against its phases.
use xolis.Base.{ℕ, ◌≡◌, refl, sym, ◌∙◌, ap, Bool, true, false, ◌&&◌, List, [], ◌∷◌, ◌++◌, arith}
use xolis.Base.Result.{Result, ok, err}
use xolis.Lab.{
  World, LabConfig, Lab, Act, Done, Failure, Phase, PhaseName, phase, passed_of, continue, run_,
  require_file, node_start, node_stop, runtime_bootstrap, agent_sandbox_install, service_deploy,
  service_acceptance, resource_snapshot, kubectl_apply_directory, program, get_service_resources,
  service_metrics,
}
use xolis.Lab.Workflow.{
  ◌then_◌, start_node, stop_node, bootstrap, run_service_smoke, install, deploy, service,
  service_phases, first_failure,
}
use xolis.Lab.Workflow.Silent.{
  Silent, Silent-run_, Silent-required, Silent-bootstrap, Silent-start_node, Silent-stop_node,
  Silent-acceptance,
}

unfoldable pub all_passed : List Phase → Bool
all_passed [] = true
all_passed (p ∷ ps) = p.passed && all_passed ps

all_passed-append :
    (ps : List Phase) (p : Phase) → all_passed (ps ++ (p ∷ [])) ≡ (all_passed ps && p.passed)
unfolding all_passed
all_passed-append [] p = ground arith
all_passed-append (q ∷ ps) p = ground (arith, all_passed-append ps p)

-- A step that records its failure, if it fails, as a phase that did not pass.
abbrev Tracks : Act Done → Type 0
Tracks m =
    (lab : Lab)
    → all_passed (m lab).lab.phase_results
      ≡ (all_passed lab.phase_results && passed_of (m lab).result)

Tracks-continue :
    (n : Act Done) (lab : Lab) (r : Result Failure Done) (b : Bool)
    → Tracks n
    → all_passed lab.phase_results ≡ (b && passed_of r)
    → all_passed (continue lab r (λ u. n)).lab.phase_results
      ≡ (b && passed_of (continue lab r (λ u. n)).result)
Tracks-continue n lab (ok u) b t h = ground (arith, t lab)
Tracks-continue n lab (err e) b t h = h

Tracks-then : (m n : Act Done) → Tracks m → Tracks n → Tracks (m then_ n)
Tracks-then m n s t lab =
    Tracks-continue n (m lab).lab (m lab).result (all_passed lab.phase_results) t (s lab)

Tracks-phase : (name : PhaseName) (m : Act Done) → Silent m → Tracks (phase name m)
unfolding phase
Tracks-phase name m s lab =
    all_passed-append (m lab).lab.phase_results
      (record { name = name; passed = passed_of (m lab).result })
    ∙ ap (λ ps. all_passed ps && passed_of (m lab).result) (s lab)

module _ (world : World) (config : LabConfig) (fuel : ℕ) where
  abbrev started : Act Done
  started =
      phase node_start (start_node world config fuel)
      then_ phase runtime_bootstrap (bootstrap world config fuel)

  abbrev deployed : Act Done
  deployed =
      started
      then_ phase agent_sandbox_install (install world config fuel)
      then_ phase service_deploy (deploy world config fuel)

  started-Tracks : Tracks started
  started-Tracks =
      Tracks-then (phase node_start (start_node world config fuel))
        (phase runtime_bootstrap (bootstrap world config fuel))
        (Tracks-phase node_start (start_node world config fuel)
          (Silent-start_node world config fuel))
        (Tracks-phase runtime_bootstrap (bootstrap world config fuel)
          (Silent-bootstrap world config fuel))

  deployed-Tracks : Tracks deployed
  deployed-Tracks =
      Tracks-then (started then_ phase agent_sandbox_install (install world config fuel))
        (phase service_deploy (deploy world config fuel))
        (Tracks-then started (phase agent_sandbox_install (install world config fuel))
          started-Tracks
          (Tracks-phase agent_sandbox_install (install world config fuel) (
            Silent-required world (world.is_file config.agent_sandbox_install_script)
              (program (config.agent_sandbox_install_script ∷ [])))))
        (Tracks-phase service_deploy (deploy world config fuel) (
          Silent-required world (world.is_dir config.service_manifests_directory)
            (kubectl_apply_directory config.service_manifests_directory)))

  abbrev acceptance : Act Done
  acceptance =
      require_file world config.service_test_script
      then_ run_service_smoke world config fuel service_metrics false

  service_phases-Tracks : Tracks (service_phases world config fuel)
  unfolding service_phases
  service_phases-Tracks =
      Tracks-then (deployed then_ phase service_acceptance acceptance)
        (phase resource_snapshot (run_ world get_service_resources))
        (Tracks-then deployed (phase service_acceptance acceptance) deployed-Tracks
          (Tracks-phase service_acceptance acceptance (Silent-acceptance world config fuel)))
        (Tracks-phase resource_snapshot (run_ world get_service_resources)
          (Silent-run_ world get_service_resources))

  first_failure_lem :
      (r s : Result Failure Done)
      → (passed_of r && passed_of s) ≡ passed_of (first_failure world config fuel r s)
  first_failure_lem (err e) s = refl
  first_failure_lem (ok u) s = refl

  -- A service run that starts with no phase recorded reports that it passed exactly when every
  -- phase passed, and exactly when it raises nothing.
  pub service-passed :
      (lab : Lab)
      → lab.phase_results ≡ []
      → ((service world config fuel lab).passed
          ≡ all_passed (service world config fuel lab).lab.phase_results)
        × ((service world config fuel lab).passed
            ≡ passed_of (service world config fuel lab).raised)
  unfolding service
  service-passed lab h =
      let body = service_phases world config fuel lab in
      let stop = phase node_stop (stop_node world config fuel) body.lab in
      (
        sym (
            Tracks-phase node_stop (stop_node world config fuel)
              (Silent-stop_node world config fuel) body.lab
            ∙ ap (λ b. b && passed_of stop.result)
                (service_phases-Tracks lab
                  ∙ ap (λ ps. all_passed ps && passed_of body.result) h
                  ∙ unfold all_passed in refl)),
        first_failure_lem body.result stop.result,
      )
