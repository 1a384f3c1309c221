-- ===== src/Lab/Workflow.antt =====
-- The workflows of `AwsLab` in tools/xolis_aws_lab.py, and the report that they write.
pub mod Silent
pub mod Status
pub mod Stops
use xolis.Base.{
  ℕ, zero, suc, ◌+◌, Bool, true, false, not, ◌&&◌, Option, none, some, List, [], ◌∷◌, ltb,
  if◌then◌else◌,
}
use xolis.Base.Int.{ℤ, pos, pos_part, leb_ℤ}
use xolis.Base.Result.{Result, ok, err}
use xolis.Text.{Text}
use xolis.Lab.{
  World, LabConfig, Lab, Ran, Act, Done, Failure, called_process_error, os_error, runtime_error,
  value_error, timeout_error, out_of_fuel, return, raise, ◌>>=◌, run, run_, require_file,
  require_directory, Phase, PhaseName, phase, passed_of, Report, service_metrics, cold_report,
  warm_report, node_start, runtime_bootstrap, agent_sandbox_install, service_deploy,
  service_acceptance, resource_snapshot, cold_pool_ready, warm_pool_ready, warm_pool_cleanup,
  node_stop, cold_sample, warm_sample, get_caller_identity, tofu_version, tofu_init, tofu_plan,
  tofu_apply, tofu_destroy, update_kubeconfig, kubectl_apply, kubectl_apply_directory,
  kubectl_delete, update_auto_scaling_group, patch_warm_pool, get_manifest, get_service_resources,
  service_smoke, program,
}
use xolis.Lab.Waiting.{wait_for_nodes, wait_for_warm_pool}

infixl 5 ◌then_◌
abbrev pub ◌then_◌ : Act Done → Act Done → Act Done
m then_ n = m >>= (λ u. n)

pub data InfraAction : Type 0 where
  plan apply destroy : InfraAction

abbrev pub tofu_action : World → InfraAction → Act Done
tofu_action world plan = run_ world tofu_plan
tofu_action world apply = run_ world tofu_apply
tofu_action world destroy = run_ world tofu_destroy

-- `has_tofu_directory` says whether the configured OpenTofu directory exists.
unfoldable pub infra : World → Bool → InfraAction → Act Done
infra world has_tofu_directory action =
    if not world.dry_run && not has_tofu_directory
    then raise runtime_error
    else run_ world tofu_init then_ tofu_action world action

-- `has_executables` says whether each required executable is on the path.
unfoldable pub doctor : World → Bool → Act Done
doctor world has_executables =
    if has_executables
    then run_ world get_caller_identity then_ run_ world tofu_version
    else raise runtime_error

module _ (world : World) (config : LabConfig) (fuel : ℕ) where
  unfoldable pub apply_manifests : List Text → Act Done
  apply_manifests [] = return tt
  apply_manifests (manifest ∷ manifests) =
      require_file world manifest
      then_ run_ world (kubectl_apply manifest)
      then_ apply_manifests manifests

  unfoldable pub bootstrap : Act Done
  unfolding apply_manifests
  bootstrap = run_ world update_kubeconfig then_ apply_manifests config.bootstrap_manifests

  unfoldable pub start_node : Act Done
  start_node =
      run_ world update_kubeconfig
      then_ run_ world (
          update_auto_scaling_group config.sandbox_min_size config.sandbox_desired_size
            config.sandbox_max_size)
      then_ wait_for_nodes world fuel 1 config.node_ready_timeout_seconds

  unfoldable pub stop_node : Act Done
  stop_node =
      run_ world update_kubeconfig
      then_ run_ world (update_auto_scaling_group (pos 0) (pos 0) config.sandbox_max_size)
      then_ wait_for_nodes world fuel 0 config.node_stop_timeout_seconds

  -- `except subprocess.CalledProcessError`: the failure is logged and forgotten.
  abbrev pub forgive : Ran Done → Ran Done
  forgive r = record r { result = forgiven r.result }
    where
      forgiven : Result Failure Done → Result Failure Done
      forgiven (err called_process_error) = ok tt
      forgiven r = r

  unfoldable pub cleanup_test_resources : Act Done
  cleanup_test_resources lab =
      if world.dry_run
      then forgive (run_ world (kubectl_delete config.test_manifest) lab)
      else if world.is_file config.test_manifest
      then forgive (run_ world (kubectl_delete config.test_manifest) lab)
      else return tt lab

  -- `finally`: what it raises replaces what the block raised.
  abbrev pub after_block : Result Failure Done → Act Done → Act Done
  after_block result cleanup lab =
      let r = cleanup lab in record { result = kept r.result; lab = r.lab }
    where
      kept : Result Failure Done → Result Failure Done
      kept (ok u) = result
      kept (err e) = err e

  unfoldable pub cycle_test : Act Done
  unfolding bootstrap
  cycle_test =
      bootstrap
      then_ require_file world config.test_manifest
      then_ run_ world (kubectl_apply config.test_manifest)
      then_ run_ world (program config.ready_command)
      then_ run_ world (get_manifest config.test_manifest)

  unfoldable pub cycle : Act Done
  unfolding start_node stop_node cleanup_test_resources cycle_test
  cycle = start_node >>= (λ u lab.
      let r = cycle_test lab in after_block r.result (cleanup_test_resources then_ stop_node) r.lab)

  unfoldable pub run_service_smoke : Report → Bool → Act Done
  run_service_smoke report skip_ttl =
      require_file world config.service_test_script then_ run_ world (service_smoke report skip_ttl)

  abbrev pub install : Act Done
  install =
      require_file world config.agent_sandbox_install_script
      then_ run_ world (program (config.agent_sandbox_install_script ∷ []))

  abbrev pub deploy : Act Done
  deploy =
      require_directory world config.service_manifests_directory
      then_ run_ world (kubectl_apply_directory config.service_manifests_directory)

  -- The first `try` block of `service`.
  unfoldable pub service_phases : Act Done
  unfolding start_node bootstrap run_service_smoke phase
  service_phases =
      phase node_start start_node
      then_ phase runtime_bootstrap bootstrap
      then_ phase agent_sandbox_install install
      then_ phase service_deploy deploy
      then_ phase service_acceptance (
          require_file world config.service_test_script
          then_ run_service_smoke service_metrics false)
      then_ phase resource_snapshot (run_ world get_service_resources)

  -- The report's status, and what is raised once it is written.
  pub record Finished : Type 0 where
    pub passed : Bool
    pub raised : Result Failure Done
    pub lab : Lab

  -- `if failure is None: failure = sys.exception()`
  abbrev pub first_failure : Result Failure Done → Result Failure Done → Result Failure Done
  first_failure (err e) r = err e
  first_failure (ok u) r = r

  unfoldable pub service : Lab → Finished
  unfolding service_phases stop_node
  service lab =
      let body = service_phases lab in
      let stop = phase node_stop stop_node body.lab in
      record {
        passed = passed_of body.result && passed_of stop.result;
        raised = first_failure body.result stop.result;
        lab = stop.lab;
      }

  abbrev pub set_warm_pool : ℕ → Act Done
  set_warm_pool replicas = run_ world (patch_warm_pool replicas)

  abbrev pub pool_ready : ℕ → Act Done
  pool_ready replicas = set_warm_pool replicas then_ wait_for_warm_pool world config fuel replicas

  -- `for index in range(1, iterations + 1)` from `index` on, so many times
  unfoldable pub cold_samples : ℕ → ℕ → Act Done
  unfolding run_service_smoke phase
  cold_samples index zero = return tt
  cold_samples index (suc n) =
      phase (cold_sample index) (run_service_smoke (cold_report index) true)
      then_ cold_samples (index + 1) n

  unfoldable pub warm_samples : ℕ → ℕ → Act Done
  unfolding run_service_smoke phase
  warm_samples index zero = return tt
  warm_samples index (suc n) =
      (if ltb 1 index then wait_for_warm_pool world config fuel 1 else return tt)
      then_ phase (warm_sample index) (run_service_smoke (warm_report index) true)
      then_ warm_samples (index + 1) n

  unfoldable pub benchmark_phases : ℕ → Act Done
  unfolding start_node bootstrap cold_samples warm_samples phase
  benchmark_phases iterations =
      phase node_start start_node
      then_ phase runtime_bootstrap bootstrap
      then_ phase agent_sandbox_install install
      then_ phase service_deploy deploy
      then_ phase cold_pool_ready (pool_ready 0)
      then_ cold_samples 1 iterations
      then_ phase warm_pool_ready (pool_ready 1)
      then_ warm_samples 1 iterations

  abbrev rejected : Lab → Finished
  rejected lab = record { passed = false; raised = err value_error; lab = lab }

  -- Fewer than one iteration is refused, and no report is written.
  unfoldable pub benchmark : ℤ → Lab → Finished
  unfolding benchmark_phases stop_node
  benchmark iterations lab =
      if leb_ℤ (pos 1) iterations
      then (let body = benchmark_phases (pos_part iterations) lab in
          let cleanup = phase warm_pool_cleanup (pool_ready 0) body.lab in
          let stop = phase node_stop stop_node cleanup.lab in
          record {
            passed = passed_of body.result && passed_of cleanup.result && passed_of stop.result;
            raised = first_failure body.result (first_failure cleanup.result stop.result);
            lab = stop.lab;
          })
      else rejected lab
