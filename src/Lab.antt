-- ===== src/Lab.antt =====
-- tools/xolis_aws_lab.py: the configuration, the commands that are issued, and the phases recorded.
pub mod Config
pub mod Nodes
pub mod Waiting
pub mod Workflow
pub mod Summary
pub mod Tests
pub mod SummaryTests
use xolis.Base.{ℕ, ◌+◌, Bool, true, false, List, [], ◌∷◌, ◌++◌, length, if◌then◌else◌}
use xolis.Base.Int.{ℤ}
use xolis.Base.Result.{Result, ok, err}
use xolis.Text.{Text}

pub record LabConfig : Type 0 where
  pub sandbox_min_size : ℤ
  pub sandbox_desired_size : ℤ
  pub sandbox_max_size : ℤ
  pub bootstrap_manifests : List Text
  pub test_manifest : Text
  pub ready_command : List Text
  pub agent_sandbox_install_script : Text
  pub service_manifests_directory : Text
  pub service_test_script : Text
  pub node_ready_timeout_seconds : ℕ
  pub node_stop_timeout_seconds : ℕ
  pub warm_pool_ready_timeout_seconds : ℕ

-- One condition of a node, and a node as `kubectl get nodes -o json` prints it.
pub record Condition : Type 0 where
  pub type : Text
  pub status : Text

pub record Node : Type 0 where
  pub conditions : List Condition
  pub provider_id : Text

pub record Instance : Type 0 where
  pub instance_id : Text
  pub lifecycle_state : Text
  pub health_status : Text

-- Where the service test writes its report.
pub data Report : Type 0 where
  service_metrics : Report
  cold_report warm_report : ℕ → Report

-- The command lines that the lab runs.
pub data Command : Type 0 where
  get_caller_identity : Command
  tofu_version tofu_init tofu_plan tofu_apply tofu_destroy : Command
  update_kubeconfig : Command
  kubectl_apply : Text → Command
  kubectl_apply_directory : Text → Command
  kubectl_delete : Text → Command
  update_auto_scaling_group : ℤ → ℤ → ℤ → Command
  describe_auto_scaling_groups : Command
  get_nodes : Command
  patch_warm_pool : ℕ → Command
  get_warm_pool : Command
  get_manifest : Text → Command
  get_service_resources : Command
  -- the service test, which writes its report at a path and may skip the time-to-live part
  service_smoke : Report → Bool → Command
  program : List Text → Command

-- What a command prints, as far as the lab reads it, with the defaults for what is missing.
pub record Output : Type 0 where
  pub items : List Node
  pub groups : List (List Instance)
  pub desired : ℕ
  pub ready : ℕ

pub data Reply : Type 0 where
  printed : Output → Reply
  -- a status other than 0: `CalledProcessError`
  exited_nonzero : Reply
  -- the program cannot be started
  not_started : Reply

pub data Failure : Type 0 where
  called_process_error os_error runtime_error value_error timeout_error : Failure
  -- not of the program: the model's fuel for a loop was too small
  out_of_fuel : Failure

-- What lies outside the program: the reply to the n-th command, the clock after n commands, and
-- which files and directories there are.
pub record World : Type 0 where
  pub dry_run : Bool
  pub reply : ℕ → Reply
  pub clock : ℕ → ℕ
  pub is_file : Text → Bool
  pub is_dir : Text → Bool

pub data PhaseName : Type 0 where
  node_start runtime_bootstrap agent_sandbox_install service_deploy : PhaseName
  service_acceptance resource_snapshot cold_pool_ready warm_pool_ready : PhaseName
  warm_pool_cleanup node_stop : PhaseName
  cold_sample warm_sample : ℕ → PhaseName

-- One entry of `phase_results`.
pub record Phase : Type 0 where
  pub name : PhaseName
  pub passed : Bool

-- What a run has done so far.
pub record Lab : Type 0 where
  pub issued : List Command
  pub phase_results : List Phase

pub record Ran (A : Type 0) : Type 0 where
  pub result : Result Failure A
  pub lab : Lab

-- A step of the program: what it returns or raises, and what it has done.
abbrev pub Act : Type 0 → Type 0
Act A = Lab → Ran A

abbrev pub Done : Type 0
Done = Unit {0}

abbrev pub return : {A : Type 0} → A → Act A
return a lab = record { result = ok a; lab = lab }

abbrev pub raise : {A : Type 0} → Failure → Act A
raise e lab = record { result = err e; lab = lab }

abbrev pub continue : {A B : Type 0} → Lab → Result Failure A → (A → Act B) → Ran B
continue lab (ok a) f = f a lab
continue lab (err e) f = record { result = err e; lab = lab }

infixl 5 ◌>>=◌
abbrev pub ◌>>=◌ : {A B : Type 0} → Act A → (A → Act B) → Act B
◌>>=◌ m f lab = let r = m lab in continue r.lab r.result f

abbrev pub no_output : Output
no_output = record { items = []; groups = []; desired = 0; ready = 0 }

abbrev pub answer : Reply → Act Output
answer (printed output) = return output
answer exited_nonzero = raise called_process_error
answer not_started = raise os_error

-- `CommandRunner.run`: a dry run issues nothing. The log of `issued` holds what was executed.
unfoldable pub run : World → Command → Act Output
run world command lab =
    if world.dry_run
    then return no_output lab
    else answer (world.reply (length lab.issued))
        (record lab { issued = lab.issued ++ (command ∷ []) })

abbrev pub run_ : World → Command → Act Done
run_ world command = run world command >>= (λ output. return tt)

-- `require_file` and `require_directory`
abbrev pub require : Bool → Bool → Act Done
require true there = return tt
require false true = return tt
require false false = raise runtime_error

abbrev pub require_file : World → Text → Act Done
require_file world path = require world.dry_run (world.is_file path)

abbrev pub require_directory : World → Text → Act Done
require_directory world path = require world.dry_run (world.is_dir path)

abbrev pub passed_of : {A : Type 0} → Result Failure A → Bool
passed_of (ok a) = true
passed_of (err e) = false

-- `with self.phase(name):`
unfoldable pub phase : PhaseName → Act Done → Act Done
phase name body lab =
    let r = body lab in
    record {
      result = r.result;
      lab = record {
        issued = r.lab.issued;
        phase_results =
            r.lab.phase_results ++ (record { name = name; passed = passed_of r.result } ∷ []);
      };
    }
