-- ===== src/Lab/Tests.antt =====
-- Runs of the lab's workflows, and instances of their theorems.
use xolis.Base.{ℕ, suc, ◌≤◌, ◌≡◌, refl, true, false, List, [], ◌∷◌, length, arith}
use xolis.Base.Int.{pos}
use xolis.Base.Result.{ok}
use xolis.Text.{codes}
use xolis.Lab.{LabConfig, Node, Instance, Output, printed, exited_nonzero, World, Lab, run}
use xolis.Lab.Nodes.{
  instance_ids, ready_nodes, node_is_ready, node_instance_id, counts, after_last_slash,
}
use xolis.Lab.Waiting.{wait_for_nodes, wait_loop, poll_nodes, sandbox_instance_ids, settled}
use xolis.Lab.Waiting.Settled.{IsSettled, wait_for_nodes-IsSettled}
use xolis.Lab.Waiting.Ends.{wait_for_nodes-ends, IsOver, IsOver}
use xolis.Lab.Workflow.{service}
use xolis.Lab.Workflow.Stops.{EndsStopped, service-EndsStopped}

abbrev config : LabConfig
config = record {
  sandbox_min_size = pos 0;
  sandbox_desired_size = pos 1;
  sandbox_max_size = pos 2;
  bootstrap_manifests = codes "runtime.yaml" ∷ [];
  test_manifest = codes "test.yaml";
  ready_command = codes "true" ∷ [];
  agent_sandbox_install_script = codes "install.sh";
  service_manifests_directory = codes "deploy";
  service_test_script = codes "smoke.py";
  node_ready_timeout_seconds = 900;
  node_stop_timeout_seconds = 900;
  warm_pool_ready_timeout_seconds = 300;
}

abbrev instances : List Instance
instances =
    record {
      instance_id = codes "i-1";
      lifecycle_state = codes "InService";
      health_status = codes "Healthy";
    }
    ∷ []

abbrev nodes : List Node
nodes =
    record {
      conditions = record { type = codes "Ready"; status = codes "True" } ∷ [];
      provider_id = codes "aws:///a/i-1";
    }
    ∷ []

one_ready : 1 ≤ ready_nodes (instance_ids true instances) nodes
unfolding ready_nodes counts node_is_ready node_instance_id after_last_slash instance_ids
one_ready = omega arith

-- Every command answers with one empty group and no node, and a second passes with each.
abbrev empty_group : Output
empty_group = record { items = []; groups = [] ∷ []; desired = 0; ready = 0 }

abbrev idle_world : World
idle_world = record {
  dry_run = false;
  reply = λ n. printed empty_group;
  clock = λ n. n;
  is_file = λ p. true;
  is_dir = λ p. true;
}

-- Every command fails.
abbrev broken_world : World
broken_world = record idle_world { reply = λ n. exited_nonzero }

abbrev new_lab : Lab
new_lab = record { issued = []; phase_results = [] }

gone-at_once : (wait_for_nodes idle_world 5 0 900 new_lab).result ≡ ok tt
unfolding wait_for_nodes wait_loop poll_nodes sandbox_instance_ids run settled instance_ids
gone-at_once = refl

wait_for_nodes-IsSettled_example :
    (n : ℕ) × IsSettled idle_world refl 0 n
    × (length (wait_for_nodes idle_world 5 0 900 new_lab).lab.issued ≡ suc (suc n))
wait_for_nodes-IsSettled_example =
    wait_for_nodes-IsSettled idle_world refl 5 0 900 new_lab gone-at_once

-- A wait for a node that never comes ends at its deadline.
wait_for_nodes-ends_example :
    IsOver idle_world refl 20 1 (wait_for_nodes idle_world 30 1 20 new_lab)
wait_for_nodes-ends_example =
    wait_for_nodes-ends idle_world refl 20 30 1 20 new_lab (λ n l. omega arith) (omega arith)

service-EndsStopped_example :
    EndsStopped idle_world config 1000 refl (service idle_world config 1000 new_lab).lab
service-EndsStopped_example = service-EndsStopped idle_world config 1000 refl new_lab
