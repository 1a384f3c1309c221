-- ===== src/Lab/Waiting.antt =====
-- The polling loops of tools/xolis_aws_lab.py: `wait_for_nodes` and `wait_for_warm_pool`.
pub mod Settled
pub mod Ends
use xolis.Base.{
  ℕ, zero, suc, ◌+◌, ◌*◌, ◌≤◌, Bool, true, false, ◌&&◌, ◌||◌, List, [], ◌∷◌, length, leb, ltb, ◌==◌,
  nat_eq, if◌then◌else◌,
}
use xolis.Base.Result.{Result, ok, err}
use xolis.Text.{Text}
use xolis.Lab.{
  World, Act, Done, Instance, Output, return, raise, ◌>>=◌, run, runtime_error, timeout_error,
  out_of_fuel, LabConfig, describe_auto_scaling_groups, get_nodes, get_warm_pool,
}
use xolis.Lab.Config.{is_empty}
use xolis.Lab.Nodes.{instance_ids, ready_nodes}

-- Exactly one group must be described.
abbrev pub ids_of_groups : Bool → List (List Instance) → Act (List Text)
ids_of_groups require_ready [] = raise runtime_error
ids_of_groups require_ready (is ∷ []) = return (instance_ids require_ready is)
ids_of_groups require_ready (is ∷ js ∷ groups) = raise runtime_error

unfoldable pub sandbox_instance_ids : World → Bool → Act (List Text)
unfolding run instance_ids
sandbox_instance_ids world require_ready =
    run world describe_auto_scaling_groups
    >>= (λ output. if world.dry_run then return [] else ids_of_groups require_ready output.groups)

-- Whether one look at the group and the nodes ends the wait.
unfoldable pub settled : ℕ → List Text → Output → Bool
unfolding ready_nodes
settled expected_at_least ids output =
    (expected_at_least == 0 && (is_empty output.items && is_empty ids))
    || (ltb 0 expected_at_least && leb expected_at_least (ready_nodes ids output.items))

-- One round of the loop, up to the test of the clock.
unfoldable pub poll_nodes : World → ℕ → Act Bool
unfolding sandbox_instance_ids run settled
poll_nodes world expected_at_least =
    sandbox_instance_ids world (ltb 0 expected_at_least) >>= (λ ids.
      run world get_nodes >>= (λ output.
        if world.dry_run then return true else return (settled expected_at_least ids output)))

-- `if time.monotonic() >= deadline: raise TimeoutError`, and the next round otherwise
abbrev pub next_round : World → ℕ → Act Done → Bool → Act Done
next_round world deadline again true = return tt
next_round world deadline again false = λ lab.
    if leb deadline (world.clock (length lab.issued)) then raise timeout_error lab else again lab

-- The loop, on fuel.
unfoldable pub wait_loop : World → Act Bool → ℕ → ℕ → Act Done
wait_loop world poll deadline zero = raise out_of_fuel
wait_loop world poll deadline (suc fuel) =
    poll >>= next_round world deadline (wait_loop world poll deadline fuel)

unfoldable pub wait_for_nodes : World → ℕ → ℕ → ℕ → Act Done
unfolding wait_loop poll_nodes
wait_for_nodes world fuel expected_at_least timeout_seconds lab =
    wait_loop world (poll_nodes world expected_at_least)
      (world.clock (length lab.issued) + timeout_seconds) fuel lab

unfoldable pub poll_pool : World → ℕ → Act Bool
unfolding run
poll_pool world replicas = run world get_warm_pool >>= (λ output.
    if world.dry_run
    then return true
    else return (output.desired == replicas && output.ready == replicas))

unfoldable pub wait_for_warm_pool : World → LabConfig → ℕ → ℕ → Act Done
unfolding wait_loop poll_pool
wait_for_warm_pool world config fuel replicas lab =
    wait_loop world (poll_pool world replicas)
      (world.clock (length lab.issued) + config.warm_pool_ready_timeout_seconds) fuel lab
