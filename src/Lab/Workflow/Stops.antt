-- ===== src/Lab/Workflow/Stops.antt =====
-- The sandbox nodes are stopped at the end of each workflow of tools/xolis_aws_lab.py.
use xolis.Base.{ℕ, suc, ◌≡◌, refl, ◌∙◌, ap, Bool, true, false, List, [], ◌∷◌, ◌++◌, arith, length}
use xolis.Base.Int.{ℤ, pos, pos_part, leb_ℤ, ◌≤ℤ◌}
use xolis.Base.Result.{Result, ok, err}
use xolis.Lab.{
  World, LabConfig, Lab, Done, Failure, Phase, phase, passed_of, node_stop, warm_pool_cleanup, run_,
  update_kubeconfig, update_auto_scaling_group,
}
use xolis.Lab.Waiting.{wait_for_nodes}
use xolis.Lab.Waiting.Settled.{IsSettled, continue-ok, wait_for_nodes-IsSettled}
use xolis.Lab.Workflow.{
  ◌then_◌, stop_node, service, service_phases, benchmark, benchmark_phases, pool_ready,
}

module _ (world : World) (config : LabConfig) (fuel : ℕ) (live : world.dry_run ≡ false) where
  -- The last two commands showed no node and no instance of the one group.
  abbrev pub Stopped : Lab → Type 0
  Stopped lab = (n : ℕ) × IsSettled world live 0 n × (length lab.issued ≡ suc (suc n))

  stop_node-Stopped :
      (lab : Lab)
      → (stop_node world config fuel lab).result ≡ ok tt
      → Stopped (stop_node world config fuel lab).lab
  unfolding stop_node
  stop_node-Stopped lab h =
      let scaled =
        (run_ world update_kubeconfig
            then_ run_ world (update_auto_scaling_group (pos 0) (pos 0) config.sandbox_max_size))
          lab in
      let c =
        continue-ok scaled.lab scaled.result
          (λ u. wait_for_nodes world fuel 0 config.node_stop_timeout_seconds) tt h in
      let (n, s, l) =
        wait_for_nodes-IsSettled world live fuel 0 config.node_stop_timeout_seconds scaled.lab
          c.second in
      (n, s, ap (λ x. length x.issued) c.same ∙ l)

  -- The last recorded phase is `node_stop`, and if that passed the nodes are gone.
  pub record EndsStopped (lab : Lab) : Type 0 where
    pub before : List Phase
    pub stop_passed : Bool
    pub last :
        lab.phase_results ≡ before ++ (record { name = node_stop; passed = stop_passed } ∷ [])
    pub stopped : stop_passed ≡ true → Stopped lab

  passed-ok : (r : Result Failure Done) → passed_of r ≡ true → r ≡ ok tt
  passed-ok (ok u) h = refl
  passed-ok (err e) h = cc

  phase-EndsStopped :
      (lab : Lab) → EndsStopped (phase node_stop (stop_node world config fuel) lab).lab
  unfolding phase
  phase-EndsStopped lab = record {
    before = (stop_node world config fuel lab).lab.phase_results;
    stop_passed = passed_of (stop_node world config fuel lab).result;
    last = refl;
    stopped = λ h. stop_node-Stopped lab (passed-ok (stop_node world config fuel lab).result h);
  }

  -- Outside a dry run, whatever fails in a service run, stopping the nodes is its last phase, and when
  -- that phase passed the last two commands showed a group without an instance and no sandbox node.
  pub service-EndsStopped : (lab : Lab) → EndsStopped (service world config fuel lab).lab
  unfolding service
  service-EndsStopped lab = phase-EndsStopped (service_phases world config fuel lab).lab

  -- Outside a dry run, whatever fails in a benchmark of at least one iteration, stopping the nodes is
  -- its last phase, and when that phase passed the last two commands showed a group without an
  -- instance and no sandbox node.
  pub benchmark-EndsStopped :
      (iterations : ℤ) (lab : Lab)
      → pos 1 ≤ℤ iterations
      → EndsStopped (benchmark world config fuel iterations lab).lab
  unfolding benchmark
  benchmark-EndsStopped iterations lab h =
      let e : leb_ℤ (pos 1) iterations ≡ true = ground arith in
      let body = benchmark_phases world config fuel (pos_part iterations) lab in
      rw e
        (phase-EndsStopped (phase warm_pool_cleanup (pool_ready world config fuel 0) body.lab).lab)
