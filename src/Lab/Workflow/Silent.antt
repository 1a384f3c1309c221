-- ===== src/Lab/Workflow/Silent.antt =====
-- The steps of a service run of tools/xolis_aws_lab.py that record no phase of their own.
use xolis.Base.{
  ℕ, zero, suc, ◌+◌, ◌≡◌, refl, ◌∙◌, Bool, true, false, List, [], ◌∷◌, ◌++◌, length, if◌then◌else◌,
  Bool-cases, inl, inr, ltb, leb,
}
use xolis.Base.Int.{ℤ, pos}
use xolis.Base.Result.{Result, ok, err}
use xolis.Text.{Text}
use xolis.Lab.{
  World, LabConfig, Lab, Act, Done, Failure, Instance, ◌>>=◌, continue, run, run_, Reply, printed,
  exited_nonzero, not_started, answer, Command, require, require_file, update_kubeconfig,
  update_auto_scaling_group, kubectl_apply, service_smoke, service_metrics,
  describe_auto_scaling_groups, get_nodes,
}
use xolis.Lab.Waiting.{
  wait_for_nodes, wait_loop, next_round, poll_nodes, sandbox_instance_ids, ids_of_groups,
}
use xolis.Lab.Workflow.{
  ◌then_◌, start_node, stop_node, bootstrap, apply_manifests, run_service_smoke,
}

-- A step that records no phase.
abbrev pub Silent : {A : Type 0} → Act A → Type 0
Silent m = (lab : Lab) → (m lab).lab.phase_results ≡ lab.phase_results

module _ {A B : Type 0} (f : A → Act B) where
  Silent-continue :
      (lab : Lab) (r : Result Failure A)
      → ((a : A) → Silent (f a))
      → (continue lab r f).lab.phase_results ≡ lab.phase_results
  Silent-continue lab (ok a) s = s a lab
  Silent-continue lab (err e) s = refl

  Silent-bind : (m : Act A) → Silent m → ((a : A) → Silent (f a)) → Silent (m >>= f)
  Silent-bind m s t lab = Silent-continue (m lab).lab (m lab).result t ∙ s lab

Silent-if :
    {A : Type 0} (b : Bool) (m n : Act A) → Silent m → Silent n → Silent (if b then m else n)
Silent-if true m n s t = s
Silent-if false m n s t = t

module _ (world : World) where
  Silent-answer : (r : Reply) → Silent (answer r)
  Silent-answer (printed o) lab = refl
  Silent-answer exited_nonzero lab = refl
  Silent-answer not_started lab = refl

  Silent-run : (command : Command) → Silent (run world command)
  unfolding run
  Silent-run command lab = elim (Bool-cases world.dry_run) [
    | inl e ↦ rw e refl
    | inr e ↦ rw e (
        Silent-answer (world.reply (length lab.issued))
          (record lab { issued = lab.issued ++ (command ∷ []) }))
  ]

  pub Silent-run_ : (command : Command) → Silent (run_ world command)
  Silent-run_ command = Silent-bind _ (run world command) (Silent-run command) (λ o lab. refl)

  Silent-require : (b there : Bool) → Silent (require b there)
  Silent-require true there lab = refl
  Silent-require false true lab = refl
  Silent-require false false lab = refl

  Silent-then : (m n : Act Done) → Silent m → Silent n → Silent (m then_ n)
  Silent-then m n s t = Silent-bind (λ u. n) m s (λ u. t)

  Silent-ids_of_groups :
      (b : Bool) (groups : List (List Instance)) → Silent (ids_of_groups b groups)
  Silent-ids_of_groups b [] lab = refl
  Silent-ids_of_groups b (is ∷ []) lab = refl
  Silent-ids_of_groups b (is ∷ js ∷ groups) lab = refl

  Silent-sandbox_instance_ids : (b : Bool) → Silent (sandbox_instance_ids world b)
  unfolding sandbox_instance_ids
  Silent-sandbox_instance_ids b =
      Silent-bind _ (run world describe_auto_scaling_groups)
        (Silent-run describe_auto_scaling_groups)
        (λ o. Silent-if world.dry_run _ _ (λ lab. refl) (Silent-ids_of_groups b o.groups))

  Silent-poll_nodes : (expected : ℕ) → Silent (poll_nodes world expected)
  unfolding poll_nodes
  Silent-poll_nodes expected =
      Silent-bind _ (sandbox_instance_ids world (ltb 0 expected))
        (Silent-sandbox_instance_ids (ltb 0 expected))
        (λ ids.
          Silent-bind _ (run world get_nodes) (Silent-run get_nodes)
            (λ o. Silent-if world.dry_run _ _ (λ lab. refl) (λ lab. refl)))

  Silent-next_round :
      (deadline : ℕ) (again : Act Done)
      → Silent again
      → (b : Bool) → Silent (next_round world deadline again b)
  Silent-next_round deadline again s true lab = refl
  Silent-next_round deadline again s false lab =
      elim (Bool-cases (leb deadline (world.clock (length lab.issued)))) [
        | inl e ↦ rw e refl
        | inr e ↦ rw e (s lab)
      ]

  Silent-wait_loop :
      (poll : Act Bool) (deadline fuel : ℕ)
      → Silent poll
      → Silent (wait_loop world poll deadline fuel)
  unfolding wait_loop
  Silent-wait_loop poll deadline zero s = λ lab. refl
  Silent-wait_loop poll deadline (suc fuel) s =
      Silent-bind (next_round world deadline (wait_loop world poll deadline fuel)) poll s (
        Silent-next_round deadline (wait_loop world poll deadline fuel)
          (Silent-wait_loop poll deadline fuel s))

  Silent-wait_for_nodes :
      (fuel expected timeout_seconds : ℕ)
      → Silent (wait_for_nodes world fuel expected timeout_seconds)
  unfolding wait_for_nodes
  Silent-wait_for_nodes fuel expected timeout_seconds lab =
      Silent-wait_loop (poll_nodes world expected)
        (world.clock (length lab.issued) + timeout_seconds) fuel (Silent-poll_nodes expected) lab

  pub Silent-required :
      (there : Bool) (command : Command)
      → Silent (require world.dry_run there then_ run_ world command)
  Silent-required there command =
      Silent-then (require world.dry_run there) (run_ world command)
        (Silent-require world.dry_run there) (Silent-run_ command)

  module _ (config : LabConfig) (fuel : ℕ) where
    Silent-apply_manifests : (ms : List Text) → Silent (apply_manifests world config fuel ms)
    unfolding apply_manifests
    Silent-apply_manifests [] = λ lab. refl
    Silent-apply_manifests (m ∷ ms) =
        Silent-then (require_file world m then_ run_ world (kubectl_apply m))
          (apply_manifests world config fuel ms)
          (Silent-then (require_file world m) (run_ world (kubectl_apply m))
            (Silent-require world.dry_run (world.is_file m)) (Silent-run_ (kubectl_apply m)))
          (Silent-apply_manifests ms)

    scaled : (a b c : ℤ) → Act Done
    scaled a b c = run_ world update_kubeconfig then_ run_ world (update_auto_scaling_group a b c)

    Silent-scaled : (a b c : ℤ) → Silent (scaled a b c)
    unfolding scaled
    Silent-scaled a b c =
        Silent-then (run_ world update_kubeconfig) (run_ world (update_auto_scaling_group a b c))
          (Silent-run_ update_kubeconfig) (Silent-run_ (update_auto_scaling_group a b c))

    pub Silent-bootstrap : Silent (bootstrap world config fuel)
    unfolding bootstrap
    Silent-bootstrap =
        Silent-then (run_ world update_kubeconfig)
          (apply_manifests world config fuel config.bootstrap_manifests)
          (Silent-run_ update_kubeconfig) (Silent-apply_manifests config.bootstrap_manifests)

    pub Silent-start_node : Silent (start_node world config fuel)
    unfolding start_node scaled
    Silent-start_node =
        Silent-then
          (scaled config.sandbox_min_size config.sandbox_desired_size config.sandbox_max_size)
          (wait_for_nodes world fuel 1 config.node_ready_timeout_seconds)
          (Silent-scaled config.sandbox_min_size config.sandbox_desired_size
            config.sandbox_max_size)
          (Silent-wait_for_nodes fuel 1 config.node_ready_timeout_seconds)

    pub Silent-stop_node : Silent (stop_node world config fuel)
    unfolding stop_node scaled
    Silent-stop_node =
        Silent-then (scaled (pos 0) (pos 0) config.sandbox_max_size)
          (wait_for_nodes world fuel 0 config.node_stop_timeout_seconds)
          (Silent-scaled (pos 0) (pos 0) config.sandbox_max_size)
          (Silent-wait_for_nodes fuel 0 config.node_stop_timeout_seconds)

    pub Silent-acceptance : Silent (
        require_file world config.service_test_script
        then_ run_service_smoke world config fuel service_metrics false)
    unfolding run_service_smoke
    Silent-acceptance =
        Silent-then (require_file world config.service_test_script)
          (run_service_smoke world config fuel service_metrics false)
          (Silent-require world.dry_run (world.is_file config.service_test_script))
          (Silent-required (world.is_file config.service_test_script)
            (service_smoke service_metrics false))
