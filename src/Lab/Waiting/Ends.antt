-- ===== src/Lab/Waiting/Ends.antt =====
-- The polling loops end: the clock bounds the number of rounds.
use xolis.Base.{
  ℕ, zero, suc, ◌+◌, ◌≤◌, ◌<◌, ◌≡◌, ◌≢◌, ◌⊎◌, refl, sym, ◌∙◌, ap, Bool, true, false, List, [], ◌∷◌,
  ◌++◌, arith, length, length-append, leb, ltb, if◌then◌else◌, Bool-cases, inl, inr,
}
use xolis.Base.Result.{Result, ok, err}
use xolis.Lab.{
  World, Act, Ran, Lab, Done, Failure, Reply, printed, exited_nonzero, not_started, Instance,
  return, raise, ◌>>=◌, run, timeout_error, out_of_fuel, runtime_error, LabConfig, get_warm_pool,
  get_nodes, describe_auto_scaling_groups, Command, continue, answer,
}
use xolis.Lab.Waiting.Settled.{IsSettled, wait_for_nodes-IsSettled}
use xolis.Lab.Waiting.{
  next_round, wait_loop, poll_pool, wait_for_warm_pool, poll_nodes, wait_for_nodes,
  sandbox_instance_ids, ids_of_groups,
}

-- A step that, when it returns, has issued so many commands, and that runs out of no fuel.
pub record Costs (k : ℕ) {A : Type 0} (m : Act A) : Type 0 where
  pub issues :
      (lab : Lab) (a : A)
      → (m lab).result ≡ ok a
      → k + length lab.issued ≤ length (m lab).lab.issued
  pub fails : (lab : Lab) → (m lab).result ≢ err out_of_fuel

module _ (world : World) (poll : Act Bool) (a : Costs 1 poll) (deadline last : ℕ)
    (due : (n : ℕ) → last ≤ n → deadline ≤ world.clock n) where
  not_due : (n : ℕ) → leb deadline (world.clock n) ≡ false → n < last
  not_due n h = ground (arith, due n)

  round_ends :
      (fuel : ℕ) (lab : Lab) (r : Result Failure Bool) (after : Lab)
      → r ≢ err out_of_fuel
      → (r ≡ ok false → 1 + length lab.issued ≤ length after.issued)
      → last ≤ fuel + length lab.issued
      → (last < fuel + length after.issued
          → 1 ≤ fuel
          → (wait_loop world poll deadline fuel after).result ≢ err out_of_fuel)
      → (continue after r (next_round world deadline (wait_loop world poll deadline fuel))).result
        ≢ err out_of_fuel
  round_ends fuel lab (err e) after n issued l ih h = n (failed e h)
    where
      failed :
          (e : Failure)
          → ◌≡◌ {A = Result Failure Done} (err e) (err out_of_fuel)
          → ◌≡◌ {A = Result Failure Bool} (err e) (err out_of_fuel)
      failed e h = cc
  round_ends fuel lab (ok true) after n issued l ih h = not_ok h
    where
      not_ok : ◌≡◌ {A = Result Failure Done} (ok tt) (err out_of_fuel) → ⊥
      not_ok h = cc
  round_ends fuel lab (ok false) after n issued l ih h =
      let more = issued refl in
      elim (Bool-cases (leb deadline (world.clock (length after.issued)))) [
        | inl e ↦ timed_out (rw e at h)
        | inr e ↦
            let early = not_due (length after.issued) e in
            ih (omega arith) (omega arith) (rw e at h)
      ]
    where
      timed_out : ◌≡◌ {A = Result Failure Done} (err timeout_error) (err out_of_fuel) → ⊥
      timed_out h = cc

  wait_loop-ends :
      (fuel : ℕ) (lab : Lab)
      → last < fuel + length lab.issued
      → 1 ≤ fuel
      → (wait_loop world poll deadline fuel lab).result ≢ err out_of_fuel
  unfolding wait_loop
  wait_loop-ends zero lab l p = absurd (omega arith)
  wait_loop-ends (suc fuel) lab l p =
      round_ends fuel lab (poll lab).result (poll lab).lab (a.fails lab) (a.issues lab false)
        (omega arith) (wait_loop-ends fuel (poll lab).lab)

module _ {A : Type 0} where
  Costs-return : (a : A) → Costs 0 (return a)
  Costs-return a = record { issues = λ lab b h. omega arith; fails = λ lab h. cc }

  Costs-raise : (k : ℕ) (e : Failure) → e ≢ out_of_fuel → Costs k (raise {A = A} e)
  Costs-raise k e n = record {
    issues = λ lab b h. absurd (impossible b h);
    fails = λ lab h. n (same h);
  }
    where
      impossible : (b : A) → ◌≡◌ {A = Result Failure A} (err e) (ok b) → ⊥
      impossible b h = cc

      same : ◌≡◌ {A = Result Failure A} (err e) (err out_of_fuel) → e ≡ out_of_fuel
      same h = cc

  Costs-if : (k : ℕ) (b : Bool) (m n : Act A) → Costs k m → Costs k n → Costs k (if b then m else n)
  Costs-if k true m n c d = c
  Costs-if k false m n c d = d

  module _ {B : Type 0} (f : A → Act B) where
    continue-issues :
        (j k n : ℕ) (lab : Lab) (r : Result Failure A) (b : B)
        → ((a : A) → Costs k (f a))
        → ((a : A) → r ≡ ok a → j + n ≤ length lab.issued)
        → (continue lab r f).result ≡ ok b
        → j + k + n ≤ length (continue lab r f).lab.issued
    continue-issues j k n lab (err e) b c m h = absurd (impossible h)
      where
        impossible : ◌≡◌ {A = Result Failure B} (err e) (ok b) → ⊥
        impossible h = cc
    continue-issues j k n lab (ok a) b c m h = omega (arith, m a refl, (c a).issues lab b h)

    continue-fails :
        (lab : Lab) (r : Result Failure A)
        → ((a : A) (lab' : Lab) → (f a lab').result ≢ err out_of_fuel)
        → r ≢ err out_of_fuel
        → (continue lab r f).result ≢ err out_of_fuel
    continue-fails lab (ok a) c n h = c a lab h
    continue-fails lab (err e) c n h = n (same h)
      where
        same :
            ◌≡◌ {A = Result Failure B} (err e) (err out_of_fuel)
            → ◌≡◌ {A = Result Failure A} (err e) (err out_of_fuel)
        same h = cc

    Costs-bind :
        (n j k : ℕ) (m : Act A)
        → n ≤ j + k
        → Costs j m
        → ((a : A) → Costs k (f a))
        → Costs n (m >>= f)
    Costs-bind n j k m l c d = record {
      issues = λ lab b h.
          let q =
            continue-issues j k (length lab.issued) (m lab).lab (m lab).result b d (c.issues lab)
              h in
          omega arith;
      fails = λ lab h. continue-fails (m lab).lab (m lab).result (λ a. (d a).fails) (c.fails lab) h;
    }

module _ (world : World) (live : world.dry_run ≡ false) where
  run-live :
      (command : Command) (lab : Lab)
      → run world command lab
        ≡ answer
            (world.reply (length lab.issued))
            (record lab { issued = lab.issued ++ (command ∷ []) })
  unfolding run
  run-live command lab = rw live refl

  answer-issued : (r : Reply) (lab : Lab) → (answer r lab).lab.issued ≡ lab.issued
  answer-issued (printed o) lab = refl
  answer-issued exited_nonzero lab = refl
  answer-issued not_started lab = refl

  answer-fails : (r : Reply) (lab : Lab) → (answer r lab).result ≢ err out_of_fuel
  answer-fails (printed o) lab h = cc
  answer-fails exited_nonzero lab h = cc
  answer-fails not_started lab h = cc

  Costs-run : (command : Command) → Costs 1 (run world command)
  Costs-run command = record {
    issues = λ lab o h. omega (
      arith,
      ap (λ r. length r.lab.issued) (run-live command lab),
      ap length (
          answer-issued (world.reply (length lab.issued))
            (record lab { issued = lab.issued ++ (command ∷ []) })),
      length-append lab.issued (command ∷ []),
    );
    fails = λ lab h.
        answer-fails (world.reply (length lab.issued))
          (record lab { issued = lab.issued ++ (command ∷ []) })
          (sym (ap (λ r. r.result) (run-live command lab)) ∙ h);
  }

  poll_pool-Costs : (replicas : ℕ) → Costs 1 (poll_pool world replicas)
  unfolding poll_pool
  poll_pool-Costs replicas =
      Costs-bind _ 1 1 0 (run world get_warm_pool) (omega arith) (Costs-run get_warm_pool)
        (λ o. Costs-if 0 world.dry_run _ _ (Costs-return true) (Costs-return _))

  ids_of_groups-Costs :
      (b : Bool) (groups : List (List Instance)) → Costs 0 (ids_of_groups b groups)
  ids_of_groups-Costs b [] = Costs-raise 0 runtime_error (λ h. cc)
  ids_of_groups-Costs b (is ∷ []) = Costs-return _
  ids_of_groups-Costs b (is ∷ js ∷ groups) = Costs-raise 0 runtime_error (λ h. cc)

  sandbox_instance_ids-Costs : (b : Bool) → Costs 1 (sandbox_instance_ids world b)
  unfolding sandbox_instance_ids
  sandbox_instance_ids-Costs b =
      Costs-bind _ 1 1 0 (run world describe_auto_scaling_groups) (omega arith)
        (Costs-run describe_auto_scaling_groups)
        (λ o. Costs-if 0 world.dry_run _ _ (Costs-return []) (ids_of_groups-Costs b o.groups))

  poll_nodes-Costs : (expected : ℕ) → Costs 1 (poll_nodes world expected)
  unfolding poll_nodes
  poll_nodes-Costs expected =
      Costs-bind _ 1 1 0 (sandbox_instance_ids world (ltb 0 expected)) (omega arith)
        (sandbox_instance_ids-Costs (ltb 0 expected))
        (λ ids.
          Costs-bind _ 0 1 0 (run world get_nodes) (omega arith) (Costs-run get_nodes)
            (λ o. Costs-if 0 world.dry_run _ _ (Costs-return true) (Costs-return _)))

  module _ (last : ℕ) where
    -- The waiting is over, but not for want of fuel: an error is raised, or the last two commands
    -- showed the nodes in the wanted state.
    abbrev pub IsOver : ℕ → Ran Done → Type 0
    IsOver expected r =
        ((e : Failure) × (r.result ≡ err e) × (e ≢ out_of_fuel))
        ⊎ ((r.result ≡ ok tt)
            × ((n : ℕ) × IsSettled world live expected n × (length r.lab.issued ≡ suc (suc n))))

    wait-IsOver_of :
        (fuel expected timeout_seconds : ℕ) (lab : Lab) (r : Result Failure Done)
        → (wait_for_nodes world fuel expected timeout_seconds lab).result ≡ r
        → r ≢ err out_of_fuel
        → IsOver expected (wait_for_nodes world fuel expected timeout_seconds lab)
    wait-IsOver_of fuel expected timeout_seconds lab (ok u) e n =
        inr (e, wait_for_nodes-IsSettled world live fuel expected timeout_seconds lab e)
    wait-IsOver_of fuel expected timeout_seconds lab (err f) e n = inl (f, e, λ k. n (ap err k))

    -- Outside a dry run, waiting for nodes ends by itself once the clock is past the deadline after
    -- some number of commands, for which fuel for that many rounds is enough: with an error, or
    -- having seen the nodes in the wanted state in its last two commands.
    pub wait_for_nodes-ends :
        (fuel expected timeout_seconds : ℕ) (lab : Lab)
        → ((n : ℕ) → last ≤ n → world.clock (length lab.issued) + timeout_seconds ≤ world.clock n)
        → last < fuel
        → IsOver expected (wait_for_nodes world fuel expected timeout_seconds lab)
    wait_for_nodes-ends fuel expected timeout_seconds lab due l =
        wait-IsOver_of fuel expected timeout_seconds lab
          (wait_for_nodes world fuel expected timeout_seconds lab).result refl
          (unfold wait_for_nodes in
            wait_loop-ends world (poll_nodes world expected) (poll_nodes-Costs expected) _ last due
              fuel lab (omega arith) (omega arith))

    -- The same of waiting for the warm pool.
    pub wait_for_warm_pool-ends :
        (config : LabConfig) (fuel replicas : ℕ) (lab : Lab)
        → ((n : ℕ)
            → last ≤ n
            → world.clock (length lab.issued) + config.warm_pool_ready_timeout_seconds
              ≤ world.clock n)
        → last < fuel
        → (wait_for_warm_pool world config fuel replicas lab).result ≢ err out_of_fuel
    unfolding wait_for_warm_pool
    wait_for_warm_pool-ends config fuel replicas lab due l =
        wait_loop-ends world (poll_pool world replicas) (poll_pool-Costs replicas) _ last due fuel
          lab (omega arith) (omega arith)
