-- ===== src/Hermes/Demo/Cleanup.antt =====
-- What `main` of tools/hermes_demo.py leaves behind, however it ends.
use xolis.Base.{
  ◌≡◌, refl, sym, ap, ◌∙◌, Bool, true, false, ◌&&◌, ◌⊎◌, inl, inr, none, some, arith, if◌then◌else◌,
}
use xolis.Base.Result.{Result, ok, err, ◌>>=◌}
use xolis.Hermes.Demo.{
  Environment, Args, World, Demo, Step, need, hermes_environment, configure_api,
  verify_prepared_environment, prepare, apply_egress, warm_up, run_session, try_block, clean_up,
  create, lost, stop_forwarding, raised, accepts, finish, main, is_value,
}

-- The state in which a step ended.
abbrev pub end_of : Result Demo Demo → Demo
end_of (ok d) = d
end_of (err d) = d

module _ (P : Demo → Type 0) where
  -- A step that keeps a property, also when it raises.
  abbrev Keeps : Step → Type 0
  Keeps f = (d : Demo) → P d → P (end_of (f d))

  Keeps-bind : (r : Result Demo Demo) (f : Step) → P (end_of r) → Keeps f → P (end_of (r >>= f))
  Keeps-bind (ok d) f h k = k d h
  Keeps-bind (err d) f h k = h

  Keeps-need : (b : Bool) → Keeps (need b)
  Keeps-need true d h = h
  Keeps-need false d h = h

  Keeps-if :
      (b : Bool) (f g : Step)
      → Keeps f
      → Keeps g
      → (d : Demo) → P d
      → P (end_of (if b then f d else g d))
  Keeps-if true f g k l = k
  Keeps-if false f g k l = l

  -- A call that may fail, and what follows it.
  Keeps-after :
      (b : Bool) (f : Step) (d : Demo) → P d → P (end_of (f d)) → P (end_of (need b d >>= f))
  Keeps-after true f d h k = k
  Keeps-after false f d h k = h

  module _ (world : World) (args : Args) where
    verify-Keeps : Keeps (verify_prepared_environment world args)
    unfolding verify_prepared_environment
    verify-Keeps d h = Keeps-after world.reads_environment _ d h (
        Keeps-after (is_value d.api.profile args.profile && is_value d.api.warm_pool args.warm_pool)
          (need world.gets_ready) d h (Keeps-need world.gets_ready d h))

    prepare-Keeps : Keeps (prepare world args)
    unfolding prepare
    prepare-Keeps =
        Keeps-if args.use_prepared _ _
          (λ d h.
            Keeps-after (world.has_kubectl && world.meets_prerequisites)
              (verify_prepared_environment world args) d h (verify-Keeps d h))
          (Keeps-need (
            world.has_kubectl && world.applies_runtime_class && world.meets_prerequisites
            && world.applies_profile))

    apply_egress-Keeps : Keeps (apply_egress world args)
    unfolding apply_egress
    apply_egress-Keeps =
        Keeps-if args.has_egress_manifest (need world.applies_egress) ok
          (Keeps-need world.applies_egress) (λ d h. h)

    -- Only warming up and the session change what a property of the state may speak of.
    module _ (Q : Demo → Type 0) (weaken : (d : Demo) → P d → Q d) where
      Turns-bind :
          (r : Result Demo Demo) (f : Step)
          → P (end_of r)
          → ((d : Demo) → P d → Q (end_of (f d)))
          → Q (end_of (r >>= f))
      Turns-bind (ok d) f h k = k d h
      Turns-bind (err d) f h k = weaken d h

      Keeps-session :
          (r : Result Demo Demo)
          → Q (end_of r)
          → ((d : Demo) → Q d → Q (end_of (run_session world d)))
          → Q (end_of (r >>= run_session world))
      Keeps-session (ok d) h k = k d h
      Keeps-session (err d) h k = h

      try_block-Turns :
          ((d : Demo) → P d → Q (end_of (warm_up world args d)))
          → ((d : Demo) → Q d → Q (end_of (run_session world d)))
          → (d : Demo) → P d
          → Q (end_of (try_block world args d))
      unfolding try_block
      try_block-Turns w s d h = Turns-bind (prepare world args d) _ (prepare-Keeps d h) (λ d h.
          Turns-bind (apply_egress world args d) _ (apply_egress-Keeps d h)
            (λ d h. Keeps-session (warm_up world args d) (w d h) s))

module _ (world : World) (args : Args) where
  -- A sandbox that exists is known by its identifier, or that was lost.
  abbrev IsKnown : Demo → Type 0
  IsKnown d = (d.has_sandbox ≡ d.sandbox_id) ⊎ (world.creation ≡ lost)

  warm_up-IsKnown : Keeps IsKnown (warm_up world args)
  unfolding warm_up configure_api
  warm_up-IsKnown d h = ground arith

  run_session-IsKnown : Keeps IsKnown (run_session world)
  unfolding run_session create
  run_session-IsKnown d h = ground arith

  main-finish :
      (d : Demo)
      → accepts args ≡ true
      → end_of (main world args d) ≡ end_of (clean_up world args (end_of (try_block world args d)))
  unfolding main
  main-finish d a = rw a (finished (try_block world args d))
    where
      end_raised : (r : Result Demo Demo) → end_of (raised r) ≡ end_of r
      end_raised (ok d) = refl
      end_raised (err d) = refl

      finished :
          (r : Result Demo Demo)
          → end_of (finish world args r) ≡ end_of (clean_up world args (end_of r))
      finished (ok d) = refl
      finished (err d) = end_raised (clean_up world args d)

  clean_up-sandbox :
      (d : Demo)
      → IsKnown d
      → (((end_of (clean_up world args d)).has_sandbox ≡ false)
          ⊎ ((world.deletes ≡ false) ⊎ (world.creation ≡ lost)))
        × (((end_of (clean_up world args d)).port_forward_runs ≡ false) ⊎ (world.stops ≡ false))
  unfolding clean_up stop_forwarding
  clean_up-sandbox d h = ground arith

  -- Whatever fails, an accepted run that starts without a sandbox leaves none, unless the API's
  -- deletion fails or the identifier of the sandbox was lost with the answer to its creation; and it
  -- leaves no port forwarded, unless the process of the port-forward outlasts its killing.
  pub main-released :
      (d : Demo)
      → accepts args ≡ true
      → d.has_sandbox ≡ false
      → d.sandbox_id ≡ false
      → (((end_of (main world args d)).has_sandbox ≡ false)
          ⊎ ((world.deletes ≡ false) ⊎ (world.creation ≡ lost)))
        × (((end_of (main world args d)).port_forward_runs ≡ false) ⊎ (world.stops ≡ false))
  main-released d a h k =
      let known =
        try_block-Turns IsKnown world args IsKnown (λ d h. h) warm_up-IsKnown run_session-IsKnown d
          (inl (h ∙ sym k)) in
      rw (main-finish d a) (clean_up-sandbox (end_of (try_block world args d)) known)

  -- The configuration from before is remembered, or still in force.
  abbrev IsRemembered : Environment → Demo → Type 0
  IsRemembered before d =
      (d.original_api ≡ some before) ⊎ ((d.original_api ≡ none) × (d.api ≡ before))

  abbrev IsUntouched : Environment → Demo → Type 0
  IsUntouched before d = (d.original_api ≡ none) × (d.api ≡ before)

  warm_up-IsRemembered :
      (before : Environment)
      → world.rolls_out ≡ true
      → (d : Demo) → IsUntouched before d
      → IsRemembered before (end_of (warm_up world args d))
  unfolding warm_up configure_api
  warm_up-IsRemembered before r d h = ground arith

  run_session-IsRemembered :
      (before : Environment) → Keeps (IsRemembered before) (run_session world)
  unfolding run_session create
  run_session-IsRemembered before d h = ground arith

  clean_up-restored :
      (before : Environment) (d : Demo)
      → args.keep_prepared ≡ false
      → args.use_prepared ≡ false
      → world.scales_down ≡ true
      → world.resets_environment ≡ true
      → world.stops ≡ true
      → IsRemembered before d
      → ((end_of (clean_up world args d)).api ≡ before)
        × ((end_of (clean_up world args d)).replicas ≡ 0)
  unfolding clean_up stop_forwarding
  clean_up-restored before d k u s r t h = ground arith

  -- An accepted run that is to keep nothing restores the API's configuration and scales the warm pool
  -- to zero, however it ends, when the API rolls out its configuration and the calls of the clean-up
  -- work, the stopping of the port-forward among them.
  pub main-restored :
      (d : Demo)
      → accepts args ≡ true
      → args.keep_prepared ≡ false
      → args.use_prepared ≡ false
      → world.rolls_out ≡ true
      → world.scales_down ≡ true
      → world.resets_environment ≡ true
      → world.stops ≡ true
      → d.original_api ≡ none
      → ((end_of (main world args d)).api ≡ d.api) × ((end_of (main world args d)).replicas ≡ 0)
  main-restored d a k u r s e t n =
      let remembered =
        try_block-Turns (IsUntouched d.api) world args (IsRemembered d.api) (λ x h. inr h)
          (warm_up-IsRemembered d.api r) (run_session-IsRemembered d.api) d (n, refl) in
      let (p, q) = clean_up-restored d.api (end_of (try_block world args d)) k u s e t remembered in
      (ap (λ x. x.api) (main-finish d a) ∙ p, ap (λ x. x.replicas) (main-finish d a) ∙ q)

  warm_up-fails :
      (d : Demo)
      → args.use_prepared ≡ false
      → world.reads_environment ≡ true
      → world.sets_environment ≡ true
      → world.rolls_out ≡ false
      → warm_up world args d ≡ err (record d { api = hermes_environment args })
  unfolding warm_up configure_api
  warm_up-fails d u q s r = rw (u, q, s, r) refl

  try_block-fails :
      (d : Demo)
      → prepare world args d ≡ ok d
      → apply_egress world args d ≡ ok d
      → warm_up world args d ≡ err (record d { api = hermes_environment args })
      → try_block world args d ≡ err (record d { api = hermes_environment args })
  unfolding try_block
  try_block-fails d p e w =
      ap
        (λ r. r >>= (λ d.
          apply_egress world args d >>= (λ d. warm_up world args d >>= run_session world)))
        p
      ∙ (ap (λ r. r >>= (λ d. warm_up world args d >>= run_session world)) e
          ∙ ap (λ r. r >>= run_session world) w)

  clean_up-unrestored :
      (d : Demo) → d.original_api ≡ none → (end_of (clean_up world args d)).api ≡ d.api
  unfolding clean_up stop_forwarding
  clean_up-unrestored d n = ground arith

  -- When the roll-out fails after the API's variables were set, the run ends with Hermes's variables
  -- in the API, even if every call of the clean-up works.
  pub main-unrestored :
      (d : Demo)
      → accepts args ≡ true
      → args.use_prepared ≡ false
      → prepare world args d ≡ ok d
      → apply_egress world args d ≡ ok d
      → world.reads_environment ≡ true
      → world.sets_environment ≡ true
      → world.rolls_out ≡ false
      → d.original_api ≡ none
      → (end_of (main world args d)).api ≡ hermes_environment args
  main-unrestored d a u p e q s r n =
      ap (λ x. x.api)
        (main-finish d a
          ∙ ap (λ x. end_of (clean_up world args (end_of x)))
              (try_block-fails d p e (warm_up-fails d u q s r)))
      ∙ clean_up-unrestored (record d { api = hermes_environment args }) n
