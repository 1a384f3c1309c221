-- ===== src/Hermes/Demo.antt =====
-- `main` of tools/hermes_demo.py with the calls that change the cluster, and the clean-up.
pub mod Cleanup
use xolis.Base.{
  ℕ, Bool, true, false, not, ◌&&◌, ◌||◌, Option, none, some, List, [], ◌∷◌, ◌==◌, nat_eq, list_eq,
  if◌then◌else◌,
}
use xolis.Base.Int.{ℤ, pos, leb_ℤ}
use xolis.Base.Result.{Result, ok, err, ◌>>=◌}
use xolis.Text.{Text, codes}

-- The variables of `API_ENV_NAMES` in the deployment of the API, each if it is set.
pub record Environment : Type 0 where
  pub profile : Option Text
  pub warm_pool : Option Text
  pub maximum_command_timeout : Option Text

pub record Args : Type 0 where
  pub session_ttl : ℤ
  pub hermes_model : Option Text
  pub hermes_provider : Option Text
  -- the profile and the warm pool of the image mode
  pub profile : Text
  pub warm_pool : Text
  pub has_egress_manifest : Bool
  pub keep_prepared : Bool
  pub use_prepared : Bool

-- What `ApiClient.create` comes to: no sandbox, a sandbox whose identifier is not read, for the answer
-- is lost or is not what is expected, or a sandbox with its identifier.
pub data Creation : Type 0 where
  refused lost created : Creation

-- Which of the calls on the cluster succeed.
pub record World : Type 0 where
  pub has_kubectl : Bool
  pub applies_runtime_class : Bool
  pub meets_prerequisites : Bool
  pub applies_profile : Bool
  pub applies_egress : Bool
  pub reads_environment : Bool
  pub sets_environment : Bool
  pub rolls_out : Bool
  pub scales_up : Bool
  -- whether the pool has its ready replica before the deadline
  pub gets_ready : Bool
  pub forwards : Bool
  pub creation : Creation
  pub gets_running : Bool
  -- the status of the interactive session, unless it raises
  pub session : Option ℤ
  pub deletes : Bool
  -- whether the process of the port-forward ends within the two waits of `PortForward.__exit__`
  pub stops : Bool
  pub scales_down : Bool
  pub resets_environment : Bool

-- The cluster, and the local variables of `main`.
pub record Demo : Type 0 where
  pub api : Environment
  pub replicas : ℕ
  pub has_sandbox : Bool
  pub port_forward_runs : Bool
  pub original_api : Option Environment
  pub sandbox_id : Bool

-- A step ends in a state, whether it returns or raises.
abbrev pub Step : Type 0
Step = Demo → Result Demo Demo

abbrev pub need : Bool → Step
need succeeds d = if succeeds then ok d else err d

abbrev pub hermes_environment : Args → Environment
hermes_environment args = record {
  profile = some args.profile;
  warm_pool = some args.warm_pool;
  maximum_command_timeout = some (codes "900");
}

-- `configure_api`: what it returns is in `original_api` only once the roll-out has succeeded.
unfoldable pub configure_api : World → Args → Step
configure_api world args d = do
  d ← need (world.reads_environment && world.sets_environment) d
  let changed = record d { api = hermes_environment args }
  changed ← need world.rolls_out changed
  ok (record changed { original_api = some d.api })

abbrev pub is_value : Option Text → Text → Bool
is_value none expected = false
is_value (some v) expected = v == expected

-- `verify_prepared_environment`
unfoldable pub verify_prepared_environment : World → Args → Step
verify_prepared_environment world args d = do
  d ← need world.reads_environment d
  d ← need (is_value d.api.profile args.profile && is_value d.api.warm_pool args.warm_pool) d
  need world.gets_ready d

unfoldable pub prepare : World → Args → Step
unfolding verify_prepared_environment
prepare world args d =
    if args.use_prepared
    then (do
      d ← need (world.has_kubectl && world.meets_prerequisites) d
      verify_prepared_environment world args d)
    else need
        (world.has_kubectl && world.applies_runtime_class && world.meets_prerequisites
          && world.applies_profile)
        d

unfoldable pub apply_egress : World → Args → Step
apply_egress world args d = if args.has_egress_manifest then need world.applies_egress d else ok d

unfoldable pub warm_up : World → Args → Step
unfolding configure_api
warm_up world args d = if args.use_prepared then ok d else (do
  d ← configure_api world args d
  d ← need world.scales_up d
  need world.gets_ready (record d { replicas = 1 }))

-- `client.create`, and the assignment of what it returns
unfoldable pub create : World → Step
create world d = elim world.creation [
  | refused ↦ err d
  | lost ↦ err (record d { has_sandbox = true })
  | created ↦ ok (record d { has_sandbox = true; sandbox_id = true })
]

-- The port is forwarded by a process that `finally` stops, also when the port never answers.
unfoldable pub run_session : World → Step
unfolding create
run_session world d = do
  d ← need world.forwards (record d { port_forward_runs = true })
  d ← create world d
  d ← need world.gets_running d
  elim world.session [ none ↦ err d | some code ↦ ok d ]

unfoldable pub try_block : World → Args → Step
unfolding prepare apply_egress warm_up run_session
try_block world args d = do
  d ← prepare world args d
  d ← apply_egress world args d
  d ← warm_up world args d
  run_session world d

abbrev pub delete_sandbox : World → Demo → Demo
delete_sandbox world d =
    if d.sandbox_id && world.deletes then record d { has_sandbox = false } else d

-- `PortForward.__exit__`, which raises when the killed process does not end either.
unfoldable pub stop_forwarding : World → Step
stop_forwarding world d =
    if d.port_forward_runs
    then need world.stops (record d { port_forward_runs = not world.stops })
    else ok d

-- `restore_api`: a variable gets its value back, or is unset again.
abbrev pub restore_api : World → Option Environment → Demo → Demo
restore_api world none d = d
restore_api world (some original) d =
    if world.resets_environment then record d { api = original } else d

abbrev pub scale_down : World → Demo → Demo
scale_down world d = if world.scales_down then record d { replicas = 0 } else d

abbrev pub unprepare : World → Args → Demo → Demo
unprepare world args d =
    if not args.keep_prepared && not args.use_prepared
    then restore_api world d.original_api (scale_down world d)
    else d

-- `finally`: a call on the cluster that fails only gives a warning, but an error of the port-forward
-- ends the clean-up.
unfoldable pub clean_up : World → Args → Step
unfolding stop_forwarding
clean_up world args d = do
  d ← stop_forwarding world (delete_sandbox world d)
  ok (unprepare world args d)

abbrev pub given : Option Text → Bool
given none = false
given (some []) = false
given (some (c ∷ s)) = true

abbrev pub same_bool : Bool → Bool → Bool
same_bool true b = b
same_bool false b = not b

abbrev pub accepts : Args → Bool
accepts args =
    leb_ℤ (pos 1) args.session_ttl
    && leb_ℤ args.session_ttl (pos 7200)
    && same_bool (given args.hermes_model) (given args.hermes_provider)

-- What was raised goes on behind the clean-up, or gives way to what the clean-up raises.
abbrev pub raised : Result Demo Demo → Result Demo Demo
raised (ok d) = err d
raised (err d) = err d

abbrev pub finish : World → Args → Result Demo Demo → Result Demo Demo
finish world args (ok d) = clean_up world args d
finish world args (err d) = raised (clean_up world args d)

unfoldable pub main : World → Args → Step
unfolding try_block clean_up
main world args d = if accepts args then finish world args (try_block world args d) else err d
