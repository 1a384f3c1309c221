-- ===== src/Hermes/Tests.antt =====
-- Runs of the demo and of its frames, and instances of their theorems.
use xolis.Base.{◌≡◌, ◌⊎◌, refl, true, false, none, some, [], ◌∷◌, arith}
use xolis.Base.Int.{pos}
use xolis.Base.Result.{ok}
use xolis.Text.{codes}
use xolis.Hermes.Frame.{Bytes, Connection, encode_frame, read_frame}
use xolis.Hermes.Frame.RoundTrip.{ReadsFrame, read_frame-encode_frame}
use xolis.Hermes.Demo.{
  created, lost, Args, World, Demo, hermes_environment, prepare, apply_egress, main,
}
use xolis.Hermes.Demo.Cleanup.{end_of, main-released, main-restored, main-unrestored}

abbrev mask : Bytes
mask = 1 ∷ 2 ∷ 3 ∷ 4 ∷ []

encoded : encode_frame mask (codes "hi") 1 ≡ ok (0x81 ∷ 0x82 ∷ 1 ∷ 2 ∷ 3 ∷ 4 ∷ 0x69 ∷ 0x6b ∷ [])
unfolding encode_frame
encoded = refl

abbrev segments : Connection
segments = (0x81 ∷ 0x82 ∷ 1 ∷ []) ∷ (2 ∷ 3 ∷ 4 ∷ 0x69 ∷ []) ∷ (0x6b ∷ 0x88 ∷ []) ∷ []

read_frame-encode_frame_example : ReadsFrame (read_frame segments) 1 (codes "hi") (0x88 ∷ [])
read_frame-encode_frame_example =
    read_frame-encode_frame mask (codes "hi") refl
      (omega arith, (omega arith, (omega arith, (omega arith, tt))))
      (omega arith, (omega arith, tt)) 1 (0x81 ∷ 0x82 ∷ 1 ∷ 2 ∷ 3 ∷ 4 ∷ 0x69 ∷ 0x6b ∷ [])
      (0x88 ∷ []) segments (omega arith) encoded tt refl

abbrev args : Args
args = record {
  session_ttl = pos 900;
  hermes_model = none;
  hermes_provider = none;
  profile = codes "hermes-agent-v1";
  warm_pool = codes "hermes-agent-v1-pool";
  has_egress_manifest = false;
  keep_prepared = false;
  use_prepared = false;
}

abbrev working : World
working = record {
  has_kubectl = true;
  applies_runtime_class = true;
  meets_prerequisites = true;
  applies_profile = true;
  applies_egress = true;
  reads_environment = true;
  sets_environment = true;
  rolls_out = true;
  scales_up = true;
  gets_ready = true;
  forwards = true;
  creation = created;
  gets_running = false;
  session = none;
  deletes = true;
  stops = true;
  scales_down = true;
  resets_environment = true;
}

abbrev stuck : World
stuck = record working { rolls_out = false }

abbrev at_first : Demo
at_first = record {
  api = record {
    profile = some (codes "python-basic-v1");
    warm_pool = none;
    maximum_command_timeout = none;
  };
  replicas = 0;
  has_sandbox = false;
  port_forward_runs = false;
  original_api = none;
  sandbox_id = false;
}

main-released_example :
    (((end_of (main working args at_first)).has_sandbox ≡ false)
      ⊎ ((working.deletes ≡ false) ⊎ (working.creation ≡ lost)))
    × (((end_of (main working args at_first)).port_forward_runs ≡ false) ⊎ (working.stops ≡ false))
main-released_example = main-released working args at_first refl refl refl

-- The sandbox whose answer was lost is left behind.
left-behind : (end_of (main (record working { creation = lost }) args at_first)).has_sandbox ≡ true
unfolding main
left-behind = refl

main-restored_example :
    ((end_of (main working args at_first)).api ≡ at_first.api)
    × ((end_of (main working args at_first)).replicas ≡ 0)
main-restored_example = main-restored working args at_first refl refl refl refl refl refl refl refl

prepared : prepare stuck args at_first ≡ ok at_first
unfolding prepare
prepared = refl

egress : apply_egress stuck args at_first ≡ ok at_first
unfolding apply_egress
egress = refl

main-unrestored_example : (end_of (main stuck args at_first)).api ≡ hermes_environment args
main-unrestored_example =
    main-unrestored stuck args at_first refl refl prepared egress refl refl refl refl
