-- ===== src/Hermes/WaitingTests.antt =====
-- Runs of the waiting loops of hermes_demo.py.
use xolis.Hermes.Waiting.First.{
  IsFirst, PoolReady, PoolPending, PortOpen, PortPending, SandboxRunning, SandboxPending,
  waits-IsFirst,
}
use xolis.Base.{String, ◌≡◌, ◌↔◌, refl, true, false, none, some, List, [], ◌∷◌, nat_eq, list_eq}
use xolis.Base.Result.{ok, err}
use xolis.Text.{codes}
use xolis.Hermes.Waiting.{
  timed_out, port_forward_exited, http_status, sandbox_failed, done, Round, PoolReply, pool, Probe,
  ApiReply, answered, wait_for_warm_pool, enter, wait_running,
}

abbrev pools : List (Round PoolReply)
pools =
    record { clock = 10; found = pool none none }
    ∷ record { clock = 12; found = pool (some 1) none }
    ∷ record { clock = 14; found = pool (some 1) (some 1) }
    ∷ []

pool-ready : wait_for_warm_pool 1 10 5 pools ≡ ok done
unfolding wait_for_warm_pool
pool-ready = refl

pool-late : wait_for_warm_pool 1 10 4 pools ≡ err timed_out
unfolding wait_for_warm_pool
pool-late = refl

abbrev probes : List (Round Probe)
probes =
    record { clock = 0; found = record { exited = false; health = none } }
    ∷ record { clock = 1; found = record { exited = true; health = some 200 } }
    ∷ []

port-exited : enter 0 probes ≡ err port_forward_exited
unfolding enter
port-exited = refl

abbrev sandbox : String → ApiReply
sandbox state = answered 200 (some (record { state = some (codes state); reason = none }))

failed-early :
    wait_running 0 9 (
      record { clock = 1; found = sandbox "Pending" }
      ∷ record { clock = 2; found = sandbox "Failed" }
      ∷ [])
    ≡ err (sandbox_failed none)
unfolding wait_running
failed-early = refl

refused-early :
    wait_running 0 9 (record { clock = 1; found = answered 404 none } ∷ []) ≡ err (http_status 404)
unfolding wait_running
refused-early = refl

abbrev replies : List (Round ApiReply)
replies =
    record { clock = 3; found = sandbox "Pending" }
    ∷ record { clock = 4; found = sandbox "Running" }
    ∷ []

-- The pool is ready in its third round, the port's process ends, and the sandbox runs in its second.
waits-IsFirst_example :
    ((wait_for_warm_pool 1 10 5 pools ≡ ok done) ↔ IsFirst (PoolReady 1) (PoolPending 1) 15 pools)
    × ((enter 10 probes ≡ ok done) ↔ IsFirst PortOpen PortPending 30 probes)
    × ((wait_running 10 5 replies ≡ ok done) ↔ IsFirst SandboxRunning SandboxPending 15 replies)
waits-IsFirst_example = waits-IsFirst 1 10 5 pools probes replies
