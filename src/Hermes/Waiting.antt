-- ===== src/Hermes/Waiting.antt =====
-- The loops of tools/hermes_demo.py that wait: for the warm pool, for the forwarded port and for the
-- sandbox. Each is given by what its rounds find.
pub mod First
use xolis.Base.{
  ℕ, ◌+◌, Bool, true, false, ◌&&◌, Option, none, some, List, [], ◌∷◌, contains, ltb, ◌==◌, nat_eq,
  list_eq, if◌then◌else◌,
}
use xolis.Base.Result.{Result, ok, err}
use xolis.Text.{Text, codes}

pub data WaitError : Type 0 where
  timed_out command_failed unreachable port_forward_exited no_json : WaitError
  http_status : ℕ → WaitError
  sandbox_failed : Option Text → WaitError

pub data Done : Type 0 where
  done : Done

-- What a round makes of what it finds.
pub data Verdict : Type 0 where
  finish again : Verdict
  give_up : WaitError → Verdict

-- A round: the clock at the test of the loop, and what the round finds.
pub record Round (A : Type 0) : Type 0 where
  pub clock : ℕ
  pub found : A

-- `while time.monotonic() < deadline`. After the last round the deadline has passed.
unfoldable pub wait_until :
    {A : Type 0} → (A → Verdict) → ℕ → List (Round A) → Result WaitError Done
wait_until judge deadline [] = err timed_out
wait_until judge deadline (r ∷ rounds) =
    let rest = wait_until judge deadline rounds in
    if ltb r.clock deadline
    then elim (judge r.found) [ finish ↦ ok done | again ↦ rest | give_up e ↦ err e ]
    else err timed_out

-- The reply of `kubectl_json`: a failure, or `replicas` and `readyReplicas` where they are given.
pub data PoolReply : Type 0 where
  pool_failed : PoolReply
  pool : Option ℕ → Option ℕ → PoolReply

abbrev pub or_zero : Option ℕ → ℕ
or_zero none = 0
or_zero (some n) = n

unfoldable pub judge_pool : ℕ → PoolReply → Verdict
judge_pool replicas pool_failed = give_up command_failed
judge_pool replicas (pool desired ready) =
    if or_zero desired == replicas && or_zero ready == replicas then finish else again

unfoldable pub wait_for_warm_pool : ℕ → ℕ → ℕ → List (Round PoolReply) → Result WaitError Done
unfolding wait_until judge_pool
wait_for_warm_pool replicas started timeout_seconds rounds =
    wait_until (judge_pool replicas) (started + timeout_seconds) rounds

-- Whether the process of the port-forward has ended, and the status of `/healthz`, if it answers.
pub record Probe : Type 0 where
  pub exited : Bool
  pub health : Option ℕ

abbrev pub is_healthy : Option ℕ → Bool
is_healthy none = false
is_healthy (some status) = status == 200

unfoldable pub judge_probe : Probe → Verdict
judge_probe p =
    if p.exited then give_up port_forward_exited else if is_healthy p.health then finish else again

-- `PortForward.__enter__`
unfoldable pub enter : ℕ → List (Round Probe) → Result WaitError Done
unfolding wait_until judge_probe
enter started rounds = wait_until judge_probe (started + 20) rounds

-- A sandbox as the API describes it.
pub record Sandbox : Type 0 where
  pub state : Option Text
  pub reason : Option Text

-- What the API answers: nothing, or a status and a body, which may be no JSON.
pub data ApiReply : Type 0 where
  no_answer : ApiReply
  answered : ℕ → Option Sandbox → ApiReply

-- `ApiClient.request` checks the status, and its caller reads the body.
unfoldable pub request : List ℕ → ApiReply → Result WaitError (Option Sandbox)
request expected no_answer = err unreachable
request expected (answered status body) =
    if contains expected status then ok body else err (http_status status)

abbrev pub is_state : Text → Option Text → Bool
is_state wanted none = false
is_state wanted (some state) = state == wanted

abbrev pub judge_body : Option Sandbox → Verdict
judge_body none = give_up no_json
judge_body (some s) =
    if is_state (codes "Running") s.state
    then finish
    else if is_state (codes "Failed") s.state
    then give_up (sandbox_failed s.reason)
    else again

abbrev pub judge_response : Result WaitError (Option Sandbox) → Verdict
judge_response (err e) = give_up e
judge_response (ok body) = judge_body body

unfoldable pub judge_sandbox : ApiReply → Verdict
unfolding request
judge_sandbox reply = judge_response (request (200 ∷ []) reply)

unfoldable pub wait_running : ℕ → ℕ → List (Round ApiReply) → Result WaitError Done
unfolding wait_until judge_sandbox
wait_running started timeout_seconds rounds =
    wait_until judge_sandbox (started + timeout_seconds) rounds
