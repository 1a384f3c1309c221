-- ===== src/Hermes/Waiting/First.antt =====
-- A wait of hermes_demo.py succeeds in the first round that finds what it waits for, and only if each
-- round before was in time and found it pending.
use xolis.Base.{
  ℕ, ◌+◌, ◌<◌, ◌≡◌, ◌≢◌, ◌↔◌, ◌⊎◌, refl, ap, inl, inr, true, false, Option, none, some, List, [],
  ◌∷◌, ltb, arith, ltb→lt, lt→ltb, nat_eq, list_eq, list_beq_iff, Bool-cases,
}
use xolis.Base.Result.{Result, ok, err}
use xolis.Text.{Text, codes}
use xolis.Hermes.Waiting.{
  WaitError, timed_out, Done, done, Verdict, finish, again, give_up, Round, wait_until, PoolReply,
  pool_failed, pool, or_zero, judge_pool, wait_for_warm_pool, Probe, judge_probe, is_healthy, enter,
  ApiReply, no_answer, answered, request, is_state, judge_sandbox, wait_running,
}

-- In time, a round finds what is good, and each before it, in time too, what is pending.
pub data IsFirst {A : Type 0} (Good Pending : A → Type 0) (deadline : ℕ)
    : List (Round A) → Type 0 where
  now :
      {r : Round A} {rounds : List (Round A)}
      → r.clock < deadline
      → Good r.found
      → IsFirst Good Pending deadline (r ∷ rounds)
  later :
      {r : Round A} {rounds : List (Round A)}
      → r.clock < deadline
      → Pending r.found
      → IsFirst Good Pending deadline rounds
      → IsFirst Good Pending deadline (r ∷ rounds)

-- What the verdicts of a loop mean.
record Means {A : Type 0} (judge : A → Verdict) (Good Pending : A → Type 0) : Type 0 where
  good : (a : A) → (judge a ≡ finish) ↔ Good a
  pending : (a : A) → (judge a ≡ again) ↔ Pending a

module _ {A : Type 0} (judge : A → Verdict) (Good Pending : A → Type 0)
    (m : Means judge Good Pending) (deadline : ℕ) where
  judged :
      (r : Round A) (rounds : List (Round A)) (v : Verdict)
      → judge r.found ≡ v
      → r.clock < deadline
      → (wait_until judge deadline rounds ≡ ok done → IsFirst Good Pending deadline rounds)
      → (elim v as (λ _. Result WaitError Done) [
        | finish ↦ ok done
        | again ↦ wait_until judge deadline rounds
        | give_up e ↦ err e
      ])
        ≡ ok done
      → IsFirst Good Pending deadline (r ∷ rounds)
  judged r rounds finish e t ih h = now t ((m.good r.found).0 e)
  judged r rounds again e t ih h = later t ((m.pending r.found).0 e) (ih h)
  judged r rounds (give_up f) e t ih h = absurd cc

  wait_until-IsFirst :
      (rounds : List (Round A))
      → wait_until judge deadline rounds ≡ ok done
      → IsFirst Good Pending deadline rounds
  unfolding wait_until
  wait_until-IsFirst [] h = absurd cc
  wait_until-IsFirst (r ∷ rounds) h = elim (Bool-cases (ltb r.clock deadline)) [
    | inl e ↦
        judged r rounds (judge r.found) refl (ltb→lt r.clock deadline e) (wait_until-IsFirst rounds)
          (rw e at h)
    | inr e ↦
        let k : ◌≡◌ {A = Result WaitError Done} (err timed_out) (ok done) = rw e at h in absurd cc
  ]

  IsFirst-wait_until :
      (rounds : List (Round A))
      → IsFirst Good Pending deadline rounds
      → wait_until judge deadline rounds ≡ ok done
  unfolding wait_until
  IsFirst-wait_until _ (now {r} {rounds} t g) =
      let e = lt→ltb r.clock deadline t in rw (e, (m.good r.found).1 g) refl
  IsFirst-wait_until _ (later {r} {rounds} t p f) =
      let e = lt→ltb r.clock deadline t in
      rw (e, (m.pending r.found).1 p) (IsFirst-wait_until rounds f)

  wait_until_iff :
      (rounds : List (Round A))
      → (wait_until judge deadline rounds ≡ ok done) ↔ IsFirst Good Pending deadline rounds
  wait_until_iff rounds = (wait_until-IsFirst rounds, IsFirst-wait_until rounds)

-- What each loop waits for, and what it waits on.
abbrev pub PoolReady : ℕ → PoolReply → Type 0
PoolReady replicas pool_failed = ⊥
PoolReady replicas (pool desired ready) = (or_zero desired ≡ replicas) × (or_zero ready ≡ replicas)

abbrev pub PoolPending : ℕ → PoolReply → Type 0
PoolPending replicas pool_failed = ⊥
PoolPending replicas (pool desired ready) =
    (or_zero desired ≢ replicas) ⊎ (or_zero ready ≢ replicas)

abbrev pub PortOpen : Probe → Type 0
PortOpen p = (p.exited ≡ false) × (p.health ≡ some 200)

abbrev pub PortPending : Probe → Type 0
PortPending p = (p.exited ≡ false) × (p.health ≢ some 200)

abbrev pub SandboxRunning : ApiReply → Type 0
SandboxRunning no_answer = ⊥
SandboxRunning (answered status none) = ⊥
SandboxRunning (answered status (some s)) = (status ≡ 200) × (s.state ≡ some (codes "Running"))

abbrev pub SandboxPending : ApiReply → Type 0
SandboxPending no_answer = ⊥
SandboxPending (answered status none) = ⊥
SandboxPending (answered status (some s)) =
    (status ≡ 200) × (s.state ≢ some (codes "Running")) × (s.state ≢ some (codes "Failed"))

pool_good : (replicas : ℕ) (a : PoolReply) → (judge_pool replicas a ≡ finish) ↔ PoolReady replicas a
unfolding judge_pool
pool_good replicas pool_failed = (λ h. absurd cc, λ h. elim h [ ])
pool_good replicas (pool desired ready) = ground arith

pool_pending :
    (replicas : ℕ) (a : PoolReply) → (judge_pool replicas a ≡ again) ↔ PoolPending replicas a
unfolding judge_pool
pool_pending replicas pool_failed = (λ h. absurd cc, λ h. elim h [ ])
pool_pending replicas (pool desired ready) = ground arith

healthy_iff : (health : Option ℕ) → (is_healthy health ≡ true) ↔ (health ≡ some 200)
healthy_iff none = (λ h. absurd cc, λ h. absurd cc)
healthy_iff (some status) = ground arith

state_iff :
    (wanted : Text) (state : Option Text) → (is_state wanted state ≡ true) ↔ (state ≡ some wanted)
state_iff wanted none = (λ h. absurd cc, λ h. absurd cc)
state_iff wanted (some state) = (
  λ h. ap some ((list_beq_iff state wanted).0 h),
  λ h. let e : state ≡ wanted = cc in (list_beq_iff state wanted).1 e,
)

probe_good : (a : Probe) → (judge_probe a ≡ finish) ↔ PortOpen a
unfolding judge_probe
probe_good a = ground (arith, healthy_iff a.health)

probe_pending : (a : Probe) → (judge_probe a ≡ again) ↔ PortPending a
unfolding judge_probe
probe_pending a = ground (arith, healthy_iff a.health)

sandbox_good : (a : ApiReply) → (judge_sandbox a ≡ finish) ↔ SandboxRunning a
unfolding judge_sandbox request
sandbox_good no_answer = (λ h. absurd cc, λ h. elim h [ ])
sandbox_good (answered status none) = ground arith
sandbox_good (answered status (some s)) =
    ground (arith, state_iff (codes "Running") s.state, state_iff (codes "Failed") s.state)

sandbox_pending : (a : ApiReply) → (judge_sandbox a ≡ again) ↔ SandboxPending a
unfolding judge_sandbox request
sandbox_pending no_answer = (λ h. absurd cc, λ h. elim h [ ])
sandbox_pending (answered status none) = ground arith
sandbox_pending (answered status (some s)) =
    ground (arith, state_iff (codes "Running") s.state, state_iff (codes "Failed") s.state)

-- A wait for the warm pool returns exactly if a round before the deadline finds the pool with the
-- replicas wanted, all ready, and every round before it, in time too, finds it in another state; the
-- waits for the forwarded port, whose process has not ended and which answers with 200, and for the
-- sandbox, which is neither running nor failed before it runs, likewise.
pub waits-IsFirst :
    (replicas started timeout_seconds : ℕ) (pools : List (Round PoolReply))
    (probes : List (Round Probe)) (replies : List (Round ApiReply))
    → ((wait_for_warm_pool replicas started timeout_seconds pools ≡ ok done)
        ↔ IsFirst (PoolReady replicas) (PoolPending replicas) (started + timeout_seconds) pools)
      × ((enter started probes ≡ ok done) ↔ IsFirst PortOpen PortPending (started + 20) probes)
      × ((wait_running started timeout_seconds replies ≡ ok done)
          ↔ IsFirst SandboxRunning SandboxPending (started + timeout_seconds) replies)
unfolding wait_for_warm_pool enter wait_running
waits-IsFirst replicas started timeout_seconds pools probes replies = (
  wait_until_iff (judge_pool replicas) (PoolReady replicas) (PoolPending replicas)
      (record { good = pool_good replicas; pending = pool_pending replicas })
      (started + timeout_seconds) pools,
  wait_until_iff judge_probe PortOpen PortPending
      (record { good = probe_good; pending = probe_pending }) (started + 20) probes,
  wait_until_iff judge_sandbox SandboxRunning SandboxPending
      (record { good = sandbox_good; pending = sandbox_pending }) (started + timeout_seconds)
      replies,
)
