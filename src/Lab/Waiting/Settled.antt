-- ===== src/Lab/Waiting/Settled.antt =====
-- What the world looked like when `wait_for_nodes` of tools/xolis_aws_lab.py returned.
use mathlib.Core.Path.{subst}
use xolis.Base.{
  ℕ, zero, suc, ◌+◌, ◌≤◌, ◌≡◌, refl, sym, ◌∙◌, ap, Bool, true, false, List, [], ◌∷◌, ◌++◌, arith,
  length, length-append, leb, ltb, if◌then◌else◌, Bool-cases, inl, inr, nat_eq,
}
use xolis.Base.Result.{Result, ok, err}
use xolis.Text.{Text}
use xolis.Lab.{
  World, Act, Ran, Lab, Done, Failure, Reply, Output, printed, exited_nonzero, not_started,
  Instance, Node, return, run, timeout_error, Command, continue, answer,
  describe_auto_scaling_groups, get_nodes,
}
use xolis.Lab.Config.{is_empty}
use xolis.Lab.Nodes.{instance_ids, ready_nodes, HasBacked, ready_nodes-HasBacked}
use xolis.Lab.Waiting.{
  next_round, wait_loop, poll_nodes, wait_for_nodes, sandbox_instance_ids, settled, ids_of_groups,
}

-- The parts of a sequence that returns.
pub record Continued {A B : Type 0} (lab : Lab) (r : Result Failure A) (f : A → Act B) (b : B)
    : Type 0 where
  pub value : A
  pub first : r ≡ ok value
  pub second : (f value lab).result ≡ ok b
  pub same : (continue lab r f).lab ≡ (f value lab).lab

pub continue-ok :
    {A B : Type 0} (lab : Lab) (r : Result Failure A) (f : A → Act B) (b : B)
    → (continue lab r f).result ≡ ok b
    → Continued lab r f b
continue-ok lab (ok a) f b h = record { value = a; first = refl; second = h; same = refl }
continue-ok {A} {B} lab (err e) f b h = absurd (impossible h)
  where
    impossible : ◌≡◌ {A = Result Failure B} (err e) (ok b) → ⊥
    impossible h = cc

answer-ok :
    (r : Reply) (lab : Lab) (o : Output)
    → (answer r lab).result ≡ ok o
    → (r ≡ printed o) × ((answer r lab).lab ≡ lab)
answer-ok (printed p) lab o h = (cc, refl)
answer-ok exited_nonzero lab o h = cc
answer-ok not_started lab o h = cc

module _ (world : World) (live : world.dry_run ≡ false) where
  pick : {A : Type 0} (m n : Act A) → (if world.dry_run then m else n) ≡ n
  pick m n = rw live refl

  run-ok :
      (command : Command) (lab : Lab) (o : Output)
      → (run world command lab).result ≡ ok o
      → (world.reply (length lab.issued) ≡ printed o)
        × (length (run world command lab).lab.issued ≡ suc (length lab.issued))
  unfolding run
  run-ok command lab o h =
      let (p, q) =
        answer-ok (world.reply (length lab.issued))
          (record lab { issued = lab.issued ++ (command ∷ []) }) o (rw live at h) in
      (
        p,
        rw live
            (ap (λ l. length l.issued) q ∙ omega (arith, length-append lab.issued (command ∷ []))),
      )

  -- The last look at the group and at the nodes, at the n-th command, and what it showed.
  pub record IsSettled (expected n : ℕ) : Type 0 where
    pub instances : List Instance
    pub group : Output
    pub nodes : Output
    pub described : world.reply n ≡ printed group
    pub one_group : group.groups ≡ instances ∷ []
    pub listed : world.reply (suc n) ≡ printed nodes
    pub gone : expected ≡ 0 → (nodes.items ≡ []) × (instances ≡ [])
    pub enough : 1 ≤ expected → HasBacked instances nodes.items expected

  ids-ok :
      (b : Bool) (groups : List (List Instance)) (lab : Lab) (ids : List Text)
      → (ids_of_groups b groups lab).result ≡ ok ids
      → (is : List Instance) × (groups ≡ is ∷ [])
        × (ids ≡ instance_ids b is)
        × ((ids_of_groups b groups lab).lab ≡ lab)
  ids-ok b [] lab ids h = cc
  ids-ok b (is ∷ []) lab ids h = (is, refl, cc, refl)
  ids-ok b (is ∷ js ∷ groups) lab ids h = cc

  record HasIds (b : Bool) (lab : Lab) (ids : List Text) : Type 0 where
    instances : List Instance
    group : Output
    described : world.reply (length lab.issued) ≡ printed group
    one_group : group.groups ≡ instances ∷ []
    same : ids ≡ instance_ids b instances
    one_command : length (sandbox_instance_ids world b lab).lab.issued ≡ suc (length lab.issued)

  sandbox_instance_ids-ok :
      (b : Bool) (lab : Lab) (ids : List Text)
      → (sandbox_instance_ids world b lab).result ≡ ok ids
      → HasIds b lab ids
  unfolding sandbox_instance_ids
  sandbox_instance_ids-ok b lab ids h =
      let c =
        continue-ok (run world describe_auto_scaling_groups lab).lab
          (run world describe_auto_scaling_groups lab).result
          (λ output. if world.dry_run then return [] else ids_of_groups b output.groups) ids h in
      let (p, q) = run-ok describe_auto_scaling_groups lab c.value c.first in
      let (is, g, s, l) =
        ids-ok b c.value.groups (run world describe_auto_scaling_groups lab).lab ids (
          sym (
            ap (λ m. (m (run world describe_auto_scaling_groups lab).lab).result)
              (pick (return []) (ids_of_groups b c.value.groups)))
          ∙ c.second) in
      record {
        instances = is;
        group = c.value;
        described = p;
        one_group = g;
        same = s;
        one_command =
            ap (λ x. length x.issued) c.same
            ∙ (ap (λ m. length (m (run world describe_auto_scaling_groups lab).lab).lab.issued)
                  (pick (return []) (ids_of_groups b c.value.groups))
                ∙ (ap (λ x. length x.issued) l ∙ q));
      }

  ids_empty : (is : List Instance) → is_empty (instance_ids false is) ≡ true → is ≡ []
  unfolding instance_ids
  ids_empty [] h = refl
  ids_empty (i ∷ is) h = cc

  items_empty : (ns : List Node) → is_empty ns ≡ true → ns ≡ []
  items_empty [] h = refl
  items_empty (n ∷ ns) h = cc

  settled-gone :
      (expected : ℕ) (is : List Instance) (o : Output)
      → settled expected (instance_ids (ltb 0 expected) is) o ≡ true
      → expected ≡ 0
      → (o.items ≡ []) × (is ≡ [])
  unfolding settled
  settled-gone zero is o h e = (items_empty o.items (ground arith), ids_empty is (ground arith))
  settled-gone (suc n) is o h e = absurd (omega arith)

  settled-enough :
      (expected : ℕ) (is : List Instance) (o : Output)
      → settled expected (instance_ids (ltb 0 expected) is) o ≡ true
      → 1 ≤ expected
      → HasBacked is o.items expected
  unfolding settled
  settled-enough zero is o h e = absurd (omega arith)
  settled-enough (suc n) is o h e =
      let t : ltb 0 (suc n) ≡ true = ground arith in
      let k = subst (λ b. settled (suc n) (instance_ids b is) o ≡ true) t h in
      let l : suc n ≤ ready_nodes (instance_ids true is) o.items = ground arith in
      let (chosen, a, m, b) = ready_nodes-HasBacked is o.items in (chosen, a, omega arith, b)

  poll_nodes-ok :
      (expected : ℕ) (lab : Lab)
      → (poll_nodes world expected lab).result ≡ ok true
      → IsSettled expected (length lab.issued)
        × (length (poll_nodes world expected lab).lab.issued ≡ suc (suc (length lab.issued)))
  unfolding poll_nodes
  poll_nodes-ok expected lab h =
      let first = sandbox_instance_ids world (ltb 0 expected) lab in
      let c = continue-ok first.lab first.result _ true h in
      let i = sandbox_instance_ids-ok (ltb 0 expected) lab c.value c.first in
      let second = run world get_nodes first.lab in
      let d = continue-ok second.lab second.result _ true c.second in
      let (p, q) = run-ok get_nodes first.lab d.value d.first in
      let chosen = pick (return true) (return (settled expected c.value d.value)) in
      let s =
        is_settled expected c.value i.instances d.value i.same second.lab
          (sym (ap (λ m. (m second.lab).result) chosen) ∙ d.second) in
      (
        record {
          instances = i.instances;
          group = i.group;
          nodes = d.value;
          described = i.described;
          one_group = i.one_group;
          listed = ap world.reply (sym i.one_command) ∙ p;
          gone = settled-gone expected i.instances d.value s;
          enough = settled-enough expected i.instances d.value s;
        },
        ap (λ x. length x.issued) c.same
            ∙ (ap (λ x. length x.issued) d.same
                ∙ (ap (λ m. length (m second.lab).lab.issued) chosen ∙ (q ∙ ap suc i.one_command))),
      )
    where
      is_settled :
          (expected : ℕ) (ids : List Text) (is : List Instance) (o : Output)
          → ids ≡ instance_ids (ltb 0 expected) is
          → (lab : Lab) → (return (settled expected ids o) lab).result ≡ ok true
          → settled expected (instance_ids (ltb 0 expected) is) o ≡ true
      is_settled expected ids is o e lab h = sym (ap (λ x. settled expected x o) e) ∙ ok_eq h
        where
          ok_eq : {b c : Bool} → ◌≡◌ {A = Result Failure Bool} (ok b) (ok c) → b ≡ c
          ok_eq h = cc

  module _ (poll : Act Bool) (deadline : ℕ) where
    -- The state in which a wait that returned began its last round.
    abbrev LastRound : Ran Done → Type 0
    LastRound r = (last : Lab) × ((poll last).result ≡ ok true) × (r.lab ≡ (poll last).lab)

    round-ok :
        (fuel : ℕ) (lab : Lab) (r : Result Failure Bool)
        → (poll lab).result ≡ r
        → ((after : Lab)
            → (wait_loop world poll deadline fuel after).result ≡ ok tt
            → LastRound (wait_loop world poll deadline fuel after))
        → (continue
            (poll lab).lab
            r
            (next_round world deadline (wait_loop world poll deadline fuel))).result
          ≡ ok tt
        → LastRound (
            continue
              (poll lab).lab
              r
              (next_round world deadline (wait_loop world poll deadline fuel)))
    round-ok fuel lab (err e) p ih h = cc
    round-ok fuel lab (ok true) p ih h = (lab, p, refl)
    round-ok fuel lab (ok false) p ih h =
        elim (Bool-cases (leb deadline (world.clock (length (poll lab).lab.issued)))) [
          | inl e ↦ absurd (impossible (rw e at h))
          | inr e ↦ rw e (ih (poll lab).lab (rw e at h))
        ]
      where
        impossible : ◌≡◌ {A = Result Failure Done} (err timeout_error) (ok tt) → ⊥
        impossible h = cc

    wait_loop-ok :
        (fuel : ℕ) (lab : Lab)
        → (wait_loop world poll deadline fuel lab).result ≡ ok tt
        → LastRound (wait_loop world poll deadline fuel lab)
    unfolding wait_loop
    wait_loop-ok zero lab h = cc
    wait_loop-ok (suc fuel) lab h = round-ok fuel lab (poll lab).result refl (wait_loop-ok fuel) h

  -- Outside a dry run, a wait for nodes that returns has seen, in its last two commands, exactly one
  -- group and the nodes in the wanted state: no node and no instance if it waited for none, and
  -- otherwise so many nodes, each ready and backed by a healthy instance of the group in service.
  pub wait_for_nodes-IsSettled :
      (fuel expected timeout_seconds : ℕ) (lab : Lab)
      → (wait_for_nodes world fuel expected timeout_seconds lab).result ≡ ok tt
      → (n : ℕ) × IsSettled expected n
        × (length (wait_for_nodes world fuel expected timeout_seconds lab).lab.issued ≡ suc (suc n))
  unfolding wait_for_nodes
  wait_for_nodes-IsSettled fuel expected timeout_seconds lab h =
      let (last, p, q) =
        wait_loop-ok (poll_nodes world expected) (world.clock (length lab.issued) + timeout_seconds)
          fuel lab h in
      let (s, l) = poll_nodes-ok expected last p in
      (length last.issued, s, ap (λ x. length x.issued) q ∙ l)
