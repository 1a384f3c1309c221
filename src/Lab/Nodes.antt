-- ===== src/Lab/Nodes.antt =====
-- Which nodes of tools/xolis_aws_lab.py count as ready: `node_is_ready`, `node_instance_id` and the
-- filter of `sandbox_instance_ids`.
use xolis.Base.{
  ℕ, ◌+◌, ◌≤◌, ◌≡◌, Bool, true, false, ◌&&◌, ◌||◌, Option, none, some, List, [], ◌∷◌, ◌++◌, arith,
  ◌==◌, nat_eq, list_eq, list_beq_iff, ap, Bool-cases, inl, inr, contains, Has, here, there, All,
  length, refl, if◌then◌else◌,
}
use xolis.Text.{Text, codes, starts_with}
use xolis.Lab.{Condition, Node, Instance}

abbrev pub is_ready_condition : Condition → Bool
is_ready_condition c = c.type == codes "Ready" && c.status == codes "True"

abbrev any_ready : List Condition → Bool
any_ready [] = false
any_ready (c ∷ cs) = is_ready_condition c || any_ready cs

unfoldable pub node_is_ready : Node → Bool
node_is_ready node = any_ready node.conditions

-- `text.rsplit("/", 1)[-1]`, given what follows the last slash so far
unfoldable pub after_last_slash : Text → Text → Text
after_last_slash current [] = current
after_last_slash current (c ∷ s) = after_last_slash (if c == 47 then [] else current ++ (c ∷ [])) s

abbrev pub or_none : Text → Option Text
or_none [] = none
or_none (c ∷ s) = some (c ∷ s)

unfoldable pub node_instance_id : Node → Option Text
unfolding after_last_slash
node_instance_id node =
    if starts_with (codes "aws:///") node.provider_id
    then or_none (after_last_slash [] node.provider_id)
    else none

abbrev pub is_in_service : Instance → Bool
is_in_service i = i.lifecycle_state == codes "InService" && i.health_status == codes "Healthy"

-- The identifiers of the instances, of the healthy ones in service alone if that is required.
unfoldable pub instance_ids : Bool → List Instance → List Text
instance_ids require_ready [] = []
instance_ids require_ready (i ∷ is) =
    if require_ready
    then if is_in_service i
      then i.instance_id ∷ instance_ids require_ready is
      else instance_ids require_ready is
    else i.instance_id ∷ instance_ids require_ready is

abbrev pub is_member : List Text → Option Text → Bool
is_member ids none = false
is_member ids (some i) = contains ids i

-- `self.node_is_ready(node) and self.node_instance_id(node) in instance_ids`
unfoldable pub counts : List Text → Node → Bool
unfolding node_is_ready node_instance_id
counts ids node = node_is_ready node && is_member ids (node_instance_id node)

abbrev add_if : Bool → ℕ → ℕ
add_if true n = n + 1
add_if false n = n

-- The number of ready nodes, `sum(...)`.
unfoldable pub ready_nodes : List Text → List Node → ℕ
unfolding counts
ready_nodes ids [] = 0
ready_nodes ids (node ∷ nodes) = add_if (counts ids node) (ready_nodes ids nodes)

-- A node is ready by a condition of its own, and a healthy instance of the group that is in service
-- backs it.
pub record IsBacked (instances : List Instance) (node : Node) : Type 0 where
  pub condition : Condition
  pub own : Has node.conditions condition
  pub ready_condition : (condition.type ≡ codes "Ready") × (condition.status ≡ codes "True")
  pub backing : Instance
  pub among : Has instances backing
  pub in_service :
      (backing.lifecycle_state ≡ codes "InService") × (backing.health_status ≡ codes "Healthy")
  pub same : node_instance_id node ≡ some backing.instance_id

text_eq_of : (a b : Text) → (a == b) ≡ true → a ≡ b
text_eq_of a b h = (list_beq_iff a b).0 h

both : (a b : Bool) → (a && b) ≡ true → (a ≡ true) × (b ≡ true)
both true b h = (refl, h)
both false b h = absurd cc

any_ready-Has :
    (cs : List Condition)
    → any_ready cs ≡ true
    → (c : Condition) × Has cs c × (c.type ≡ codes "Ready") × (c.status ≡ codes "True")
any_ready-Has [] h = absurd cc
any_ready-Has (c ∷ cs) h = elim (Bool-cases (is_ready_condition c)) [
  | inl e ↦
      let (a, b) = both (c.type == codes "Ready") (c.status == codes "True") e in
      (c, here, text_eq_of c.type (codes "Ready") a, text_eq_of c.status (codes "True") b)
  | inr e ↦ let (d, m, p, q) = any_ready-Has cs (rw e at h) in (d, there m, p, q)
]

ids-instance :
    (is : List Instance) (a : Text)
    → contains (instance_ids true is) a ≡ true
    → (i : Instance) × Has is i × (is_in_service i ≡ true) × (a ≡ i.instance_id)
unfolding instance_ids
ids-instance [] a h = cc
ids-instance (i ∷ is) a h = elim (Bool-cases (is_in_service i)) [
  | inl e ↦ split e (ids-instance is a) (rw e at h)
  | inr e ↦ deeper (ids-instance is a (rw e at h))
]
  where
    deeper :
        ((j : Instance) × Has is j × (is_in_service j ≡ true) × (a ≡ j.instance_id))
        → (j : Instance) × Has (i ∷ is) j × (is_in_service j ≡ true) × (a ≡ j.instance_id)
    deeper (j, m, s, q) = (j, Has.there m, s, q)

    split :
        is_in_service i ≡ true
        → (contains (instance_ids true is) a ≡ true
            → (j : Instance) × Has is j × (is_in_service j ≡ true) × (a ≡ j.instance_id))
        → contains (i.instance_id ∷ instance_ids true is) a ≡ true
        → (j : Instance) × Has (i ∷ is) j × (is_in_service j ≡ true) × (a ≡ j.instance_id)
    split e ih k = elim (Bool-cases (a == i.instance_id)) [
      | inl q ↦ (i, Has.here, e, text_eq_of a i.instance_id q)
      | inr q ↦ deeper (ih (rw q at k))
    ]

member-instance :
    (is : List Instance) (o : Option Text)
    → is_member (instance_ids true is) o ≡ true
    → (i : Instance) × Has is i × (is_in_service i ≡ true) × (o ≡ some i.instance_id)
member-instance is none h = cc
member-instance is (some a) h = let (i, m, s, q) = ids-instance is a h in (i, m, s, ap some q)

counts-IsBacked :
    (is : List Instance) (node : Node)
    → counts (instance_ids true is) node ≡ true
    → IsBacked is node
unfolding counts
counts-IsBacked is node h =
    let (a, b) =
      both (node_is_ready node) (is_member (instance_ids true is) (node_instance_id node)) h in
    let (i, m, s, q) = member-instance is (node_instance_id node) b in
    let (c, o, r, t) = any_ready-Has node.conditions a in
    let (x, y) =
      both (i.lifecycle_state == codes "InService") (i.health_status == codes "Healthy") s in
    record {
      condition = c;
      own = o;
      ready_condition = (r, t);
      backing = i;
      among = m;
      in_service = (
        text_eq_of i.lifecycle_state (codes "InService") x,
        text_eq_of i.health_status (codes "Healthy") y,
      );
      same = q;
    }

-- Some of the items of a list, each at its own place.
pub data Among {A : Type 0} : List A → List A → Type 0 where
  nothing : Among [] []
  skip : {x : A} {xs ys : List A} → Among xs ys → Among xs (x ∷ ys)
  keep : {x : A} {xs ys : List A} → Among xs ys → Among (x ∷ xs) (x ∷ ys)

-- So many of the nodes are ready and backed.
abbrev pub HasBacked : List Instance → List Node → ℕ → Type 0
HasBacked is nodes n =
    (chosen : List Node) × Among chosen nodes × (n ≤ length chosen) × All (IsBacked is) chosen

-- As many nodes as are counted are ready and backed.
pub ready_nodes-HasBacked :
    (is : List Instance) (nodes : List Node)
    → HasBacked is nodes (ready_nodes (instance_ids true is) nodes)
unfolding ready_nodes
ready_nodes-HasBacked is [] = ([], nothing, omega arith, tt)
ready_nodes-HasBacked is (node ∷ nodes) = elim (Bool-cases (counts (instance_ids true is) node)) [
  | inl e ↦
      let (chosen, a, n, b) = ready_nodes-HasBacked is nodes in
      rw e (node ∷ chosen, keep a, omega arith, (counts-IsBacked is node e, b))
  | inr e ↦ let (chosen, a, n, b) = ready_nodes-HasBacked is nodes in rw e (chosen, skip a, n, b)
]
