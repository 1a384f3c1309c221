-- ===== src/Cost/Active/Warning.antt =====
-- The warning of the report against what the services list.
use xolis.Base.{◌≡◌, refl, ◌↔◌, Bool, true, false, ◌||◌, List, [], ◌∷◌, ◌++◌}
use xolis.Base.Result.{ok}
use xolis.Cost.{Instance, Response, AwsCli, World}
use xolis.Cost.Active.{
  ActiveResources, flatten_instances, Service, clusters, instances, volumes, nat, addresses,
  balancers, databases, efs, fsx, endpoints, zones, logs, secrets, list_service,
  collect_active_resources, any, warns,
}

-- Each reservation is without instances.
abbrev pub NoInstance : List (List Instance) → Type 0
NoInstance [] = Unit
NoInstance (reservation ∷ reservations) = (reservation ≡ []) × NoInstance reservations

-- A reply lists nothing under the key that the report reads for the service.
abbrev pub ListsNothing : Service → Response → Type 0
ListsNothing clusters r = r.clusters ≡ []
ListsNothing instances r = NoInstance r.reservations
ListsNothing volumes r = r.volumes ≡ []
ListsNothing service r = r.listing ≡ []

any_iff {ℓ} : {A : Type ℓ} (xs : List A) → (any xs ≡ false) ↔ (xs ≡ [])
any_iff [] = (λ h. refl, λ h. refl)
any_iff (x ∷ xs) = (λ h. cc, λ h. cc)

or_iff :
    (a b : Bool) {P Q : Type 0} → (a ≡ false) ↔ P → (b ≡ false) ↔ Q → ((a || b) ≡ false) ↔ (P × Q)
or_iff true b p q = (λ h. cc, λ h. p.1 h.0)
or_iff false b p q = (λ h. (p.0 refl, q.0 h), λ h. q.1 h.1)

append_any : (xs ys : List Instance) → any (xs ++ ys) ≡ (any xs || any ys)
append_any [] ys = refl
append_any (x ∷ xs) ys = refl

NoInstance-flatten :
    (rs : List (List Instance)) → (any (flatten_instances rs) ≡ false) ↔ NoInstance rs
NoInstance-flatten [] = (λ h. tt, λ h. refl)
NoInstance-flatten (r ∷ rs) =
    rw (append_any r (flatten_instances rs))
      (or_iff (any r) (any (flatten_instances rs)) (any_iff r) (NoInstance-flatten rs))

abbrev reported : (Service → Response) → ActiveResources
reported answer = record {
  eks_clusters = (answer clusters).clusters;
  ec2_instances = flatten_instances (answer instances).reservations;
  ebs_volumes = (answer volumes).volumes;
  nat_gateways = (answer nat).listing;
  elastic_ips = (answer addresses).listing;
  load_balancers = (answer balancers).listing;
  rds_instances = (answer databases).listing;
  efs_filesystems = (answer efs).listing;
  fsx_filesystems = (answer fsx).listing;
  vpc_endpoints = (answer endpoints).listing;
  route53_hosted_zones = (answer zones).listing;
  cloudwatch_log_groups = (answer logs).listing;
  secrets_manager_secrets = (answer secrets).listing;
}

abbrev Parts : (Service → Response) → Type 0
Parts answer =
    ListsNothing clusters (answer clusters)
    × (ListsNothing instances (answer instances)
        × (ListsNothing volumes (answer volumes)
            × (ListsNothing nat (answer nat)
                × (ListsNothing addresses (answer addresses)
                    × (ListsNothing balancers (answer balancers)
                        × (ListsNothing databases (answer databases)
                            × (ListsNothing efs (answer efs)
                                × (ListsNothing fsx (answer fsx)
                                    × (ListsNothing endpoints (answer endpoints)
                                        × (ListsNothing zones (answer zones)
                                            × (ListsNothing logs (answer logs)
                                                × ListsNothing secrets (answer secrets))))))))))))

nested : (answer : Service → Response) → (warns (reported answer) ≡ false) ↔ Parts answer
unfolding warns
nested answer = or_iff _ _ (any_iff _) (
    or_iff _ _ (NoInstance-flatten _) (
      or_iff _ _ (any_iff _) (
        or_iff _ _ (any_iff _) (
          or_iff _ _ (any_iff _) (
            or_iff _ _ (any_iff _) (
              or_iff _ _ (any_iff _) (
                or_iff _ _ (any_iff _) (
                  or_iff _ _ (any_iff _) (
                    or_iff _ _ (any_iff _)
                      (or_iff _ _ (any_iff _) (or_iff _ _ (any_iff _) (any_iff _))))))))))))

all : (answer : Service → Response) → Parts answer → (s : Service) → ListsNothing s (answer s)
all answer p clusters = p.0
all answer p instances = p.1.0
all answer p volumes = p.1.1.0
all answer p nat = p.1.1.1.0
all answer p addresses = p.1.1.1.1.0
all answer p balancers = p.1.1.1.1.1.0
all answer p databases = p.1.1.1.1.1.1.0
all answer p efs = p.1.1.1.1.1.1.1.0
all answer p fsx = p.1.1.1.1.1.1.1.1.0
all answer p endpoints = p.1.1.1.1.1.1.1.1.1.0
all answer p zones = p.1.1.1.1.1.1.1.1.1.1.0
all answer p logs = p.1.1.1.1.1.1.1.1.1.1.1.0
all answer p secrets = p.1.1.1.1.1.1.1.1.1.1.1.1

parts : (answer : Service → Response) → ((s : Service) → ListsNothing s (answer s)) → Parts answer
parts answer h = (
  h clusters,
  (
    h instances,
    (
      h volumes,
      (
        h nat,
        (
          h addresses,
          (
            h balancers,
            (h databases, (h efs, (h fsx, (h endpoints, (h zones, (h logs, h secrets)))))),
          ),
        ),
      ),
    ),
  ),
)

warns_iff :
    (answer : Service → Response)
    → (warns (reported answer) ≡ false) ↔ ((s : Service) → ListsNothing s (answer s))
warns_iff answer = (λ h. all answer ((nested answer).0 h), λ h. (nested answer).1 (parts answer h))

-- When every service answers, the resources are collected, and the report warns of active resources
-- unless each of the thirteen services lists none.
pub collect_active_resources-warns :
    (world : World) (aws : AwsCli) (answer : Service → Response)
    → ((s : Service) → list_service world aws s ≡ ok (answer s))
    → (r : ActiveResources) × (collect_active_resources world aws ≡ ok r)
      × ((warns r ≡ false) ↔ ((s : Service) → ListsNothing s (answer s)))
unfolding collect_active_resources
collect_active_resources-warns world aws answer h = (
  reported answer,
  rw
      (
        h clusters,
        h instances,
        h volumes,
        h nat,
        h addresses,
        h balancers,
        h databases,
        h efs,
        h fsx,
        h endpoints,
        h zones,
        h logs,
        h secrets,
      )
      refl,
  warns_iff answer,
)
