-- ===== src/Cost/Active.antt =====
-- `collect_active_resources` of tools/xolis_aws_cost.py, and when the report warns of them.
pub mod Warning
use xolis.Base.{Bool, true, false, ◌||◌, Option, List, [], ◌∷◌, ◌++◌, map}
use xolis.Base.Result.{Result, ok, err, ◌>>=◌}
use xolis.Text.{Text, codes}
use xolis.Cost.{Failure, Listing, Instance, Volume, Response, Request, AwsCli, World, run_json}

pub record ActiveResources : Type 0 where
  pub eks_clusters : List Text
  pub ec2_instances : List Instance
  pub ebs_volumes : List Volume
  pub nat_gateways : Listing
  pub elastic_ips : Listing
  pub load_balancers : Listing
  pub rds_instances : Listing
  pub efs_filesystems : Listing
  pub fsx_filesystems : Listing
  pub vpc_endpoints : Listing
  pub route53_hosted_zones : Listing
  pub cloudwatch_log_groups : Listing
  pub secrets_manager_secrets : Listing

abbrev pub flatten_instances : List (List Instance) → List Instance
flatten_instances [] = []
flatten_instances (reservation ∷ reservations) = reservation ++ flatten_instances reservations

-- The listings, in the order in which they are asked for.
pub data Service : Type 0 where
  clusters instances volumes nat addresses balancers databases efs fsx endpoints : Service
  zones logs secrets : Service

abbrev pub arguments : Service → Request
arguments clusters = codes "eks" ∷ codes "list-clusters" ∷ []
arguments instances =
    codes "ec2"
    ∷ codes "describe-instances"
    ∷ codes "--filters"
    ∷ codes "Name=instance-state-name,Values=pending,running,stopping,stopped"
    ∷ []
arguments volumes = codes "ec2" ∷ codes "describe-volumes" ∷ []
arguments nat =
    codes "ec2"
    ∷ codes "describe-nat-gateways"
    ∷ codes "--filter"
    ∷ codes "Name=state,Values=pending,available"
    ∷ []
arguments addresses = codes "ec2" ∷ codes "describe-addresses" ∷ []
arguments balancers = codes "elbv2" ∷ codes "describe-load-balancers" ∷ []
arguments databases = codes "rds" ∷ codes "describe-db-instances" ∷ []
arguments efs = codes "efs" ∷ codes "describe-file-systems" ∷ []
arguments fsx = codes "fsx" ∷ codes "describe-file-systems" ∷ []
arguments endpoints = codes "ec2" ∷ codes "describe-vpc-endpoints" ∷ []
arguments zones = codes "route53" ∷ codes "list-hosted-zones" ∷ []
arguments logs = codes "logs" ∷ codes "describe-log-groups" ∷ []
arguments secrets = codes "secretsmanager" ∷ codes "list-secrets" ∷ []

abbrev pub list_service : World → AwsCli → Service → Result Failure Response
list_service world aws service = run_json world aws (arguments service)

unfoldable pub collect_active_resources : World → AwsCli → Result Failure ActiveResources
collect_active_resources world aws = do
  cluster_list ← list_service world aws clusters
  instance_list ← list_service world aws instances
  volume_list ← list_service world aws volumes
  nat_list ← list_service world aws nat
  address_list ← list_service world aws addresses
  balancer_list ← list_service world aws balancers
  database_list ← list_service world aws databases
  efs_list ← list_service world aws efs
  fsx_list ← list_service world aws fsx
  endpoint_list ← list_service world aws endpoints
  zone_list ← list_service world aws zones
  log_list ← list_service world aws logs
  secret_list ← list_service world aws secrets
  ok (record {
    eks_clusters = cluster_list.clusters;
    ec2_instances = flatten_instances instance_list.reservations;
    ebs_volumes = volume_list.volumes;
    nat_gateways = nat_list.listing;
    elastic_ips = address_list.listing;
    load_balancers = balancer_list.listing;
    rds_instances = database_list.listing;
    efs_filesystems = efs_list.listing;
    fsx_filesystems = fsx_list.listing;
    vpc_endpoints = endpoint_list.listing;
    route53_hosted_zones = zone_list.listing;
    cloudwatch_log_groups = log_list.listing;
    secrets_manager_secrets = secret_list.listing;
  })

abbrev pub any {ℓ} : {A : Type ℓ} → List A → Bool
any [] = false
any (x ∷ xs) = true

-- `any(active.values())`
unfoldable pub warns : ActiveResources → Bool
warns r =
    any r.eks_clusters
    || (any r.ec2_instances
        || (any r.ebs_volumes
            || (any r.nat_gateways
                || (any r.elastic_ips
                    || (any r.load_balancers
                        || (any r.rds_instances
                            || (any r.efs_filesystems
                                || (any r.fsx_filesystems
                                    || (any r.vpc_endpoints
                                        || (any r.route53_hosted_zones
                                            || (any r.cloudwatch_log_groups
                                                || any r.secrets_manager_secrets)))))))))))
