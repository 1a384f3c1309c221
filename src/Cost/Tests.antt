-- ===== src/Cost/Tests.antt =====
-- Runs of the cost report, and instances of its theorems.
use xolis.Base.{
  ℕ, ◌*◌, ◌+◌, ◌≡◌, refl, ◌↔◌, true, false, none, some, List, [], ◌∷◌, arith, ltb, contains, nat_eq,
  list_eq, if◌then◌else◌,
}
use xolis.Base.Int.{pos}
use xolis.Base.Result.{ok}
use xolis.Text.{Text, codes}
use xolis.Cost.{
  Response, no_response, Printed, object, CompletedProcess, AwsCli, World, Image, run_json,
}
use xolis.Cost.Login.{Account, auto, sso_login, get_caller_identity, Call, authenticate}
use xolis.Cost.Snapshots.{Snapshots, image_ids_of, snapshot_allocated_bytes, collect_snapshots}
use xolis.Cost.Snapshots.Paging.{Counted, snapshot_allocated_bytes_iff}
use xolis.Cost.Snapshots.Inventory.{IsInventory, collect_snapshots-IsInventory}
use xolis.Cost.Storage.{Store, collect_ecr, collect_s3}
use xolis.Cost.Active.{Service, list_service, collect_active_resources}
use xolis.Cost.Prices.{
  Floats, PriceList, Dimension, price_per_unit, get_storage_prices, monthly_and_daily_cost,
}
use xolis.Cost.Prices.Least.{IsOffer, NoneBelow, price_per_unit-IsLeast}
use xolis.Cost.Report.{Report, Aws, Args, main}
use xolis.Cost.Report.Run.{IsReport, main-IsReport}

abbrev aws : AwsCli
aws = record { profile = codes "lab"; region = codes "eu-1" }

abbrev printed : Response → CompletedProcess
printed r = record { returncode = 0; stdout = object r }

abbrev shared_image : Text → Image
shared_image id = record {
  image_id = some id;
  name = some (codes "xolis-node");
  snapshot_ids = some (codes "snap-1") ∷ none ∷ [];
}

-- Two images on one snapshot of two pages, and one bucket with two versions.
abbrev cloud : World
cloud request =
    if contains request (codes "describe-images")
    then printed
        (record no_response { images = shared_image (codes "a") ∷ shared_image (codes "b") ∷ [] })
    else if contains request (codes "--next-token")
    then printed (record no_response { block_size = pos 512; blocks = 3 })
    else if contains request (codes "list-snapshot-blocks")
    then printed
        (record no_response { block_size = pos 512; blocks = 4; next_token = some (codes "t") })
    else if contains request (codes "list-buckets")
    then printed
        (record no_response { buckets = some (codes "other") ∷ some (codes "xolis-b") ∷ [] })
    else if contains request (codes "list-object-versions")
    then printed (record no_response { version_sizes = 10 ∷ 20 ∷ [] })
    else printed no_response

two_pages : snapshot_allocated_bytes cloud aws 2 (codes "snap-1") ≡ ok (7 * 512)
unfolding snapshot_allocated_bytes run_json
two_pages = refl

abbrev inventory : Snapshots
inventory = record {
  images =
      record { id = some (codes "a"); name = some (codes "xolis-node") }
      ∷ record { id = some (codes "b"); name = some (codes "xolis-node") }
      ∷ [];
  snapshots =
      record {
        id = codes "snap-1";
        allocated_bytes = 7 * 512;
        image_ids = some (codes "a") ∷ some (codes "b") ∷ [];
      }
      ∷ [];
  allocated_bytes = 7 * 512;
}

collected : collect_snapshots cloud aws 2 (codes "xolis") ≡ ok inventory
unfolding collect_snapshots run_json snapshot_allocated_bytes image_ids_of
collected = refl

snapshot_allocated_bytes_iff_example :
    (snapshot_allocated_bytes cloud aws 2 (codes "snap-1") ≡ ok 3584)
    ↔ Counted cloud aws (codes "snap-1") 2 none none 0 3584
snapshot_allocated_bytes_iff_example =
    snapshot_allocated_bytes_iff cloud aws (codes "snap-1") 2 3584

collect_snapshots-IsInventory_example : IsInventory cloud aws 2 (codes "xolis") inventory
collect_snapshots-IsInventory_example =
    collect_snapshots-IsInventory cloud aws 2 (codes "xolis") inventory collected

abbrev store : Store
store = record {
  buckets =
      record {
        name = codes "xolis-b";
        version_count = 2;
        version_bytes = 30;
        multipart_upload_count = 0;
        multipart_bytes = 0;
        total_bytes = 30;
      }
      ∷ [];
  bucket_count = 1;
  version_count = 2;
  multipart_upload_count = 0;
  total_bytes = 30;
}

stored : collect_s3 cloud aws (codes "xolis") ≡ ok store
unfolding collect_s3 run_json
stored = refl

-- Whole amounts in the place of the floats.
ltb_irrefl : (x : ℕ) → ltb x x ≡ false
ltb_irrefl x = ground arith

ltb_trans : (x y z : ℕ) → ltb x y ≡ true → ltb y z ≡ true → ltb x z ≡ true
ltb_trans x y z h k = ground arith

abbrev whole : Floats
whole = record {
  Float = ℕ;
  of_int = λ n. n;
  plus = λ a b. a + b;
  times = λ a b. a * b;
  over = λ a b. a;
  lt = ltb;
  lt_irrefl = ltb_irrefl;
  lt_trans = ltb_trans;
}

abbrev price : ℕ → Dimension whole
price usd = record { unit = some (codes "GB-Mo"); begin_range = codes "0"; usd = some usd }

abbrev offers : PriceList whole
offers =
    some (record {
      usage_type = codes "EU-EBS:SnapshotUsage";
      on_demand = (price 5 ∷ price 3 ∷ []) ∷ (price 4 ∷ []) ∷ [];
    })
    ∷ []

lowest : price_per_unit whole (codes "GB-Mo") (some (codes "EBS:SnapshotUsage")) offers ≡ ok 3
unfolding price_per_unit
lowest = refl

price_per_unit-IsLeast_example :
    IsOffer whole (codes "GB-Mo") (some (codes "EBS:SnapshotUsage")) offers 3
    × NoneBelow whole 3 (IsOffer whole (codes "GB-Mo") (some (codes "EBS:SnapshotUsage")) offers)
price_per_unit-IsLeast_example =
    price_per_unit-IsLeast whole (codes "GB-Mo") (some (codes "EBS:SnapshotUsage")) offers 3 lowest

-- The identity is known only after a log-in.
abbrev logged_in : List Call → CompletedProcess
logged_in (get_caller_identity ∷ sso_login ∷ calls) =
    printed (record no_response { account = some (codes "12") })
logged_in calls = record { returncode = 255; stdout = Printed.blank }

abbrev account : Account
account = record { login_status = λ calls. 0; identity = logged_in }

answered : (s : Service) → list_service (λ request. printed no_response) aws s ≡ ok no_response
unfolding run_json
answered s = refl

abbrev outside : Aws whole
outside = record {
  world = cloud;
  pricing = λ request. ok offers;
  cost_and_usage = λ request. ok [];
  date = λ days. codes "2026-01-01";
  account = account;
  has_aws_cli = true;
}

abbrev args : Args
args = record { aws = aws; resource_prefix = codes "xolis"; history_days = pos 7; sso_login = auto }

abbrev report : Report whole
report = record {
  account = some (codes "12");
  principal_arn = none;
  active_resources = record {
    eks_clusters = [];
    ec2_instances = [];
    ebs_volumes = [];
    nat_gateways = [];
    elastic_ips = [];
    load_balancers = [];
    rds_instances = [];
    efs_filesystems = [];
    fsx_filesystems = [];
    vpc_endpoints = [];
    route53_hosted_zones = [];
    cloudwatch_log_groups = [];
    secrets_manager_secrets = [];
  };
  snapshots = inventory;
  ecr = record { repositories = []; repository_count = 0; image_count = 0; logical_bytes = 0 };
  s3 = store;
  prices = record { snapshot_gib_month = 3; ecr_gib_month = 3; s3_gib_month = 3 };
  estimated = record {
    snapshot = record { monthly = 10752; daily = 129024 };
    ecr = record { monthly = 0; daily = 0 };
    s3 = record { monthly = 90; daily = 1080 };
    total_monthly = 10842;
    total_daily = 130104;
  };
  recent_unblended_cost = [];
}

reported : main whole outside args 2 ≡ ok report
unfolding main authenticate collect_active_resources run_json collect_snapshots
    snapshot_allocated_bytes collect_ecr collect_s3 get_storage_prices image_ids_of
    monthly_and_daily_cost
reported = refl

main-IsReport_example : IsReport whole outside args 2 report
main-IsReport_example = main-IsReport whole outside args 2 report reported
