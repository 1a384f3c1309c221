-- ===== src/Cost/Report.antt =====
-- `collect_cost_history`, `build_report` and `main` of tools/xolis_aws_cost.py.
pub mod Run
use xolis.Base.{
  ℕ, ◌*◌, ◌≡◌, Bool, true, false, not, ◌&&◌, ◌||◌, Option, none, some, List, [], ◌∷◌, ◌++◌, ◌==◌,
  nat_eq, list_eq, if◌then◌else◌,
}
use xolis.Base.Int.{ℤ, pos, ◌-ℤ◌, leb_ℤ}
use xolis.Base.Result.{Result, ok, err, ◌>>=◌}
use xolis.Text.{Text, codes}
use xolis.Cost.{Failure, runtime_error, value_error, Response, Request, AwsCli, World}
use xolis.Cost.Login.{Account, LoginMode, authenticate}
use xolis.Cost.Snapshots.{Snapshots, collect_snapshots}
use xolis.Cost.Storage.{Ecr, Store, collect_ecr, collect_s3}
use xolis.Cost.Active.{ActiveResources, collect_active_resources}
use xolis.Cost.Prices.{
  Floats, PriceList, StoragePrices, Cost, get_storage_prices, monthly_and_daily_cost,
}

pub record Args : Type 0 where
  pub aws : AwsCli
  pub resource_prefix : Text
  pub history_days : ℤ
  pub sso_login : LoginMode

module _ (f : Floats) where
  open f use {Float, of_int, plus}

  -- A group of a period: the service, and what it cost.
  pub record Group : Type 0 where
    pub service : Text
    pub amount : Float

  pub record Period : Type 0 where
    pub start : Text
    pub is_estimated : Bool
    pub groups : List Group

  -- A dictionary by service, in the order in which the services were first set.
  abbrev pub set_item : Text → Float → List Group → List Group
  set_item service amount [] = record { service = service; amount = amount } ∷ []
  set_item service amount (g ∷ gs) =
      let later = set_item service amount gs in
      if g.service == service then record g { amount = amount } ∷ gs else g ∷ later

  abbrev pub set_items : List Group → List Group → List Group
  set_items services [] = services
  set_items services (g ∷ gs) = set_items (set_item g.service g.amount services) gs

  -- `sum` starts from 0 and adds from the left.
  abbrev pub add_amounts : Float → List Group → Float
  add_amounts total [] = total
  add_amounts total (g ∷ gs) = add_amounts (plus total g.amount) gs

  pub record Day : Type 0 where
    pub date : Text
    pub estimated : Bool
    pub total_usd : Float
    pub services : List Group

  unfoldable pub day_of : Period → Day
  day_of period =
      let services = set_items [] period.groups in
      record {
        date = period.start;
        estimated = period.is_estimated;
        total_usd = add_amounts (of_int 0) services;
        services = services;
      }

  unfoldable pub history_of : List Period → List Day
  unfolding day_of
  history_of [] = []
  history_of (period ∷ periods) = day_of period ∷ history_of periods

  pub record IdleCost : Type 0 where
    pub snapshot : Cost f
    pub ecr : Cost f
    pub s3 : Cost f
    pub total_monthly : Float
    pub total_daily : Float

  unfoldable pub idle_cost : StoragePrices f → Snapshots → Ecr → Store → IdleCost
  idle_cost prices snapshots ecr s3 =
      let snapshot_cost =
        monthly_and_daily_cost f snapshots.allocated_bytes prices.snapshot_gib_month in
      let ecr_cost = monthly_and_daily_cost f ecr.logical_bytes prices.ecr_gib_month in
      let s3_cost = monthly_and_daily_cost f s3.total_bytes prices.s3_gib_month in
      record {
        snapshot = snapshot_cost;
        ecr = ecr_cost;
        s3 = s3_cost;
        total_monthly = plus (plus snapshot_cost.monthly ecr_cost.monthly) s3_cost.monthly;
        total_daily = plus (plus snapshot_cost.daily ecr_cost.daily) s3_cost.daily;
      }

  pub record Report : Type 0 where
    pub account : Option Text
    pub principal_arn : Option Text
    pub active_resources : ActiveResources
    pub snapshots : Snapshots
    pub ecr : Ecr
    pub s3 : Store
    pub prices : StoragePrices f
    pub estimated : IdleCost
    pub recent_unblended_cost : List Day

  -- What lies outside the program: the calls that read, those of the pricing service, and the cost
  -- explorer's for a number of days; the log-in; and whether the AWS command line is installed.
  -- `pricing` and `cost_and_usage` are `run_json` where the report reads other JSON than `Response`;
  -- `date` is the day so many days after today, in UTC.
  pub record Aws : Type 0 where
    pub world : World
    pub pricing : Request → Result Failure (PriceList f)
    pub cost_and_usage : Request → Result Failure (List Period)
    pub date : ℤ → Text
    pub account : Account
    pub has_aws_cli : Bool

  abbrev pub history_arguments : Aws → ℕ → Request
  history_arguments cloud days =
      codes "ce"
      ∷ codes "get-cost-and-usage"
      ∷ codes "--time-period"
      ∷ (codes "Start="
          ++ (cloud.date (pos 0 -ℤ pos days) ++ (codes ",End=" ++ cloud.date (pos 1))))
      ∷ codes "--granularity"
      ∷ codes "DAILY"
      ∷ codes "--metrics"
      ∷ codes "UnblendedCost"
      ∷ codes "--group-by"
      ∷ codes "Type=DIMENSION,Key=SERVICE"
      ∷ []

  unfoldable pub collect_cost_history : Aws → ℕ → Result Failure (List Day)
  unfolding history_of
  collect_cost_history cloud days = do
    periods ← cloud.cost_and_usage (history_arguments cloud days)
    ok (history_of periods)

  unfoldable pub build_report : Aws → AwsCli → ℕ → Response → Text → ℕ → Result Failure Report
  unfolding idle_cost collect_cost_history
  build_report cloud aws fuel identity prefix history_days = do
    active ← collect_active_resources cloud.world aws
    snapshots ← collect_snapshots cloud.world aws fuel prefix
    ecr ← collect_ecr cloud.world aws prefix
    s3 ← collect_s3 cloud.world aws prefix
    prices ← get_storage_prices f cloud.pricing aws.region
    history ← collect_cost_history cloud history_days
    ok (record {
      account = identity.account;
      principal_arn = identity.arn;
      active_resources = active;
      snapshots = snapshots;
      ecr = ecr;
      s3 = s3;
      prices = prices;
      estimated = idle_cost prices snapshots ecr s3;
      recent_unblended_cost = history;
    })

  abbrev pub report_days : Aws → Args → ℕ → ℤ → Result Failure Report
  report_days cloud args fuel (pos days) =
      (authenticate cloud.account args.sso_login).result
      >>= (λ identity. build_report cloud args.aws fuel identity args.resource_prefix days)
  report_days cloud args fuel _ = err value_error

  -- `main`, up to the printing of the report
  unfoldable pub main : Aws → Args → ℕ → Result Failure Report
  unfolding build_report
  main cloud args fuel =
      if leb_ℤ (pos 1) args.history_days && leb_ℤ args.history_days (pos 90)
      then (if cloud.has_aws_cli
          then report_days cloud args fuel args.history_days
          else err runtime_error)
      else err value_error
