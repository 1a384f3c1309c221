-- ===== src/Cost/Report/Run.antt =====
-- What a report that `main` of tools/xolis_aws_cost.py prints is made of.
use mathlib.Core.Path.{subst}
use xolis.Base.{
  ℕ, ◌≤◌, ◌≡◌, refl, true, ◌&&◌, Option, none, some, List, arith, Bool-cases, inl, inr,
}
use xolis.Base.Int.{ℤ, pos, negsuc, leb_ℤ}
use xolis.Base.Result.{Result, ok, err, >>=-returns}
use xolis.Text.{Text, codes}
use xolis.Cost.{Failure, Response}
use xolis.Cost.Login.{authenticate}
use xolis.Cost.Snapshots.{collect_snapshots}
use xolis.Cost.Snapshots.Inventory.{IsInventory, collect_snapshots-IsInventory}
use xolis.Cost.Storage.{collect_ecr, collect_s3}
use xolis.Cost.Storage.Totals.{IsStore, collect_s3-IsStore}
use xolis.Cost.Active.{collect_active_resources}
use xolis.Cost.Prices.{
  Floats, PriceList, StoragePrices, snapshot_filters, ecr_filters, s3_filters, product_arguments,
  price_per_unit, get_storage_prices,
}
use xolis.Cost.Prices.Least.{IsOffer, NoneBelow, price_per_unit-IsLeast}
use xolis.Cost.Report.{
  Report, Aws, Args, idle_cost, collect_cost_history, build_report, report_days, main,
}

module _ (f : Floats) (cloud : Aws f) (args : Args) (fuel : ℕ) where
  -- A lowest one of the prices that the pricing service lists for a request.
  pub record IsLowest (service : Text) (filters : List Text) (suffix : Option Text)
      (price : f.Float) : Type 0 where
    pub entries : PriceList f
    pub listed : cloud.pricing (product_arguments f service args.aws.region filters) ≡ ok entries
    pub offered : IsOffer f (codes "GB-Mo") suffix entries price
    pub lowest : NoneBelow f price (IsOffer f (codes "GB-Mo") suffix entries)

  price_per_unit-IsLowest :
      (service : Text) (filters : List Text) (suffix : Option Text) (entries : PriceList f)
      (price : f.Float)
      → cloud.pricing (product_arguments f service args.aws.region filters) ≡ ok entries
      → price_per_unit f (codes "GB-Mo") suffix entries ≡ ok price
      → IsLowest service filters suffix price
  price_per_unit-IsLowest service filters suffix entries price l p =
      let (offered, lowest) = price_per_unit-IsLeast f (codes "GB-Mo") suffix entries price p in
      record { entries = entries; listed = l; offered = offered; lowest = lowest }

  pub record ArePrices (p : StoragePrices f) : Type 0 where
    pub snapshot :
        IsLowest
          (codes "AmazonEC2")
          snapshot_filters
          (some (codes "EBS:SnapshotUsage"))
          p.snapshot_gib_month
    pub ecr : IsLowest (codes "AmazonECR") ecr_filters none p.ecr_gib_month
    pub s3 : IsLowest (codes "AmazonS3") s3_filters none p.s3_gib_month

  get_storage_prices-ArePrices :
      (p : StoragePrices f)
      → get_storage_prices f cloud.pricing args.aws.region ≡ ok p
      → ArePrices p
  unfolding get_storage_prices
  get_storage_prices-ArePrices p h =
      let ask = λ (service : Text) (filters : List Text).
        cloud.pricing (product_arguments f service args.aws.region filters) in
      let (snapshot, l1, h1) = >>=-returns (ask (codes "AmazonEC2") snapshot_filters) _ h in
      let (ecr, l2, h2) = >>=-returns (ask (codes "AmazonECR") ecr_filters) _ h1 in
      let (s3, l3, h3) = >>=-returns (ask (codes "AmazonS3") s3_filters) _ h2 in
      let (a, p1, h4) =
        >>=-returns (price_per_unit f (codes "GB-Mo") (some (codes "EBS:SnapshotUsage")) snapshot) _
          h3 in
      let (b, p2, h5) = >>=-returns (price_per_unit f (codes "GB-Mo") none ecr) _ h4 in
      let (c, p3, h6) = >>=-returns (price_per_unit f (codes "GB-Mo") none s3) _ h5 in
      let prices : StoragePrices f = record {
        snapshot_gib_month = a;
        ecr_gib_month = b;
        s3_gib_month = c;
      } in
      let e : prices ≡ p = cc in
      subst ArePrices e (record {
        snapshot =
            price_per_unit-IsLowest (codes "AmazonEC2") snapshot_filters
              (some (codes "EBS:SnapshotUsage")) snapshot a l1 p1;
        ecr = price_per_unit-IsLowest (codes "AmazonECR") ecr_filters none ecr b l2 p2;
        s3 = price_per_unit-IsLowest (codes "AmazonS3") s3_filters none s3 c l3 p3;
      })

  pub record IsReport (r : Report f) : Type 0 where
    pub days : ℕ
    pub asked : args.history_days ≡ pos days
    pub in_range : (1 ≤ days) × (days ≤ 90)
    pub identity : Response
    pub authenticated : (authenticate cloud.account args.sso_login).result ≡ ok identity
    pub account : r.account ≡ identity.account
    pub snapshots : IsInventory cloud.world args.aws fuel args.resource_prefix r.snapshots
    pub ecr : collect_ecr cloud.world args.aws args.resource_prefix ≡ ok r.ecr
    pub s3 : IsStore cloud.world args.aws args.resource_prefix r.s3
    pub prices : ArePrices r.prices
    pub history : collect_cost_history f cloud days ≡ ok r.recent_unblended_cost
    pub estimated : r.estimated ≡ idle_cost f r.prices r.snapshots r.ecr r.s3

  build_report-IsReport :
      (days : ℕ) (identity : Response) (r : Report f)
      → args.history_days ≡ pos days
      → (1 ≤ days) × (days ≤ 90)
      → (authenticate cloud.account args.sso_login).result ≡ ok identity
      → build_report f cloud args.aws fuel identity args.resource_prefix days ≡ ok r
      → IsReport r
  unfolding build_report
  build_report-IsReport days identity r asked range authenticated h =
      let (active, l1, h1) = >>=-returns (collect_active_resources cloud.world args.aws) _ h in
      let (snapshots, l2, h2) =
        >>=-returns (collect_snapshots cloud.world args.aws fuel args.resource_prefix) _ h1 in
      let (ecr, l3, h3) =
        >>=-returns (collect_ecr cloud.world args.aws args.resource_prefix) _ h2 in
      let (s3, l4, h4) = >>=-returns (collect_s3 cloud.world args.aws args.resource_prefix) _ h3 in
      let (prices, l5, h5) =
        >>=-returns (get_storage_prices f cloud.pricing args.aws.region) _ h4 in
      let (history, l6, e) = >>=-returns (collect_cost_history f cloud days) _ h5 in
      subst (λ t. IsResult t) e
        (record {
          days = days;
          asked = asked;
          in_range = range;
          identity = identity;
          authenticated = authenticated;
          account = refl;
          snapshots =
              collect_snapshots-IsInventory cloud.world args.aws fuel args.resource_prefix snapshots
                l2;
          ecr = l3;
          s3 = collect_s3-IsStore cloud.world args.aws args.resource_prefix s3 l4;
          prices = get_storage_prices-ArePrices prices l5;
          history = l6;
          estimated = refl;
        })
    where
      IsResult : Result Failure (Report f) → Type 0
      IsResult (ok r) = IsReport r
      IsResult (err e) = Unit

  -- A report is printed only for a number of days between 1 and 90, after an identity was returned; its
  -- snapshots and its buckets are what the services list, its three prices are lowest ones of those
  -- that the pricing service lists for the region, and its estimate is made of these.
  pub main-IsReport : (r : Report f) → main f cloud args fuel ≡ ok r → IsReport r
  unfolding main
  main-IsReport r h =
      elim (Bool-cases (leb_ℤ (pos 1) args.history_days && leb_ℤ args.history_days (pos 90))) [
        | inr e ↦ cc (rw e at h)
        | inl e ↦ elim (Bool-cases cloud.has_aws_cli) [
          | inr n ↦ cc (rw (e, n) at h)
          | inl n ↦ in_days args.history_days refl e (rw (e, n) at h)
        ]
      ]
    where
      in_days :
          (d : ℤ)
          → args.history_days ≡ d
          → (leb_ℤ (pos 1) d && leb_ℤ d (pos 90)) ≡ true
          → report_days f cloud args fuel d ≡ ok r
          → IsReport r
      in_days (negsuc n) e b k = cc
      in_days (pos n) e b k =
          let (identity, authenticated, built) =
            >>=-returns (authenticate cloud.account args.sso_login).result _ k in
          build_report-IsReport n identity r e (ground arith) authenticated built
