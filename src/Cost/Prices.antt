-- ===== src/Cost/Prices.antt =====
-- `price_per_unit`, `get_storage_prices` and `monthly_and_daily_cost` of tools/xolis_aws_cost.py.
pub mod Least
use xolis.Base.{
  ℕ, ◌*◌, ◌≡◌, Bool, true, false, not, ◌&&◌, ◌||◌, Option, none, some, List, [], ◌∷◌, ◌++◌, ◌==◌,
  nat_eq, list_eq, if◌then◌else◌,
}
use xolis.Base.Result.{Result, ok, err, ◌>>=◌}
use xolis.Base.Least.{least}
use xolis.Text.{Text, codes}
use xolis.Cost.{Failure, aws_command_error, value_error, key_error, Request}

-- Python's floats, as far as the report computes with them. A comparison is false at a NaN, so both
-- laws hold of all floats.
pub record Floats : Type 1 where
  pub Float : Type 0
  pub of_int : ℕ → Float
  pub plus : Float → Float → Float
  pub times : Float → Float → Float
  pub over : Float → Float → Float
  pub lt : Float → Float → Bool
  pub lt_irrefl : (x : Float) → lt x x ≡ false
  pub lt_trans : (x y z : Float) → lt x y ≡ true → lt y z ≡ true → lt x z ≡ true

abbrev pub ends_with : Text → Text → Bool
ends_with suffix [] = suffix == []
ends_with suffix (c ∷ s) = suffix == (c ∷ s) || ends_with suffix s

-- `if usage_type_suffix and not usage_type.endswith(usage_type_suffix)`
abbrev pub has_usage : Option Text → Text → Bool
has_usage none usage_type = true
has_usage (some []) usage_type = true
has_usage (some (c ∷ s)) usage_type = ends_with (c ∷ s) usage_type

abbrev pub is_unit : Option Text → Text → Bool
is_unit none unit = false
is_unit (some u) unit = u == unit

abbrev pub snapshot_filters : List Text
snapshot_filters = codes "Type=TERM_MATCH,Field=productFamily,Value=Storage Snapshot" ∷ []

abbrev pub ecr_filters : List Text
ecr_filters = codes "Type=TERM_MATCH,Field=productFamily,Value=EC2 Container Registry" ∷ []

abbrev pub s3_filters : List Text
s3_filters =
    codes "Type=TERM_MATCH,Field=productFamily,Value=Storage"
    ∷ codes "Type=TERM_MATCH,Field=volumeType,Value=Standard"
    ∷ codes "Type=TERM_MATCH,Field=storageClass,Value=General Purpose"
    ∷ []

module _ (f : Floats) where
  open f use {Float, of_int, plus, times, over, lt}

  -- `usd` is missing where the price is no number in US dollars.
  pub record Dimension : Type 0 where
    pub unit : Option Text
    pub begin_range : Text
    pub usd : Option Float

  pub record Product : Type 0 where
    pub usage_type : Text
    pub on_demand : List (List Dimension)

  -- An entry of `PriceList`: a product, or a text that is none.
  abbrev pub PriceList : Type 0
  PriceList = List (Option Product)

  abbrev pub is_offered : Text → Dimension → Bool
  is_offered unit d = is_unit d.unit unit && d.begin_range == codes "0"

  abbrev pub price_of : Option Float → Result Failure Float
  price_of none = err key_error
  price_of (some usd) = ok usd

  -- A `for` loop that appends to `candidates`.
  unfoldable pub for_each {ℓ} :
      {A : Type ℓ}
      → (List Float → A → Result Failure (List Float))
      → List Float
      → List A
      → Result Failure (List Float)
  for_each body candidates [] = ok candidates
  for_each body candidates (item ∷ items) =
      body candidates item >>= (λ found. for_each body found items)

  abbrev pub add_dimension : Text → List Float → Dimension → Result Failure (List Float)
  add_dimension unit candidates d =
      if is_offered unit d
      then price_of d.usd >>= (λ usd. ok (candidates ++ (usd ∷ [])))
      else ok candidates

  abbrev pub add_term : Text → List Float → List Dimension → Result Failure (List Float)
  add_term unit = for_each (add_dimension unit)

  abbrev pub add_product :
      Text → Option Text → List Float → Option Product → Result Failure (List Float)
  add_product unit suffix candidates none = err value_error
  add_product unit suffix candidates (some product) =
      if has_usage suffix product.usage_type
      then for_each (add_term unit) candidates product.on_demand
      else ok candidates

  abbrev pub minimum : List Float → Result Failure Float
  minimum [] = err aws_command_error
  minimum (x ∷ xs) = ok (least lt x xs)

  unfoldable pub price_per_unit : Text → Option Text → PriceList → Result Failure Float
  unfolding for_each
  price_per_unit unit suffix response = for_each (add_product unit suffix) [] response >>= minimum

  pub record StoragePrices : Type 0 where
    pub snapshot_gib_month : Float
    pub ecr_gib_month : Float
    pub s3_gib_month : Float

  abbrev pub product_arguments : Text → Text → List Text → Request
  product_arguments service region filters =
      codes "pricing"
      ∷ codes "get-products"
      ∷ codes "--service-code"
      ∷ service
      ∷ codes "--filters"
      ∷ (codes "Type=TERM_MATCH,Field=regionCode,Value=" ++ region)
      ∷ (filters ++ (codes "--max-results" ∷ codes "100" ∷ []))

  -- `pricing` is what the pricing service says of each request.
  unfoldable pub get_storage_prices :
      (Request → Result Failure PriceList) → Text → Result Failure StoragePrices
  unfolding price_per_unit
  get_storage_prices pricing region = do
    snapshot ← pricing (product_arguments (codes "AmazonEC2") region snapshot_filters)
    ecr ← pricing (product_arguments (codes "AmazonECR") region ecr_filters)
    s3 ← pricing (product_arguments (codes "AmazonS3") region s3_filters)
    snapshot_price ← price_per_unit (codes "GB-Mo") (some (codes "EBS:SnapshotUsage")) snapshot
    ecr_price ← price_per_unit (codes "GB-Mo") none ecr
    s3_price ← price_per_unit (codes "GB-Mo") none s3
    ok (record {
      snapshot_gib_month = snapshot_price;
      ecr_gib_month = ecr_price;
      s3_gib_month = s3_price;
    })

  pub record Cost : Type 0 where
    pub monthly : Float
    pub daily : Float

  unfoldable pub monthly_and_daily_cost : ℕ → Float → Cost
  monthly_and_daily_cost size_bytes gib_month_price =
      let monthly =
        times (over (of_int size_bytes) (of_int (1024 * 1024 * 1024))) gib_month_price in
      record { monthly = monthly; daily = over (times monthly (of_int 12)) (of_int 365) }
