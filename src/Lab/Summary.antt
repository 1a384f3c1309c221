-- ===== src/Lab/Summary.antt =====
-- `summarize_samples` and `write_benchmark_summary` of tools/xolis_aws_lab.py.
pub mod Complete
pub mod Modes
use xolis.Base.{
  ℕ, ◌≡◌, Bool, true, false, Option, none, some, List, [], ◌∷◌, ◌++◌, map, length, contains, ◌==◌,
  nat_eq, list_eq, if◌then◌else◌,
}
use xolis.Base.Result.{Result, ok, err, ◌>>=◌}
use xolis.Base.Least.{least, greatest}
use xolis.Text.{Text, codes}
use xolis.Text.Sort.{sort_by, set}

-- Python's floats: a comparison, false at a NaN, and the averages of a value and others, rounded to
-- three places.
pub record Averages : Type 1 where
  pub Float : Type 0
  pub lt : Float → Float → Bool
  pub rounded_mean : Float → List Float → Float
  pub rounded_median : Float → List Float → Float
  pub lt_irrefl : (x : Float) → lt x x ≡ false
  pub lt_trans : (x y z : Float) → lt x y ≡ true → lt y z ≡ true → lt x z ≡ true

-- A `ValueError`: `float` of what is no number, or `min` of nothing.
pub data SummaryError : Type 0 where
  value_error : SummaryError

module _ (f : Averages) where
  open f use {Float, lt, rounded_mean, rounded_median}

  -- `value` is missing where `float` does not take the metric.
  pub record Metric : Type 0 where
    pub name : Text
    pub value : Option Float

  -- A sample that was read back: `sample.get("status")` and `sample.get("metrics", {})`.
  pub record Sample : Type 0 where
    pub status : Option Text
    pub metrics : List Metric

  pub record Statistics : Type 0 where
    pub name : Text
    pub count : ℕ
    pub minimum : Float
    pub mean : Float
    pub median : Float
    pub maximum : Float

  abbrev pub names_of : List Metric → List Text
  names_of metrics = map (λ (m : Metric). m.name) metrics

  -- The names that the comprehension meets, before they become a set.
  abbrev pub mentioned_names : List Sample → List Text
  mentioned_names [] = []
  mentioned_names (sample ∷ samples) = names_of sample.metrics ++ mentioned_names samples

  -- `name in sample.get("metrics", {})`
  abbrev pub has_metric : Text → Sample → Bool
  has_metric name sample = contains (names_of sample.metrics) name

  abbrev pub converted : Option Float → Result SummaryError Float
  converted none = err value_error
  converted (some x) = ok x

  -- `float(sample["metrics"][name])`
  abbrev pub value_of : Text → List Metric → Result SummaryError Float
  value_of name [] = err value_error
  value_of name (m ∷ metrics) =
      let later = value_of name metrics in if name == m.name then converted m.value else later

  unfoldable pub values : Text → List Sample → Result SummaryError (List Float)
  values name [] = ok []
  values name (sample ∷ samples) =
      let later = values name samples in
      if has_metric name sample
      then value_of name sample.metrics >>= (λ x. later >>= (λ xs. ok (x ∷ xs)))
      else later

  abbrev pub statistics_of : Text → List Float → Result SummaryError Statistics
  statistics_of name [] = err value_error
  statistics_of name (x ∷ xs) = ok (record {
    name = name;
    count = length (x ∷ xs);
    minimum = least lt x xs;
    mean = rounded_mean x xs;
    median = rounded_median x xs;
    maximum = greatest lt x xs;
  })

  unfoldable pub summarize : List Sample → List Text → Result SummaryError (List Statistics)
  unfolding values
  summarize samples [] = ok []
  summarize samples (name ∷ names) = do
    found ← values name samples
    statistics ← statistics_of name found
    others ← summarize samples names
    ok (statistics ∷ others)

  unfoldable pub summarize_samples : List Sample → Result SummaryError (List Statistics)
  unfolding summarize sort_by set
  summarize_samples samples =
      summarize samples (sort_by (λ name. name) (set (mentioned_names samples)))

  -- A sample file: missing, or with what it holds.
  abbrev pub read_samples : List (Option Sample) → List Sample
  read_samples [] = []
  read_samples (none ∷ files) = read_samples files
  read_samples (some sample ∷ files) = sample ∷ read_samples files

  abbrev pub has_passed : Option Text → Bool
  has_passed none = false
  has_passed (some status) = status == codes "passed"

  unfoldable pub passed : List Sample → List Sample
  passed [] = []
  passed (sample ∷ samples) =
      let later = passed samples in if has_passed sample.status then sample ∷ later else later

  pub record ModeReport : Type 0 where
    pub completed_samples : ℕ
    pub passed_samples : ℕ
    pub summary : List Statistics

  -- What `write_benchmark_summary` reports of one mode.
  unfoldable pub report_mode : List (Option Sample) → Result SummaryError ModeReport
  unfolding summarize_samples passed
  report_mode files = do
    summary ← summarize_samples (passed (read_samples files))
    ok (record {
      completed_samples = length (read_samples files);
      passed_samples = length (passed (read_samples files));
      summary = summary;
    })
