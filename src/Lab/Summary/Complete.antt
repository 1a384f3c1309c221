-- ===== src/Lab/Summary/Complete.antt =====
-- A summary of `summarize_samples` has each metric once, with its samples and its extremes.
use mathlib.Core.Path.{subst, ap₂}
use xolis.Base.{
  ℕ, suc, ◌≤◌, ◌≡◌, refl, sym, ap, ◌∙◌, Bool, true, false, ◌||◌, Option, none, some, List, [], ◌∷◌,
  ◌++◌, map, length, contains, ◌==◌, nat_eq, list_eq, list_beq_iff, All, Has, arith, Bool-cases,
  inl, inr, if◌then◌else◌,
}
use xolis.Base.Result.{ok, >>=-returns}
use xolis.Base.Least.{least, greatest, NoneBelow, least-IsLeast}
use xolis.Text.{Text}
use xolis.Text.Sort.{sort_by, set}
use xolis.Text.Sort.Order
use xolis.Text.Sort.Order.{sort-IsSorted}
use xolis.Text.Sort.Members.{Distinct, contains-sort, Distinct-sort, contains-set, Distinct-set}
use xolis.Lab.Summary.{
  Averages, Metric, Sample, Statistics, names_of, mentioned_names, has_metric, converted, value_of,
  values, statistics_of, summarize, summarize_samples,
}

contains-append :
    (a b : List Text) (x : Text) → contains (a ++ b) x ≡ (contains a x || contains b x)
contains-append [] b x = refl
contains-append (y ∷ a) b x = rw (contains-append a b x) (ground arith)

or_true : (a : Bool) {b : Bool} → b ≡ true → (a || b) ≡ true
or_true true h = refl
or_true false h = h

module _ (f : Averages) where
  open f use {Float, lt, lt_irrefl, lt_trans}

  -- How many samples have the metric.
  abbrev pub samples_with : Text → List (Sample f) → ℕ
  samples_with name [] = 0
  samples_with name (sample ∷ samples) =
      if has_metric f name sample
      then suc (samples_with name samples)
      else samples_with name samples

  abbrev above : Float → Float → Bool
  above x y = lt y x

  -- The statistics of a metric: they are those of the values that the samples with the metric have.
  pub record IsStatistics (samples : List (Sample f)) (s : Statistics f) : Type 0 where
    pub found : List Float
    pub read : values f s.name samples ≡ ok found
    pub counted : s.count ≡ samples_with s.name samples
    pub minimum_stands : Has found s.minimum
    pub none_below : NoneBelow lt s.minimum (Has found)
    pub maximum_stands : Has found s.maximum
    pub none_above : NoneBelow above s.maximum (Has found)

  -- Each metric of a sample once, in the order of the names.
  pub record IsSummary (samples : List (Sample f)) (summary : List (Statistics f)) : Type 0 where
    pub once : Distinct (map (λ (s : Statistics f). s.name) summary)
    pub in_order : Order.IsSorted (λ (t : Text). t) (map (λ (s : Statistics f). s.name) summary)
    pub complete :
        (name : Text)
        → contains (map (λ (s : Statistics f). s.name) summary) name
          ≡ contains (mentioned_names f samples) name
    pub each : All (IsStatistics samples) summary

  values-length :
      (name : Text) (samples : List (Sample f)) (found : List Float)
      → values f name samples ≡ ok found
      → length found ≡ samples_with name samples
  unfolding values
  values-length name [] found h = let e : found ≡ [] = cc in rw e refl
  values-length name (sample ∷ samples) found h = elim (Bool-cases (has_metric f name sample)) [
    | inl e ↦
        let (x, h1, h2) = >>=-returns (value_of f name sample.metrics) _ (rw e at h) in
        let (xs, h3, h4) = >>=-returns (values f name samples) _ h2 in
        let q : found ≡ x ∷ xs = cc in rw (e, q) (ap suc (values-length name samples xs h3))
    | inr e ↦ rw e (values-length name samples found (rw e at h))
  ]

  statistics-ok :
      (name : Text) (samples : List (Sample f)) (found : List Float) (s : Statistics f)
      → values f name samples ≡ ok found
      → statistics_of f name found ≡ ok s
      → (s.name ≡ name) × IsStatistics samples s
  statistics-ok name samples [] s h k = absurd cc
  statistics-ok name samples (x ∷ xs) s h k =
      let low = least-IsLeast lt lt_irrefl lt_trans x xs in
      let high = least-IsLeast above lt_irrefl (λ a b c p q. lt_trans c b a q p) x xs in
      let summary : Statistics f = record {
        name = name;
        count = length (x ∷ xs);
        minimum = least lt x xs;
        mean = f.rounded_mean x xs;
        median = f.rounded_median x xs;
        maximum = greatest lt x xs;
      } in
      let e : summary ≡ s = cc in
      subst (λ t. (t.name ≡ name) × IsStatistics samples t) e
        (
          refl,
          record {
            found = x ∷ xs;
            read = h;
            counted = values-length name samples (x ∷ xs) h;
            minimum_stands = low.member;
            none_below = low.low;
            maximum_stands = high.member;
            none_above = high.low;
          },
        )

  record AreStatistics (samples : List (Sample f)) (names : List Text)
      (summary : List (Statistics f)) : Type 0 where
    same : map (λ (s : Statistics f). s.name) summary ≡ names
    each : All (IsStatistics samples) summary

  summarize-ok :
      (samples : List (Sample f)) (names : List Text) (summary : List (Statistics f))
      → summarize f samples names ≡ ok summary
      → AreStatistics samples names summary
  unfolding summarize
  summarize-ok samples [] [] h = record { same = refl; each = tt }
  summarize-ok samples [] (s ∷ ss) h = cc
  summarize-ok samples (name ∷ names) summary h =
      let (found, h1, k1) = >>=-returns (values f name samples) _ h in
      let (s, h2, k2) = >>=-returns (statistics_of f name found) _ k1 in
      let (others, h3, k3) = >>=-returns (summarize f samples names) _ k2 in
      let (n, i) = statistics-ok name samples found s h1 h2 in
      let m = summarize-ok samples names others h3 in
      let e : s ∷ others ≡ summary = cc in
      subst (AreStatistics samples (name ∷ names)) e
        (record { same = ap₂ (λ a l. a ∷ l) n m.same; each = (i, m.each) })

  -- A summary that is returned is one of its samples.
  pub summarize_samples-IsSummary :
      (samples : List (Sample f)) (summary : List (Statistics f))
      → summarize_samples f samples ≡ ok summary
      → IsSummary samples summary
  unfolding summarize_samples
  summarize_samples-IsSummary samples summary h =
      let mentioned = mentioned_names f samples in
      let names = sort_by (λ (t : Text). t) (set mentioned) in
      let m = summarize-ok samples names summary h in
      record {
        once = rw m.same (Distinct-sort (set mentioned) (Distinct-set mentioned));
        in_order = rw m.same (sort-IsSorted (λ (t : Text). t) (set mentioned));
        complete =
            λ name. rw m.same (contains-sort (set mentioned) name ∙ contains-set mentioned name);
        each = m.each;
      }

  -- Every metric is a number.
  abbrev pub IsNumeric : Sample f → Type 0
  IsNumeric sample = All (λ (m : Metric f). (x : Float) × (m.value ≡ some x)) sample.metrics

  converted-ok : (v : Option Float) (x : Float) → v ≡ some x → converted f v ≡ ok x
  converted-ok none x h = absurd cc
  converted-ok (some y) x h = let e : y ≡ x = cc in rw e refl

  value_of-ok :
      (name : Text) (metrics : List (Metric f))
      → All (λ (m : Metric f). (x : Float) × (m.value ≡ some x)) metrics
      → contains (names_of f metrics) name ≡ true
      → (x : Float) × (value_of f name metrics ≡ ok x)
  value_of-ok name [] a h = absurd cc
  value_of-ok name (m ∷ metrics) a h = elim (Bool-cases (name == m.name)) [
    | inl e ↦ (a.0.0, rw e (converted-ok m.value a.0.0 a.0.1))
    | inr e ↦ rw e (value_of-ok name metrics a.1 (rw e at h))
  ]

  values-ok :
      (name : Text) (samples : List (Sample f))
      → All IsNumeric samples
      → (found : List Float) × (values f name samples ≡ ok found)
  unfolding values
  values-ok name [] a = ([], refl)
  values-ok name (sample ∷ samples) a = elim (Bool-cases (has_metric f name sample)) [
    | inl e ↦
        let (x, p) = value_of-ok name sample.metrics a.0 e in
        let (xs, q) = values-ok name samples a.1 in (x ∷ xs, rw (e, p, q) refl)
    | inr e ↦ rw e (values-ok name samples a.1)
  ]

  -- A name that is mentioned is a metric of a sample.
  samples_with-pos :
      (name : Text) (samples : List (Sample f))
      → contains (mentioned_names f samples) name ≡ true
      → 1 ≤ samples_with name samples
  samples_with-pos name [] h = absurd cc
  samples_with-pos name (sample ∷ samples) h = elim (Bool-cases (has_metric f name sample)) [
    | inl e ↦ rw e (omega arith)
    | inr e ↦
        let k =
          sym (contains-append (names_of f sample.metrics) (mentioned_names f samples) name) ∙ h in
        rw e (samples_with-pos name samples (rw e at k))
  ]

  statistics_of-ok :
      (name : Text) (found : List Float)
      → 1 ≤ length found
      → (s : Statistics f) × (statistics_of f name found ≡ ok s)
  statistics_of-ok name [] h = absurd (omega arith)
  statistics_of-ok name (x ∷ xs) h = (_, refl)

  summarize-returns :
      (samples : List (Sample f)) (names : List Text)
      → All IsNumeric samples
      → ((name : Text)
          → contains names name ≡ true
          → contains (mentioned_names f samples) name ≡ true)
      → (summary : List (Statistics f)) × (summarize f samples names ≡ ok summary)
  unfolding summarize
  summarize-returns samples [] a h = ([], refl)
  summarize-returns samples (name ∷ names) a h =
      let (found, p) = values-ok name samples a in
      let here : (name == name) ≡ true = (list_beq_iff name name).1 refl in
      let present = samples_with-pos name samples (h name (rw here refl)) in
      let some_found : 1 ≤ length found =
        omega (arith, values-length name samples found p, present) in
      let (s, q) = statistics_of-ok name found some_found in
      let (others, r) =
        summarize-returns samples names a (λ other k. h other (or_true (other == name) k)) in
      (s ∷ others, rw (p, q, r) refl)

  -- Where every metric is a number, a summary is returned: `min` meets no empty list.
  pub summarize_samples-returns :
      (samples : List (Sample f))
      → All IsNumeric samples
      → (summary : List (Statistics f)) × (summarize_samples f samples ≡ ok summary)
        × IsSummary samples summary
  unfolding summarize_samples
  summarize_samples-returns samples a =
      let mentioned = mentioned_names f samples in
      let names = sort_by (λ (t : Text). t) (set mentioned) in
      let (summary, p) =
        summarize-returns samples names a
          (λ name h. sym (contains-sort (set mentioned) name ∙ contains-set mentioned name) ∙ h) in
      (summary, p, summarize_samples-IsSummary samples summary p)
