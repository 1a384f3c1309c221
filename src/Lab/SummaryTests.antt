-- ===== src/Lab/SummaryTests.antt =====
-- A run of the benchmark summary of xolis_aws_lab.py, and an instance of its theorem.
use xolis.Base.{ℕ, ◌≡◌, refl, true, false, Option, none, some, List, [], ◌∷◌, arith, ltb, nat_eq}
use xolis.Base.Result.{ok}
use xolis.Text.{Text, codes, text_le}
use xolis.Lab.Summary.{Averages, Metric, Sample, ModeReport, report_mode, passed}
use xolis.Lab.Summary.Modes.{IsReport, report_mode-IsReport}

ltb_irrefl : (x : ℕ) → ltb x x ≡ false
ltb_irrefl x = ground arith

ltb_trans : (x y z : ℕ) → ltb x y ≡ true → ltb y z ≡ true → ltb x z ≡ true
ltb_trans x y z h k = ground arith

-- Whole numbers in the place of floats.
abbrev whole : Averages
whole = record {
  Float = ℕ;
  lt = ltb;
  rounded_mean = λ x xs. x;
  rounded_median = λ x xs. x;
  lt_irrefl = ltb_irrefl;
  lt_trans = ltb_trans;
}

abbrev metric : Text → ℕ → Metric whole
metric name x = record { name = name; value = some x }

abbrev sample : Text → List (Metric whole) → Option (Sample whole)
sample status metrics = some (record { status = some status; metrics = metrics })

abbrev files : List (Option (Sample whole))
files =
    sample (codes "passed") (metric (codes "start") 4 ∷ metric (codes "run") 7 ∷ [])
    ∷ sample (codes "failed") (metric (codes "start") 1 ∷ [])
    ∷ none
    ∷ sample (codes "passed") (metric (codes "start") 3 ∷ [])
    ∷ []

abbrev report : ModeReport whole
report = record {
  completed_samples = 3;
  passed_samples = 2;
  summary =
      record { name = codes "run"; count = 1; minimum = 7; mean = 7; median = 7; maximum = 7 }
      ∷ record { name = codes "start"; count = 2; minimum = 3; mean = 4; median = 4; maximum = 4 }
      ∷ [];
}

reported : report_mode whole files ≡ ok report
unfolding report_mode text_le
reported = refl

report_mode-IsReport_example :
    (r : ModeReport whole) × (report_mode whole files ≡ ok r) × IsReport whole files r
unfolding passed
report_mode-IsReport_example =
    report_mode-IsReport whole files (((4, refl), ((7, refl), tt)), (((3, refl), tt), tt))
