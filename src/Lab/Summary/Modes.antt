-- ===== src/Lab/Summary/Modes.antt =====
-- What `write_benchmark_summary` reports of the samples of one mode.
use xolis.Base.{
  ℕ, suc, ◌≡◌, refl, ap, Option, none, some, List, [], ◌∷◌, length, All, Bool-cases, inl, inr,
  if◌then◌else◌,
}
use xolis.Base.Result.{ok}
use xolis.Lab.Summary.{Averages, Sample, has_passed, read_samples, passed, ModeReport, report_mode}
use xolis.Lab.Summary.Complete.{IsNumeric, IsSummary, summarize_samples-returns}

module _ (f : Averages) where
  -- How many files there are, and how many of a sample that passed.
  abbrev pub present : List (Option (Sample f)) → ℕ
  present [] = 0
  present (none ∷ files) = present files
  present (some sample ∷ files) = suc (present files)

  abbrev pub present_passed : List (Option (Sample f)) → ℕ
  present_passed [] = 0
  present_passed (none ∷ files) = present_passed files
  present_passed (some sample ∷ files) =
      if has_passed f sample.status then suc (present_passed files) else present_passed files

  length-passed :
      (files : List (Option (Sample f)))
      → length (passed f (read_samples f files)) ≡ present_passed files
  unfolding passed
  length-passed [] = refl
  length-passed (none ∷ files) = length-passed files
  length-passed (some sample ∷ files) = elim (Bool-cases (has_passed f sample.status)) [
    | inl e ↦ rw e (ap suc (length-passed files))
    | inr e ↦ rw e (length-passed files)
  ]

  length-read_samples :
      (files : List (Option (Sample f))) → length (read_samples f files) ≡ present files
  length-read_samples [] = refl
  length-read_samples (none ∷ files) = length-read_samples files
  length-read_samples (some sample ∷ files) = ap suc (length-read_samples files)

  -- The summary is that of the samples that passed, and the counts are those of the files.
  pub record IsReport (files : List (Option (Sample f))) (r : ModeReport f) : Type 0 where
    pub summarized : IsSummary f (passed f (read_samples f files)) r.summary
    pub passed_count : r.passed_samples ≡ present_passed files
    pub completed_count : r.completed_samples ≡ present files

  -- A report is returned if the metrics of the samples that passed are numbers. It counts the files
  -- that are there and those of a sample that passed, and its summary has each metric of a passed
  -- sample once, in order, with the number of passed samples that have it and with the least and the
  -- greatest of its values.
  pub report_mode-IsReport :
      (files : List (Option (Sample f)))
      → All (IsNumeric f) (passed f (read_samples f files))
      → (r : ModeReport f) × (report_mode f files ≡ ok r) × IsReport files r
  unfolding report_mode
  report_mode-IsReport files a =
      let samples = read_samples f files in
      let (summary, p, i) = summarize_samples-returns f (passed f samples) a in
      (
        record {
          completed_samples = length samples;
          passed_samples = length (passed f samples);
          summary = summary;
        },
        rw p refl,
        record {
          summarized = i;
          passed_count = length-passed files;
          completed_count = length-read_samples files;
        },
      )
