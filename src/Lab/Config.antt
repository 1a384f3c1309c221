-- ===== src/Lab/Config.antt =====
-- `LabConfig.validate` of tools/xolis_aws_lab.py.
use xolis.Base.{◌≡◌, ◌↔◌, Bool, true, false, ◌&&◌, not, List, [], ◌∷◌, arith, if◌then◌else◌}
use xolis.Base.Int.{pos, ◌≤ℤ◌, leb_ℤ}
use xolis.Base.Result.{Result, ok, err}
use xolis.Lab.{LabConfig, Failure, value_error}

abbrev pub is_empty {ℓ} : {A : Type ℓ} → List A → Bool
is_empty [] = true
is_empty (x ∷ xs) = false

unfoldable pub validate : LabConfig → Result Failure (Unit {0})
validate c =
    if not (
      leb_ℤ (pos 0) c.sandbox_min_size
      && leb_ℤ c.sandbox_min_size c.sandbox_desired_size
      && leb_ℤ c.sandbox_desired_size c.sandbox_max_size)
    then err value_error
    else if is_empty c.ready_command
    then err value_error
    else ok tt

-- What a configuration must satisfy.
pub record IsValid (c : LabConfig) : Type 0 where
  pub nonnegative : pos 0 ≤ℤ c.sandbox_min_size
  pub min_desired : c.sandbox_min_size ≤ℤ c.sandbox_desired_size
  pub desired_max : c.sandbox_desired_size ≤ℤ c.sandbox_max_size
  pub has_ready_command : is_empty c.ready_command ≡ false

IsValid-of_ok : (c : LabConfig) → validate c ≡ ok tt → IsValid c
unfolding validate
IsValid-of_ok c h = record {
  nonnegative = ground arith;
  min_desired = ground arith;
  desired_max = ground arith;
  has_ready_command = ground arith;
}

ok_of_valid : (c : LabConfig) → IsValid c → validate c ≡ ok tt
unfolding validate
ok_of_valid c v = ground arith

-- A configuration passes exactly when its sizes are ordered from zero up and there is a ready command.
pub validate-ok_iff : (c : LabConfig) → (validate c ≡ ok tt) ↔ IsValid c
validate-ok_iff c = (IsValid-of_ok c, ok_of_valid c)
