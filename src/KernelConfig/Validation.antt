-- ===== src/KernelConfig/Validation.antt =====
-- The validation of image/aws/pvm/scripts/validate-kernel-config.py against what it requires.
use xolis.Base.{
  ◌≡◌, refl, sym, ◌∙◌, ◌↔◌, true, false, Option, none, some, List, [], ◌∷◌, ◌++◌, All, arith, ◌⊎◌,
  inl, inr, Bool-cases, nat_eq, list_eq, list_beq_iff,
}
use xolis.Text.{Text, codes}
use xolis.Text.Sort.{sort_by}
use xolis.Text.Sort.Order.{All-sort, sort-All}
use xolis.KernelConfig.{
  Values, get, same_text, is_value, exact_failures, validate_exact, built_in_or_module,
  module_failures, validate_host, host_exact, host_builtin_or_module, guest_exact, Role, host,
  guest, exit_status, failures_of, read_config, main,
}

-- What an option must be for the role.
abbrev pub HasOption : Values → (Text × Text) → Type 0
HasOption values (name, required) = get name values ≡ some required

abbrev pub IsBuiltInOrModule : Values → Text → Type 0
IsBuiltInOrModule values name =
    (get name values ≡ some (codes "y")) ⊎ (get name values ≡ some (codes "m"))

abbrev pub Meets : Role → Values → Type 0
Meets host values =
    All (HasOption values) host_exact × All (IsBuiltInOrModule values) host_builtin_or_module
Meets guest values = All (HasOption values) guest_exact

is_value_iff :
    (o : Option Text) (required : Text) → (is_value o required ≡ true) ↔ (o ≡ some required)
unfolding same_text
is_value_iff none r = (λ h. cc, λ h. cc)
is_value_iff (some v) r = ground (arith, list_beq_iff v r)

module _ (values : Values) where
  exact_failures_iff :
      (expected : List (Text × Text))
      → (exact_failures values expected ≡ []) ↔ All (HasOption values) expected
  exact_failures_iff [] = (λ h. tt, λ h. refl)
  exact_failures_iff ((name, required) ∷ expected) =
      elim (Bool-cases (is_value (get name values) required)) [
        | inl e ↦ rw e (
          λ h. ((is_value_iff (get name values) required).0 e, (exact_failures_iff expected).0 h),
          λ a. (exact_failures_iff expected).1 a.1,
        )
        | inr e ↦ rw e (
          λ h. absurd (impossible h),
          λ a. absurd (clash (sym e ∙ (is_value_iff (get name values) required).1 a.0)),
        )
      ]
    where
      clash : false ≡ true → ⊥
      clash h = cc

      impossible : {t : Text} {ts : List Text} → (t ∷ ts) ≡ [] → ⊥
      impossible h = cc

  built_in_or_module_iff :
      (name : Text) → (built_in_or_module (get name values) ≡ true) ↔ IsBuiltInOrModule values name
  built_in_or_module_iff name = ground (
    arith,
    is_value_iff (get name values) (codes "y"),
    is_value_iff (get name values) (codes "m"),
  )

  module_failures_iff :
      (names : List Text)
      → (module_failures values names ≡ []) ↔ All (IsBuiltInOrModule values) names
  module_failures_iff [] = (λ h. tt, λ h. refl)
  module_failures_iff (name ∷ names) = elim (Bool-cases (built_in_or_module (get name values))) [
    | inl e ↦ rw e (
      λ h. ((built_in_or_module_iff name).0 e, (module_failures_iff names).0 h),
      λ a. (module_failures_iff names).1 a.1,
    )
    | inr e ↦ rw e (
      λ h. absurd (impossible h),
      λ a. absurd (clash (sym e ∙ (built_in_or_module_iff name).1 a.0)),
    )
  ]
    where
      clash : false ≡ true → ⊥
      clash h = cc

      impossible : {t : Text} {ts : List Text} → (t ∷ ts) ≡ [] → ⊥
      impossible h = cc

append-nil_iff : (xs ys : List Text) → (xs ++ ys ≡ []) ↔ ((xs ≡ []) × (ys ≡ []))
append-nil_iff [] ys = (λ h. (refl, h), λ p. p.1)
append-nil_iff (x ∷ xs) ys = (λ h. cc, λ h. cc)

exit_status-zero_iff : (failures : List Text) → (exit_status failures ≡ 0) ↔ (failures ≡ [])
exit_status-zero_iff [] = (λ h. refl, λ h. refl)
exit_status-zero_iff (f ∷ fs) = (λ h. absurd (omega arith), λ h. cc)

exact_iff :
    (values : Values) (expected : List (Text × Text))
    → (validate_exact values expected ≡ []) ↔ All (HasOption values) expected
unfolding validate_exact
exact_iff values expected = (
  λ h.
      sort-All (λ p. p.0) (HasOption values) expected
        ((exact_failures_iff values (sort_by (λ p. p.0) expected)).0 h),
  λ a.
      (exact_failures_iff values (sort_by (λ p. p.0) expected)).1
        (All-sort (λ p. p.0) (HasOption values) expected a),
)

modules_iff :
    (values : Values) (names : List Text)
    → (module_failures values (sort_by (λ n. n) names) ≡ []) ↔ All (IsBuiltInOrModule values) names
modules_iff values names = (
  λ h.
      sort-All (λ n. n) (IsBuiltInOrModule values) names
        ((module_failures_iff values (sort_by (λ n. n) names)).0 h),
  λ a.
      (module_failures_iff values (sort_by (λ n. n) names)).1
        (All-sort (λ n. n) (IsBuiltInOrModule values) names a),
)

failures_iff : (role : Role) (values : Values) → (failures_of role values ≡ []) ↔ Meets role values
unfolding validate_host
failures_iff host values = (
  λ h.
      let (p, q) =
        (append-nil_iff (validate_exact values host_exact)
            (module_failures values (sort_by (λ n. n) host_builtin_or_module))).0
          h in
      ((exact_iff values host_exact).0 p, (modules_iff values host_builtin_or_module).0 q),
  λ m.
      (append-nil_iff (validate_exact values host_exact)
          (module_failures values (sort_by (λ n. n) host_builtin_or_module))).1
        ((exact_iff values host_exact).1 m.0, (modules_iff values host_builtin_or_module).1 m.1),
)
failures_iff guest values = exact_iff values guest_exact

-- The validator succeeds exactly when the file sets each option that the role fixes to its value,
-- and, for a host, each of the drivers to `y` or `m`.
pub main-zero_iff :
    (role : Role) (lines : List Text) → (main role lines ≡ 0) ↔ Meets role (read_config lines)
unfolding main
main-zero_iff role lines = (
  λ h.
      (failures_iff role (read_config lines)).0
        ((exit_status-zero_iff (failures_of role (read_config lines))).0 h),
  λ m.
      (exit_status-zero_iff (failures_of role (read_config lines))).1
        ((failures_iff role (read_config lines)).1 m),
)
