-- ===== src/KernelConfig/Reading.antt =====
-- What `read_config` of image/aws/pvm/scripts/validate-kernel-config.py makes of the lines of a file.
use xolis.Base.{
  ℕ, ◌≡◌, refl, sym, ap, ◌∙◌, ◌↔◌, Bool, true, false, Option, none, some, List, [], ◌∷◌, ◌++◌,
  append_assoc, length, length-append, arith, inl, inr, Bool-cases, ◌==◌, nat_eq, list_eq,
  list_beq_iff, contains,
}
use xolis.Text.{Text, codes, is_space}
use xolis.KernelConfig.{
  Values, get, same_text, lstrip, rstrip, prepend_kept, strip, is_quote, after_prefix,
  before_suffix, split_equals, unset, assignment, read_line, add, read_lines, read_config,
}

read_lines-append :
    (values : Values) (lines : List Text) (line : Text)
    → read_lines values (lines ++ (line ∷ [])) ≡ add (read_line line) (read_lines values lines)
unfolding read_lines
read_lines-append values [] line = refl
read_lines-append values (l ∷ lines) line = read_lines-append (add (read_line l) values) lines line

same_text_iff : (a b : Text) → (same_text a b ≡ true) ↔ (a ≡ b)
unfolding same_text
same_text_iff a b = list_beq_iff a b

get_self : (name v : Text) (values : Values) → get name ((name, v) ∷ values) ≡ some v
unfolding get
get_self name v values = rw ((same_text_iff name name).1 refl) refl

-- The last line decides on the option that it sets.
read_config-last :
    (lines : List Text) (line name v : Text)
    → read_line line ≡ some (name, v)
    → get name (read_config (lines ++ (line ∷ []))) ≡ some v
unfolding read_config
read_config-last lines line name v h =
    ap (get name) (read_lines-append [] lines line ∙ ap (λ o. add o (read_lines [] lines)) h)
    ∙ get_self name v (read_lines [] lines)

rstrip-last :
    (drops : ℕ → Bool) (s : Text) (c : ℕ)
    → drops c ≡ false
    → rstrip drops (s ++ (c ∷ [])) ≡ s ++ (c ∷ [])
unfolding rstrip
rstrip-last drops [] c h = rw h refl
rstrip-last drops (d ∷ []) c h = rw h refl
rstrip-last drops (d ∷ e ∷ s) c h = ap (prepend_kept drops d) (rstrip-last drops (e ∷ s) c h)

strip-visible :
    (drops : ℕ → Bool) (b : ℕ) (s : Text) (c : ℕ)
    → drops b ≡ false
    → drops c ≡ false
    → strip drops ((b ∷ s) ++ (c ∷ [])) ≡ (b ∷ s) ++ (c ∷ [])
unfolding strip lstrip
strip-visible drops b s c h k = rw h (rstrip-last drops (b ∷ s) c k)

split_equals-append :
    (name value : Text)
    → contains name 61 ≡ false
    → split_equals (name ++ (61 ∷ value)) ≡ some (name, value)
unfolding split_equals
split_equals-append [] value h = refl
split_equals-append (c ∷ name) value h =
    let e : (c == 61) ≡ false = ground arith in
    let k : contains name 61 ≡ false = ground arith in rw (e, split_equals-append name value k) refl

not_longer :
    (x : ℕ) (xs : Text) (c : ℕ) (s : Text) → same_text (x ∷ xs) (c ∷ (s ++ (x ∷ xs))) ≡ false
not_longer x xs c s = elim (Bool-cases (same_text (x ∷ xs) (c ∷ (s ++ (x ∷ xs))))) [
  | inl e ↦ absurd (
      omega (
        arith,
        ap length ((same_text_iff (x ∷ xs) (c ∷ (s ++ (x ∷ xs)))).0 e),
        length-append s (x ∷ xs),
      ))
  | inr e ↦ e
]

before_suffix-append : (x : ℕ) (xs s : Text) → before_suffix (x ∷ xs) (s ++ (x ∷ xs)) ≡ some s
unfolding before_suffix
before_suffix-append x xs [] = rw ((same_text_iff (x ∷ xs) (x ∷ xs)).1 refl) refl
before_suffix-append x xs (c ∷ s) = rw (not_longer x xs c s, before_suffix-append x xs s) refl

-- A line that sets an option to a value: the option's name after `CONFIG_`, and the value, which
-- ends in a given character.
abbrev pub set_line : Text → Text → ℕ → Text
set_line name v c = codes "CONFIG_" ++ (name ++ (61 ∷ (v ++ (c ∷ []))))

abbrev pub unset_line : Text → Text
unset_line name = codes "# CONFIG_" ++ (name ++ codes " is not set")

strip-set :
    (name v : Text) (c : ℕ)
    → is_space c ≡ false
    → strip is_space (set_line name v c) ≡ set_line name v c
unfolding is_space
strip-set name v c h =
    let e = ap (λ t. codes "CONFIG_" ++ t) (sym (append_assoc name (61 ∷ v) (c ∷ []))) in
    ap (strip is_space) e
    ∙ strip-visible is_space 67 (codes "ONFIG_" ++ (name ++ (61 ∷ v))) c refl h
    ∙ sym e

strip-unset : (name : Text) → strip is_space (unset_line name) ≡ unset_line name
unfolding is_space
strip-unset name =
    let e =
      ap (λ t. codes "# CONFIG_" ++ t) (sym (append_assoc name (codes " is not se") (116 ∷ []))) in
    ap (strip is_space) e
    ∙ strip-visible is_space 35 (codes " CONFIG_" ++ (name ++ codes " is not se")) 116 refl refl
    ∙ sym e

read_line-set :
    (name v : Text) (c : ℕ)
    → contains name 61 ≡ false
    → is_space c ≡ false
    → read_line (set_line name v c) ≡ some (codes "CONFIG_" ++ name, strip is_quote (v ++ (c ∷ [])))
unfolding read_line after_prefix
read_line-set name v c h k =
    ap (λ l. assignment l (split_equals l)) (strip-set name v c k)
    ∙ ap (assignment (set_line name v c))
        (split_equals-append (codes "CONFIG_" ++ name) (v ++ (c ∷ [])) h)

assignment-unset :
    (name : Text) (o : Option (Text × Text))
    → assignment (unset_line name) o ≡ some (codes "CONFIG_" ++ name, codes "n")
unfolding after_prefix
assignment-unset name none =
    ap unset (before_suffix-append 32 (codes "is not set") (codes "CONFIG_" ++ name))
assignment-unset name (some (n, v)) =
    ap unset (before_suffix-append 32 (codes "is not set") (codes "CONFIG_" ++ name))

read_line-unset :
    (name : Text) → read_line (unset_line name) ≡ some (codes "CONFIG_" ++ name, codes "n")
unfolding read_line
read_line-unset name =
    ap (λ l. assignment l (split_equals l)) (strip-unset name)
    ∙ assignment-unset name (split_equals (unset_line name))

-- A file whose last line sets an option to a value that ends in no white space gives the option that
-- value without the quotes around it, and one whose last line says that the option is not set gives
-- it the value `n`, whatever the lines before say.
pub read_config_lem :
    (lines : List Text) (name v : Text) (c : ℕ)
    → contains name 61 ≡ false
    → is_space c ≡ false
    → (get (codes "CONFIG_" ++ name) (read_config (lines ++ (set_line name v c ∷ [])))
        ≡ some (strip is_quote (v ++ (c ∷ []))))
      × (get (codes "CONFIG_" ++ name) (read_config (lines ++ (unset_line name ∷ [])))
          ≡ some (codes "n"))
read_config_lem lines name v c h k = (
  read_config-last lines (set_line name v c) (codes "CONFIG_" ++ name)
      (strip is_quote (v ++ (c ∷ []))) (read_line-set name v c h k),
  read_config-last lines (unset_line name) (codes "CONFIG_" ++ name) (codes "n")
      (read_line-unset name),
)
