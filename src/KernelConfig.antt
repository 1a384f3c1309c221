-- ===== src/KernelConfig.antt =====
-- image/aws/pvm/scripts/validate-kernel-config.py: reading a kernel configuration, and the options
-- that a host or a guest must have.
pub mod Reading
pub mod Validation
pub mod Tests
use xolis.Base.{
  ℕ, Bool, true, false, ◌&&◌, ◌||◌, not, Option, none, some, List, [], ◌∷◌, ◌++◌, map, ltb, ◌==◌,
  nat_eq, list_eq, if◌then◌else◌,
}
use xolis.Text.{text_le, Text, codes, is_space}
use xolis.Text.Sort.{sort_by}

-- `dict[str, str]`: the assignments, the last one first.
abbrev pub Values : Type 0
Values = List (Text × Text)

unfoldable pub same_text : Text → Text → Bool
same_text a b = a == b

unfoldable pub get : Text → Values → Option Text
unfolding same_text
get name [] = none
get name ((n, v) ∷ values) = if same_text name n then some v else get name values

-- `text.lstrip(...)` and `text.strip(...)` of the characters that satisfy a test
unfoldable pub lstrip : (ℕ → Bool) → Text → Text
lstrip drops [] = []
lstrip drops (c ∷ s) = let rest = lstrip drops s in if drops c then rest else c ∷ s

abbrev pub prepend_kept : (ℕ → Bool) → ℕ → Text → Text
prepend_kept drops c [] = if drops c then [] else c ∷ []
prepend_kept drops c (d ∷ s) = c ∷ d ∷ s

unfoldable pub rstrip : (ℕ → Bool) → Text → Text
rstrip drops [] = []
rstrip drops (c ∷ s) = prepend_kept drops c (rstrip drops s)

unfoldable pub strip : (ℕ → Bool) → Text → Text
unfolding lstrip rstrip
strip drops s = rstrip drops (lstrip drops s)

abbrev pub is_quote : ℕ → Bool
is_quote c = c == 34

-- `text.removeprefix(prefix)`, if the text starts with it
unfoldable pub after_prefix : Text → Text → Option Text
after_prefix [] s = some s
after_prefix (p ∷ ps) [] = none
after_prefix (p ∷ ps) (c ∷ s) = let rest = after_prefix ps s in if p == c then rest else none

-- `text.removesuffix(suffix)`, if the text ends with it
unfoldable pub before_suffix : Text → Text → Option Text
unfolding same_text
before_suffix suffix [] = if same_text suffix [] then some [] else none
before_suffix suffix (c ∷ s) =
    if same_text suffix (c ∷ s) then some [] else prepend (before_suffix suffix s)
  where
    prepend : Option Text → Option Text
    prepend none = none
    prepend (some t) = some (c ∷ t)

-- `line.split("=", 1)`, if the line has the sign
unfoldable pub split_equals : Text → Option (Text × Text)
split_equals [] = none
split_equals (c ∷ s) = let rest = split_equals s in if c == 61 then some ([], s) else prepend rest
  where
    prepend : Option (Text × Text) → Option (Text × Text)
    prepend none = none
    prepend (some (name, value)) = some (c ∷ name, value)

abbrev pub has_prefix : Text → Text → Bool
has_prefix prefix s = elim (after_prefix prefix s) [ none ↦ false | some r ↦ true ]

abbrev pub unset_name : Option Text → Option Text
unset_name none = none
unset_name (some t) =
    if has_prefix (codes "CONFIG_") t then before_suffix (codes " is not set") t else none

abbrev pub unset : Option Text → Option (Text × Text)
unset none = none
unset (some name) = some (name, codes "n")

abbrev pub assignment : Text → Option (Text × Text) → Option (Text × Text)
assignment line (some (name, value)) =
    if has_prefix (codes "CONFIG_") line
    then some (name, strip is_quote value)
    else unset (unset_name (after_prefix (codes "# ") line))
assignment line none = unset (unset_name (after_prefix (codes "# ") line))

-- What a line of the file sets.
unfoldable pub read_line : Text → Option (Text × Text)
unfolding strip after_prefix before_suffix split_equals
read_line raw_line = let line = strip is_space raw_line in assignment line (split_equals line)

abbrev pub add : Option (Text × Text) → Values → Values
add none values = values
add (some p) values = p ∷ values

-- The loop of `read_config` over the file's lines.
unfoldable pub read_lines : Values → List Text → Values
unfolding read_line
read_lines values [] = values
read_lines values (line ∷ lines) = read_lines (add (read_line line) values) lines

unfoldable pub read_config : List Text → Values
unfolding read_lines
read_config lines = read_lines [] lines

abbrev pub or_missing : Option Text → Text
or_missing none = codes "missing"
or_missing (some v) = v

abbrev pub is_value : Option Text → Text → Bool
is_value none required = false
is_value (some v) required = same_text v required

abbrev pub exact_failures : Values → List (Text × Text) → List Text
exact_failures values [] = []
exact_failures values ((name, required) ∷ expected) =
    if is_value (get name values) required
    then exact_failures values expected
    else (name
        ++ (codes " must be " ++ (required ++ (codes ", found " ++ or_missing (get name values)))))
      ∷ exact_failures values expected

unfoldable pub validate_exact : Values → List (Text × Text) → List Text
unfolding get sort_by
validate_exact values expected = exact_failures values (sort_by (λ p. p.0) expected)

abbrev pub built_in_or_module : Option Text → Bool
built_in_or_module o = is_value o (codes "y") || is_value o (codes "m")

abbrev pub module_failures : Values → List Text → List Text
module_failures values [] = []
module_failures values (name ∷ names) =
    if built_in_or_module (get name values)
    then module_failures values names
    else (name ++ (codes " must be built in or a module, found " ++ or_missing (get name values)))
      ∷ module_failures values names

-- `HOST_EXACT`
unfoldable pub host_exact : List (Text × Text)
host_exact =
    (codes "CONFIG_KVM", codes "m")
    ∷ (codes "CONFIG_KVM_PVM", codes "m")
    ∷ (codes "CONFIG_MODULES", codes "y")
    ∷ (codes "CONFIG_MODULE_UNLOAD", codes "y")
    ∷ (codes "CONFIG_PCI", codes "y")
    ∷ (codes "CONFIG_PCI_MSI", codes "y")
    ∷ (codes "CONFIG_NET_VENDOR_AMAZON", codes "y")
    ∷ (codes "CONFIG_CGROUPS", codes "y")
    ∷ (codes "CONFIG_CGROUP_BPF", codes "y")
    ∷ (codes "CONFIG_BPF_SYSCALL", codes "y")
    ∷ (codes "CONFIG_SECURITY_SELINUX", codes "y")
    ∷ (codes "CONFIG_SERIAL_8250", codes "y")
    ∷ (codes "CONFIG_SERIAL_8250_CONSOLE", codes "y")
    ∷ (codes "CONFIG_DEBUG_FS", codes "y")
    ∷ (codes "CONFIG_MAGIC_SYSRQ", codes "y")
    ∷ []

-- `HOST_BUILTIN_OR_MODULE`
unfoldable pub host_builtin_or_module : List Text
host_builtin_or_module =
    codes "CONFIG_BLK_DEV_NVME"
    ∷ codes "CONFIG_ENA_ETHERNET"
    ∷ codes "CONFIG_XFS_FS"
    ∷ codes "CONFIG_EXT4_FS"
    ∷ codes "CONFIG_OVERLAY_FS"
    ∷ codes "CONFIG_NF_CONNTRACK"
    ∷ codes "CONFIG_VHOST_NET"
    ∷ codes "CONFIG_VHOST_VSOCK"
    ∷ codes "CONFIG_VIRTIO_VSOCKETS"
    ∷ []

-- `GUEST_EXACT`
unfoldable pub guest_exact : List (Text × Text)
guest_exact =
    (codes "CONFIG_PVM_GUEST", codes "y")
    ∷ (codes "CONFIG_X86_PIE", codes "y")
    ∷ (codes "CONFIG_KVM_GUEST", codes "y")
    ∷ (codes "CONFIG_PARAVIRT", codes "y")
    ∷ (codes "CONFIG_PARAVIRT_XXL", codes "y")
    ∷ (codes "CONFIG_MITIGATION_PAGE_TABLE_ISOLATION", codes "y")
    ∷ (codes "CONFIG_MODULES", codes "n")
    ∷ (codes "CONFIG_KASAN", codes "n")
    ∷ (codes "CONFIG_VSOCKETS", codes "y")
    ∷ (codes "CONFIG_VIRTIO_VSOCKETS", codes "y")
    ∷ (codes "CONFIG_VIRTIO_BLK", codes "y")
    ∷ (codes "CONFIG_VIRTIO_NET", codes "y")
    ∷ (codes "CONFIG_VIRTIO_CONSOLE", codes "y")
    ∷ (codes "CONFIG_HW_RANDOM_VIRTIO", codes "y")
    ∷ (codes "CONFIG_FUSE_FS", codes "y")
    ∷ (codes "CONFIG_VIRTIO_FS", codes "y")
    ∷ (codes "CONFIG_SERIAL_8250", codes "y")
    ∷ (codes "CONFIG_SERIAL_8250_CONSOLE", codes "y")
    ∷ (codes "CONFIG_DEBUG_FS", codes "y")
    ∷ (codes "CONFIG_MAGIC_SYSRQ", codes "y")
    ∷ []

unfoldable pub validate_host : Values → List Text
unfolding validate_exact
validate_host values =
    validate_exact values host_exact
    ++ module_failures values (sort_by (λ n. n) host_builtin_or_module)

pub data Role : Type 0 where
  host guest : Role

abbrev pub failures_of : Role → Values → List Text
failures_of host values = validate_host values
failures_of guest values = validate_exact values guest_exact

abbrev pub exit_status : List Text → ℕ
exit_status [] = 0
exit_status (failure ∷ failures) = 1

-- `main`, whose status tells whether the file is valid.
unfoldable pub main : Role → List Text → ℕ
unfolding read_config validate_host
main role lines = exit_status (failures_of role (read_config lines))
