-- ===== src/KernelConfig/Tests.antt =====
-- Runs of the kernel configuration's validator, and instances of its theorems.
use xolis.Base.{◌≡◌, ◌↔◌, List, [], ◌∷◌, nat_eq}
use xolis.Text.{Text, codes}
use xolis.KernelConfig.{read_config, guest, main}
use xolis.KernelConfig.Validation.{Meets, main-zero_iff}

abbrev config_lines : List Text
config_lines = codes "# Linux" ∷ codes "CONFIG_KVM=m" ∷ codes "# CONFIG_KASAN is not set" ∷ []

main-zero_iff_example : (main guest config_lines ≡ 0) ↔ Meets guest (read_config config_lines)
main-zero_iff_example = main-zero_iff guest config_lines
