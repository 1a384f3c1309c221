-- ===== src/Hermes/ProfileTests.antt =====
-- Runs of render_hermes_profile.py, and instances of its theorems.
use xolis.Base.{◌≡◌, refl, ◌++◌}
use xolis.Base.Result.{ok, err}
use xolis.Text.{Text, codes}
use xolis.Hermes.Profile.{not_immutable, unknown_mode, render}
use xolis.Hermes.Profile.Reference.{Reference}
use xolis.Hermes.Profile.Filled.{IsFilled, IsImageMode, render-IsFilled, render-ok_iff}

abbrev digest : Text
digest = codes "0123456789abcdef0123456789abcdef0123456789abcdef0123456789abcdef"

abbrev reference : Text
reference =
    codes "123456789012.dkr.ecr.eu-west-1.amazonaws.com/xolis/xolis-runtime-hermes@sha256:"
    ++ digest

abbrev template : Text
template =
    codes "name: __HERMES_PROFILE__-pool\nimage: __HERMES_IMAGE_REFERENCE__\n____IMAGE_MODE____"

abbrev rendered : Text
rendered = codes "name: hermes-agent-pvm-v1-pool\nimage: " ++ (reference ++ codes "\n__pvm__")

rendered-eq : render reference (ok template) (codes "pvm") ≡ ok rendered
unfolding render
rendered-eq = refl

-- A tag is no digest.
tag-refused :
    render
      (codes "1.dkr.ecr.a.amazonaws.com/xolis/xolis-runtime-hermes:latest")
      (ok template)
      (codes "oci")
    ≡ err not_immutable
unfolding render
tag-refused = refl

mode-refused : render reference (ok template) (codes "tar") ≡ err unknown_mode
unfolding render
mode-refused = refl

filled : IsFilled rendered
filled = render-IsFilled reference (ok template) (codes "pvm") rendered rendered-eq

render-ok_iff_example : Reference reference × IsImageMode (codes "pvm")
render-ok_iff_example =
    (render-ok_iff reference template (codes "pvm")).0 (rendered, rendered-eq, filled)
