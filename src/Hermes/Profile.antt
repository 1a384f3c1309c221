-- ===== src/Hermes/Profile.antt =====
-- tools/render_hermes_profile.py: the profile of the demo, filled in from its template.
pub mod Reference
pub mod Filled
use xolis.Base.{
  ℕ, zero, suc, Bool, ◌&&◌, ◌||◌, List, [], ◌∷◌, ltb, leb, ◌==◌, nat_eq, list_eq, if◌then◌else◌,
}
use xolis.Base.Result.{Result, ok, err, ◌>>=◌}
use xolis.Text.{Text, codes}
use xolis.Text.Replace.{replace}

-- What `render` raises: a `ValueError` for the reference or the mode, or what reading the template does.
pub data RenderError : Type 0 where
  not_immutable unknown_mode unreadable : RenderError

-- `[0-9]`
unfoldable pub is_digit : ℕ → Bool
is_digit c = leb 48 c && leb c 57

-- `[a-z0-9-]`
unfoldable pub is_region_character : ℕ → Bool
unfolding is_digit
is_region_character c = (leb 97 c && leb c 122) || (is_digit c || c == 45)

-- `[0-9a-f]`
unfoldable pub is_hex : ℕ → Bool
unfolding is_digit
is_hex c = is_digit c || (leb 97 c && leb c 102)

unfoldable pub drop_while : (ℕ → Bool) → Text → Text
drop_while test [] = []
drop_while test (c ∷ s) = let rest = drop_while test s in if test c then rest else c ∷ s

-- `[...]+`, and what is left behind it
unfoldable pub at_least_one : (ℕ → Bool) → Text → Result RenderError Text
unfolding drop_while
at_least_one test [] = err not_immutable
at_least_one test (c ∷ s) = if test c then ok (drop_while test s) else err not_immutable

-- Characters that stand for themselves.
unfoldable pub literal : Text → Text → Result RenderError Text
literal [] s = ok s
literal (p ∷ ps) [] = err not_immutable
literal (p ∷ ps) (c ∷ s) = let rest = literal ps s in if p == c then rest else err not_immutable

-- `[...]{n}`
unfoldable pub exactly : ℕ → (ℕ → Bool) → Text → Result RenderError Text
exactly zero test s = ok s
exactly (suc n) test [] = err not_immutable
exactly (suc n) test (c ∷ s) =
    let rest = exactly n test s in if test c then rest else err not_immutable

abbrev pub at_end : Text → Result RenderError Text
at_end [] = ok []
at_end (c ∷ s) = err not_immutable

abbrev pub ecr : Text
ecr = codes ".dkr.ecr."

abbrev pub repository : Text
repository = codes ".amazonaws.com/xolis/xolis-runtime-hermes@sha256:"

-- The pattern from its digest on, and from each part before it.
abbrev pub match_digest : Text → Result RenderError Text
match_digest s = exactly 64 is_hex s >>= at_end

abbrev pub match_repository : Text → Result RenderError Text
match_repository s = literal repository s >>= match_digest

abbrev pub match_region : Text → Result RenderError Text
match_region s = at_least_one is_region_character s >>= match_repository

abbrev pub match_registry : Text → Result RenderError Text
match_registry s = literal ecr s >>= match_region

-- `IMAGE_PATTERN.fullmatch`. No class holds the dot behind it, so a run has one way to match.
unfoldable pub match_image : Text → Result RenderError Text
unfolding at_least_one literal exactly is_digit is_region_character is_hex
match_image reference = at_least_one is_digit reference >>= match_registry

pub record Mode : Type 0 where
  pub profile : Text
  pub runtime_class : Text

unfoldable pub modes : Text → Result RenderError Mode
modes image_mode =
    if image_mode == codes "oci"
    then ok (record { profile = codes "hermes-agent-v1"; runtime_class = codes "xolis-kata" })
    else if image_mode == codes "nydus"
    then ok (record {
      profile = codes "hermes-agent-nydus-v1";
      runtime_class = codes "xolis-kata-nydus";
    })
    else if image_mode == codes "pvm"
    then ok
        (record { profile = codes "hermes-agent-pvm-v1"; runtime_class = codes "xolis-kata-pvm" })
    else err unknown_mode

unfoldable pub fill : Text → Text → Mode → Text → Text
unfolding replace
fill reference image_mode mode template = replace (codes "__RUNTIME_CLASS__") mode.runtime_class (
    replace (codes "__IMAGE_MODE__") image_mode (
      replace (codes "__HERMES_PROFILE__") mode.profile
        (replace (codes "__HERMES_IMAGE_REFERENCE__") reference template)))

-- `render`, with what reading the template yields.
unfoldable pub render : Text → Result RenderError Text → Text → Result RenderError Text
unfolding match_image modes fill
render reference read image_mode = do
  matched ← match_image reference
  template ← read
  mode ← modes image_mode
  ok (fill reference image_mode mode template)
