-- ===== src/Hermes/Profile/Filled.antt =====
-- What `render` of render_hermes_profile.py takes, and that no placeholder is left in what it returns.
use xolis.Base.{
  ℕ, ◌≡◌, ◌↔◌, ◌⊎◌, refl, inl, inr, Bool, true, false, [], ◌∷◌, ◌++◌, All, arith, ◌==◌, nat_eq,
  list_eq, list_beq_iff, Bool-cases,
}
use xolis.Base.Result.{Result, ok, >>=-returns}
use xolis.Text.{Text, codes}
use xolis.Text.Replace.{replace, occurs}
use xolis.Text.Replace.Gone.{IsName, IsValue, IsOutside, occurs-replace, occurs-replaced}
use xolis.Hermes.Profile.{
  RenderError, Mode, is_digit, is_region_character, is_hex, ecr, repository, match_image, modes,
  fill, render,
}
use xolis.Hermes.Profile.Reference.{
  Reference, IsSome, Passes, match_image_sound, match_image_complete,
}

-- The placeholders of the template.
abbrev pub image_placeholder : Text
image_placeholder = codes "__HERMES_IMAGE_REFERENCE__"

abbrev pub profile_placeholder : Text
profile_placeholder = codes "__HERMES_PROFILE__"

abbrev pub mode_placeholder : Text
mode_placeholder = codes "__IMAGE_MODE__"

abbrev pub class_placeholder : Text
class_placeholder = codes "__RUNTIME_CLASS__"

abbrev pub IsFilled : Text → Type 0
IsFilled text =
    (occurs image_placeholder text ≡ false)
    × (occurs profile_placeholder text ≡ false)
    × (occurs mode_placeholder text ≡ false)
    × (occurs class_placeholder text ≡ false)

image-IsName : IsName image_placeholder
image-IsName = omega arith

profile-IsName : IsName profile_placeholder
profile-IsName = omega arith

mode-IsName : IsName mode_placeholder
mode-IsName = omega arith

class-IsName : IsName class_placeholder
class-IsName = omega arith

no_more : (b : Bool) → (b ≡ true → ⊥) → b ≡ false
no_more true h = absurd (h refl)
no_more false h = refl

module _ (reference image_mode template : Text) (mode : Mode) (r : IsValue reference)
    (m : IsValue image_mode) (p : IsValue mode.profile) (c : IsValue mode.runtime_class) where
  fill-IsFilled : IsFilled (fill reference image_mode mode template)
  unfolding fill replace
  fill-IsFilled =
      let t1 = replace image_placeholder reference template in
      let t2 = replace profile_placeholder mode.profile t1 in
      let t3 = replace mode_placeholder image_mode t2 in
      let t4 = replace class_placeholder mode.runtime_class t3 in
      (
        no_more (occurs image_placeholder t4) (λ h.
            occurs-replaced image_placeholder reference r image-IsName 0 template (
              occurs-replace profile_placeholder mode.profile p image_placeholder image-IsName 0 t1
                (occurs-replace mode_placeholder image_mode m image_placeholder image-IsName 0 t2 (
                  occurs-replace class_placeholder mode.runtime_class c image_placeholder
                    image-IsName 0 t3 h)))),
        no_more (occurs profile_placeholder t4) (λ h.
            occurs-replaced profile_placeholder mode.profile p profile-IsName 0 t1 (
              occurs-replace mode_placeholder image_mode m profile_placeholder profile-IsName 0 t2 (
                occurs-replace class_placeholder mode.runtime_class c profile_placeholder
                  profile-IsName 0 t3 h))),
        no_more (occurs mode_placeholder t4) (λ h.
            occurs-replaced mode_placeholder image_mode m mode-IsName 0 t2 (
              occurs-replace class_placeholder mode.runtime_class c mode_placeholder mode-IsName 0
                t3 h)),
        no_more (occurs class_placeholder t4)
            (occurs-replaced class_placeholder mode.runtime_class c class-IsName 0 t3),
      )

IsOutside-append : (a b : Text) → All IsOutside a → All IsOutside b → All IsOutside (a ++ b)
IsOutside-append [] b h k = k
IsOutside-append (c ∷ a) b h k = (h.0, IsOutside-append a b h.1 k)

IsOutside-of :
    (test : ℕ → Bool)
    → ((c : ℕ) → test c ≡ true → IsOutside c)
    → (a : Text) → Passes test a
    → All IsOutside a
IsOutside-of test f [] h = tt
IsOutside-of test f (c ∷ a) h = (f c h.0, IsOutside-of test f a h.1)

digit-IsOutside : (c : ℕ) → is_digit c ≡ true → IsOutside c
unfolding is_digit
digit-IsOutside c h = ground arith

region-IsOutside : (c : ℕ) → is_region_character c ≡ true → IsOutside c
unfolding is_region_character is_digit
region-IsOutside c h = ground arith

hex-IsOutside : (c : ℕ) → is_hex c ≡ true → IsOutside c
unfolding is_hex is_digit
hex-IsOutside c h = ground arith

ecr-IsOutside : All IsOutside ecr
ecr-IsOutside = ground arith

IsValue-account : (a b : Text) → IsSome is_digit a → All IsOutside b → IsValue (a ++ b)
IsValue-account [] b h k = elim h [ ]
IsValue-account (c ∷ a) b h k =
    (digit-IsOutside c h.0, IsOutside-append a b (IsOutside-of is_digit digit-IsOutside a h.1) k)

region_all : (a : Text) → IsSome is_region_character a → All IsOutside a
region_all [] h = elim h [ ]
region_all (c ∷ a) h = IsOutside-of is_region_character region-IsOutside (c ∷ a) h

Reference-IsValue : (reference : Text) → Reference reference → IsValue reference
Reference-IsValue reference parts =
    let tail =
      IsOutside-append repository parts.digest (ground arith)
        (IsOutside-of is_hex hex-IsOutside parts.digest parts.is_digest) in
    let middle =
      IsOutside-append parts.region (repository ++ parts.digest)
        (region_all parts.region parts.is_region) tail in
    rw parts.spelled (
      IsValue-account parts.account (ecr ++ (parts.region ++ (repository ++ parts.digest)))
        parts.is_account
        (IsOutside-append ecr (parts.region ++ (repository ++ parts.digest)) ecr-IsOutside middle))

abbrev pub HasValues : Text → Mode → Type 0
HasValues image_mode mode = IsValue image_mode × IsValue mode.profile × IsValue mode.runtime_class

-- The modes that there are.
abbrev pub IsImageMode : Text → Type 0
IsImageMode image_mode =
    (image_mode ≡ codes "oci") ⊎ ((image_mode ≡ codes "nydus") ⊎ (image_mode ≡ codes "pvm"))

IsImageMode-cases :
    (image_mode : Text) (mode : Mode) → modes image_mode ≡ ok mode → IsImageMode image_mode
unfolding modes
IsImageMode-cases image_mode mode h = elim (Bool-cases (image_mode == codes "oci")) [
  | inl e ↦ inl ((list_beq_iff image_mode (codes "oci")).0 e)
  | inr e ↦ elim (Bool-cases (image_mode == codes "nydus")) [
    | inl f ↦ inr (inl ((list_beq_iff image_mode (codes "nydus")).0 f))
    | inr f ↦ elim (Bool-cases (image_mode == codes "pvm")) [
      | inl g ↦ inr (inr ((list_beq_iff image_mode (codes "pvm")).0 g))
      | inr g ↦ absurd cc
    ]
  ]
]

modes_known :
    (image_mode : Text)
    → IsImageMode image_mode
    → (mode : Mode) × (modes image_mode ≡ ok mode) × HasValues image_mode mode
unfolding modes
modes_known image_mode (inl e) = rw e (
  record { profile = codes "hermes-agent-v1"; runtime_class = codes "xolis-kata" },
  refl,
  ground arith,
)
modes_known image_mode (inr (inl e)) = rw e (
  record { profile = codes "hermes-agent-nydus-v1"; runtime_class = codes "xolis-kata-nydus" },
  refl,
  ground arith,
)
modes_known image_mode (inr (inr e)) = rw e (
  record { profile = codes "hermes-agent-pvm-v1"; runtime_class = codes "xolis-kata-pvm" },
  refl,
  ground arith,
)

modes-HasValues :
    (image_mode : Text) (mode : Mode) → modes image_mode ≡ ok mode → HasValues image_mode mode
modes-HasValues image_mode mode h =
    let (known, e, values) = modes_known image_mode (IsImageMode-cases image_mode mode h) in
    let m : mode ≡ known = cc in rw m values

-- Whatever the template holds, no placeholder is left in what `render` returns.
pub render-IsFilled :
    (reference : Text) (read : Result RenderError Text) (image_mode text : Text)
    → render reference read image_mode ≡ ok text
    → IsFilled text
unfolding render
render-IsFilled reference read image_mode text h =
    let (matched, e1, h1) = >>=-returns (match_image reference) _ h in
    let (template, e2, h2) = >>=-returns read _ h1 in
    let (mode, e3, h3) = >>=-returns (modes image_mode) _ h2 in
    let (i, p, c) = modes-HasValues image_mode mode e3 in
    let q : text ≡ fill reference image_mode mode template = cc in
    rw q (
      fill-IsFilled reference image_mode template mode
        (Reference-IsValue reference (match_image_sound reference matched e1)) i p c)

-- With a template, `render` returns a text in which no placeholder is left, exactly for an image of a
-- private registry that is named by its digest and for one of the three modes.
pub render-ok_iff :
    (reference template image_mode : Text)
    → ((text : Text) × (render reference (ok template) image_mode ≡ ok text) × IsFilled text)
      ↔ (Reference reference × IsImageMode image_mode)
unfolding render
render-ok_iff reference template image_mode = (
  λ (text, h, filled).
      let (matched, e1, h1) = >>=-returns (match_image reference) _ h in
      let (mode, e3, h3) = >>=-returns (modes image_mode) _ h1 in
      (match_image_sound reference matched e1, IsImageMode-cases image_mode mode e3),
  λ (parts, i).
      let (mode, e, values) = modes_known image_mode i in
      let text = fill reference image_mode mode template in
      let rendered : ◌≡◌ {A = Result RenderError Text} (render reference (ok template) image_mode)
          (ok text) =
        rw (match_image_complete reference parts, e) refl in
      (text, rendered, render-IsFilled reference (ok template) image_mode text rendered),
)
