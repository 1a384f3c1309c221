-- ===== src/Base/Result.antt =====
-- Code that may raise: a value or an error.
use mathlib.Core.Path.{◌≡◌, refl, ap, ◌∙◌}

pub data Result {ℓ κ} (E : Type ℓ) (A : Type κ) : Type (ℓ ⊔ κ) where
  ok : A → Result E A
  err : E → Result E A

infixl 5 ◌>>=◌
abbrev pub ◌>>=◌ {ℓ κ ι} :
    {E : Type ℓ} {A : Type κ} {B : Type ι} → Result E A → (A → Result E B) → Result E B
ok a >>= f = f a
err e >>= f = err e

-- `except E as e: raise g(e)`
abbrev pub map_err {ℓ κ ι} :
    {E : Type ℓ} {F : Type κ} {A : Type ι} → (E → F) → Result E A → Result F A
map_err g (ok a) = ok a
map_err g (err e) = err (g e)

-- The error that a call must not return: what holds of every value.
abbrev pub OnOk {ℓ κ ι} : {E : Type ℓ} {A : Type κ} → (A → Type ι) → Result E A → Type ι
OnOk P (ok a) = P a
OnOk P (err e) = Unit

-- What went before a sequence returned.
pub >>=-returns {ℓ κ ι} :
    {E : Type ℓ} {A : Type κ} {B : Type ι} (first : Result E A) (next : A → Result E B) {last : B}
    → ◌≡◌ {A = Result E B} (first >>= next) (ok last)
    → (value : A) × (first ≡ ok value) × (next value ≡ ok last)
>>=-returns (err e) next h = cc
>>=-returns (ok value) next h = (value, refl, h)

pub >>=-ok {ℓ κ ι} :
    {E : Type ℓ} {A : Type κ} {B : Type ι} (first : Result E A) (next : A → Result E B) {value : A}
    {last : B}
    → first ≡ ok value
    → next value ≡ ok last
    → ◌≡◌ {A = Result E B} (first >>= next) (ok last)
>>=-ok first next h k = ap (λ r. r >>= next) h ∙ k
