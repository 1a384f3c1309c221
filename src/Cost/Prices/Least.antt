-- ===== src/Cost/Prices/Least.antt =====
-- The price that `price_per_unit` returns is offered, and none that is offered is lower.
use mathlib.Core.Path.{subst}
use xolis.Base.{
  ◌≡◌, refl, ap, ◌∙◌, true, false, ◌⊎◌, inl, inr, Option, none, some, List, [], ◌∷◌, ◌++◌, Has,
  here, there, Bool-cases,
}
use xolis.Base.Result.{Result, ok, ◌>>=◌, >>=-returns}
use xolis.Base.Least.{least, least-IsLeast}
use xolis.Text.{Text}
use xolis.Cost.{Failure}
use xolis.Cost.Prices.{
  Floats, has_usage, Dimension, Product, PriceList, is_offered, price_of, for_each, add_dimension,
  add_term, add_product, minimum, price_per_unit,
}

module _ (f : Floats) where
  open f use {Float, lt, lt_irrefl, lt_trans}

  -- The prices that stand in the list: each under a dimension of a term of a product, for the unit,
  -- from the start of the range, the product having the usage.
  abbrev pub InDimension : Text → Dimension f → Float → Type 0
  InDimension unit d price = (is_offered f unit d ≡ true) × (d.usd ≡ some price)

  abbrev pub InTerm : Text → List (Dimension f) → Float → Type 0
  InTerm unit term price = (d : Dimension f) × Has term d × InDimension unit d price

  abbrev pub InProduct : Text → Option Text → Option (Product f) → Float → Type 0
  InProduct unit suffix none price = ⊥
  InProduct unit suffix (some product) price =
      (has_usage suffix product.usage_type ≡ true)
      × ((term : List (Dimension f)) × Has product.on_demand term × InTerm unit term price)

  abbrev pub IsOffer : Text → Option Text → PriceList f → Float → Type 0
  IsOffer unit suffix entries price =
      (entry : Option (Product f)) × Has entries entry × InProduct unit suffix entry price

  -- The prices that a loop appends are those for which `P` holds.
  record Adds (P : Float → Type 0) (before after : List Float) : Type 0 where
    kept : (x : Float) → Has before x → Has after x
    found : (x : Float) → P x → Has after x
    only : (x : Float) → Has after x → Has before x ⊎ P x

  Adds-refl : (P : Float → Type 0) (xs : List Float) → ((x : Float) → P x → ⊥) → Adds P xs xs
  Adds-refl P xs never = record {
    kept = λ x h. h;
    found = λ x p. absurd (never x p);
    only = λ x h. inl h;
  }

  nothing : {A : Type 0} {a : A} → Has {A = A} [] a → ⊥
  nothing h = elim h [ ]

  module _ {A : Type 0} (body : List Float → A → Result Failure (List Float))
      (Q : A → Float → Type 0)
      (adds : (b : List Float) (i : A) (a : List Float) → body b i ≡ ok a → Adds (Q i) b a) where
    for_each-Adds :
        (before : List Float) (items : List A) (after : List Float)
        → for_each f body before items ≡ ok after
        → Adds (λ x. (i : A) × Has items i × Q i x) before after
    unfolding for_each
    for_each-Adds before [] after h =
        let e : before ≡ after = cc in
        subst (Adds _ before) e (Adds-refl _ before (λ x p. nothing p.1))
    for_each-Adds before (item ∷ items) after h =
        let (between, first, rest) = >>=-returns (body before item) _ h in
        let a = adds before item between first in
        let b = for_each-Adds between items after rest in
        record {
          kept = λ x k. b.kept x (a.kept x k);
          found = λ x p. at a b x p.0 p.1 p.2;
          only = λ x k. back a x (b.only x k);
        }
      where
        at :
            {between : List Float}
            → Adds (Q item) before between
            → Adds (λ x. (i : A) × Has items i × Q i x) between after
            → (x : Float) (i : A) → Has (item ∷ items) i
            → Q i x
            → Has after x
        at a b x i here q = b.kept x (a.found x q)
        at a b x i (there m) q = b.found x (i, m, q)

        back :
            {between : List Float}
            → Adds (Q item) before between
            → (x : Float) → Has between x ⊎ ((i : A) × Has items i × Q i x)
            → Has before x ⊎ ((i : A) × Has (item ∷ items) i × Q i x)
        back a x (inr (i, m, q)) = inr (i, there m, q)
        back a x (inl m) = elim (a.only x m) [ inl k ↦ inl k | inr q ↦ inr (item, here, q) ]

  appended : (xs : List Float) (y : Float) → Has (xs ++ (y ∷ [])) y
  appended [] y = here
  appended (x ∷ xs) y = there (appended xs y)

  appended_kept : (xs : List Float) (y x : Float) → Has xs x → Has (xs ++ (y ∷ [])) x
  appended_kept [] y x h = absurd (nothing h)
  appended_kept (x ∷ xs) y _ here = here
  appended_kept (z ∷ xs) y x (there h) = there (appended_kept xs y x h)

  appended_only : (xs : List Float) (y x : Float) → Has (xs ++ (y ∷ [])) x → Has xs x ⊎ (y ≡ x)
  appended_only [] y _ here = inr refl
  appended_only [] y x (there h) = absurd (nothing h)
  appended_only (x ∷ xs) y _ here = inl here
  appended_only (z ∷ xs) y x (there h) = elim (appended_only xs y x h) [
    | inl k ↦ inl (there k)
    | inr e ↦ inr e
  ]

  add_price :
      (unit : Text) (before : List Float) (d : Dimension f) (after : List Float)
      (usd : Option Float)
      → d.usd ≡ usd
      → is_offered f unit d ≡ true
      → (price_of f usd >>= (λ x. ok (before ++ (x ∷ [])))) ≡ ok after
      → Adds (InDimension unit d) before after
  add_price unit before d after none e o h = cc
  add_price unit before d after (some y) e o h =
      let same : before ++ (y ∷ []) ≡ after = cc in
      subst (Adds (InDimension unit d) before) same (record {
        kept = appended_kept before y;
        found = λ x p. let q : y ≡ x = cc in subst (Has (before ++ (y ∷ []))) q (appended before y);
        only = λ x m. elim (appended_only before y x m) [
          | inl k ↦ inl k
          | inr q ↦ inr (o, e ∙ ap some q)
        ];
      })

  add_dimension-Adds :
      (unit : Text) (before : List Float) (d : Dimension f) (after : List Float)
      → add_dimension f unit before d ≡ ok after
      → Adds (InDimension unit d) before after
  add_dimension-Adds unit before d after h = elim (Bool-cases (is_offered f unit d)) [
    | inl o ↦ add_price unit before d after d.usd refl o (rw o at h)
    | inr o ↦
        let same : before ≡ after = cc (rw o at h) in
        subst (Adds (InDimension unit d) before) same (Adds-refl _ before (λ x p. cc))
  ]

  add_product-Adds :
      (unit : Text) (suffix : Option Text) (before : List Float) (entry : Option (Product f))
      (after : List Float)
      → add_product f unit suffix before entry ≡ ok after
      → Adds (InProduct unit suffix entry) before after
  add_product-Adds unit suffix before none after h = cc
  add_product-Adds unit suffix before (some product) after h =
      elim (Bool-cases (has_usage suffix product.usage_type)) [
        | inl u ↦
            let a =
              for_each-Adds (add_term f unit) (InTerm unit)
                (for_each-Adds (add_dimension f unit) (InDimension unit) (add_dimension-Adds unit))
                before product.on_demand after (rw u at h) in
            record {
              kept = a.kept;
              found = λ x p. a.found x p.1;
              only = λ x m. elim (a.only x m) [ inl k ↦ inl k | inr p ↦ inr (u, p) ];
            }
        | inr u ↦
            let same : before ≡ after = cc (rw u at h) in
            subst (Adds (InProduct unit suffix (some product)) before) same
              (Adds-refl _ before (λ x p. cc))
      ]

  -- `best` is no larger than a price at hand.
  abbrev pub NoneBelow : Float → (Float → Type 0) → Type 0
  NoneBelow best P = (x : Float) → P x → lt x best ≡ false

  -- The price that is returned stands in the list, for the unit and the usage, and no other price
  -- there for them is below it.
  pub price_per_unit-IsLeast :
      (unit : Text) (suffix : Option Text) (entries : PriceList f) (price : Float)
      → price_per_unit f unit suffix entries ≡ ok price
      → IsOffer unit suffix entries price × NoneBelow price (IsOffer unit suffix entries)
  unfolding price_per_unit
  price_per_unit-IsLeast unit suffix entries price h =
      let (candidates, added, found) =
        >>=-returns (for_each f (add_product f unit suffix) [] entries) (minimum f) h in
      let a =
        for_each-Adds (add_product f unit suffix) (InProduct unit suffix)
          (add_product-Adds unit suffix) [] entries candidates added in
      of_candidates candidates a found
    where
      of_candidates :
          (candidates : List Float)
          → Adds (IsOffer unit suffix entries) [] candidates
          → minimum f candidates ≡ ok price
          → IsOffer unit suffix entries price × NoneBelow price (IsOffer unit suffix entries)
      of_candidates [] a m = cc
      of_candidates (c ∷ cs) a m =
          let l = least-IsLeast lt lt_irrefl lt_trans c cs in
          let e : least lt c cs ≡ price = cc in
          subst (λ p. IsOffer unit suffix entries p × NoneBelow p (IsOffer unit suffix entries)) e
            (
              elim (a.only (least lt c cs) l.member) [ inl k ↦ absurd (nothing k) | inr o ↦ o ],
              λ x o. l.low x (a.found x o),
            )
