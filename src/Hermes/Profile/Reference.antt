-- ===== src/Hermes/Profile/Reference.antt =====
-- The references that `render` of render_hermes_profile.py takes.
use xolis.Base.{
  ℕ, zero, suc, ◌≡◌, refl, ap, ◌∙◌, inl, inr, Bool, true, false, [], ◌∷◌, ◌++◌, append-nil, length,
  All, arith, ◌==◌, nat_eq, list_eq, Bool-cases, if◌then◌else◌,
}
use xolis.Base.Result.{Result, ok, err, >>=-returns, >>=-ok}
use xolis.Text.{Text, codes}
use xolis.Hermes.Profile.{
  RenderError, not_immutable, is_digit, is_region_character, is_hex, drop_while, at_least_one,
  literal, exactly, at_end, ecr, repository, match_image, match_registry, match_region,
  match_repository, match_digest,
}

abbrev pub Passes : (ℕ → Bool) → Text → Type 0
Passes test s = All (λ c. test c ≡ true) s

abbrev pub IsSome : (ℕ → Bool) → Text → Type 0
IsSome test [] = ⊥
IsSome test (c ∷ s) = Passes test (c ∷ s)

-- A reference of a private registry by its digest: account, region and digest in their places.
pub record Reference (reference : Text) : Type 0 where
  pub account : Text
  pub region : Text
  pub digest : Text
  pub is_account : IsSome is_digit account
  pub is_region : IsSome is_region_character region
  pub is_digest : Passes is_hex digest
  pub digest_length : length digest ≡ 64
  pub spelled : reference ≡ account ++ (ecr ++ (region ++ (repository ++ digest)))

pub if-ok :
    (b : Bool) (x : Result RenderError Text) (r : Text)
    → (if b then x else err not_immutable) ≡ ok r
    → (b ≡ true) × (x ≡ ok r)
if-ok true x r h = (refl, h)
if-ok false x r h = absurd cc

module _ (test : ℕ → Bool) where
  drop_while-split : (s : Text) → (a : Text) × (s ≡ a ++ drop_while test s) × Passes test a
  unfolding drop_while
  drop_while-split [] = ([], refl, tt)
  drop_while-split (c ∷ s) = elim (Bool-cases (test c)) [
    | inl e ↦ let (a, p, q) = drop_while-split s in rw e (c ∷ a, ap (λ t. c ∷ t) p, (e, q))
    | inr e ↦ rw e ([], refl, tt)
  ]

  at_least_one-split :
      (s r : Text) → at_least_one test s ≡ ok r → (a : Text) × (s ≡ a ++ r) × IsSome test a
  unfolding at_least_one
  at_least_one-split [] r h = absurd cc
  at_least_one-split (c ∷ s) r h =
      let (e, k) = if-ok (test c) (ok (drop_while test s)) r h in
      let (a, p, q) = drop_while-split s in
      let l : drop_while test s ≡ r = cc in
      (c ∷ a, ap (λ t. c ∷ t) (p ∙ ap (λ t. a ++ t) l), (e, q))

  drop_while-append :
      (a : Text) (c : ℕ) (r : Text)
      → Passes test a
      → test c ≡ false
      → drop_while test (a ++ (c ∷ r)) ≡ c ∷ r
  unfolding drop_while
  drop_while-append [] c r h k = rw k refl
  drop_while-append (b ∷ a) c r h k = rw h.0 (drop_while-append a c r h.1 k)

  at_least_one-append :
      (a : Text) (c : ℕ) (r : Text)
      → IsSome test a
      → test c ≡ false
      → at_least_one test (a ++ (c ∷ r)) ≡ ok (c ∷ r)
  unfolding at_least_one
  at_least_one-append [] c r h k = elim h [ ]
  at_least_one-append (b ∷ a) c r h k = rw h.0 (ap ok (drop_while-append a c r h.1 k))

  exactly-split :
      (n : ℕ) (s r : Text)
      → exactly n test s ≡ ok r
      → (a : Text) × (s ≡ a ++ r) × Passes test a × (length a ≡ n)
  unfolding exactly
  exactly-split zero s r h = let e : s ≡ r = cc in ([], e, tt, refl)
  exactly-split (suc n) [] r h = absurd cc
  exactly-split (suc n) (c ∷ s) r h =
      let (e, k) = if-ok (test c) (exactly n test s) r h in
      let (a, p, q, l) = exactly-split n s r k in (c ∷ a, ap (λ t. c ∷ t) p, (e, q), ap suc l)

  exactly-append : (n : ℕ) (a : Text) → Passes test a → length a ≡ n → exactly n test a ≡ ok []
  unfolding exactly
  exactly-append zero [] h k = refl
  exactly-append zero (b ∷ a) h k = absurd (ground arith)
  exactly-append (suc n) [] h k = absurd (ground arith)
  exactly-append (suc n) (b ∷ a) h k = rw h.0 (exactly-append n a h.1 (omega arith))

literal-split : (p s r : Text) → literal p s ≡ ok r → s ≡ p ++ r
unfolding literal
literal-split [] s r h = cc
literal-split (d ∷ p) [] r h = absurd cc
literal-split (d ∷ p) (c ∷ s) r h =
    let (e, k) = if-ok (d == c) (literal p s) r h in
    let l = literal-split p s r k in let m : c ≡ d = ground arith in cc

literal-append : (p r : Text) → literal p (p ++ r) ≡ ok r
unfolding literal
literal-append [] r = refl
literal-append (d ∷ p) r = let e : (d == d) ≡ true = ground arith in rw e (literal-append p r)

at_end-eq : (s r : Text) → at_end s ≡ ok r → s ≡ []
at_end-eq [] r h = refl
at_end-eq (c ∷ s) r h = absurd cc

pub match_image_sound : (reference r : Text) → match_image reference ≡ ok r → Reference reference
unfolding match_image
match_image_sound reference r h =
    let (s1, e1, h1) = >>=-returns (at_least_one is_digit reference) match_registry h in
    let (s2, e2, h2) = >>=-returns (literal ecr s1) match_region h1 in
    let (s3, e3, h3) = >>=-returns (at_least_one is_region_character s2) match_repository h2 in
    let (s4, e4, h4) = >>=-returns (literal repository s3) match_digest h3 in
    let (s5, e5, h5) = >>=-returns (exactly 64 is_hex s4) at_end h4 in
    let (account, p1, q1) = at_least_one-split is_digit reference s1 e1 in
    let (region, p3, q3) = at_least_one-split is_region_character s2 s3 e3 in
    let (digest, p5, q5, l5) = exactly-split is_hex 64 s4 s5 e5 in
    let p2 = literal-split ecr s1 s2 e2 in
    let p4 = literal-split repository s3 s4 e4 in
    let p6 = ap (λ t. digest ++ t) (at_end-eq s5 r h5) ∙ append-nil digest in
    let tail = ap (λ t. repository ++ t) (p5 ∙ p6) in
    let middle = ap (λ t. ecr ++ t) (p3 ∙ ap (λ t. region ++ t) (p4 ∙ tail)) in
    record {
      account = account;
      region = region;
      digest = digest;
      is_account = q1;
      is_region = q3;
      is_digest = q5;
      digest_length = l5;
      spelled = p1 ∙ ap (λ t. account ++ t) (p2 ∙ middle);
    }

pub match_image_complete : (reference : Text) → Reference reference → match_image reference ≡ ok []
unfolding match_image is_region_character is_digit
match_image_complete reference parts =
    let account = parts.account in
    let region = parts.region in
    let digest = parts.digest in
    let tail = repository ++ digest in
    let e1 =
      at_least_one-append is_digit account 46 (codes "dkr.ecr." ++ (region ++ tail))
        parts.is_account refl in
    let e2 = literal-append ecr (region ++ tail) in
    let e3 =
      at_least_one-append is_region_character region 46
        (codes "amazonaws.com/xolis/xolis-runtime-hermes@sha256:" ++ digest) parts.is_region refl in
    let e4 = literal-append repository digest in
    let e5 = exactly-append is_hex 64 digest parts.is_digest parts.digest_length in
    rw parts.spelled (
      >>=-ok _ match_registry e1 (
        >>=-ok _ match_region e2
          (>>=-ok _ match_repository e3 (>>=-ok _ match_digest e4 (>>=-ok _ at_end e5 refl)))))
