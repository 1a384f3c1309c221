-- ===== src/Cost/Snapshots/Paging.antt =====
-- The loop of `snapshot_allocated_bytes` against the chain of pages that the service gives.
use xolis.Base.{
  ℕ, zero, suc, ◌+◌, ◌*◌, ◌≤◌, ◌<◌, ◌≡◌, refl, sym, ap, ◌∙◌, ◌↔◌, ◌⊎◌, inl, inr, true, false,
  Option, none, some, arith, ◌==◌, nat_eq, Bool-cases, if◌then◌else◌,
}
use xolis.Base.Result.{Result, ok, ◌>>=◌, >>=-returns}
use xolis.Text.{Text}
use xolis.Cost.{Failure, Response, AwsCli, World, run_json}
use xolis.Cost.Snapshots.{
  is_given, page_arguments, size_of, changes, after_page, read_pages, snapshot_allocated_bytes,
}

-- The block size of an earlier page, if there was one, is this one.
abbrev Fits : Option ℕ → ℕ → Type 0
Fits none size = Unit
Fits (some known) size = known ≡ size

-- What a page that the loop accepts comes to: the end, or the pages that follow.
abbrev Step : Option ℕ → ℕ → (Option Text → Option ℕ → ℕ → Result Failure ℕ) → Response → ℕ → Type 0
Step known count more r n =
    (0 < size_of r.block_size)
    × Fits known (size_of r.block_size)
    × (((is_given r.next_token ≡ false) × (n ≡ (count + r.blocks) * size_of r.block_size))
        ⊎ ((is_given r.next_token ≡ true)
            × (more r.next_token (some (size_of r.block_size)) (count + r.blocks) ≡ ok n)))

changes_iff : (known : Option ℕ) (size : ℕ) → (changes known size ≡ false) ↔ Fits known size
changes_iff none size = (λ h. tt, λ h. refl)
changes_iff (some known) size = (λ h. ground arith, λ h. ground arith)

after_page-ok :
    (known : Option ℕ) (count : ℕ) (more : Option Text → Option ℕ → ℕ → Result Failure ℕ)
    (r : Response) (n : ℕ)
    → after_page known count more r ≡ ok n
    → Step known count more r n
unfolding after_page
after_page-ok known count more r n h = elim (Bool-cases (size_of r.block_size == 0)) [
  | inl z ↦ cc (rw z at h)
  | inr p ↦ elim (Bool-cases (changes known (size_of r.block_size))) [
    | inl c ↦ cc (rw (p, c) at h)
    | inr c ↦ elim (Bool-cases (is_given r.next_token)) [
      | inl g ↦ (ground arith, (changes_iff known _).0 c, inr (g, (rw (p, c, g) at h)))
      | inr g ↦ (ground arith, (changes_iff known _).0 c, inl (g, cc (rw (p, c, g) at h)))
    ]
  ]
]

module _ (world : World) (aws : AwsCli) (snapshot_id : Text) where
  -- A reply to the request with this token, with a block size that is positive.
  pub record IsPage (token : Option Text) (size : ℕ) (r : Response) : Type 0 where
    pub read : run_json world aws (page_arguments snapshot_id token) ≡ ok r
    pub sized : size_of r.block_size ≡ size
    pub positive : 0 < size

  -- The pages that start at a token and have one block size: how many blocks they list, and how many
  -- pages they are. Each names the token of the next one, and the last one names none.
  pub data Pages (size : ℕ) : Option Text → ℕ → ℕ → Type 0 where
    last :
        {token : Option Text} {blocks pages : ℕ} (r : Response)
        → IsPage token size r
        → is_given r.next_token ≡ false
        → blocks ≡ r.blocks
        → pages ≡ 1
        → Pages size token blocks pages
    more :
        {token : Option Text} {blocks pages others rest : ℕ} (r : Response)
        → IsPage token size r
        → is_given r.next_token ≡ true
        → Pages size r.next_token others rest
        → blocks ≡ r.blocks + others
        → pages ≡ suc rest
        → Pages size token blocks pages

  pub record Counted (fuel : ℕ) (token : Option Text) (known : Option ℕ) (count n : ℕ)
      : Type 0 where
    pub size : ℕ
    pub blocks : ℕ
    pub pages : ℕ
    pub fits : Fits known size
    pub chain : Pages size token blocks pages
    pub enough : pages ≤ fuel
    pub total : n ≡ (count + blocks) * size

  read_pages-Counted :
      (fuel : ℕ) (token : Option Text) (known : Option ℕ) (count n : ℕ)
      → read_pages world aws snapshot_id fuel token known count ≡ ok n
      → Counted fuel token known count n
  unfolding read_pages
  read_pages-Counted zero token known count n h = cc
  read_pages-Counted (suc fuel) token known count n h =
      let (r, read, step) =
        >>=-returns (run_json world aws (page_arguments snapshot_id token))
          (after_page known count (read_pages world aws snapshot_id fuel)) h in
      let (p, f, c) = after_page-ok known count (read_pages world aws snapshot_id fuel) r n step in
      elim c [
        | inl (g, e) ↦ record {
          size = size_of r.block_size;
          blocks = r.blocks;
          pages = 1;
          fits = f;
          chain = last r (record { read = read; sized = refl; positive = p }) g refl refl;
          enough = omega arith;
          total = e;
        }
        | inr (g, e) ↦
            let next = read_pages-Counted fuel r.next_token _ (count + r.blocks) n e in
            record {
              size = size_of r.block_size;
              blocks = r.blocks + next.blocks;
              pages = suc next.pages;
              fits = f;
              chain =
                  more r (record { read = read; sized = refl; positive = p }) g
                    (rw next.fits next.chain) refl refl;
              enough = omega (arith, next.enough);
              total = next.total ∙ grind (arith, next.fits);
            }
      ]

  round_lem :
      {token : Option Text} {size : ℕ} (r : Response) (known : Option ℕ) (count : ℕ)
      (after : Option Text → Option ℕ → ℕ → Result Failure ℕ)
      → IsPage token size r
      → Fits known size
      → (run_json world aws (page_arguments snapshot_id token) >>= after_page known count after) ≡ (
          if is_given r.next_token
          then after r.next_token (some size) (count + r.blocks)
          else ok ((count + r.blocks) * size))
  unfolding after_page
  round_lem {token} {size} r known count after p f =
      let z : (size == 0) ≡ false = ground (arith, p.positive) in
      rw (p.read, p.sized, z, (changes_iff known size).1 f) refl

  Pages-read :
      (size : ℕ) {token : Option Text} {blocks pages : ℕ}
      → Pages size token blocks pages
      → (fuel : ℕ) (known : Option ℕ) (count : ℕ) → pages ≤ fuel
      → Fits known size
      → read_pages world aws snapshot_id fuel token known count ≡ ok ((count + blocks) * size)
  unfolding read_pages
  Pages-read size (last r p g b k) zero known count e f = absurd (omega arith)
  Pages-read size (last r p g b k) (suc fuel) known count e f =
      round_lem r known count (read_pages world aws snapshot_id fuel) p f ∙ rw (g, b) refl
  Pages-read size (more r p g rest b k) zero known count e f = absurd (omega arith)
  Pages-read size (more {others} r p g rest b k) (suc fuel) known count e f =
      round_lem r known count (read_pages world aws snapshot_id fuel) p f
      ∙ rw g (
          Pages-read size rest fuel (some size) (count + r.blocks) (omega arith) refl
          ∙ rw b (ap (λ (m : ℕ). ok (m * size)) (omega arith)))

  -- With fuel for a number of pages the function returns a number exactly when the service gives a
  -- chain of at most so many pages, all with one positive block size, and the number is that of the
  -- blocks on all the pages times their size.
  pub snapshot_allocated_bytes_iff :
      (fuel n : ℕ)
      → (snapshot_allocated_bytes world aws fuel snapshot_id ≡ ok n) ↔ Counted fuel none none 0 n
  unfolding snapshot_allocated_bytes
  snapshot_allocated_bytes_iff fuel n = (
    read_pages-Counted fuel none none 0 n,
    λ c. Pages-read c.size c.chain fuel none 0 c.enough c.fits ∙ ap ok (sym c.total),
  )
