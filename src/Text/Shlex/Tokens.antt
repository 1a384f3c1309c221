-- ===== src/Text/Shlex/Tokens.antt =====
-- What a text that is not blank splits into.
use xolis.Base.{
  ℕ, ◌≡◌, refl, ap, sym, ◌∙◌, ◌≢◌, Bool, true, false, ◌||◌, none, some, List, [], ◌∷◌, ◌++◌, arith,
  nat_eq, Bool-cases, inl, inr,
}
use xolis.Text.{Text, is_space, is_blank}
use xolis.Text.Shlex.{
  words, Mode, space, word, quotation, escape, Lexer, start, step, step_at, run, finish_at, finish,
  split, is_white,
}

abbrev nonempty {ℓ} : {A : Type ℓ} → List A → Bool
nonempty [] = false
nonempty (x ∷ xs) = true

-- A token has been returned, or one is under way.
abbrev busy_at : Mode → Text → Bool → List Text → Bool
busy_at m t q (u ∷ ts) = true
busy_at space t q [] = false
busy_at word t q [] = nonempty t || q
busy_at (quotation k) t q [] = true
busy_at (escape back) t q [] = true

abbrev busy : Lexer → Bool
busy l = busy_at l.mode l.token l.quoted l.tokens

nonempty-snoc {ℓ} : {A : Type ℓ} (xs : List A) (x : A) → nonempty (xs ++ (x ∷ [])) ≡ true
nonempty-snoc [] x = refl
nonempty-snoc (y ∷ xs) x = refl

busy-step :
    (m : Mode) (t : Text) (q : Bool) (ts : List Text) (c : ℕ)
    → busy_at m t q ts ≡ true
    → busy (step_at m t q ts c) ≡ true
unfolding step_at
busy-step space [] true (u ∷ ts) c h = ground arith
busy-step space [] false (u ∷ ts) c h = ground arith
busy-step space (d ∷ t) q (u ∷ ts) c h = ground arith
busy-step space t q [] c h = cc
busy-step word [] true ts c h = ground (arith)
busy-step word [] false (u ∷ ts) c h = ground arith
busy-step word [] false [] c h = cc
busy-step word (d ∷ t) q [] c h = ground arith
busy-step word (d ∷ t) q (u ∷ ts) c h = ground arith
busy-step (quotation k) t q [] c h = ground (arith, nonempty-snoc t c)
busy-step (quotation k) t q (u ∷ ts) c h = ground arith
busy-step (escape none) t q [] c h = ground (arith, nonempty-snoc t c)
busy-step (escape (some k)) t q [] c h = refl
busy-step (escape back) t q (u ∷ ts) c h = refl

busy-run : (l : Lexer) (s : Text) → busy l ≡ true → busy (run l s) ≡ true
unfolding run
busy-run l [] h = h
busy-run l (c ∷ s) h = busy-run (step l c) s (busy-step l.mode l.token l.quoted l.tokens c h)

finish-nonempty :
    (m : Mode) (t : Text) (q : Bool) (ts : List Text)
    → busy_at m t q ts ≡ true
    → finish_at m t q ts ≢ words []
unfolding finish_at
finish-nonempty space [] true (u ∷ ts) h = cc
finish-nonempty space [] false (u ∷ ts) h = cc
finish-nonempty space (c ∷ t) q (u ∷ ts) h = cc
finish-nonempty space t q [] h = cc
finish-nonempty word [] true [] h = cc
finish-nonempty word [] true (u ∷ ts) h = cc
finish-nonempty word [] false (u ∷ ts) h = cc
finish-nonempty word [] false [] h = cc
finish-nonempty word (c ∷ t) q [] h = cc
finish-nonempty word (c ∷ t) q (u ∷ ts) h = cc
finish-nonempty (quotation k) t q ts h = cc
finish-nonempty (escape back) t q ts h = cc

white-IsSpace : (c : ℕ) → is_white c ≡ true → is_space c ≡ true
unfolding is_space
white-IsSpace c h = ground arith

step-start : (c : ℕ) → is_white c ≡ false → busy (step_at space [] false [] c) ≡ true
unfolding step_at
step-start c h = ground arith

step_white : (c : ℕ) → is_white c ≡ true → step_at space [] false [] c ≡ start []
unfolding step_at
step_white c h = ground arith

finish-run_nonempty : (l : Lexer) (s : Text) → busy l ≡ true → finish (run l s) ≢ words []
finish-run_nonempty l s h =
    let r = run l s in finish-nonempty r.mode r.token r.quoted r.tokens (busy-run l s h)

-- From the start, only white space yields no token.
run_blank : (s : Text) → finish (run (start []) s) ≡ words [] → is_blank s ≡ true
unfolding run is_blank
run_blank [] h = refl
run_blank (c ∷ s) h = elim (Bool-cases (is_white c)) [
  | inl w ↦
      rw (white-IsSpace c w) (run_blank s (ap (λ l. finish (run l s)) (sym (step_white c w)) ∙ h))
  | inr b ↦ absurd (finish-run_nonempty (step (start []) c) s (step-start c b) h)
]

-- A text that is not blank never splits into nothing.
pub split-ne-nil : (s : Text) → is_blank s ≡ false → split s ≢ words []
unfolding split
split-ne-nil s h e = cc (h, run_blank s e)
