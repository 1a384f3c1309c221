-- ===== src/Text/Shlex/RoundTrip.antt =====
-- `shlex.split` undoes `shlex.quote` and `shlex.join`.
use xolis.Base.{
  ℕ, ◌≡◌, refl, ap, sym, ◌∙◌, Bool, true, false, inl, inr, List, [], ◌∷◌, ◌++◌, arith, append_assoc,
  append-nil, ◌==◌, nat_eq, Bool-cases, if◌then◌else◌,
}
use xolis.Text.{Text}
use xolis.Text.Shlex.{
  words, space, word, quotation, Lexer, start, step, step_at, run, finish_at, finish, split, flush,
  is_safe, all_safe, escape_quotes, single_quoted, quote, join,
}

pub run-append : (l : Lexer) (s t : Text) → run l (s ++ t) ≡ run (run l s) t
unfolding run
run-append l [] t = refl
run-append l (c ∷ s) t = run-append (step l c) s t

abbrev in_word : Text → Bool → List Text → Lexer
in_word t q ts = record { mode = word; token = t; quoted = q; tokens = ts }

abbrev in_quotes : Text → Bool → List Text → Lexer
in_quotes t q ts = record { mode = quotation 39; token = t; quoted = q; tokens = ts }

safe_step :
    (c : ℕ) (t : Text) (q : Bool) (ts : List Text)
    → is_safe c ≡ true
    → step_at word t q ts c ≡ in_word (t ++ (c ∷ [])) q ts
unfolding step_at
safe_step c t q ts h = ground arith

safe_first :
    (c : ℕ) (ts : List Text)
    → is_safe c ≡ true
    → step_at space [] false ts c ≡ in_word (c ∷ []) false ts
unfolding step_at
safe_first c ts h = ground arith

-- Safe characters are added to the word.
run_safe :
    (s t : Text) (q : Bool) (ts : List Text)
    → all_safe s ≡ true
    → run (in_word t q ts) s ≡ in_word (t ++ s) q ts
unfolding run all_safe
run_safe [] t q ts h = ap (λ u. in_word u q ts) (sym (append-nil t))
run_safe (c ∷ s) t q ts h =
    rw
      (
        safe_step c t q ts (ground arith),
        run_safe s (t ++ (c ∷ [])) q ts (ground arith),
        append_assoc,
      )
      refl

quote_step :
    (c : ℕ) (t : Text) (q : Bool) (ts : List Text)
    → step_at (quotation 39) t q ts c
      ≡ (if c == 39 then in_word t true ts else in_quotes (t ++ (c ∷ [])) true ts)
unfolding step_at
quote_step c t q ts = ground arith

-- Between single quotes every character stands for itself.
run_escaped :
    (s t : Text) (q : Bool) (ts : List Text)
    → run (in_quotes t q ts) (escape_quotes s ++ (39 ∷ [])) ≡ in_word (t ++ s) true ts
unfolding run escape_quotes step_at
run_escaped [] t q ts = ap (λ u. in_word u true ts) (sym (append-nil t))
run_escaped (c ∷ s) t q ts =
    ground (arith, run_escaped s (t ++ (c ∷ [])) true ts, append_assoc t (c ∷ []) s)

pub run-single_quoted :
    (s : Text) (ts : List Text) → run (start ts) (single_quoted s) ≡ in_word s true ts
unfolding run single_quoted step_at
run-single_quoted s ts = run_escaped s [] false ts

abbrev was_quoted : Text → Bool
was_quoted [] = true
was_quoted (c ∷ s) = if all_safe (c ∷ s) then false else true

run-quote : (s : Text) (ts : List Text) → run (start ts) (quote s) ≡ in_word s (was_quoted s) ts
unfolding run quote step_at
run-quote [] ts = refl
run-quote (c ∷ s) ts = elim (Bool-cases (all_safe (c ∷ s))) [
  | inl e ↦ rw e (unquoted e)
  | inr e ↦ rw e (run-single_quoted (c ∷ s) ts)
]
  where
    unquoted : all_safe (c ∷ s) ≡ true → run (start ts) (c ∷ s) ≡ in_word (c ∷ s) false ts
    unquoted e = ground (arith, safe_first c ts, run_safe s (c ∷ []) false ts)

flush-was_quoted : (s : Text) (ts : List Text) → flush s (was_quoted s) ts ≡ ts ++ (s ∷ [])
flush-was_quoted [] ts = refl
flush-was_quoted (c ∷ s) ts = refl

pub flush-quoted : (s : Text) (ts : List Text) → flush s true ts ≡ ts ++ (s ∷ [])
flush-quoted [] ts = refl
flush-quoted (c ∷ s) ts = refl

flush-true : (s : Text) → flush s true [] ≡ s ∷ []
flush-true [] = refl
flush-true (c ∷ s) = refl

pub run_blank_after :
    (w : Text) (q : Bool) (ts : List Text) (rest : Text)
    → run (in_word w q ts) (32 ∷ rest) ≡ run (start (flush w q ts)) rest
unfolding run step_at
run_blank_after w q ts rest = refl

finish-run-join : (ws ts : List Text) → finish (run (start ts) (join ws)) ≡ words (ts ++ ws)
unfolding join run finish_at
finish-run-join [] ts = ap words (sym (append-nil ts))
finish-run-join (w ∷ []) ts = rw (run-quote w ts) (ap words (flush-was_quoted w ts))
finish-run-join (w ∷ v ∷ ws) ts =
    let rest = join (v ∷ ws) in
    ap finish (
      run-append (start ts) (quote w) (32 ∷ rest)
      ∙ (ap (λ l. run l (32 ∷ rest)) (run-quote w ts)
          ∙ (run_blank_after w (was_quoted w) ts rest
              ∙ ap (λ u. run (start u) rest) (flush-was_quoted w ts))))
    ∙ (finish-run-join (v ∷ ws) (ts ++ (w ∷ [])) ∙ ap words (append_assoc ts (w ∷ []) (v ∷ ws)))

-- Splitting joined words gives the words back, whatever characters they hold.
pub split-join : (ws : List Text) → split (join ws) ≡ words ws
unfolding split
split-join ws = finish-run-join ws []

-- A text between single quotes, its own quotes escaped, splits into that one text.
pub split-single_quoted : (s : Text) → split (single_quoted s) ≡ words (s ∷ [])
unfolding split
split-single_quoted s = rw (run-single_quoted s []) (ap words (flush-true s))
