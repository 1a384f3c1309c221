-- ===== src/Text/Shlex.antt =====
-- Python's `shlex` as the program uses it: POSIX mode, split on white space, no comments.
pub mod RoundTrip
pub mod Tokens
use xolis.Base.{
  ℕ, ◌≡◌, Bool, true, false, ◌&&◌, ◌||◌, not, Option, none, some, List, [], ◌∷◌, ◌++◌, map, leb,
  ◌==◌, nat_eq, if◌then◌else◌, contains,
}
use xolis.Text.{Text, codes, join_with}

pub data SplitError : Type 0 where
  no_closing_quotation no_escaped_character : SplitError

pub data SplitResult : Type 0 where
  words : List Text → SplitResult
  failed : SplitError → SplitResult

-- The state of the reader. `escape back` returns to a quotation, or to a word by `none`.
pub data Mode : Type 0 where
  space word : Mode
  quotation : ℕ → Mode
  escape : Option ℕ → Mode

pub record Lexer : Type 0 where
  pub mode : Mode
  pub token : Text
  pub quoted : Bool
  pub tokens : List Text

abbrev pub start : List Text → Lexer
start ts = record { mode = space; token = []; quoted = false; tokens = ts }

abbrev pub is_white : ℕ → Bool
is_white c = c == 32 || (c == 9 || (c == 13 || c == 10))

abbrev pub is_quote : ℕ → Bool
is_quote c = c == 39 || c == 34

-- What is returned at a token's end: a token counts if it has text or was quoted.
abbrev pub flush : Text → Bool → List Text → List Text
flush [] true ts = ts ++ ([] ∷ [])
flush [] false ts = ts
flush (c ∷ t) q ts = ts ++ ((c ∷ t) ∷ [])

abbrev pub backslash_kept : Option ℕ → ℕ → Text
backslash_kept none c = []
backslash_kept (some q) c = if c == 92 || c == q then [] else 92 ∷ []

abbrev pub after_escape : Option ℕ → Mode
after_escape none = word
after_escape (some q) = quotation q

-- One character.
unfoldable pub step_at : Mode → Text → Bool → List Text → ℕ → Lexer
step_at space t q ts c =
    if is_white c
    then start (flush t q ts)
    else if c == 92
    then record { mode = escape none; token = t; quoted = q; tokens = ts }
    else if is_quote c
    then record { mode = quotation c; token = t; quoted = q; tokens = ts }
    else record { mode = word; token = c ∷ []; quoted = q; tokens = ts }
step_at word t q ts c =
    if is_white c
    then start (flush t q ts)
    else if is_quote c
    then record { mode = quotation c; token = t; quoted = q; tokens = ts }
    else if c == 92
    then record { mode = escape none; token = t; quoted = q; tokens = ts }
    else record { mode = word; token = t ++ (c ∷ []); quoted = q; tokens = ts }
step_at (quotation k) t q ts c =
    if c == k
    then record { mode = word; token = t; quoted = true; tokens = ts }
    else if c == 92 && k == 34
    then record { mode = escape (some k); token = t; quoted = true; tokens = ts }
    else record { mode = quotation k; token = t ++ (c ∷ []); quoted = true; tokens = ts }
step_at (escape back) t q ts c = record {
  mode = after_escape back;
  token = t ++ (backslash_kept back c ++ (c ∷ []));
  quoted = q;
  tokens = ts;
}

abbrev pub step : Lexer → ℕ → Lexer
step l c = step_at l.mode l.token l.quoted l.tokens c

unfoldable pub run : Lexer → Text → Lexer
run l [] = l
run l (c ∷ s) = run (step l c) s

-- The end of the text.
unfoldable pub finish_at : Mode → Text → Bool → List Text → SplitResult
finish_at space t q ts = words (flush t q ts)
finish_at word t q ts = words (flush t q ts)
finish_at (quotation k) t q ts = failed no_closing_quotation
finish_at (escape back) t q ts = failed no_escaped_character

abbrev pub finish : Lexer → SplitResult
finish l = finish_at l.mode l.token l.quoted l.tokens

-- `shlex.split(text)`
unfoldable pub split : Text → SplitResult
unfolding step_at run finish_at
split text = finish (run (start []) text)

-- The characters that `shlex.quote` lets stand: `[\w@%+=:,./-]`.
abbrev pub is_safe : ℕ → Bool
is_safe c =
    (leb 97 c && leb c 122)
    || ((leb 65 c && leb c 90) || ((leb 48 c && leb c 57) || contains (codes "_@%+=:,./-") c))

unfoldable pub all_safe : Text → Bool
all_safe [] = true
all_safe (c ∷ s) = is_safe c && all_safe s

-- `text.replace("'", "'\"'\"'")`
unfoldable pub escape_quotes : Text → Text
escape_quotes [] = []
escape_quotes (c ∷ s) =
    let rest = escape_quotes s in if c == 39 then codes "'\"'\"'" ++ rest else c ∷ rest

-- A text between single quotes.
unfoldable pub single_quoted : Text → Text
unfolding escape_quotes
single_quoted s = 39 ∷ (escape_quotes s ++ (39 ∷ []))

-- `shlex.quote(text)`
unfoldable pub quote : Text → Text
unfolding single_quoted all_safe
quote [] = codes "''"
quote (c ∷ s) = if all_safe (c ∷ s) then c ∷ s else single_quoted (c ∷ s)

-- `shlex.join(words)`
unfoldable pub join : List Text → Text
unfolding quote join_with
join ws = join_with (32 ∷ []) (map quote ws)
