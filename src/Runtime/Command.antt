-- ===== src/Runtime/Command.antt =====
-- `parse_command` of core.py: which commands the runtime accepts.
use xolis.Base.{
  ℕ, ◌≡◌, refl, sym, append-nil, ◌↔◌, true, false, ◌&&◌, List, [], ◌∷◌, ◌++◌, arith, Bool-cases,
  inl, inr, if◌then◌else◌,
}
use xolis.Base.Int.{ℤ, pos, ◌≤ℤ◌, leb_ℤ}
use xolis.Base.Result.{Result, ok, err}
use xolis.Text.{Text, is_space, is_blank}
use xolis.Text.Shlex.{SplitError, SplitResult, words, failed, split, quote, join, all_safe}
use xolis.Text.Shlex.Tokens.{split-ne-nil}
use xolis.Text.Shlex.RoundTrip.{split-join}
use xolis.Runtime.{RuntimeSettings}

-- `InvalidCommand`, one constructor for each place that raises it.
pub data InvalidCommand : Type 0 where
  empty_command : InvalidCommand
  timeout_out_of_range : ℤ → InvalidCommand
  unparsable_command : SplitError → InvalidCommand
  terminal_size_out_of_range : InvalidCommand
  not_a_start_message : InvalidCommand
  invalid_field_types : InvalidCommand

abbrev pub split_arguments : SplitResult → Result InvalidCommand (List Text)
split_arguments (words []) = err empty_command
split_arguments (words (w ∷ ws)) = ok (w ∷ ws)
split_arguments (failed e) = err (unparsable_command e)

unfoldable pub parse_command : RuntimeSettings → Text → ℤ → Result InvalidCommand (List Text)
parse_command settings command timeout_seconds =
    if is_blank command
    then err empty_command
    else if leb_ℤ (pos 1) timeout_seconds
        && leb_ℤ timeout_seconds settings.maximum_command_timeout_seconds
    then split_arguments (split command)
    else err (timeout_out_of_range settings.maximum_command_timeout_seconds)

split_arguments-ok :
    (r : SplitResult) (args : List Text) → split_arguments r ≡ ok args → r ≡ words args
split_arguments-ok (words []) args h = cc
split_arguments-ok (words (w ∷ ws)) args h = cc
split_arguments-ok (failed e) args h = cc

module _ (settings : RuntimeSettings) (command : Text) (timeout_seconds : ℤ) where
  -- What an accepted command satisfies.
  pub record IsAccepted (args : List Text) : Type 0 where
    pub not_blank : is_blank command ≡ false
    pub at_least_one : pos 1 ≤ℤ timeout_seconds
    pub at_most_maximum : timeout_seconds ≤ℤ settings.maximum_command_timeout_seconds
    pub arguments : split command ≡ words args

  IsAccepted-of_ok :
      (args : List Text)
      → parse_command settings command timeout_seconds ≡ ok args
      → IsAccepted args
  unfolding parse_command
  IsAccepted-of_ok args h = record {
    not_blank = ground arith;
    at_least_one = ground arith;
    at_most_maximum = ground arith;
    arguments = split_arguments-ok (split command) args (ground arith);
  }

  split_arguments-words :
      (args : List Text)
      → is_blank command ≡ false
      → split command ≡ words args
      → split_arguments (split command) ≡ ok args
  split_arguments-words [] b h = absurd (split-ne-nil command b h)
  split_arguments-words (w ∷ ws) b h = rw h

  ok_of_accepted :
      (args : List Text)
      → IsAccepted args
      → parse_command settings command timeout_seconds ≡ ok args
  unfolding parse_command
  ok_of_accepted args a = ground (arith, split_arguments-words args a.not_blank a.arguments)

  -- A command is accepted with given arguments exactly when it is not blank, its timeout lies
  -- between one second and the configured maximum, and the shell-like splitting yields them.
  pub parse_command-ok_iff :
      (args : List Text)
      → (parse_command settings command timeout_seconds ≡ ok args) ↔ IsAccepted args
  parse_command-ok_iff args = (IsAccepted-of_ok args, ok_of_accepted args)

safe-not_space : (c : ℕ) (s : Text) → all_safe (c ∷ s) ≡ true → is_space c ≡ false
unfolding all_safe is_space
safe-not_space c s h = ground arith

blank-quote_append : (w t : Text) → is_blank (quote w ++ t) ≡ false
unfolding quote is_blank is_space
blank-quote_append [] t = refl
blank-quote_append (c ∷ s) t = elim (Bool-cases (all_safe (c ∷ s))) [
  | inl e ↦ rw e (rw (safe-not_space c s e))
  | inr e ↦ rw e
]

blank-join : (w : Text) (ws : List Text) → is_blank (join (w ∷ ws)) ≡ false
unfolding join
blank-join w [] = rw (sym (append-nil (quote w))) (blank-quote_append w [])
blank-join w (v ∷ ws) = blank-quote_append w _

-- A non-empty argument list, joined by `shlex.join` as clients do, is accepted as exactly that list
-- whenever the timeout is in range.
pub parse_command-join :
    (settings : RuntimeSettings) (w : Text) (ws : List Text) (timeout_seconds : ℤ)
    → pos 1 ≤ℤ timeout_seconds
    → timeout_seconds ≤ℤ settings.maximum_command_timeout_seconds
    → parse_command settings (join (w ∷ ws)) timeout_seconds ≡ ok (w ∷ ws)
parse_command-join settings w ws timeout_seconds low high =
    ok_of_accepted settings (join (w ∷ ws)) timeout_seconds (w ∷ ws) (record {
      not_blank = blank-join w ws;
      at_least_one = low;
      at_most_maximum = high;
      arguments = split-join (w ∷ ws);
    })
