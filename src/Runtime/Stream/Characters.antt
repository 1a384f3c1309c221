-- ===== src/Runtime/Stream/Characters.antt =====
-- The text that a client of `stream_command` sees: each chunk is decoded on its own.
use mathlib.Core.Path.{ap₂}
use xolis.Base.{
  ℕ, ◌+◌, ◌/◌, ◌%◌, ◌≤◌, ◌<◌, ◌≡◌, refl, ap, sym, ◌∙◌, Bool, true, false, List, [], ◌∷◌, ◌++◌,
  arith, All, if◌then◌else◌, Bool-cases, inl, inr, take, length, take_of_length_le, ◌-◌,
}
use xolis.Base.Int.{ℤ, pos, pos_part, ◌-ℤ◌, leb_ℤ}
use xolis.Text.{Text}
use xolis.Text.Utf8.{decode, idle, replacement}
use xolis.Text.Utf8.Chunks.{decode_from-append, settle}
use xolis.Runtime.{Bytes, RuntimeSettings}
use xolis.Runtime.Stream.{
  StreamName, Drained, Emitted, emitted_on, add_emitted, stdout, stderr, same, output, Action, emit,
  Piece, Running, Arrival, item, reader_done, drained_from, piece_actions, tail_actions,
  process_actions, drain, account,
}
use xolis.Runtime.Capture.{admitted, admitted-eq-take}
use xolis.Runtime.Stream.Output.{pieces_on, received, pieces-drain}

abbrev event_text_of : StreamName → Action → Text
event_text_of name (emit (output other text)) = if same other name then text else []
event_text_of name _ = []

-- The text that the output events of one stream make together.
unfoldable pub event_text : StreamName → List Action → Text
event_text name [] = []
event_text name (a ∷ actions) = event_text_of name a ++ event_text name actions

-- No piece of the stream ends inside a character.
abbrev pub EndsBetween : StreamName → Piece → Type 0
EndsBetween name p = same p.name name ≡ true → settle idle p.content ≡ idle

event_text-tail :
    (name : StreamName) (seconds : ℤ) (p : Running) (timed_out : Bool)
    → event_text name (tail_actions seconds p timed_out) ≡ []
unfolding event_text tail_actions
event_text-tail name seconds p true = refl
event_text-tail name seconds p false = elim (Bool-cases p.exits_in_time) [
  | inl e ↦ rw e
  | inr e ↦ rw e
]

event_text-pieces :
    (name : StreamName) (ps : List Piece) (more : List Action)
    → event_text name more ≡ []
    → All (EndsBetween name) ps
    → event_text name (piece_actions ps ++ more) ≡ decode (pieces_on name ps)
unfolding event_text piece_actions pieces_on decode
event_text-pieces name [] more e h = e
event_text-pieces name (p ∷ ps) more e h = elim (Bool-cases (same p.name name)) [
  | inl s ↦ rw s (
      ap (λ u. decode p.content ++ u) (event_text-pieces name ps more e h.1)
      ∙ sym (decode_from-append idle p.content (pieces_on name ps) (h.0 s)))
  | inr s ↦ rw s (event_text-pieces name ps more e h.1)
]

process_text :
    (settings : RuntimeSettings) (seconds : ℤ) (p : Running) (name : StreamName)
    → event_text name (process_actions settings seconds p)
      ≡ event_text name (
          piece_actions (drained_from settings p).pieces
          ++ tail_actions seconds p (drained_from settings p).timed_out)
unfolding event_text process_actions
process_text settings seconds p name = refl

pub pieces_on-drained :
    (settings : RuntimeSettings) (p : Running) (name : StreamName)
    → pieces_on name (drained_from settings p).pieces
      ≡ take (pos_part settings.maximum_output_bytes) (received name 0 p.arrivals)
pieces_on-drained settings p stdout =
    pieces-drain settings.maximum_output_bytes stdout _ 0 p.arrivals
    ∙ ap (λ n. take n (received stdout 0 p.arrivals)) (omega arith)
pieces_on-drained settings p stderr =
    pieces-drain settings.maximum_output_bytes stderr _ 0 p.arrivals
    ∙ ap (λ n. take n (received stderr 0 p.arrivals)) (omega arith)

-- If no chunk that is yielded ends inside a character, a client sees the decoded first bytes that
-- arrived on the stream.
pub event_text-eq :
    (settings : RuntimeSettings) (seconds : ℤ) (p : Running) (name : StreamName)
    → All (EndsBetween name) (drained_from settings p).pieces
    → event_text name (process_actions settings seconds p)
      ≡ decode (take (pos_part settings.maximum_output_bytes) (received name 0 p.arrivals))
event_text-eq settings seconds p name h =
    process_text settings seconds p name
    ∙ (event_text-pieces name (drained_from settings p).pieces _
          (event_text-tail name seconds p (drained_from settings p).timed_out) h
        ∙ ap decode (pieces_on-drained settings p name))

abbrev split_arrivals : ℕ → ℕ → List Arrival
split_arrivals a b = item stdout (a ∷ []) ∷ item stdout (b ∷ []) ∷ reader_done ∷ reader_done ∷ []

abbrev more_pieces : Piece → Drained → Drained
more_pieces p rest = record { pieces = p ∷ rest.pieces; timed_out = rest.timed_out }

free_of_fits : (m used n : ℕ) → used + n ≤ m → 0 < n → leb_ℤ (pos m -ℤ pos used) (pos 0) ≡ false
free_of_fits m used n h k = ground arith

admitted_fits :
    (m used : ℕ) (chunk : Bytes) → used + length chunk ≤ m → admitted (pos m) used chunk ≡ chunk
admitted_fits m used chunk h =
    admitted-eq-take (pos m) used chunk ∙ take_of_length_le (m - used) chunk (omega arith)

-- A chunk that fits is yielded whole.
drain_fits :
    (m : ℕ) (e : Emitted) (name : StreamName) (chunk : Bytes) (rest : List Arrival)
    → 0 < length chunk
    → emitted_on e name + length chunk ≤ m
    → drain (pos m) e 0 (item name chunk ∷ rest)
      ≡ more_pieces
          (record { name = name; content = chunk })
          (drain (pos m) (add_emitted e name (length chunk)) 0 rest)
unfolding drain account
drain_fits m e name chunk rest p h = rw (
  free_of_fits m (emitted_on e name) (length chunk) h p,
  admitted_fits m (emitted_on e name) chunk h,
)

drained_split :
    (m a b : ℕ)
    → 2 ≤ m
    → drain (pos m) (record { on_stdout = 0; on_stderr = 0 }) 0 (split_arrivals a b) ≡ record {
      pieces =
          record { name = stdout; content = a ∷ [] }
          ∷ record { name = stdout; content = b ∷ [] }
          ∷ [];
      timed_out = false;
    }
drained_split m a b h =
    drain_fits m _ stdout (a ∷ []) _ (omega arith) (omega arith)
    ∙ ap (more_pieces _)
        (drain_fits m _ stdout (b ∷ []) _ (omega arith) (omega arith) ∙ (unfold drain in refl))

-- A byte that begins or continues a character of two bytes, decoded alone.
decode_alone : (b : ℕ) → 0x80 ≤ b → b < 0xe0 → decode (b ∷ []) ≡ replacement
unfolding decode
decode_alone b low high = ground arith

decode_together :
    (c : ℕ) → 0x80 ≤ c → c < 0x800 → decode ((0xc0 + c / 64) ∷ (0x80 + c % 64) ∷ []) ≡ c ∷ []
unfolding decode
decode_together c low high = ground arith

two_replacements :
    (a b : ℕ) (seconds : ℤ) (p : Running)
    → decode (a ∷ []) ≡ replacement
    → decode (b ∷ []) ≡ replacement
    → event_text stdout (
        emit (output stdout (decode (a ∷ [])))
        ∷ emit (output stdout (decode (b ∷ [])))
        ∷ tail_actions seconds p false)
      ≡ 0xfffd ∷ 0xfffd ∷ []
unfolding event_text
two_replacements a b seconds p h k =
    rw (h, k) (ap (λ t. 0xfffd ∷ 0xfffd ∷ t) (event_text-tail stdout seconds p false))

-- A character of two bytes that comes in two reads is lost: within the limit, the streamed text is
-- two replacement characters, although the bytes together decode to the character.
pub event_text_split :
    (settings : RuntimeSettings) (seconds : ℤ) (p : Running) (m c : ℕ)
    → settings.maximum_output_bytes ≡ pos m
    → 2 ≤ m
    → 0x80 ≤ c
    → c < 0x800
    → p.arrivals ≡ split_arrivals (0xc0 + c / 64) (0x80 + c % 64)
    → (event_text stdout (process_actions settings seconds p) ≡ 0xfffd ∷ 0xfffd ∷ [])
      × (decode ((0xc0 + c / 64) ∷ (0x80 + c % 64) ∷ []) ≡ c ∷ [])
event_text_split settings seconds p m c e two low high h =
    let a = 0xc0 + c / 64 in
    let b = 0x80 + c % 64 in
    (
      process_text settings seconds p stdout
          ∙ (ap
                (λ d.
                  event_text stdout (piece_actions d.pieces ++ tail_actions seconds p d.timed_out))
                (ap₂ (λ k l. drain k (record { on_stdout = 0; on_stderr = 0 }) 0 l) e h
                  ∙ drained_split m a b two)
              ∙ (unfold piece_actions in
                  two_replacements a b seconds p (decode_alone a (omega arith) (omega arith))
                    (decode_alone b (omega arith) (omega arith)))),
      decode_together c low high,
    )
