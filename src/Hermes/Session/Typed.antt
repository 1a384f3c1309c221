-- ===== src/Hermes/Session/Typed.antt =====
-- What is typed at the client reaches the terminal of the runtime's session.
use xolis.Base.{
  ℕ, ◌≡◌, refl, sym, ap, ◌∙◌, Bool, true, false, ◌&&◌, ◌||◌, Option, none, some, List, [], ◌∷◌,
  ◌++◌, append_assoc, append-nil, All, length,
}
use xolis.Base.Int.{ℤ}
use xolis.Text.{Text}
use xolis.Runtime.{Bytes}
use xolis.Runtime.Interactive.{
  Size, in_range, ClientMessage, TerminalAction, write, set_size, receive_input,
}
use xolis.Hermes.Session.{
  Sent, start, resize, input, close, cancel, pong, output, exit, error, timeout, other, not_json,
  Incoming, text, ping, closing, ignored, broken, Round, round, stopped, Client, runs, Ran, Wire,
  handle_frame, loop,
}
use xolis.Hermes.Session.Traffic.{resizes, inputs, after_inputs, run_round_lem}

-- What the runtime's session receives after the start message, in its own terms.
abbrev pub received : List Sent → List ClientMessage
received [] = []
received (start command ttl size ∷ sent) = received sent
received (resize size ∷ sent) =
    ClientMessage.resize (some size.rows) (some size.columns) ∷ received sent
received (input bytes ∷ sent) = ClientMessage.input (some bytes) ∷ received sent
received (close ∷ sent) = ClientMessage.close ∷ received sent
received (cancel ∷ sent) = ClientMessage.cancel ∷ received sent
received (pong payload ∷ sent) = received sent

-- The bytes that the session writes to its terminal.
abbrev pub written : List TerminalAction → Bytes
written [] = []
written (write bytes ∷ actions) = bytes ++ written actions
written (set_size size ∷ actions) = written actions

-- The bytes that the client reads from its standard input.
abbrev pub typed_in : Option Bytes → Bytes
typed_in none = []
typed_in (some bytes) = bytes

abbrev pub typed : List Round → Bytes
typed [] = []
typed (stopped f ∷ rounds) = typed rounds
typed (round found ∷ rounds) = typed_in found.stdin ++ typed rounds

-- Nothing stops the loop, the window has a size that the runtime takes, and the standard input has not
-- ended.
abbrev pub IsOpen : Option Bytes → Type 0
IsOpen (some []) = ⊥
IsOpen stdin = Unit

abbrev pub IsUsable : Round → Type 0
IsUsable (stopped f) = ⊥
IsUsable (round found) =
    ((in_range found.size.rows && in_range found.size.columns) ≡ true) × IsOpen found.stdin

abbrev pongs : Option Incoming → List Sent
pongs (some (ping payload)) = pong payload ∷ []
pongs frame = []

abbrev dispatched : Bool → List Round → List Sent
dispatched requested [] = []
dispatched requested (stopped f ∷ rounds) = []
dispatched requested (round found ∷ rounds) =
    resizes (requested || found.resized) found.size
    ++ (inputs found.stdin ++ (pongs found.frame ++ dispatched false rounds))

module _ (wire : Wire) (safe : (n : ℕ) → wire n ≡ false) where
  handle_frame-sent :
      (later : List Sent) (next : Client → Ran)
      → ((c : Client) → (next c).verdict ≡ runs → (next c).client.sent ≡ c.sent ++ later)
      → (frame : Option Incoming) (c : Client) → (handle_frame wire frame c next).verdict ≡ runs
      → (handle_frame wire frame c next).client.sent ≡ c.sent ++ (pongs frame ++ later)
  handle_frame-sent later next ih none c h = ih c h
  handle_frame-sent later next ih (some ignored) c h = ih c h
  handle_frame-sent later next ih (some closing) c h = cc
  handle_frame-sent later next ih (some broken) c h = cc
  handle_frame-sent later next ih (some (ping b)) c h = rw (safe (length c.sent)) (
      ih (record c { sent = c.sent ++ (pong b ∷ []) }) (rw (safe (length c.sent)) at h)
      ∙ append_assoc c.sent (pong b ∷ []) later)
  handle_frame-sent later next ih (some (text (output (some bytes)))) c h =
      ih (record c { stdout = c.stdout ++ bytes }) h
  handle_frame-sent later next ih (some (text other)) c h = ih c h
  handle_frame-sent later next ih (some (text (output none))) c h = cc
  handle_frame-sent later next ih (some (text (exit (some code)))) c h = cc
  handle_frame-sent later next ih (some (text (exit none))) c h = cc
  handle_frame-sent later next ih (some (text error)) c h = cc
  handle_frame-sent later next ih (some (text timeout)) c h = cc
  handle_frame-sent later next ih (some (text not_json)) c h = cc

  loop-sent :
      (requested : Bool) (rounds : List Round) (client : Client)
      → (loop wire requested rounds client).verdict ≡ runs
      → (loop wire requested rounds client).client.sent ≡ client.sent ++ dispatched requested rounds
  unfolding loop
  loop-sent requested [] client h = sym (append-nil client.sent)
  loop-sent requested (stopped f ∷ rounds) client h = cc
  loop-sent requested (round found ∷ rounds) client h =
      let e = run_round_lem wire safe requested found client (loop wire false rounds) in
      let now = resizes (requested || found.resized) found.size in
      rw e (
        handle_frame-sent (dispatched false rounds) (loop wire false rounds)
          (λ c k. loop-sent false rounds c k) found.frame (after_inputs requested found client)
          (rw e at h)
        ∙ (append_assoc (client.sent ++ now) (inputs found.stdin) _
            ∙ append_assoc client.sent now _))

-- A client that has sent its start message.
abbrev pub started : Text → ℤ → Size → Client
started command ttl_seconds size = record {
  sent = start command ttl_seconds size ∷ [];
  stdout = [];
}

-- The runtime writes what follows after what came before.
resize-written :
    (b : Bool) (size : Size) (later : List Sent)
    → (in_range size.rows && in_range size.columns) ≡ true
    → written (receive_input (received (resizes b size ++ later))).actions
      ≡ written (receive_input (received later)).actions
unfolding receive_input
resize-written false size later r = refl
resize-written true size later r = rw r refl

input-written :
    (stdin : Option Bytes) (later : List Sent)
    → IsOpen stdin
    → written (receive_input (received (inputs stdin ++ later))).actions
      ≡ typed_in stdin ++ written (receive_input (received later)).actions
unfolding receive_input
input-written none later o = refl
input-written (some []) later o = absurd o
input-written (some (b ∷ bs)) later o = refl

pong-received :
    (frame : Option Incoming) (later : List Sent) → received (pongs frame ++ later) ≡ received later
pong-received none later = refl
pong-received (some (ping b)) later = refl
pong-received (some (text m)) later = refl
pong-received (some closing) later = refl
pong-received (some ignored) later = refl
pong-received (some broken) later = refl

dispatched-written :
    (requested : Bool) (rounds : List Round)
    → All IsUsable rounds
    → written (receive_input (received (dispatched requested rounds))).actions ≡ typed rounds
unfolding receive_input
dispatched-written requested [] u = refl
dispatched-written requested (stopped f ∷ rounds) u = absurd u.0
dispatched-written requested (round found ∷ rounds) u =
    resize-written (requested || found.resized) found.size _ u.0.0
    ∙ (input-written found.stdin _ u.0.1
        ∙ ap (λ w. typed_in found.stdin ++ w)
            (ap (λ ms. written (receive_input ms).actions)
                (pong-received found.frame (dispatched false rounds))
              ∙ dispatched-written false rounds u.1))

-- As long as a session goes on, nothing stops it, its connection does not break, its window has a
-- size that the runtime takes and its standard input has not ended, the runtime writes to its terminal
-- exactly the bytes that were typed, in order, however the window changes and whatever the server
-- sends.
pub loop-typed :
    (wire : Wire) (rounds : List Round) (command : Text) (ttl_seconds : ℤ) (size : Size)
    → ((n : ℕ) → wire n ≡ false)
    → All IsUsable rounds
    → (loop wire true rounds (started command ttl_seconds size)).verdict ≡ runs
    → written
        (receive_input
          (received (loop wire true rounds (started command ttl_seconds size)).client.sent)).actions
      ≡ typed rounds
loop-typed wire rounds command ttl_seconds size safe u h =
    ap (λ sent. written (receive_input (received sent)).actions)
      (loop-sent wire safe true rounds (started command ttl_seconds size) h)
    ∙ dispatched-written true rounds u
