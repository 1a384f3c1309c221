-- ===== src/Hermes/Session/Traffic.antt =====
-- What passes between the client's loop and the session that the runtime keeps.
use xolis.Base.{
  ℕ, ◌≡◌, refl, ◌∙◌, Bool, true, false, ◌||◌, Option, none, some, List, [], ◌∷◌, ◌++◌, append_assoc,
  append-nil, map, All, length,
}
use xolis.Base.Int.{ℤ}
use xolis.Runtime.{Bytes}
use xolis.Runtime.Interactive.{Size, ServerMessage}
use xolis.Runtime.Interactive.Streams.{sent_bytes}
use xolis.Hermes.Session.{
  Sent, resize, input, close, pong, Message, output, exit, error, timeout, other, Incoming, text,
  ping, closing, ignored, broken, Found, Round, round, stopped, Client, returns, Ran, Wire,
  send_resize, send_stdin, handle_frame, run_round, loop,
}

-- The runtime's messages as the client takes them from the JSON.
abbrev pub as_message : ServerMessage → Message
as_message (ServerMessage.started pid) = other
as_message (ServerMessage.output bytes) = output (some bytes)
as_message ServerMessage.output_limit_error = error
as_message ServerMessage.unsupported_error = error
as_message (ServerMessage.command_error e) = error
as_message ServerMessage.other_error = error
as_message (ServerMessage.timeout seconds) = timeout
as_message (ServerMessage.exit code) = exit (some code)

-- A message after which the client's loop goes on.
abbrev pub IsPassed : ServerMessage → Type 0
IsPassed (ServerMessage.started pid) = Unit
IsPassed (ServerMessage.output bytes) = Unit
IsPassed m = ⊥

-- Nothing stops the loop, and no frame ends the session or fails.
abbrev pub QuietFrame : Option Incoming → Type 0
QuietFrame (some closing) = ⊥
QuietFrame (some broken) = ⊥
QuietFrame frame = Unit

abbrev pub IsQuiet : Round → Type 0
IsQuiet (stopped f) = ⊥
IsQuiet (round found) = QuietFrame found.frame

-- The messages in the text frames of the rounds.
abbrev pub text_of : Option Incoming → List Message
text_of (some (text m)) = m ∷ []
text_of f = []

abbrev pub texts : List Round → List Message
texts [] = []
texts (stopped f ∷ rounds) = texts rounds
texts (round found ∷ rounds) = text_of found.frame ++ texts rounds

abbrev pub resizes : Bool → Size → List Sent
resizes true size = resize size ∷ []
resizes false size = []

abbrev pub inputs : Option Bytes → List Sent
inputs none = []
inputs (some []) = close ∷ []
inputs (some (b ∷ bs)) = input (b ∷ bs) ∷ []

-- What a client has sent once a round has dealt with the window and the standard input.
abbrev pub after_inputs : Bool → Found → Client → Client
after_inputs requested found client = record client {
  sent = (client.sent ++ resizes (requested || found.resized) found.size) ++ inputs found.stdin;
}

module _ (wire : Wire) (safe : (n : ℕ) → wire n ≡ false) where
  send_resize_lem :
      (b : Bool) (size : Size) (client : Client) (next : Client → Ran)
      → send_resize wire b size client next
        ≡ next (record client { sent = client.sent ++ resizes b size })
  send_resize_lem true size client next = rw (safe (length client.sent)) refl
  send_resize_lem false size client next = rw (append-nil client.sent) refl

  send_stdin_lem :
      (stdin : Option Bytes) (client : Client) (next : Client → Ran)
      → send_stdin wire stdin client next
        ≡ next (record client { sent = client.sent ++ inputs stdin })
  send_stdin_lem none client next = rw (append-nil client.sent) refl
  send_stdin_lem (some []) client next = rw (safe (length client.sent)) refl
  send_stdin_lem (some (b ∷ bs)) client next = rw (safe (length client.sent)) refl

  pub run_round_lem :
      (requested : Bool) (found : Found) (client : Client) (next : Client → Ran)
      → run_round wire requested found client next
        ≡ handle_frame wire found.frame (after_inputs requested found client) next
  unfolding run_round
  run_round_lem requested found client next =
      send_resize_lem (requested || found.resized) found.size client _
      ∙ send_stdin_lem found.stdin _ _

  -- What the loop comes to when the server's messages end in an exit.
  abbrev ExitsWith : ℤ → Bytes → Ran → Type 0
  ExitsWith code bytes r = (r.verdict ≡ returns code) × (r.client.stdout ≡ bytes)

  -- The rounds that follow do so from any state of the client.
  abbrev Continues : ℤ → List Message → List Message → (Client → Ran) → Type 0
  Continues code rest ts next =
      (c : Client) (body : List ServerMessage)
      → All IsPassed body
      → ts ≡ map as_message body ++ (exit (some code) ∷ rest)
      → ExitsWith code (c.stdout ++ sent_bytes body) (next c)

  handle_frame-exit :
      (code : ℤ) (rest ts : List Message) (next : Client → Ran)
      → Continues code rest ts next
      → (frame : Option Incoming) → QuietFrame frame
      → (c : Client) (body : List ServerMessage) → All IsPassed body
      → text_of frame ++ ts ≡ map as_message body ++ (exit (some code) ∷ rest)
      → ExitsWith code (c.stdout ++ sent_bytes body) (handle_frame wire frame c next)
  unfolding sent_bytes
  handle_frame-exit code rest ts next ih none q c body p e = ih c body p e
  handle_frame-exit code rest ts next ih (some ignored) q c body p e = ih c body p e
  handle_frame-exit code rest ts next ih (some closing) q c body p e = absurd q
  handle_frame-exit code rest ts next ih (some broken) q c body p e = absurd q
  handle_frame-exit code rest ts next ih (some (ping b)) q c body p e =
      rw (safe (length c.sent)) (ih (record c { sent = c.sent ++ (pong b ∷ []) }) body p e)
  handle_frame-exit code rest ts next ih (some (text m)) q c [] p e =
      let same : m ≡ exit (some code) = cc in rw (same, append-nil c.stdout) (refl, refl)
  handle_frame-exit code rest ts next ih (some (text m)) q c (ServerMessage.started pid ∷ body) p
        e =
      let same : m ≡ other = cc in rw same (ih c body p.1 (cc))
  handle_frame-exit code rest ts next ih (some (text m)) q c (ServerMessage.output b ∷ body) p e =
      let same : m ≡ output (some b) = cc in
      rw (same, ← append_assoc c.stdout b (sent_bytes body))
        (ih (record c { stdout = c.stdout ++ b }) body p.1 (cc))
  handle_frame-exit code rest ts next ih (some (text m)) q c (_ ∷ body) p e = absurd p.0

  -- While nothing breaks, the loop writes the bytes of the output messages to the standard output, in
  -- order, and returns the code of the exit message that follows them, whatever is typed, however the
  -- window changes, and whichever pings and other frames come in between.
  pub loop-exit :
      (requested : Bool) (rounds : List Round) (client : Client) (body : List ServerMessage)
      (code : ℤ) (rest : List Message)
      → All IsQuiet rounds
      → All IsPassed body
      → texts rounds ≡ map as_message body ++ (exit (some code) ∷ rest)
      → ExitsWith code (client.stdout ++ sent_bytes body) (loop wire requested rounds client)
  unfolding loop
  loop-exit requested [] client [] code rest q p e = cc
  loop-exit requested [] client (m ∷ body) code rest q p e = cc
  loop-exit requested (stopped f ∷ rounds) client body code rest q p e = absurd q.0
  loop-exit requested (round found ∷ rounds) client body code rest q p e =
      rw (run_round_lem requested found client (loop wire false rounds)) (
        handle_frame-exit code rest (texts rounds) (loop wire false rounds)
          (λ c b p' e'. loop-exit false rounds c b code rest q.1 p' e') found.frame q.0
          (after_inputs requested found client) body p e)
