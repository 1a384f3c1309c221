-- ===== src/Runtime/Interactive/Streams.antt =====
-- What passes through a session in each direction.
use xolis.Base.{
  ℕ, zero, suc, ◌+◌, ◌-◌, ◌≡◌, refl, ap, sym, ◌∙◌, true, false, ◌&&◌, none, some, List, [], ◌∷◌,
  ◌++◌, arith, length, take, All, take-append, length-take, Bool-cases, inl, inr,
}
use xolis.Base.Int.{ℤ, pos, pos_part, ◌-ℤ◌, leb_ℤ}
use xolis.Base.Result.{ok, err}
use xolis.Runtime.{Bytes}
use xolis.Runtime.Command.{terminal_size_out_of_range}
use xolis.Runtime.Capture.{admitted, admitted-eq-take, no_room, take-nil}
use xolis.Runtime.Interactive.{
  in_range, resize_terminal, ServerMessage, output, PtyRead, chunk, read_error, send_output,
  ClientMessage, input, resize, cancel, close, unsupported, disconnect, TerminalAction, write,
  set_size, receive_input,
}

-- The bytes that a terminal yields until it ends.
unfoldable pub pty_bytes : List PtyRead → Bytes
pty_bytes [] = []
pty_bytes (read_error ∷ reads) = []
pty_bytes (chunk [] ∷ reads) = []
pty_bytes (chunk (b ∷ bs) ∷ reads) = (b ∷ bs) ++ pty_bytes reads

abbrev payload : ServerMessage → Bytes
payload (output bytes) = bytes
payload _ = []

-- The bytes in the output messages.
unfoldable pub sent_bytes : List ServerMessage → Bytes
sent_bytes [] = []
sent_bytes (m ∷ ms) = payload m ++ sent_bytes ms

room_left :
    (maximum : ℤ) (emitted : ℕ) (bytes : Bytes)
    → pos_part maximum - (emitted + length (admitted maximum emitted bytes))
      ≡ pos_part maximum - emitted - length bytes
room_left maximum emitted bytes = omega (
  arith,
  ap length (admitted-eq-take maximum emitted bytes),
  length-take (pos_part maximum - emitted) bytes,
)

take-zero : (n : ℕ) (bytes : Bytes) → n ≡ 0 → [] ≡ take n bytes
take-zero zero bytes e = refl
take-zero (suc n) bytes e = absurd (omega arith)

-- The client gets exactly the first bytes of the terminal's output, up to what the limit leaves.
pub sent_bytes-send_output :
    (maximum : ℤ) (emitted : ℕ) (reads : List PtyRead)
    → sent_bytes (send_output maximum emitted reads).messages
      ≡ take (pos_part maximum - emitted) (pty_bytes reads)
unfolding sent_bytes send_output pty_bytes
sent_bytes-send_output maximum emitted [] = sym (take-nil _)
sent_bytes-send_output maximum emitted (read_error ∷ reads) = sym (take-nil _)
sent_bytes-send_output maximum emitted (chunk [] ∷ reads) = sym (take-nil _)
sent_bytes-send_output maximum emitted (chunk (b ∷ bs) ∷ reads) =
    elim (Bool-cases (leb_ℤ (maximum -ℤ pos emitted) (pos 0))) [
      | inl full ↦ rw full (take-zero _ _ (no_room maximum emitted full))
      | inr free ↦ rw free (
          ap
            (λ u.
              u
              ++ sent_bytes
                  (send_output maximum (emitted + length (admitted maximum emitted (b ∷ bs)))
                    reads).messages)
            (admitted-eq-take maximum emitted (b ∷ bs))
          ∙ (ap (λ u. take (pos_part maximum - emitted) (b ∷ bs) ++ u)
                (sent_bytes-send_output maximum
                    (emitted + length (admitted maximum emitted (b ∷ bs))) reads
                  ∙ ap (λ n. take n (pty_bytes reads)) (room_left maximum emitted (b ∷ bs)))
              ∙ sym (take-append (pos_part maximum - emitted) (b ∷ bs) (pty_bytes reads))))
    ]

-- A change that the terminal may be asked for.
abbrev pub IsAllowed : TerminalAction → Type 0
IsAllowed (write bytes) = Unit
IsAllowed (set_size size) = (in_range size.rows ≡ true) × (in_range size.columns ≡ true)

both :
    (r c : ℤ)
    → (in_range r && in_range c) ≡ true
    → IsAllowed (set_size (record { rows = r; columns = c }))
both r c h = ground arith

resize_accepted :
    (r c : ℤ)
    → (in_range r && in_range c) ≡ true
    → resize_terminal (record { rows = r; columns = c }) ≡ ok (record { rows = r; columns = c })
unfolding resize_terminal
resize_accepted r c h = rw h

resize_refused :
    (r c : ℤ)
    → (in_range r && in_range c) ≡ false
    → resize_terminal (record { rows = r; columns = c }) ≡ err terminal_size_out_of_range
unfolding resize_terminal
resize_refused r c h = rw h

-- Whatever a client sends, the terminal is never given a size out of range.
pub receive_input-IsAllowed :
    (messages : List ClientMessage) → All IsAllowed (receive_input messages).actions
unfolding receive_input
receive_input-IsAllowed [] = tt
receive_input-IsAllowed (input none ∷ messages) = tt
receive_input-IsAllowed (input (some bytes) ∷ messages) = (tt, receive_input-IsAllowed messages)
receive_input-IsAllowed (resize (some r) (some c) ∷ messages) =
    elim (Bool-cases (in_range r && in_range c)) [
      | inl e ↦ rw (resize_accepted r c e) (both r c e, receive_input-IsAllowed messages)
      | inr e ↦ rw (resize_refused r c e) tt
    ]
receive_input-IsAllowed (resize (some r) none ∷ messages) = tt
receive_input-IsAllowed (resize none c ∷ messages) = tt
receive_input-IsAllowed (cancel ∷ messages) = tt
receive_input-IsAllowed (close ∷ messages) = tt
receive_input-IsAllowed (disconnect ∷ messages) = tt
receive_input-IsAllowed (unsupported ∷ messages) = receive_input-IsAllowed messages
