-- ===== src/Runtime/Stream/Output.antt =====
-- What a client of `stream_command` receives of each stream.
use xolis.Base.{
  ℕ, ◌+◌, ◌-◌, ◌≡◌, refl, ap, sym, ◌∙◌, Bool, true, false, List, [], ◌∷◌, ◌++◌, arith, length, take,
  ltb, if◌then◌else◌, Bool-cases, inl, inr, take-append, length-take,
}
use xolis.Base.Int.{ℤ, pos_part}
use xolis.Runtime.{Bytes}
use xolis.Runtime.Capture.{admitted, admitted-eq-take, no_room, take-nil}
use xolis.Runtime.Stream.{
  StreamName, stdout, stderr, same, Arrival, item, reader_done, deadline_passed, Emitted,
  emitted_on, Piece, Drained, account, drain, is_full, yield_piece, late, finished,
}

-- The bytes of one stream that arrive while the loop runs.
unfoldable pub received : StreamName → ℕ → List Arrival → Bytes
received name completed [] = []
received name completed (deadline_passed ∷ rest) = []
received name completed (reader_done ∷ rest) =
    let more = received name (completed + 1) rest in if ltb completed 2 then more else []
received name completed (item other chunk ∷ rest) =
    let more = received name completed rest in
    if ltb completed 2 then (if same other name then chunk ++ more else more) else []

-- The bytes of one stream among the pieces.
unfoldable pub pieces_on : StreamName → List Piece → Bytes
pieces_on name [] = []
pieces_on name (p ∷ ps) =
    let more = pieces_on name ps in if same p.name name then p.content ++ more else more

module _ (maximum : ℤ) (e : Emitted) where
  admitted_full :
      (name : StreamName) (chunk : Bytes)
      → is_full maximum e name ≡ true
      → admitted maximum (emitted_on e name) chunk ≡ []
  unfolding admitted
  admitted_full name chunk h = rw h

  pieces_on-yield :
      (name other : StreamName) (chunk : Bytes) (rest : Drained)
      → pieces_on name (yield_piece maximum e other chunk rest).pieces
        ≡ (if same other name then admitted maximum (emitted_on e other) chunk else [])
          ++ pieces_on name rest.pieces
  unfolding pieces_on
  pieces_on-yield name other chunk rest = elim (Bool-cases (is_full maximum e other)) [
    | inl full ↦ rw (full, admitted_full other chunk full) (ground arith)
    | inr free ↦ rw free (ground arith)
  ]

  -- What is left of the limit after a chunk of the same stream.
  room_after :
      (n : ℕ) (chunk : Bytes)
      → n ≡ length (admitted maximum (emitted_on e stdout) chunk)
      → pos_part maximum - (e.on_stdout + n) ≡ pos_part maximum - e.on_stdout - length chunk
  room_after n chunk h = omega (
    arith,
    h,
    ap length (admitted-eq-take maximum e.on_stdout chunk),
    length-take (pos_part maximum - e.on_stdout) chunk,
  )

  room_after_stderr :
      (n : ℕ) (chunk : Bytes)
      → n ≡ length (admitted maximum (emitted_on e stderr) chunk)
      → pos_part maximum - (e.on_stderr + n) ≡ pos_part maximum - e.on_stderr - length chunk
  room_after_stderr n chunk h = omega (
    arith,
    h,
    ap length (admitted-eq-take maximum e.on_stderr chunk),
    length-take (pos_part maximum - e.on_stderr) chunk,
  )

  account_same :
      (name : StreamName) (chunk : Bytes)
      → pos_part maximum - emitted_on (account maximum e name chunk) name
        ≡ pos_part maximum - emitted_on e name - length chunk
  unfolding account
  account_same stdout chunk = elim (Bool-cases (is_full maximum e stdout)) [
    | inl full ↦ rw full (omega (arith, no_room maximum e.on_stdout full))
    | inr free ↦ rw free (room_after _ chunk refl)
  ]
  account_same stderr chunk = elim (Bool-cases (is_full maximum e stderr)) [
    | inl full ↦ rw full (omega (arith, no_room maximum e.on_stderr full))
    | inr free ↦ rw free (room_after_stderr _ chunk refl)
  ]

  same_case :
      (name : StreamName) (chunk more kept : Bytes)
      → kept ≡ take (pos_part maximum - emitted_on (account maximum e name chunk) name) more
      → admitted maximum (emitted_on e name) chunk ++ kept
        ≡ take (pos_part maximum - emitted_on e name) (chunk ++ more)
  same_case name chunk more kept h =
      let n = pos_part maximum - emitted_on e name in
      ap (λ u. u ++ kept) (admitted-eq-take maximum (emitted_on e name) chunk)
      ∙ (ap (λ u. take n chunk ++ u) (h ∙ ap (λ k. take k more) (account_same name chunk))
          ∙ sym (take-append n chunk more))

  account_other :
      (name other : StreamName) (chunk : Bytes)
      → same other name ≡ false
      → emitted_on (account maximum e other chunk) name ≡ emitted_on e name
  unfolding account
  account_other stdout stdout chunk h = cc
  account_other stdout stderr chunk h = ground arith
  account_other stderr stdout chunk h = ground arith
  account_other stderr stderr chunk h = cc

  kept_item :
      (name other : StreamName) (chunk more kept : Bytes)
      → kept ≡ take (pos_part maximum - emitted_on (account maximum e other chunk) name) more
      → (if same other name then admitted maximum (emitted_on e other) chunk else []) ++ kept
        ≡ take
            (pos_part maximum - emitted_on e name)
            (if same other name then chunk ++ more else more)
  kept_item stdout stdout chunk more kept h = same_case stdout chunk more kept h
  kept_item stderr stderr chunk more kept h = same_case stderr chunk more kept h
  kept_item stdout stderr chunk more kept h =
      h ∙ ap (λ n. take (pos_part maximum - n) more) (account_other stdout stderr chunk refl)
  kept_item stderr stdout chunk more kept h =
      h ∙ ap (λ n. take (pos_part maximum - n) more) (account_other stderr stdout chunk refl)

module _ (maximum : ℤ) (name : StreamName) where
  nothing :
      (e : Emitted) (b : Bool)
      → pieces_on name (if b then late else finished).pieces
        ≡ take (pos_part maximum - emitted_on e name) []
  unfolding pieces_on
  nothing e true = sym (take-nil _)
  nothing e false = sym (take-nil _)

  -- Of each stream the loop yields exactly the first bytes that arrive while it runs, up to what the
  -- limit leaves, however the chunks of the two streams interleave.
  pub pieces-drain :
      (e : Emitted) (completed : ℕ) (arrivals : List Arrival)
      → pieces_on name (drain maximum e completed arrivals).pieces
        ≡ take (pos_part maximum - emitted_on e name) (received name completed arrivals)
  unfolding drain received
  pieces-drain e completed [] = nothing e (ltb completed 2)
  pieces-drain e completed (deadline_passed ∷ rest) = nothing e (ltb completed 2)
  pieces-drain e completed (reader_done ∷ rest) = elim (Bool-cases (ltb completed 2)) [
    | inl more ↦ rw more (pieces-drain e (completed + 1) rest)
    | inr over ↦ rw over (nothing e false)
  ]
  pieces-drain e completed (item other chunk ∷ rest) = elim (Bool-cases (ltb completed 2)) [
    | inl more ↦ rw more (
        pieces_on-yield maximum e name other chunk _
        ∙ kept_item maximum e name other chunk _ _
            (pieces-drain (account maximum e other chunk) completed rest))
    | inr over ↦ rw over (nothing e false)
  ]
