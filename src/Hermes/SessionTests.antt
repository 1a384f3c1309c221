-- ===== src/Hermes/SessionTests.antt =====
-- Runs of the client's session, and instances of its theorems.
use xolis.Base.{
  ℕ, ◌≡◌, refl, Bool, true, false, not, ◌&&◌, none, some, List, [], ◌∷◌, ◌++◌, append_assoc,
  append-nil, arith, Bool-cases, inl, inr,
}
use xolis.Base.Int.{pos}
use xolis.Base.Result.{err}
use xolis.Text.{codes}
use xolis.Runtime.Interactive.{Size, receive_input}
use xolis.Hermes.Frame.{Bytes, Connection}
use xolis.Hermes.Session.{
  output, exit, other, text, ping, Round, round, World, SessionArgs, connected, runs, returns, loop,
  interactive_session,
}
use xolis.Hermes.Session.Restored.{IsRestored, interactive_session-IsRestored}
use xolis.Hermes.Session.Typed.{received, written, started, loop-typed}
use xolis.Hermes.Upgrade.{refused, has_end, is_accepted, websocket_connect}
use xolis.Hermes.Upgrade.Answered.{IsHeader, Upgrades, websocket_connect-Upgrades}

abbrev window : Size
window = record { rows = pos 24; columns = pos 80 }

-- Something is typed, a ping and some output come, and the process exits with status 3.
abbrev typing : List Round
typing =
    round (record { resized = false; size = window; stdin = some (codes "ls"); frame = none })
    ∷ round
        (record { resized = true; size = window; stdin = none; frame = some (ping (codes "p")) })
    ∷ round (record {
      resized = false;
      size = window;
      stdin = some (codes "q");
      frame = some (text (output (some (codes "out"))));
    })
    ∷ []

abbrev leaving : Round
leaving = round (record {
  resized = false;
  size = window;
  stdin = none;
  frame = some (text (exit (some (pos 3))));
})

abbrev whole : List Round
whole =
    round (record { resized = false; size = window; stdin = none; frame = some (text other) })
    ∷ (typing ++ (leaving ∷ []))

abbrev world : World
world = record {
  connects = connected;
  wire = λ n. false;
  size = window;
  is_tty = true;
  reads_attributes = true;
  sets_raw = true;
  rounds = whole;
}

abbrev args : SessionArgs
args = record { ttl_seconds = pos 900; hermes_model = none; hermes_provider = none }

ends : (interactive_session world args).ran.verdict ≡ returns (pos 3)
unfolding interactive_session
ends = refl

not_running : (interactive_session world args).ran.verdict ≡ runs → ⊥
unfolding interactive_session
not_running h = cc

interactive_session-IsRestored_example : IsRestored world (interactive_session world args).held
interactive_session-IsRestored_example = interactive_session-IsRestored world args not_running

still_running :
    (loop (λ n. false) true typing (started (codes "hermes") (pos 900) window)).verdict ≡ runs
unfolding loop
still_running = refl

loop-typed_example :
    written
      (receive_input (
        received
          (loop
            (λ n. false)
            true
            typing
            (started (codes "hermes") (pos 900) window)).client.sent)).actions
    ≡ codes "lsq"
loop-typed_example =
    loop-typed (λ n. false) typing (codes "hermes") (pos 900) window (λ n. refl)
      ((refl, tt), ((refl, tt), ((refl, tt), tt))) still_running

-- No proper prefix of an answer has an empty line.
is_first : Bytes → Bytes → Bool
is_first seen [] = true
is_first seen (c ∷ todo) = not (has_end seen) && is_first (seen ++ (c ∷ [])) todo

is_first_prefix :
    (seen todo a b : Bytes) (c : ℕ)
    → is_first seen todo ≡ true
    → a ++ (c ∷ b) ≡ todo
    → has_end (seen ++ a) ≡ false
unfolding is_first
is_first_prefix seen [] [] b c h e = cc
is_first_prefix seen [] (d ∷ a) b c h e = cc
is_first_prefix seen (t ∷ todo) [] b c h e = elim (Bool-cases (has_end seen)) [
  | inl s ↦ cc (rw s at h)
  | inr s ↦ rw (append-nil seen) s
]
is_first_prefix seen (t ∷ todo) (d ∷ a) b c h e = elim (Bool-cases (has_end seen)) [
  | inl s ↦ cc (rw s at h)
  | inr s ↦
      let same : d ≡ t = cc in
      let tails : a ++ (c ∷ b) ≡ todo = cc in
      rw (same, ← append_assoc seen (t ∷ []) a)
        (is_first_prefix (seen ++ (t ∷ [])) todo a b c (rw s at h) tails)
]

abbrev answer : Bytes
answer =
    codes "HTTP/1.1 101 Switching"
    ++ (13 ∷ 10 ∷ (codes "sec-websocket-accept: k=" ++ (13 ∷ 10 ∷ 13 ∷ 10 ∷ [])))

answer_ends : has_end answer ≡ true
unfolding has_end
answer_ends = refl

answer_first : is_first [] answer ≡ true
unfolding is_first has_end
answer_first = refl

answer-IsHeader : IsHeader answer
answer-IsHeader = record {
  ended = answer_ends;
  first = λ a b c e. is_first_prefix [] answer a b c answer_first e;
}

abbrev segments : Connection
segments = (answer ++ (0x88 ∷ [])) ∷ (0 ∷ []) ∷ []

websocket_connect-Upgrades_example :
    (is_accepted (codes "k=") answer ≡ true
      → Upgrades (websocket_connect (codes "k=") segments) (0x88 ∷ 0 ∷ []))
    × (is_accepted (codes "k=") answer ≡ false
        → websocket_connect (codes "k=") segments ≡ err refused)
websocket_connect-Upgrades_example =
    websocket_connect-Upgrades (codes "k=") answer (0x88 ∷ 0 ∷ []) segments answer-IsHeader
      (omega arith) tt refl

accepted : is_accepted (codes "k=") answer ≡ true
unfolding is_accepted
accepted = refl
