-- ===== src/Runtime/Stream/Protocol.antt =====
-- The order of events in a stream, and the clean-up when its consumer leaves.
use xolis.Base.{
  ℕ, zero, suc, ◌≡◌, refl, ap, ◌∙◌, Bool, true, false, ◌||◌, List, [], ◌∷◌, ◌++◌, ◌==◌, nat_eq,
  if◌then◌else◌, Bool-cases, inl, inr,
}
use xolis.Base.Int.{ℤ, pos, negsuc}
use xolis.Text.Utf8.{decode}
use xolis.Runtime.{RuntimeSettings}
use xolis.Runtime.Process.{exit_status}
use xolis.Runtime.Stream.{
  CommandEvent, timed_out_tail, error, start, output, timeout, exit, Action, emit, kill, reap,
  Piece, Running, StreamSpawn, os_error, started, drained_from, piece_actions, tail_actions,
  process_actions, spawned_actions, upto, reaped, close_stream,
}

-- A reader of the stream, independent of the code that writes it.
pub data Phase : Type 0 where
  before live killed dead late_dead timed over broken : Phase

abbrev is_124 : ℤ → Phase
is_124 (pos n) = if n == 124 then over else broken
is_124 (negsuc n) = broken

abbrev from_before : Action → Phase
from_before (emit (start pid)) = live
from_before (emit (error message)) = over
from_before _ = broken

abbrev from_live : Action → Phase
from_live (emit (output name text)) = live
from_live kill = killed
from_live reap = dead
from_live _ = broken

abbrev from_killed : Action → Phase
from_killed reap = late_dead
from_killed _ = broken

abbrev from_dead : Action → Phase
from_dead (emit (exit code)) = over
from_dead _ = broken

abbrev from_late_dead : Action → Phase
from_late_dead (emit (timeout message)) = timed
from_late_dead _ = broken

abbrev from_timed : Action → Phase
from_timed (emit (exit code)) = is_124 code
from_timed _ = broken

unfoldable pub next : Phase → Action → Phase
next before a = from_before a
next live a = from_live a
next killed a = from_killed a
next dead a = from_dead a
next late_dead a = from_late_dead a
next timed a = from_timed a
next over a = broken
next broken a = broken

unfoldable pub read_phases : Phase → List Action → Phase
unfolding next
read_phases p [] = p
read_phases p (a ∷ actions) = read_phases (next p a) actions

phases_pieces :
    (ps : List Piece) (more : List Action)
    → read_phases live (piece_actions ps ++ more) ≡ read_phases live more
unfolding read_phases piece_actions
phases_pieces [] more = refl
phases_pieces (p ∷ ps) more = phases_pieces ps more

phases_tail :
    (seconds : ℤ) (p : Running) (timed_out : Bool)
    → read_phases live (tail_actions seconds p timed_out) ≡ over
unfolding read_phases tail_actions
phases_tail seconds p true = refl
phases_tail seconds p false = elim (Bool-cases p.exits_in_time) [ inl e ↦ rw e | inr e ↦ rw e ]

-- Every complete stream is a start, outputs, and one exit at the very end, by which the process has
-- been reaped; it reports a timeout, after the kill, only together with the exit code 124. If
-- nothing starts it is a single error.
pub phases_spawned :
    (settings : RuntimeSettings) (seconds : ℤ) (child : StreamSpawn)
    → read_phases before (spawned_actions settings seconds child) ≡ over
unfolding read_phases process_actions
phases_spawned settings seconds (os_error message) = refl
phases_spawned settings seconds (started p) =
    let drained = drained_from settings p in
    phases_pieces drained.pieces (tail_actions seconds p drained.timed_out)
    ∙ phases_tail seconds p drained.timed_out

-- The process as the actions leave it: alive, killed, killed and reaped, or reaped when it had ended
-- by itself; `stuck` is an action that does not fit.
pub data Process : Type 0 where
  alive killed_process gone waited stuck : Process

abbrev after_kill : Process → Process
after_kill alive = killed_process
after_kill _ = stuck

abbrev after_reap : Process → Process
after_reap alive = waited
after_reap killed_process = gone
after_reap _ = stuck

unfoldable pub read_process : Process → List Action → Process
read_process p [] = p
read_process p (emit e ∷ actions) = read_process p actions
read_process p (kill ∷ actions) = read_process (after_kill p) actions
read_process p (reap ∷ actions) = read_process (after_reap p) actions

read_process-append :
    (p : Process) (a b : List Action) → read_process p (a ++ b) ≡ read_process (read_process p a) b
unfolding read_process
read_process-append p [] b = refl
read_process-append p (emit e ∷ a) b = read_process-append p a b
read_process-append p (kill ∷ a) b = read_process-append (after_kill p) a b
read_process-append p (reap ∷ a) b = read_process-append (after_reap p) a b

-- What the generator has done of its actions when it is closed.
data Done (in_time : Bool) (actions done : List Action) : Type 0 where
  still_alive : reaped done ≡ false → read_process alive done ≡ alive → Done in_time actions done
  killed_itself : reaped done ≡ true → read_process alive done ≡ gone → Done in_time actions done
  ran_out :
      reaped done ≡ true
      → read_process alive done ≡ waited
      → in_time ≡ true
      → done ≡ actions
      → Done in_time actions done

Done-emit :
    (in_time : Bool) (e : CommandEvent) (actions done : List Action)
    → Done in_time actions done
    → Done in_time (emit e ∷ actions) (emit e ∷ done)
unfolding read_process
Done-emit in_time e actions done (still_alive r a) = still_alive r a
Done-emit in_time e actions done (killed_itself r a) = killed_itself r a
Done-emit in_time e actions done (ran_out r a t q) = ran_out r a t (ap (λ l. emit e ∷ l) q)

Done-late :
    (seconds : ℤ) (n : ℕ) (in_time : Bool)
    → Done in_time (timed_out_tail seconds) (upto n (timed_out_tail seconds))
unfolding upto read_process
Done-late seconds zero in_time = still_alive refl refl
Done-late seconds (suc zero) in_time = killed_itself refl refl
Done-late seconds (suc (suc zero)) in_time = killed_itself refl refl
Done-late seconds (suc (suc (suc n))) in_time = killed_itself refl refl

Done-tail :
    (seconds : ℤ) (p : Running) (timed_out : Bool) (n : ℕ)
    → Done p.exits_in_time
        (tail_actions seconds p timed_out)
        (upto n (tail_actions seconds p timed_out))
unfolding tail_actions
Done-tail seconds p true n = Done-late seconds n p.exits_in_time
Done-tail seconds p false n = elim (Bool-cases p.exits_in_time) [
  | inl e ↦ rw e (in_time n)
  | inr e ↦ rw e (Done-late seconds n false)
]
  where
    in_time :
        (n : ℕ)
        → Done true
            (reap ∷ emit (exit (exit_status p.returncode)) ∷ [])
            (upto n (reap ∷ emit (exit (exit_status p.returncode)) ∷ []))
    in_time zero = unfold upto in unfold read_process in still_alive refl refl
    in_time (suc zero) = unfold upto in unfold read_process in ran_out refl refl refl refl
    in_time (suc (suc n)) = unfold upto in unfold read_process in ran_out refl refl refl refl

Done-pieces :
    (in_time : Bool) (ps : List Piece) (more : List Action)
    → ((n : ℕ) → Done in_time more (upto n more))
    → (n : ℕ) → Done in_time (piece_actions ps ++ more) (upto n (piece_actions ps ++ more))
unfolding piece_actions upto read_process
Done-pieces in_time [] more h n = h n
Done-pieces in_time (p ∷ ps) more h zero = still_alive refl refl
Done-pieces in_time (p ∷ ps) more h (suc n) =
    Done-emit in_time (output p.name (decode p.content)) (piece_actions ps ++ more)
      (upto n (piece_actions ps ++ more)) (Done-pieces in_time ps more h n)

-- How a stream that is closed has left its process.
pub data IsClosed (in_time exited : Bool) (actions closed : List Action) : Type 0 where
  by_kill : read_process alive closed ≡ gone → IsClosed in_time exited actions closed
  -- nothing was left to do
  complete :
      read_process alive closed ≡ waited
      → in_time ≡ true
      → closed ≡ actions
      → IsClosed in_time exited actions closed
  by_itself :
      read_process alive closed ≡ alive → exited ≡ true → IsClosed in_time exited actions closed

Done-close :
    (in_time exited : Bool) (actions done : List Action)
    → Done in_time actions done
    → IsClosed in_time exited actions
        (if reaped done || exited then done else done ++ (kill ∷ reap ∷ []))
unfolding read_process
Done-close in_time exited actions done (killed_itself r a) = rw r (by_kill a)
Done-close in_time exited actions done (ran_out r a t q) = rw r (complete a t q)
Done-close in_time true actions done (still_alive r a) = rw r (by_itself a refl)
Done-close in_time false actions done (still_alive r a) = rw r (
    by_kill (
      read_process-append alive done (kill ∷ reap ∷ [])
      ∙ ap (λ p. read_process p (kill ∷ reap ∷ [])) a))

-- Whenever the consumer leaves after at least one event, the process has been killed once and then
-- reaped; or it had ended by itself, either when the consumer left, and then nothing is done to it,
-- or in time, and then the stream was complete.
pub close_stream-IsClosed :
    (settings : RuntimeSettings) (seconds : ℤ) (p : Running) (events : ℕ) (exited : Bool)
    → IsClosed p.exits_in_time exited
        (process_actions settings seconds p)
        (close_stream settings seconds p (suc events) exited)
unfolding close_stream process_actions upto
close_stream-IsClosed settings seconds p events exited =
    let drained = drained_from settings p in
    let actions = piece_actions drained.pieces ++ tail_actions seconds p drained.timed_out in
    Done-close p.exits_in_time exited (emit (start p.pid) ∷ actions)
      (emit (start p.pid) ∷ upto events actions)
      (Done-emit p.exits_in_time (start p.pid) actions (upto events actions) (
        Done-pieces p.exits_in_time drained.pieces (tail_actions seconds p drained.timed_out)
          (Done-tail seconds p drained.timed_out) events))
