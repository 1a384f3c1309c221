-- ===== src/Runtime/App/Commands.antt =====
-- The status with which the routes of app.py refuse a command.
use xolis.Base.{◌≡◌, refl, ◌↔◌, List, [], Bool-cases, inl, inr}
use xolis.Base.Int.{ℤ}
use xolis.Base.Result.{Result, ok, err}
use xolis.Text.{Text}
use xolis.Runtime.{RuntimeSettings}
use xolis.Runtime.Command.{InvalidCommand, parse_command}
use xolis.Runtime.Process.{Child, Spawn, os_error, started}
use xolis.Runtime.Execute.{CommandResult, Executed, execute_command, run_arguments, finish_child}
use xolis.Runtime.Stream.{StreamSpawn, stream_command, spawned_actions, process_actions}
use xolis.Runtime.App.{
  HttpError, http_exception, ExecuteRequest, execute, answer_execute, execute_stream, stream_events,
  answer_stream, events,
}

-- A route refuses a command as a bad request.
abbrev pub IsBad {ℓ} : {A : Type ℓ} → Result HttpError A → Type ℓ
IsBad r = r ≡ err (http_exception 400)

abbrev pub IsRejected : Result InvalidCommand (List Text) → Type 0
IsRejected r = (e : InvalidCommand) × (r ≡ err e)

module _ (settings : RuntimeSettings) (timeout_seconds : ℤ) where
  finished_allowed :
      (args : List Text) (child : Child)
      → IsBad (answer_execute (finish_child settings timeout_seconds args child).result)
      → ⊥
  unfolding finish_child
  finished_allowed args child h = elim (Bool-cases child.exits_in_time) [
    | inl e ↦ answered _ (rw e at h)
    | inr e ↦ answered _ (rw e at h)
  ]
    where
      answered :
          (x : CommandResult)
          → ◌≡◌ {A = Result HttpError CommandResult} (ok x) (err (http_exception 400))
          → ⊥
      answered x h = cc

  run_allowed :
      (args : List Text) (child : Spawn)
      → IsBad (answer_execute (run_arguments settings timeout_seconds args child).result)
      → ⊥
  unfolding run_arguments
  run_allowed args (os_error message) h = cc
  run_allowed args (started child) h = finished_allowed args child h

  abbrev executed : Spawn → Result InvalidCommand (List Text) → Executed
  executed child r = elim r [
    | err e ↦ record { effects = []; result = err e }
    | ok args ↦ run_arguments settings timeout_seconds args child
  ]

  execute_iff :
      (child : Spawn) (r : Result InvalidCommand (List Text))
      → IsBad (answer_execute (executed child r).result) ↔ IsRejected r
  execute_iff child (ok args) = (λ h. absurd (run_allowed args child h), λ (e, h). cc)
  execute_iff child (err e) = (λ h. (e, refl), λ h. refl)

  stream_allowed :
      (child : StreamSpawn)
      → IsBad (answer_stream (events (spawned_actions settings timeout_seconds child)))
      → ⊥
  unfolding process_actions
  stream_allowed (StreamSpawn.os_error message) h = cc
  stream_allowed (StreamSpawn.started p) h = cc

  stream_iff :
      (child : StreamSpawn) (r : Result InvalidCommand (List Text))
      → IsBad (
          stream_events (elim r [
            | err e ↦ err e
            | ok args ↦ ok (spawned_actions settings timeout_seconds child)
          ]))
        ↔ IsRejected r
  stream_iff child (ok args) = (λ h. absurd (stream_allowed child h), λ (e, h). cc)
  stream_iff child (err e) = (λ h. (e, refl), λ h. refl)

-- Both command routes answer 400 exactly when the parser rejects the command, whatever its process
-- would do.
pub routes-IsBad :
    (settings : RuntimeSettings) (request : ExecuteRequest) (child : Spawn)
    (stream_child : StreamSpawn)
    → (IsBad (execute settings request child)
        ↔ IsRejected (parse_command settings request.command request.timeout_seconds))
      × (IsBad (execute_stream settings request stream_child)
          ↔ IsRejected (parse_command settings request.command request.timeout_seconds))
unfolding execute execute_stream execute_command stream_command
routes-IsBad settings request child stream_child =
    let parsed = parse_command settings request.command request.timeout_seconds in
    (
      execute_iff settings request.timeout_seconds child parsed,
      stream_iff settings request.timeout_seconds stream_child parsed,
    )
