-- ===== src/Builder/Run.antt =====
-- `ImageBuilder.run`, `wait_for_command` and `cleanup` of tools/xolis_image_builder.py.
pub mod Keeps
pub mod Cleanup
pub mod Left
use xolis.Base.{
  ℕ, Bool, true, false, not, ◌&&◌, Option, none, some, List, [], ◌∷◌, ◌++◌, ◌==◌, nat_eq, list_eq,
  if◌then◌else◌,
}
use xolis.Base.Result.{Result, ok, err, ◌>>=◌}
use xolis.Text.{Text}

pub data Failure : Type 0 where
  aws_command_error runtime_error timeout_error value_error called_process_error : Failure

-- The instance that builds, as far as this run has launched one; `unknown` runs, but its identifier
-- was lost with the answer to `run-instances`.
pub data Instance : Type 0 where
  not_launched unknown launched terminating terminated : Instance

-- The run's attributes, and the keys of the object versions in the source bucket.
pub record Builder : Type 0 where
  pub instance_state : Instance
  pub has_source_uri : Bool
  pub versions : List Text

pub record Raised : Type 0 where
  pub failure : Failure
  pub builder : Builder

-- A step ends in a state, whether it returns or raises.
abbrev pub Step : Type 0
Step = Builder → Result Raised Builder

abbrev pub need : Bool → Failure → Step
need succeeds failure b = if succeeds then ok b else err (record { failure = failure; builder = b })

-- One look at the remote command: there is none yet, the look fails, or its status.
pub data Poll : Type 0 where
  does_not_exist look_fails : Poll
  in_progress success ended_otherwise : Poll

-- What the calls outside the program do; `polls` are the looks that are taken before the deadline.
pub record World : Type 0 where
  pub has_executables : Bool
  pub reads_commit : Bool
  pub archives : Bool
  pub copies : Bool
  pub presigns : Bool
  pub looks_up : Bool
  pub launches : Bool
  -- whether a `run-instances` whose answer is lost has launched an instance
  pub orphans : Bool
  pub registers : Bool
  pub commands_built : Bool
  pub sends : Bool
  pub polls : List Poll
  pub describes_images : Bool
  pub terminates : Bool
  pub waits_terminated : Bool
  pub state_is_terminated : Bool
  pub removes : Bool
  pub lists : Bool
  pub deletes : Bool

-- The loop until the deadline: `none` if it ends well.
unfoldable pub wait_for_command : List Poll → Option Failure
wait_for_command [] = some timeout_error
wait_for_command (does_not_exist ∷ polls) = wait_for_command polls
wait_for_command (in_progress ∷ polls) = wait_for_command polls
wait_for_command (look_fails ∷ polls) = some aws_command_error
wait_for_command (success ∷ polls) = none
wait_for_command (ended_otherwise ∷ polls) = some runtime_error

abbrev pub raise_if : Option Failure → Step
raise_if none b = ok b
raise_if (some failure) b = err (record { failure = failure; builder = b })

module _ (world : World) (keep_instance : Bool) (key : Text) where
  unfoldable pub upload_source : Step
  upload_source b = do
    b ← need world.archives called_process_error (record b { has_source_uri = true })
    b ← need world.copies aws_command_error b
    need world.presigns aws_command_error (record b { versions = key ∷ b.versions })

  unfoldable pub launch_instance : Step
  launch_instance b =
      if world.launches
      then ok (record b { instance_state = launched })
      else err (record {
        failure = aws_command_error;
        builder = if world.orphans then record b { instance_state = unknown } else b;
      })

  unfoldable pub build : Step
  unfolding upload_source launch_instance wait_for_command
  build b = do
    b ← upload_source b
    b ← need world.looks_up aws_command_error b
    b ← launch_instance b
    b ← need world.registers timeout_error b
    b ← need world.commands_built value_error b
    b ← need world.sends aws_command_error b
    b ← raise_if (wait_for_command world.polls) b
    need world.describes_images aws_command_error b

  abbrev pub is_launched : Instance → Bool
  is_launched not_launched = false
  is_launched unknown = false
  is_launched _ = true

  unfoldable pub terminate : Step
  terminate b =
      if is_launched b.instance_state && not keep_instance
      then (do
        b ← need world.terminates aws_command_error b
        b ←
            need world.waits_terminated aws_command_error
              (record b { instance_state = terminating })
        b ← need world.state_is_terminated runtime_error b
        ok (record b { instance_state = terminated }))
      else ok b

  -- The versions whose key is not that of the source, which are those that a deletion leaves.
  unfoldable pub others : List Text → List Text
  others [] = []
  others (k ∷ ks) = if k == key then others ks else k ∷ others ks

  -- `s3 rm` leaves a delete marker, which is a version of the same key, so there is one to delete.
  unfoldable pub remove_source : Step
  unfolding others
  remove_source b =
      if b.has_source_uri
      then (do
        b ← need world.removes aws_command_error b
        b ← need world.lists aws_command_error (record b { versions = key ∷ b.versions })
        b ← need world.deletes runtime_error b
        ok (record b { versions = others b.versions }))
      else ok b

  unfoldable pub cleanup : Step
  unfolding terminate remove_source
  cleanup b = do b ← terminate b; remove_source b

  -- `finally`: what it raises replaces what the block raised.
  abbrev pub re_raise : Failure → Result Raised Builder → Result Raised Builder
  re_raise failure (ok b) = err (record { failure = failure; builder = b })
  re_raise failure (err r) = err r

  abbrev pub finally : Result Raised Builder → Result Raised Builder
  finally (ok b) = cleanup b
  finally (err r) = re_raise r.failure (cleanup r.builder)

  unfoldable pub run : Step
  unfolding build cleanup
  run b = do
    b ← need (world.has_executables) runtime_error b
    b ← need world.reads_commit called_process_error b
    finally (build b)

-- `main`: the status, or `none` if the exception is let through.
unfoldable pub exit_status : Result Raised Builder → Option ℕ
exit_status (ok b) = some 0
exit_status (err r) = elim r.failure [ timeout_error ↦ none | value_error ↦ none | _ ↦ some 1 ]
