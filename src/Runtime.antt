-- ===== src/Runtime.antt =====
-- services/xolis-runtime-python/src/xolis_runtime: the settings that the parts share.
pub mod Command
pub mod Capture
pub mod Process
pub mod Execute
pub mod Stream
pub mod Paths
pub mod Upload
pub mod Interactive
pub mod Listing
pub mod App
pub mod Tests
pub mod SessionTests
pub mod EventTests
use xolis.Base.{ℕ, List}
use xolis.Base.Int.{ℤ}
use xolis.Text.{Text}

abbrev pub Bytes : Type 0
Bytes = List ℕ

-- A path by its components, from the root.
abbrev pub FilePath : Type 0
FilePath = List Text

pub record RuntimeSettings : Type 0 where
  pub workspace : FilePath
  pub maximum_command_timeout_seconds : ℤ
  pub maximum_output_bytes : ℤ
  pub maximum_upload_bytes : ℤ
