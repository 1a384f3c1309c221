-- ===== src/Builder/Tests.antt =====
-- Runs of the image builder, and instances of its theorems.
use xolis.Base.{◌≡◌, refl, true, false, List, [], ◌∷◌, ◌++◌, here, nat_eq, list_eq}
use xolis.Base.Result.{ok}
use xolis.Text.{Text, codes}
use xolis.Text.Shlex.{words, split}
use xolis.Builder.{
  download_command, setup_commands, images_commands, nydus_commands, build_commands,
}
use xolis.Builder.Commands.{split-download_command, IsPushedFirst, build_commands-IsPushedFirst}
use xolis.Builder.Run.{World, Builder, not_launched, success, in_progress, run}
use xolis.Builder.Run.Keeps.{end_of}
use xolis.Builder.Run.Left.{IsLeft, run-IsLeft}

split-download_command_example :
    split (download_command (codes "https://b/x?a='1'&b=2"))
    ≡ words (
        codes "curl"
        ∷ codes "--fail"
        ∷ codes "--silent"
        ∷ codes "--show-error"
        ∷ codes "--location"
        ∷ codes "https://b/x?a='1'&b=2"
        ∷ codes "--output"
        ∷ codes "/opt/xolis-source.tar.gz"
        ∷ [])
split-download_command_example = split-download_command (codes "https://b/x?a='1'&b=2")

abbrev registry : Text
registry = codes "12.dkr.ecr.eu-1.amazonaws.com"

abbrev api_image : List Text
api_image = codes "xolis-api" ∷ []

abbrev api_commands : List Text
api_commands =
    setup_commands (codes "u") registry
    ++ (images_commands registry (codes "t-1") api_image
        ++ nydus_commands registry (codes "t-1") api_image)

built : build_commands (codes "u") registry (codes "t-1") api_image api_image ≡ ok api_commands
unfolding build_commands
built = refl

build_commands-IsPushedFirst_example :
    IsPushedFirst
      (codes "u")
      registry
      (codes "t-1")
      api_image
      api_image
      api_commands
      (codes "xolis-api")
build_commands-IsPushedFirst_example =
    build_commands-IsPushedFirst (codes "u") registry (codes "t-1") api_image api_image api_commands
      (codes "xolis-api") built here

abbrev working : World
working = record {
  has_executables = true;
  reads_commit = true;
  archives = true;
  copies = true;
  presigns = true;
  looks_up = true;
  launches = true;
  orphans = false;
  registers = true;
  commands_built = true;
  sends = true;
  polls = in_progress ∷ success ∷ [];
  describes_images = true;
  terminates = true;
  waits_terminated = true;
  state_is_terminated = true;
  removes = true;
  lists = true;
  deletes = true;
}

abbrev new_builder : Builder
new_builder = record {
  instance_state = not_launched;
  has_source_uri = false;
  versions = codes "other" ∷ [];
}

run-IsLeft_example :
    IsLeft
      (record working { terminates = false })
      (codes "k")
      (end_of (run (record working { terminates = false }) false (codes "k") new_builder))
run-IsLeft_example =
    run-IsLeft (record working { terminates = false }) (codes "k") new_builder refl refl refl refl
      refl refl refl refl
