-- ===== src/Builder.antt =====
-- `build_commands` and `shell_quote` of tools/xolis_image_builder.py: the shell commands of a build.
pub mod Commands
pub mod Run
pub mod Tests
use xolis.Base.{
  ℕ, Bool, true, false, not, ◌&&◌, ◌||◌, Option, none, some, List, [], ◌∷◌, ◌++◌, leb, contains,
  ◌==◌, nat_eq, list_eq, if◌then◌else◌,
}
use xolis.Base.Result.{Result, ok, err}
use xolis.Text.{Text, codes}
use xolis.Text.Shlex.{escape_quotes}

pub record Repository : Type 0 where
  pub local_name : Text
  pub repository : Text
  pub dockerfile : Text

-- `REPOSITORIES`
unfoldable pub repositories : List Repository
repositories =
    record {
      local_name = codes "xolis-api";
      repository = codes "xolis/xolis-api";
      dockerfile = codes "image/xolis-api/Dockerfile";
    }
    ∷ record {
      local_name = codes "xolis-runtime-python";
      repository = codes "xolis/xolis-runtime-python";
      dockerfile = codes "image/xolis-runtime-python/Dockerfile";
    }
    ∷ record {
      local_name = codes "xolis-runtime-hermes";
      repository = codes "xolis/xolis-runtime-hermes";
      dockerfile = codes "image/xolis-runtime-hermes/Dockerfile";
    }
    ∷ record {
      local_name = codes "sandbox-router-go";
      repository = codes "xolis/sandbox-router";
      dockerfile = codes "image/sandbox-router/Dockerfile";
    }
    ∷ []

unfoldable pub find : Text → List Repository → Option Repository
find name [] = none
find name (r ∷ rs) = let rest = find name rs in if name == r.local_name then some r else rest

abbrev pub is_lower : ℕ → Bool
is_lower c = leb 97 c && leb c 122

abbrev pub is_digit : ℕ → Bool
is_digit c = leb 48 c && leb c 57

abbrev pub is_tag_character : ℕ → Bool
is_tag_character c = is_lower c || (leb 65 c && leb c 90) || is_digit c || contains (codes "._-") c

abbrev pub is_region_character : ℕ → Bool
is_region_character c = is_lower c || is_digit c || c == 45

unfoldable pub all_are : (ℕ → Bool) → Text → Bool
all_are p [] = true
all_are p (c ∷ s) = p c && all_are p s

abbrev pub is_some_text : Text → Bool
is_some_text [] = false
is_some_text (c ∷ s) = true

-- `re.fullmatch(r"[a-zA-Z0-9._-]+", tag)`
unfoldable pub is_tag : Text → Bool
unfolding all_are
is_tag tag = is_some_text tag && all_are is_tag_character tag

-- The rest of a text behind the characters of a class, and whether there was one.
unfoldable pub skip : (ℕ → Bool) → Text → Text
skip p [] = []
skip p (c ∷ s) = let rest = skip p s in if p c then rest else c ∷ s

abbrev pub starts_in : (ℕ → Bool) → Text → Bool
starts_in p [] = false
starts_in p (c ∷ s) = p c

unfoldable pub after_literal : Text → Text → Option Text
after_literal [] s = some s
after_literal (l ∷ ls) [] = none
after_literal (l ∷ ls) (c ∷ s) = let rest = after_literal ls s in if l == c then rest else none

abbrev pub is_region_part : Option Text → Bool
is_region_part none = false
is_region_part (some s) =
    starts_in is_region_character s && skip is_region_character s == codes ".amazonaws.com"

-- `re.fullmatch(r"[0-9]+\.dkr\.ecr\.[a-z0-9-]+\.amazonaws\.com", registry)`: no class holds the dot
-- that ends its run.
unfoldable pub is_registry : Text → Bool
unfolding skip after_literal
is_registry registry =
    starts_in is_digit registry
    && is_region_part (after_literal (codes ".dkr.ecr.") (skip is_digit registry))

unfoldable pub shell_quote : Text → Text
unfolding escape_quotes
shell_quote value = 39 ∷ (escape_quotes value ++ (39 ∷ []))

unfoldable pub download_command : Text → Text
unfolding shell_quote
download_command source_url =
    codes "curl --fail --silent --show-error --location "
    ++ (shell_quote source_url ++ codes " --output /opt/xolis-source.tar.gz")

abbrev pub reference_of : Text → Text → Repository → Text
reference_of registry tag r = registry ++ (47 ∷ (r.repository ++ (58 ∷ tag)))

abbrev pub push_command : Text → Text → Repository → Text
push_command registry tag r = codes "docker push --quiet " ++ reference_of registry tag r

abbrev pub convert_command : Text → Text → Repository → Text
convert_command registry tag r =
    codes "nydusify convert --source "
    ++ (reference_of registry tag r
        ++ (codes " --target " ++ (reference_of registry tag r ++ codes "-nydus")))

unfoldable pub setup_commands : Text → Text → List Text
unfolding download_command
setup_commands source_url registry =
    codes "set -euo pipefail"
    ∷ codes "echo 'Installing the container build runtime'"
    ∷ codes "dnf install -q -y docker"
    ∷ codes "systemctl enable --now docker"
    ∷ codes "rm -rf /opt/xolis-build && mkdir -p /opt/xolis-build"
    ∷ codes "echo 'Downloading the committed source archive'"
    ∷ download_command source_url
    ∷ codes "tar -xzf /opt/xolis-source.tar.gz -C /opt/xolis-build"
    ∷ codes "cd /opt/xolis-build"
    ∷ (codes "aws ecr get-login-password | docker login --username AWS --password-stdin "
        ++ (registry ++ codes " >/dev/null"))
    ∷ []

abbrev pub image_commands : Text → Text → Option Repository → List Text
image_commands registry tag none = []
image_commands registry tag (some r) =
    (codes "echo 'Building " ++ (r.local_name ++ codes "'"))
    ∷ (codes "docker build --pull --file "
        ++ (r.dockerfile ++ (codes " --tag " ++ (r.local_name ++ (58 ∷ (tag ++ codes " ."))))))
    ∷ (codes "docker tag " ++ (r.local_name ++ (58 ∷ (tag ++ (32 ∷ reference_of registry tag r)))))
    ∷ (codes "echo 'Pushing " ++ (r.local_name ++ codes "'"))
    ∷ push_command registry tag r
    ∷ []

-- The loop over the images, whose names are known by then.
unfoldable pub images_commands : Text → Text → List Text → List Text
unfolding find repositories
images_commands registry tag [] = []
images_commands registry tag (name ∷ names) =
    image_commands registry tag (find name repositories) ++ images_commands registry tag names

abbrev pub archive : Text
archive = codes "nydus-static-v2.4.4-linux-amd64.tgz"

unfoldable pub nydus_setup : List Text
nydus_setup =
    codes "echo 'Installing the pinned Nydus conversion tools'"
    ∷ (codes
          "curl --fail --silent --show-error --location https://github.com/dragonflyoss/nydus/releases/download/v2.4.4/"
        ++ (archive ++ (codes " --output /opt/" ++ archive)))
    ∷ (codes "echo 'e95a0d1984ef507c0cf4c7766a9cde8433215e1007556e03d4cc211725c68c59  /opt/"
        ++ (archive ++ codes "' | sha256sum --check --strict"))
    ∷ (codes "tar -xzf /opt/" ++ (archive ++ codes " -C /opt"))
    ∷ codes "install -m 0755 /opt/nydus-static/nydus-image /usr/local/bin/nydus-image"
    ∷ codes "install -m 0755 /opt/nydus-static/nydusify /usr/local/bin/nydusify"
    ∷ codes "install -m 0755 /opt/nydus-static/nydusd /usr/local/bin/nydusd"
    ∷ []

abbrev pub conversion_commands : Text → Text → Option Repository → List Text
conversion_commands registry tag none = []
conversion_commands registry tag (some r) =
    (codes "echo 'Converting " ++ (r.local_name ++ codes " to Nydus format'"))
    ∷ convert_command registry tag r
    ∷ (codes "echo 'Checking " ++ (r.local_name ++ codes " Nydus manifest and bootstrap'"))
    ∷ (codes "nydusify check --target " ++ (reference_of registry tag r ++ codes "-nydus"))
    ∷ []

unfoldable pub conversions : Text → Text → List Text → List Text
unfolding find repositories
conversions registry tag [] = []
conversions registry tag (name ∷ names) =
    conversion_commands registry tag (find name repositories) ++ conversions registry tag names

unfoldable pub nydus_commands : Text → Text → List Text → List Text
unfolding nydus_setup conversions
nydus_commands registry tag [] = []
nydus_commands registry tag (name ∷ names) = nydus_setup ++ conversions registry tag (name ∷ names)

pub data BuildError : Type 0 where
  unsupported_tag unsupported_registry unknown_images nydus_not_selected : BuildError

abbrev pub is_known : Text → Bool
is_known name = elim (find name repositories) [ none ↦ false | some r ↦ true ]

unfoldable pub all_known : List Text → Bool
unfolding find repositories
all_known [] = true
all_known (name ∷ names) = is_known name && all_known names

unfoldable pub is_subset : List Text → List Text → Bool
is_subset [] images = true
is_subset (name ∷ names) images = contains images name && is_subset names images

unfoldable pub build_commands :
    Text → Text → Text → List Text → List Text → Result BuildError (List Text)
unfolding is_tag is_registry all_known is_subset setup_commands images_commands nydus_commands
build_commands source_url registry tag images nydus_images =
    if not (is_tag tag)
    then err unsupported_tag
    else if not (is_registry registry)
    then err unsupported_registry
    else if not (all_known images && all_known nydus_images)
    then err unknown_images
    else if not (is_subset nydus_images images)
    then err nydus_not_selected
    else ok (
        setup_commands source_url registry
        ++ (images_commands registry tag images ++ nydus_commands registry tag nydus_images))
