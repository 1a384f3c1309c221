-- ===== src/Builder/Commands.antt =====
-- The commands of tools/xolis_image_builder.py: what a shell makes of them, and their order.
use mathlib.Core.Path.{subst}
use xolis.Base.{
  ◌≡◌, refl, sym, ap, ◌∙◌, true, false, Option, none, some, List, [], ◌∷◌, ◌++◌, append_assoc, Has,
  here, there, arith, Bool-cases, Option-cases, inl, inr, contains, ◌==◌, nat_eq, list_eq,
  list_beq_iff,
}
use xolis.Base.Result.{ok}
use xolis.Text.{Text, codes}
use xolis.Text.Shlex.{words, split, step_at, run, finish, finish_at, start, single_quoted}
use xolis.Text.Shlex.RoundTrip.{run-append, run-single_quoted, run_blank_after, flush-quoted}
use xolis.Builder.{
  Repository, repositories, find, is_tag, is_registry, all_known, is_subset, shell_quote,
  download_command, push_command, convert_command, image_commands, images_commands, setup_commands,
  nydus_setup, conversion_commands, conversions, nydus_commands, build_commands, is_known,
}

abbrev before_url : List Text
before_url =
    codes "curl"
    ∷ codes "--fail"
    ∷ codes "--silent"
    ∷ codes "--show-error"
    ∷ codes "--location"
    ∷ []

abbrev after_url : List Text
after_url = codes "--output" ∷ codes "/opt/xolis-source.tar.gz" ∷ []

run_before :
    run (start []) (codes "curl --fail --silent --show-error --location ") ≡ start before_url
unfolding run step_at
run_before = refl

run_after :
    (url : Text)
    → finish (run (start (before_url ++ (url ∷ []))) (codes "--output /opt/xolis-source.tar.gz"))
      ≡ words (before_url ++ (url ∷ after_url))
unfolding run step_at finish_at
run_after url = refl

run_url :
    (url : Text) (ts : List Text) (rest : Text)
    → run (start ts) (shell_quote url ++ (32 ∷ rest)) ≡ run (start (ts ++ (url ∷ []))) rest
unfolding shell_quote single_quoted
run_url url ts rest =
    run-append (start ts) (single_quoted url) (32 ∷ rest)
    ∙ (ap (λ l. run l (32 ∷ rest)) (run-single_quoted url ts)
        ∙ (run_blank_after url true ts rest ∙ ap (λ u. run (start u) rest) (flush-quoted url ts)))

-- Whatever characters the URL of the source has, the download command splits into the words that it
-- is written with, the URL being one of them.
pub split-download_command :
    (source_url : Text)
    → split (download_command source_url) ≡ words (before_url ++ (source_url ∷ after_url))
unfolding split download_command
split-download_command url =
    ap finish (
      run-append (start []) (codes "curl --fail --silent --show-error --location ")
        (shell_quote url ++ codes " --output /opt/xolis-source.tar.gz")
      ∙ (ap (λ l. run l (shell_quote url ++ codes " --output /opt/xolis-source.tar.gz")) run_before
          ∙ run_url url before_url (codes "--output /opt/xolis-source.tar.gz")))
    ∙ run_after url

module _ {A : Type 0} where
  Has-left : {x : A} {xs : List A} (ys : List A) → Has xs x → Has (xs ++ ys) x
  Has-left ys here = here
  Has-left ys (there h) = there (Has-left ys h)

  Has-right : {x : A} {ys : List A} (xs : List A) → Has ys x → Has (xs ++ ys) x
  Has-right [] h = h
  Has-right (y ∷ xs) h = there (Has-right xs h)

contains-Has : (names : List Text) (name : Text) → contains names name ≡ true → Has names name
contains-Has [] name h = cc
contains-Has (n ∷ names) name h = elim (Bool-cases (name == n)) [
  | inl e ↦ subst (Has (n ∷ names)) (sym ((list_beq_iff name n).0 e)) here
  | inr e ↦ there (contains-Has names name (rw e at h))
]

is_subset-Has :
    (names images : List Text) (name : Text)
    → is_subset names images ≡ true
    → Has names name
    → contains images name ≡ true
unfolding is_subset
is_subset-Has [] images name h k = elim k [ ]
is_subset-Has (n ∷ names) images name h here = ground arith
is_subset-Has (n ∷ names) images name h (there k) = is_subset-Has names images name (ground arith) k

all_known-Has :
    (names : List Text) (name : Text)
    → all_known names ≡ true
    → Has names name
    → is_known name ≡ true
unfolding all_known
all_known-Has [] name h k = elim k [ ]
all_known-Has (n ∷ names) name h here = ground arith
all_known-Has (n ∷ names) name h (there k) = all_known-Has names name (ground arith) k

found_of_known :
    (name : Text) → is_known name ≡ true → (r : Repository) × (find name repositories ≡ some r)
found_of_known name h = elim (Option-cases (find name repositories)) [
  | inl e ↦ absurd (unknown (find name repositories) e h)
  | inr f ↦ f
]
  where
    unknown :
        (o : Option Repository) → o ≡ none → (elim o [ none ↦ false | some r ↦ true ]) ≡ true → ⊥
    unknown none e h = cc
    unknown (some r) e h = cc

module _ (registry tag : Text) (r : Repository) (name : Text)
    (found : find name repositories ≡ some r) where
  images_commands-Has :
      (images : List Text)
      → Has images name
      → Has (images_commands registry tag images) (push_command registry tag r)
  unfolding images_commands
  images_commands-Has [] h = elim h [ ]
  images_commands-Has (n ∷ images) here = Has-left (images_commands registry tag images) (
      subst (λ o. Has (image_commands registry tag o) (push_command registry tag r)) (sym found)
        (there (there (there (there here)))))
  images_commands-Has (n ∷ images) (there h) =
      Has-right (image_commands registry tag (find n repositories)) (images_commands-Has images h)

  conversions-Has :
      (names : List Text)
      → Has names name
      → Has (conversions registry tag names) (convert_command registry tag r)
  unfolding conversions
  conversions-Has [] h = elim h [ ]
  conversions-Has (n ∷ names) here = Has-left (conversions registry tag names) (
      subst (λ o. Has (conversion_commands registry tag o) (convert_command registry tag r))
        (sym found) (there here))
  conversions-Has (n ∷ names) (there h) =
      Has-right (conversion_commands registry tag (find n repositories)) (conversions-Has names h)

  nydus_commands-Has :
      (names : List Text)
      → Has names name
      → Has (nydus_commands registry tag names) (convert_command registry tag r)
  unfolding nydus_commands
  nydus_commands-Has [] h = elim h [ ]
  nydus_commands-Has (n ∷ names) h = Has-right nydus_setup (conversions-Has (n ∷ names) h)

module _ (source_url registry tag : Text) (images nydus_images : List Text)
    (commands : List Text) where
  -- What accepted arguments satisfy, and the commands they give.
  pub record IsBuild : Type 0 where
    pub tag_supported : is_tag tag ≡ true
    pub registry_supported : is_registry registry ≡ true
    pub images_known : all_known images ≡ true
    pub nydus_known : all_known nydus_images ≡ true
    pub nydus_selected : is_subset nydus_images images ≡ true
    pub same :
        setup_commands source_url registry
          ++ (images_commands registry tag images ++ nydus_commands registry tag nydus_images)
        ≡ commands

  build_commands-IsBuild :
      build_commands source_url registry tag images nydus_images ≡ ok commands → IsBuild
  unfolding build_commands
  build_commands-IsBuild h = record {
    tag_supported = ground arith;
    registry_supported = ground arith;
    images_known = ground arith;
    nydus_known = ground arith;
    nydus_selected = ground arith;
    same = ground arith;
  }

  -- Each image that is converted has been pushed by then, to the reference that the conversion reads.
  pub record IsPushedFirst (name : Text) : Type 0 where
    pub repository : Repository
    pub found : find name repositories ≡ some repository
    pub earlier : List Text
    pub later : List Text
    pub commands_split : commands ≡ earlier ++ later
    pub pushed : Has earlier (push_command registry tag repository)
    pub converted : Has later (convert_command registry tag repository)

  -- When the commands are built, each image to convert is a known one, and its conversion stands
  -- behind the push of the image that it reads.
  pub build_commands-IsPushedFirst :
      (name : Text)
      → build_commands source_url registry tag images nydus_images ≡ ok commands
      → Has nydus_images name
      → IsPushedFirst name
  build_commands-IsPushedFirst name h selected =
      let b = build_commands-IsBuild h in
      let (r, found) =
        found_of_known name (all_known-Has nydus_images name b.nydus_known selected) in
      let chosen =
        contains-Has images name
          (is_subset-Has nydus_images images name b.nydus_selected selected) in
      record {
        repository = r;
        found = found;
        earlier = setup_commands source_url registry ++ images_commands registry tag images;
        later = nydus_commands registry tag nydus_images;
        commands_split =
            sym b.same
            ∙ sym (
                append_assoc (setup_commands source_url registry)
                  (images_commands registry tag images) (nydus_commands registry tag nydus_images));
        pushed =
            Has-right (setup_commands source_url registry)
              (images_commands-Has registry tag r name found images chosen);
        converted = nydus_commands-Has registry tag r name found nydus_images selected;
      }
