-- ===== src/Cost/Snapshots.antt =====
-- The snapshots behind the images, and how much of each is allocated.
pub mod Paging
pub mod Inventory
use xolis.Base.{
  ℕ, zero, suc, ◌+◌, ◌*◌, Bool, true, false, ◌||◌, Option, none, some, List, [], ◌∷◌, ◌++◌, map,
  ◌==◌, nat_eq, list_eq, contains, if◌then◌else◌,
}
use xolis.Base.Int.{ℤ, pos, negsuc}
use xolis.Base.Result.{Result, ok, err, ◌>>=◌}
use xolis.Text.{Text, codes}
use xolis.Text.Sort.{sort_by, set}
use xolis.Cost.{
  Failure, aws_command_error, out_of_fuel, Image, Response, Request, AwsCli, World, run_json, sum,
}

-- `if token`
abbrev pub is_given : Option Text → Bool
is_given none = false
is_given (some []) = false
is_given (some (c ∷ s)) = true

abbrev pub next_token : Option Text → Request
next_token none = []
next_token (some []) = []
next_token (some (c ∷ s)) = codes "--next-token" ∷ (c ∷ s) ∷ []

abbrev pub page_arguments : Text → Option Text → Request
page_arguments snapshot_id token =
    codes "ebs"
    ∷ codes "list-snapshot-blocks"
    ∷ codes "--snapshot-id"
    ∷ snapshot_id
    ∷ codes "--max-results"
    ∷ codes "10000"
    ∷ codes "--no-paginate"
    ∷ next_token token

-- A block size that is not positive is refused, so that it counts as 0 here.
abbrev pub size_of : ℤ → ℕ
size_of (pos n) = n
size_of (negsuc n) = 0

abbrev pub changes : Option ℕ → ℕ → Bool
changes none size = false
changes (some known) size = if size == known then false else true

-- One round of the loop; `more` is the rounds that follow.
unfoldable pub after_page :
    Option ℕ → ℕ → (Option Text → Option ℕ → ℕ → Result Failure ℕ) → Response → Result Failure ℕ
after_page known block_count more response =
    let size = size_of response.block_size in
    if size == 0
    then err aws_command_error
    else if changes known size
    then err aws_command_error
    else if is_given response.next_token
    then more response.next_token (some size) (block_count + response.blocks)
    else ok ((block_count + response.blocks) * size)

unfoldable pub read_pages :
    World → AwsCli → Text → ℕ → Option Text → Option ℕ → ℕ → Result Failure ℕ
unfolding after_page
read_pages world aws snapshot_id zero token known block_count = err out_of_fuel
read_pages world aws snapshot_id (suc fuel) token known block_count =
    run_json world aws (page_arguments snapshot_id token)
    >>= after_page known block_count (read_pages world aws snapshot_id fuel)

unfoldable pub snapshot_allocated_bytes : World → AwsCli → ℕ → Text → Result Failure ℕ
unfolding read_pages
snapshot_allocated_bytes world aws fuel snapshot_id =
    read_pages world aws snapshot_id fuel none none 0

pub record Snapshot : Type 0 where
  pub id : Text
  pub allocated_bytes : ℕ
  pub image_ids : List (Option Text)

pub record NamedImage : Type 0 where
  pub id : Option Text
  pub name : Option Text

pub record Snapshots : Type 0 where
  pub images : List NamedImage
  pub snapshots : List Snapshot
  pub allocated_bytes : ℕ

abbrev pub given_ids : List (Option Text) → List Text
given_ids [] = []
given_ids (none ∷ ids) = given_ids ids
given_ids (some [] ∷ ids) = given_ids ids
given_ids (some (c ∷ s) ∷ ids) = (c ∷ s) ∷ given_ids ids

-- The identifiers that the comprehension meets, before they become a set.
abbrev pub mentioned_ids : List Image → List Text
mentioned_ids [] = []
mentioned_ids (image ∷ images) = given_ids image.snapshot_ids ++ mentioned_ids images

abbrev pub is_some_id : Option Text → Text → Bool
is_some_id none id = false
is_some_id (some other) id = id == other

-- `snapshot_id in {mapping.get("Ebs", {}).get("SnapshotId") for ...}`
abbrev pub has_id : List (Option Text) → Text → Bool
has_id [] id = false
has_id (o ∷ os) id = is_some_id o id || has_id os id

unfoldable pub image_ids_of : Text → List Image → List (Option Text)
image_ids_of id [] = []
image_ids_of id (image ∷ images) =
    let rest = image_ids_of id images in
    if has_id image.snapshot_ids id then image.image_id ∷ rest else rest

unfoldable pub measure :
    World → AwsCli → ℕ → List Image → List Text → Result Failure (List Snapshot)
measure world aws fuel images [] = ok []
measure world aws fuel images (id ∷ ids) = do
  bytes ← snapshot_allocated_bytes world aws fuel id
  rest ← measure world aws fuel images ids
  ok (record { id = id; allocated_bytes = bytes; image_ids = image_ids_of id images } ∷ rest)

abbrev pub image_arguments : Text → Request
image_arguments prefix =
    codes "ec2"
    ∷ codes "describe-images"
    ∷ codes "--owners"
    ∷ codes "self"
    ∷ codes "--filters"
    ∷ (codes "Name=name,Values=" ++ (prefix ++ codes "*"))
    ∷ []

abbrev pub report_snapshots : List Image → List Snapshot → Snapshots
report_snapshots images snapshots = record {
  images = map (λ (i : Image). record { id = i.image_id; name = i.name }) images;
  snapshots = snapshots;
  allocated_bytes = sum (map (λ (s : Snapshot). s.allocated_bytes) snapshots);
}

unfoldable pub collect_snapshots : World → AwsCli → ℕ → Text → Result Failure Snapshots
unfolding measure set sort_by sum
collect_snapshots world aws fuel prefix = do
  response ← run_json world aws (image_arguments prefix)
  snapshots ←
      measure world aws fuel response.images
        (sort_by (λ id. id) (set (mentioned_ids response.images)))
  ok (report_snapshots response.images snapshots)
