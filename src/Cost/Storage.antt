-- ===== src/Cost/Storage.antt =====
-- `collect_ecr` and `collect_s3` of tools/xolis_aws_cost.py: what the repositories and the buckets hold.
pub mod Totals
use xolis.Base.{
  ℕ, ◌+◌, Bool, true, false, ◌&&◌, Option, none, some, List, [], ◌∷◌, ◌++◌, map, length, ◌==◌,
  nat_eq, if◌then◌else◌,
}
use xolis.Base.Result.{Result, ok, err, ◌>>=◌}
use xolis.Text.{Text, codes, starts_with}
use xolis.Text.Sort.{sort_by}
use xolis.Cost.{
  Failure, key_error, MultipartUpload, Response, Request, AwsCli, World, run_json, sum,
}

abbrev pub name_or_empty : Option Text → Text
name_or_empty none = []
name_or_empty (some name) = name

abbrev pub required : Option Text → Result Failure Text
required none = err key_error
required (some name) = ok name

-- The names with the prefix; a name that is missing is read only if the prefix is empty.
unfoldable pub selected : Text → List (Option Text) → Result Failure (List Text)
selected prefix [] = ok []
selected prefix (item ∷ items) =
    let rest = selected prefix items in
    if starts_with prefix (name_or_empty item)
    then (do name ← required item; names ← rest; ok (name ∷ names))
    else rest

abbrev pub each : {A : Type 0} → (Text → Result Failure A) → List Text → Result Failure (List A)
each f [] = ok []
each f (name ∷ names) = do a ← f name; rest ← each f names; ok (a ∷ rest)

pub record Repository : Type 0 where
  pub name : Text
  pub image_count : ℕ
  pub logical_bytes : ℕ

pub record Ecr : Type 0 where
  pub repositories : List Repository
  pub repository_count : ℕ
  pub image_count : ℕ
  pub logical_bytes : ℕ

unfoldable pub describe_repository : World → AwsCli → Text → Result Failure Repository
describe_repository world aws name = do
  response ←
      run_json world aws
        (codes "ecr" ∷ codes "describe-images" ∷ codes "--repository-name" ∷ name ∷ [])
  ok (record {
    name = name;
    image_count = length response.image_sizes;
    logical_bytes = sum response.image_sizes;
  })

abbrev pub report_ecr : List Repository → Ecr
report_ecr details = record {
  repositories = details;
  repository_count = length details;
  image_count = sum (map (λ (r : Repository). r.image_count) details);
  logical_bytes = sum (map (λ (r : Repository). r.logical_bytes) details);
}

unfoldable pub collect_ecr : World → AwsCli → Text → Result Failure Ecr
unfolding selected describe_repository sort_by sum
collect_ecr world aws prefix = do
  response ← run_json world aws (codes "ecr" ∷ codes "describe-repositories" ∷ [])
  names ← selected (prefix ++ codes "/") response.repositories
  details ← each (describe_repository world aws) (sort_by (λ name. name) names)
  ok (report_ecr details)

pub record Bucket : Type 0 where
  pub name : Text
  pub version_count : ℕ
  pub version_bytes : ℕ
  pub multipart_upload_count : ℕ
  pub multipart_bytes : ℕ
  pub total_bytes : ℕ

pub record Store : Type 0 where
  pub buckets : List Bucket
  pub bucket_count : ℕ
  pub version_count : ℕ
  pub multipart_upload_count : ℕ
  pub total_bytes : ℕ

abbrev pub version_arguments : Text → Request
version_arguments name = codes "s3api" ∷ codes "list-object-versions" ∷ codes "--bucket" ∷ name ∷ []

abbrev pub upload_arguments : Text → Request
upload_arguments name =
    codes "s3api" ∷ codes "list-multipart-uploads" ∷ codes "--bucket" ∷ name ∷ []

abbrev pub part_arguments : Text → MultipartUpload → Request
part_arguments name upload =
    codes "s3api"
    ∷ codes "list-parts"
    ∷ codes "--bucket"
    ∷ name
    ∷ codes "--key"
    ∷ upload.key
    ∷ codes "--upload-id"
    ∷ upload.upload_id
    ∷ []

-- The loop over the uploads adds to `multipart_bytes`.
unfoldable pub add_parts : World → AwsCli → Text → ℕ → List MultipartUpload → Result Failure ℕ
add_parts world aws name multipart_bytes [] = ok multipart_bytes
add_parts world aws name multipart_bytes (upload ∷ uploads) = do
  response ← run_json world aws (part_arguments name upload)
  add_parts world aws name (multipart_bytes + sum response.part_sizes) uploads

unfoldable pub describe_bucket : World → AwsCli → Text → Result Failure Bucket
unfolding add_parts
describe_bucket world aws name = do
  versions ← run_json world aws (version_arguments name)
  uploads ← run_json world aws (upload_arguments name)
  multipart_bytes ← add_parts world aws name 0 uploads.uploads
  ok (record {
    name = name;
    version_count = length versions.version_sizes;
    version_bytes = sum versions.version_sizes;
    multipart_upload_count = length uploads.uploads;
    multipart_bytes = multipart_bytes;
    total_bytes = sum versions.version_sizes + multipart_bytes;
  })

abbrev pub report_store : List Bucket → Store
report_store details = record {
  buckets = details;
  bucket_count = length details;
  version_count = sum (map (λ (b : Bucket). b.version_count) details);
  multipart_upload_count = sum (map (λ (b : Bucket). b.multipart_upload_count) details);
  total_bytes = sum (map (λ (b : Bucket). b.total_bytes) details);
}

unfoldable pub collect_s3 : World → AwsCli → Text → Result Failure Store
unfolding selected describe_bucket sort_by sum
collect_s3 world aws prefix = do
  response ← run_json world aws (codes "s3api" ∷ codes "list-buckets" ∷ [])
  names ← selected prefix response.buckets
  details ← each (describe_bucket world aws) (sort_by (λ name. name) names)
  ok (report_store details)
