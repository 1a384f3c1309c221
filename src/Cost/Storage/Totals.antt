-- ===== src/Cost/Storage/Totals.antt =====
-- The totals of `collect_ecr` and `collect_s3` against what the service lists for each name.
use mathlib.Core.List.{Perm}
use mathlib.Core.Path.{subst}
use xolis.Base.{
  ℕ, ◌+◌, ◌≡◌, refl, sym, Option, some, none, List, [], ◌∷◌, map, length, All, arith, nat_eq,
  list_eq, Bool-cases, inl, inr, if◌then◌else◌,
}
use xolis.Base.Result.{ok, >>=-returns}
use xolis.Text.{Text, codes, starts_with}
use xolis.Text.Sort.{sort_by}
use xolis.Text.Sort.Order.{sort-perm}
use xolis.Cost.{MultipartUpload, Response, AwsCli, World, run_json, sum}
use xolis.Cost.Storage.{
  selected, each, version_arguments, upload_arguments, part_arguments, add_parts, Bucket, Store,
  describe_bucket, report_store, collect_s3,
}

-- The names with the prefix, in the order of the listing.
pub matching : Text → List (Option Text) → List Text
matching prefix [] = []
matching prefix (none ∷ items) = matching prefix items
matching prefix (some name ∷ items) =
    let rest = matching prefix items in if starts_with prefix name then name ∷ rest else rest

selected-ok :
    (prefix : Text) (items : List (Option Text)) (names : List Text)
    → selected prefix items ≡ ok names
    → names ≡ matching prefix items
unfolding selected matching
selected-ok prefix [] names h = cc
selected-ok prefix (none ∷ items) names h = elim (Bool-cases (starts_with prefix [])) [
  | inl e ↦ cc (rw e at h)
  | inr e ↦ selected-ok prefix items names (rw e at h)
]
selected-ok prefix (some name ∷ items) names h = elim (Bool-cases (starts_with prefix name)) [
  | inl e ↦
      let (rest, found, same) =
        >>=-returns (selected prefix items) (λ ns. ok (name ∷ ns)) (rw e at h) in
      rw (e, ← selected-ok prefix items rest found) (cc)
  | inr e ↦ rw e (selected-ok prefix items names (rw e at h))
]

module _ (world : World) (aws : AwsCli) where
  -- The bytes of the parts of an upload, and that they can be listed.
  pub data Parts (bucket : Text) : List MultipartUpload → ℕ → Type 0 where
    no_upload : Parts bucket [] 0
    upload :
        {first : MultipartUpload} {uploads : List MultipartUpload} {rest bytes : ℕ}
        (response : Response)
        → run_json world aws (part_arguments bucket first) ≡ ok response
        → Parts bucket uploads rest
        → bytes ≡ sum response.part_sizes + rest
        → Parts bucket (first ∷ uploads) bytes

  -- What the service lists for a bucket: every version of every object, and every part of every
  -- upload that is not complete.
  pub record Holds (b : Bucket) : Type 0 where
    pub versions : Response
    pub uploads : Response
    pub parts : ℕ
    pub versions_read : run_json world aws (version_arguments b.name) ≡ ok versions
    pub uploads_read : run_json world aws (upload_arguments b.name) ≡ ok uploads
    pub parts_read : Parts b.name uploads.uploads parts
    pub version_count : b.version_count ≡ length versions.version_sizes
    pub upload_count : b.multipart_upload_count ≡ length uploads.uploads
    pub bytes : b.total_bytes ≡ sum versions.version_sizes + parts

  record AddsParts (bucket : Text) (uploads : List MultipartUpload) (before after : ℕ)
      : Type 0 where
    bytes : ℕ
    parts : Parts bucket uploads bytes
    adds : after ≡ before + bytes

  add_parts-ok :
      (bucket : Text) (before : ℕ) (uploads : List MultipartUpload) (after : ℕ)
      → add_parts world aws bucket before uploads ≡ ok after
      → AddsParts bucket uploads before after
  unfolding add_parts
  add_parts-ok bucket before [] after h =
      let e : before ≡ after = cc in record { bytes = 0; parts = no_upload; adds = omega arith }
  add_parts-ok bucket before (first ∷ uploads) after h =
      let (response, read, rest) =
        >>=-returns (run_json world aws (part_arguments bucket first)) _ h in
      let r = add_parts-ok bucket (before + sum response.part_sizes) uploads after rest in
      record {
        bytes = sum response.part_sizes + r.bytes;
        parts = upload response read r.parts refl;
        adds = omega (arith, r.adds);
      }

  describe_bucket-ok :
      (name : Text) (b : Bucket) → describe_bucket world aws name ≡ ok b → (b.name ≡ name) × Holds b
  unfolding describe_bucket
  describe_bucket-ok name b h =
      let (versions, versions_read, h1) =
        >>=-returns (run_json world aws (version_arguments name)) _ h in
      let (uploads, uploads_read, h2) =
        >>=-returns (run_json world aws (upload_arguments name)) _ h1 in
      let (bytes, added, h3) = >>=-returns (add_parts world aws name 0 uploads.uploads) _ h2 in
      let p = add_parts-ok name 0 uploads.uploads bytes added in
      let d : Bucket = record {
        name = name;
        version_count = length versions.version_sizes;
        version_bytes = sum versions.version_sizes;
        multipart_upload_count = length uploads.uploads;
        multipart_bytes = bytes;
        total_bytes = sum versions.version_sizes + bytes;
      } in
      let e : d ≡ b = cc in
      subst (λ (c : Bucket). (c.name ≡ name) × Holds c) e
        (
          refl,
          record {
            versions = versions;
            uploads = uploads;
            parts = p.bytes;
            versions_read = versions_read;
            uploads_read = uploads_read;
            parts_read = p.parts;
            version_count = refl;
            upload_count = refl;
            bytes = omega (arith, p.adds);
          },
        )

  each-ok :
      (names : List Text) (bs : List Bucket)
      → each (describe_bucket world aws) names ≡ ok bs
      → (map (λ (b : Bucket). b.name) bs ≡ names) × All Holds bs
  each-ok [] [] h = (refl, tt)
  each-ok [] (b ∷ bs) h = cc
  each-ok (name ∷ names) bs h =
      let (b, described, h1) = >>=-returns (describe_bucket world aws name) _ h in
      let (rest, listed, h2) = >>=-returns (each (describe_bucket world aws) names) _ h1 in
      let (n, holds) = describe_bucket-ok name b described in
      let (ns, all) = each-ok names rest listed in
      let e : b ∷ rest ≡ bs = cc in
      subst (λ cs. (map (λ (b : Bucket). b.name) cs ≡ name ∷ names) × All Holds cs) e
        (cc, (holds, all))

  pub record IsStore (prefix : Text) (r : Store) : Type 0 where
    pub response : Response
    pub listed : run_json world aws (codes "s3api" ∷ codes "list-buckets" ∷ []) ≡ ok response
    pub names : Perm (map (λ (b : Bucket). b.name) r.buckets) (matching prefix response.buckets)
    pub holds : All Holds r.buckets
    pub bucket_count : r.bucket_count ≡ length r.buckets
    pub version_count : r.version_count ≡ sum (map (λ (b : Bucket). b.version_count) r.buckets)
    pub total : r.total_bytes ≡ sum (map (λ (b : Bucket). b.total_bytes) r.buckets)

  -- A report of the buckets names each bucket of the account with the prefix as often as it is
  -- listed, and gives it the bytes of all versions of its objects and of all parts of the uploads
  -- that are not complete; the counts and the total are those of all these buckets.
  pub collect_s3-IsStore :
      (prefix : Text) (r : Store) → collect_s3 world aws prefix ≡ ok r → IsStore prefix r
  unfolding collect_s3
  collect_s3-IsStore prefix r h =
      let (response, listed, h1) =
        >>=-returns (run_json world aws (codes "s3api" ∷ codes "list-buckets" ∷ [])) _ h in
      let (names, found, h2) = >>=-returns (selected prefix response.buckets) _ h1 in
      let (bs, described, h3) =
        >>=-returns (each (describe_bucket world aws) (sort_by (λ (t : Text). t) names)) _ h2 in
      let (same, holds) = each-ok (sort_by (λ (t : Text). t) names) bs described in
      let e : report_store bs ≡ r = cc in
      subst (IsStore prefix) e (record {
        response = response;
        listed = listed;
        names =
            subst (λ ns. Perm ns (matching prefix response.buckets)) (sym same)
              (subst (Perm (sort_by (λ (t : Text). t) names))
                (selected-ok prefix response.buckets names found)
                (sort-perm (λ (t : Text). t) names));
        holds = holds;
        bucket_count = refl;
        version_count = refl;
        total = refl;
      })
