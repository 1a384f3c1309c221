-- ===== src/Cost/Snapshots/Inventory.antt =====
-- What `collect_snapshots` reports, against the images that the service describes.
use mathlib.Core.Path.{subst}
use xolis.Base.{ℕ, ◌≡◌, refl, ap, ◌∙◌, List, [], ◌∷◌, map, All, nat_eq, list_eq, contains}
use xolis.Base.Result.{ok, >>=-returns}
use xolis.Text.{Text}
use xolis.Text.Sort.{sort_by, set}
use xolis.Text.Sort.Order
use xolis.Text.Sort.Order.{sort-IsSorted}
use xolis.Text.Sort.Members.{Distinct, contains-sort, Distinct-sort, contains-set, Distinct-set}
use xolis.Cost.{Image, Response, AwsCli, World, run_json, sum}
use xolis.Cost.Snapshots.{
  snapshot_allocated_bytes, Snapshot, Snapshots, mentioned_ids, image_ids_of, measure,
  image_arguments, report_snapshots, collect_snapshots,
}

module _ (world : World) (aws : AwsCli) (fuel : ℕ) where
  -- A snapshot of the report: its allocated bytes are read page by page, and its images are those
  -- that have a device made from it.
  pub record IsMeasured (images : List Image) (s : Snapshot) : Type 0 where
    pub bytes : snapshot_allocated_bytes world aws fuel s.id ≡ ok s.allocated_bytes
    pub owners : s.image_ids ≡ image_ids_of s.id images

  record AreMeasured (images : List Image) (ids : List Text) (snapshots : List Snapshot)
      : Type 0 where
    same : map (λ (s : Snapshot). s.id) snapshots ≡ ids
    each : All (IsMeasured images) snapshots

  measure-ok :
      (images : List Image) (ids : List Text) (snapshots : List Snapshot)
      → measure world aws fuel images ids ≡ ok snapshots
      → AreMeasured images ids snapshots
  unfolding measure
  measure-ok images [] [] h = record { same = refl; each = tt }
  measure-ok images [] (s ∷ ss) h = cc
  measure-ok images (id ∷ ids) snapshots h =
      let (bytes, read, rest) = >>=-returns (snapshot_allocated_bytes world aws fuel id) _ h in
      let (others, measured, same) = >>=-returns (measure world aws fuel images ids) _ rest in
      let m = measure-ok images ids others measured in
      let s : Snapshot = record {
        id = id;
        allocated_bytes = bytes;
        image_ids = image_ids_of id images;
      } in
      let e : s ∷ others ≡ snapshots = cc in
      subst (AreMeasured images (id ∷ ids)) e (record {
        same = ap (λ l. id ∷ l) m.same;
        each = (record { bytes = read; owners = refl }, m.each);
      })

  -- What a report says of the images with the prefix.
  pub record IsInventory (prefix : Text) (r : Snapshots) : Type 0 where
    pub response : Response
    pub described : run_json world aws (image_arguments prefix) ≡ ok response
    pub once : Distinct (map (λ (s : Snapshot). s.id) r.snapshots)
    pub in_order : Order.IsSorted (λ (t : Text). t) (map (λ (s : Snapshot). s.id) r.snapshots)
    pub complete :
        (id : Text)
        → contains (map (λ (s : Snapshot). s.id) r.snapshots) id
          ≡ contains (mentioned_ids response.images) id
    pub measured : All (IsMeasured response.images) r.snapshots
    pub total : r.allocated_bytes ≡ sum (map (λ (s : Snapshot). s.allocated_bytes) r.snapshots)

  -- A report of the snapshots names each snapshot that a device of one of the images is made from
  -- exactly once, in order, with its allocated bytes and its images, and its total is the sum of
  -- their bytes: a snapshot that several images share counts once.
  pub collect_snapshots-IsInventory :
      (prefix : Text) (r : Snapshots)
      → collect_snapshots world aws fuel prefix ≡ ok r
      → IsInventory prefix r
  unfolding collect_snapshots
  collect_snapshots-IsInventory prefix r h =
      let (response, described, rest) =
        >>=-returns (run_json world aws (image_arguments prefix)) _ h in
      let ids = sort_by (λ (t : Text). t) (set (mentioned_ids response.images)) in
      let (snapshots, measured, same) =
        >>=-returns (measure world aws fuel response.images ids) _ rest in
      let m = measure-ok response.images ids snapshots measured in
      let e : report_snapshots response.images snapshots ≡ r = cc in
      subst (IsInventory prefix) e (record {
        response = response;
        described = described;
        once = rw m.same (Distinct-sort _ (Distinct-set (mentioned_ids response.images)));
        in_order =
            rw m.same (sort-IsSorted (λ (t : Text). t) (set (mentioned_ids response.images)));
        complete = λ id. rw m.same (
            contains-sort (set (mentioned_ids response.images)) id
            ∙ contains-set (mentioned_ids response.images) id);
        measured = m.each;
        total = refl;
      })
