-- ===== src/Builder/Run/Cleanup.antt =====
-- What a run of tools/xolis_image_builder.py leaves behind when its clean-up works.
use xolis.Base.{
  ◌≡◌, ◌≢◌, true, false, ◌⊎◌, List, ◌∷◌, contains, ◌==◌, nat_eq, list_eq, if◌then◌else◌,
}
use xolis.Base.Result.{Result}
use xolis.Text.{Text}
use xolis.Builder.Run.{Instance, not_launched, unknown, terminated, Builder, World, others}

abbrev pub ended : Instance → Instance
ended not_launched = not_launched
ended unknown = unknown
ended _ = terminated

module _ (world : World) (key : Text) where
  -- Every call of the clean-up does what it is asked for.
  pub record CleansUp : Type 0 where
    pub terminates : world.terminates ≡ true
    pub waits : world.waits_terminated ≡ true
    pub state : world.state_is_terminated ≡ true
    pub removes : world.removes ≡ true
    pub lists : world.lists ≡ true
    pub deletes : world.deletes ≡ true

  abbrev cleaned : Builder → Builder
  cleaned b = record {
    instance_state = ended b.instance_state;
    has_source_uri = b.has_source_uri;
    versions = if b.has_source_uri then others world false key (key ∷ b.versions) else b.versions;
  }

  module _ (before : List Text) (absent : contains before key ≡ false) where
    -- Only the source's own key may have come to the bucket, and only once its address is known.
    record IsKept (b : Builder) : Type 0 where
      rest : (k : Text) → (k == key) ≡ false → contains b.versions k ≡ contains before k
      untouched : b.has_source_uri ≡ false → b.versions ≡ before
      known : (b.instance_state ≢ unknown) ⊎ (world.orphans ≡ true)
