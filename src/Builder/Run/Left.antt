-- ===== src/Builder/Run/Left.antt =====
-- What a run of tools/xolis_image_builder.py leaves behind when its instance cannot be terminated.
use xolis.Base.{
  ◌≡◌, refl, Bool, true, false, List, ◌∷◌, arith, contains, nat_eq, list_eq, list_beq_iff,
}
use xolis.Base.Result.{Result, ok, err}
use xolis.Text.{Text}
use xolis.Builder.Run.{
  Instance, not_launched, unknown, launched, terminating, terminated, Builder, Raised, World,
  launch_instance, upload_source, build, terminate, cleanup, re_raise, finally, run, raise_if,
  wait_for_command,
}
use xolis.Builder.Run.Keeps.{end_of, Keeps-bind, Keeps-after, Keeps-need, Keeps-raise_if}

module _ (world : World) (key : Text) where
  -- The instance runs, and the source is in the bucket.
  abbrev pub IsLeft : Builder → Type 0
  IsLeft b = (b.instance_state ≡ launched) × (contains b.versions key ≡ true)

  build-IsLeft :
      (b : Builder)
      → world.archives ≡ true
      → world.copies ≡ true
      → world.presigns ≡ true
      → world.looks_up ≡ true
      → world.launches ≡ true
      → IsLeft (end_of (build world false key b))
  unfolding build upload_source launch_instance
  build-IsLeft b a c p l x =
      let d = record b {
        has_source_uri = true;
        versions = key ∷ b.versions;
        instance_state = launched;
      } in
      let left : IsLeft d = (refl, ground (arith, list_beq_iff key key)) in
      rw (a, c, p, l, x)
        (Keeps-after IsLeft world.registers _ _ d left (
          Keeps-after IsLeft world.commands_built _ _ d left (
            Keeps-after IsLeft world.sends _ _ d left (
              Keeps-bind IsLeft (raise_if (wait_for_command world.polls) d) _
                (Keeps-raise_if IsLeft (wait_for_command world.polls) d left)
                (Keeps-need IsLeft world.describes_images _)))))

  cleanup-IsLeft :
      (b : Builder)
      → world.terminates ≡ false
      → IsLeft b
      → IsLeft (end_of (cleanup world false key b))
  unfolding cleanup terminate
  cleanup-IsLeft b t h = by_state b.instance_state b.has_source_uri b.versions h.0 h.1
    where
      by_state :
          (i : Instance) (u : Bool) (v : List Text)
          → i ≡ launched
          → contains v key ≡ true
          → IsLeft (
              end_of (
                cleanup world false key
                  (record { instance_state = i; has_source_uri = u; versions = v })))
      by_state launched u v e k = rw t (refl, k)
      by_state not_launched u v e k = cc
      by_state unknown u v e k = cc
      by_state terminating u v e k = cc
      by_state terminated u v e k = cc

  finally-IsLeft :
      (r : Result Raised Builder)
      → world.terminates ≡ false
      → IsLeft (end_of r)
      → IsLeft (end_of (finally world false key r))
  finally-IsLeft (ok b) t h = cleanup-IsLeft b t h
  finally-IsLeft (err r) t h =
      again (cleanup world false key r.builder) (cleanup-IsLeft r.builder t h)
    where
      again :
          (s : Result Raised Builder)
          → IsLeft (end_of s)
          → IsLeft (end_of (re_raise world false key r.failure s))
      again (ok b) k = k
      again (err e) k = k

  -- When the instance cannot be terminated, the run leaves the source archive in the bucket too,
  -- even if every call that would remove it works.
  pub run-IsLeft :
      (b : Builder)
      → world.has_executables ≡ true
      → world.reads_commit ≡ true
      → world.archives ≡ true
      → world.copies ≡ true
      → world.presigns ≡ true
      → world.looks_up ≡ true
      → world.launches ≡ true
      → world.terminates ≡ false
      → IsLeft (end_of (run world false key b))
  unfolding run
  run-IsLeft b x r a c p l n t =
      rw (x, r) (finally-IsLeft (build world false key b) t (build-IsLeft b a c p l n))
