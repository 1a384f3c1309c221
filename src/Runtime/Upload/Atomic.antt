-- ===== src/Runtime/Upload/Atomic.antt =====
-- An upload that fails leaves every file as it was, and one that succeeds changes one file.
use xolis.Base.{
  ℕ, ◌+◌, ◌≤◌, ◌≡◌, refl, ap, sym, ◌∙◌, ◌≢◌, ◌↔◌, ◌⊎◌, Bool, true, false, ◌&&◌, Option, none, some,
  List, [], ◌∷◌, ◌++◌, arith, nat_eq, list_eq, list_beq_iff, length, length-append, append-nil,
  append_assoc, Bool-cases, inl, inr,
}
use xolis.Base.Int.{ℤ, pos, pos_part}
use xolis.Base.Result.{Result, ok, err}
use xolis.Text.{Text}
use xolis.Runtime.{Bytes, FilePath, RuntimeSettings}
use xolis.Runtime.Paths.{Links, PathError, resolve_workspace_path}
use xolis.Runtime.Upload.{
  Files, same_path, put, Read, chunk, read_failed, unwritten, UploadError, io_error, Copied, copy,
  Upload, discard, settle, after_close, store, write_upload,
}

-- The bytes that the source yields up to its end.
unfoldable pub read_bytes : List Read → Bytes
read_bytes [] = []
read_bytes (read_failed ∷ rest) = []
read_bytes (unwritten bs ∷ rest) = []
read_bytes (chunk [] ∷ rest) = []
read_bytes (chunk (b ∷ bs) ∷ rest) = (b ∷ bs) ++ read_bytes rest

copy-written :
    (maximum : ℤ) (total : ℕ) (written : Bytes) (reads : List Read)
    → (copy maximum total written reads).raised ≡ none
    → (copy maximum total written reads).written ≡ written ++ read_bytes reads
unfolding copy read_bytes
copy-written maximum total written [] h = sym (append-nil written)
copy-written maximum total written (chunk [] ∷ rest) h = sym (append-nil written)
copy-written maximum total written (read_failed ∷ rest) h = cc
copy-written maximum total written (unwritten [] ∷ rest) h = sym (append-nil written)
copy-written maximum total written (unwritten (b ∷ bs) ∷ rest) h = absurd (ground arith)
copy-written maximum total written (chunk (b ∷ bs) ∷ rest) h = ground (
  arith,
  copy-written maximum (total + length (b ∷ bs)) (written ++ (b ∷ bs)) rest,
  append_assoc written (b ∷ bs) (read_bytes rest),
)

copy-bound :
    (maximum : ℤ) (total : ℕ) (written : Bytes) (reads : List Read)
    → total ≤ pos_part maximum
    → (copy maximum total written reads).raised ≡ none
    → total + length (read_bytes reads) ≤ pos_part maximum
unfolding copy read_bytes
copy-bound maximum total written [] h e = omega arith
copy-bound maximum total written (chunk [] ∷ rest) h e = omega arith
copy-bound maximum total written (read_failed ∷ rest) h e = cc
copy-bound maximum total written (unwritten [] ∷ rest) h e = omega arith
copy-bound maximum total written (unwritten (b ∷ bs) ∷ rest) h e = absurd (ground arith)
copy-bound maximum total written (chunk (b ∷ bs) ∷ rest) h e = ground (
  arith,
  copy-bound maximum (total + length (b ∷ bs)) (written ++ (b ∷ bs)) rest,
  length-append (b ∷ bs) (read_bytes rest),
)

-- Whether reading or writing fails before the end of the source.
unfoldable pub read_fails : List Read → Bool
read_fails [] = false
read_fails (read_failed ∷ rest) = true
read_fails (unwritten [] ∷ rest) = false
read_fails (unwritten (b ∷ bs) ∷ rest) = true
read_fails (chunk [] ∷ rest) = false
read_fails (chunk (b ∷ bs) ∷ rest) = read_fails rest

copy-raises_nothing :
    (m total : ℕ) (written : Bytes) (reads : List Read)
    → read_fails reads ≡ false
    → total + length (read_bytes reads) ≤ m
    → (copy (pos m) total written reads).raised ≡ none
unfolding copy read_bytes read_fails
copy-raises_nothing m total written [] h k = refl
copy-raises_nothing m total written (chunk [] ∷ rest) h k = refl
copy-raises_nothing m total written (read_failed ∷ rest) h k = cc
copy-raises_nothing m total written (unwritten [] ∷ rest) h k = refl
copy-raises_nothing m total written (unwritten (b ∷ bs) ∷ rest) h k = cc
copy-raises_nothing m total written (chunk (b ∷ bs) ∷ rest) h k = ground (
  arith,
  copy-raises_nothing m (total + length (b ∷ bs)) (written ++ (b ∷ bs)) rest,
  length-append (b ∷ bs) (read_bytes rest),
)

same_path_iff : (p q : FilePath) → (same_path p q ≡ true) ↔ (p ≡ q)
unfolding same_path
same_path_iff p q = list_beq_iff p q

module _ (files : Files) (t : FilePath) (fresh : files t ≡ none) where
  -- A fresh file that is written and removed again leaves no trace.
  put-put-none : (w : Bytes) (q : FilePath) → put (put files t (some w)) t none q ≡ files q
  put-put-none w q = elim (Bool-cases (same_path q t)) [
    | inl e ↦ rw e (sym (ap files ((same_path_iff q t).0 e) ∙ fresh))
    | inr e ↦ rw e refl
  ]

  put_other :
      (w : Bytes) (destination : FilePath) (content : Option Bytes) (q : FilePath)
      → q ≢ destination
      → put (put (put files t (some w)) t none) destination content q ≡ files q
  put_other w destination content q h = elim (Bool-cases (same_path q destination)) [
    | inl e ↦ absurd (h ((same_path_iff q destination).0 e))
    | inr e ↦ rw e (put-put-none w q)
  ]

put_self : (files : Files) (p : FilePath) (content : Option Bytes) → put files p content p ≡ content
put_self files p content = rw ((same_path_iff p p).1 refl) refl

err_not_ok :
    (e : UploadError) (p : FilePath) → ◌≡◌ {A = Result UploadError FilePath} (err e) (ok p) → ⊥
err_not_ok e p h = cc

discarded_not_ok :
    (u : Upload) (files : Files) (e : UploadError) (p : FilePath)
    → (discard u files e).result ≡ ok p
    → ⊥
unfolding discard
discarded_not_ok u files e p h = elim (Bool-cases u.removes) [
  | inl r ↦ err_not_ok e p (rw r at h)
  | inr r ↦ err_not_ok io_error p (rw r at h)
]

-- What a successful upload has done.
pub record IsStored (settings : RuntimeSettings) (links : Links) (fuel : ℕ) (requested : Text)
    (u : Upload) (files : Files) (p : FilePath) (after : Files) : Type 0 where
  pub resolved : resolve_workspace_path links fuel settings.workspace requested ≡ ok p
  pub content : after p ≡ some (read_bytes u.reads)
  pub within_limit : length (read_bytes u.reads) ≤ pos_part settings.maximum_upload_bytes
  pub others : (q : FilePath) → q ≢ p → after q ≡ files q

module _ (settings : RuntimeSettings) (links : Links) (fuel : ℕ) (requested : Text) (u : Upload)
    (files : Files) (fresh : files u.temporary ≡ none) where
  abbrev copied : Copied
  copied = copy settings.maximum_upload_bytes 0 [] u.reads

  -- A path has the content from before, unless it is the temporary file and that cannot be removed.
  abbrev pub IsKept : Files → FilePath → Type 0
  IsKept after q = (after q ≡ files q) ⊎ ((q ≡ u.temporary) × (u.removes ≡ false))

  discard-IsKept :
      (w : Bytes) (e : UploadError) (q : FilePath)
      → IsKept (discard u (put files u.temporary (some w)) e).files q
  unfolding discard
  discard-IsKept w e q = elim (Bool-cases u.removes) [
    | inl r ↦ rw r (inl (put-put-none files u.temporary fresh w q))
    | inr r ↦ elim (Bool-cases (same_path q u.temporary)) [
      | inl k ↦ inr ((same_path_iff q u.temporary).0 k, r)
      | inr k ↦ rw r (inl (rw k refl))
    ]
  ]

  settle_err :
      (destination : FilePath) (w : Bytes) (raised : Option UploadError) (e : UploadError)
      (q : FilePath)
      → (settle destination u (put files u.temporary (some w)) w raised).result ≡ err e
      → IsKept (settle destination u (put files u.temporary (some w)) w raised).files q
  unfolding settle
  settle_err destination w (some f) e q h = discard-IsKept w f q
  settle_err destination w none e q h = elim (Bool-cases u.replaces) [
    | inl r ↦ absurd (not_err (rw r at h))
    | inr r ↦ rw r (discard-IsKept w io_error q)
  ]
    where
      not_err : ◌≡◌ {A = Result UploadError FilePath} (ok destination) (err e) → ⊥
      not_err k = cc

  store_err :
      (r : Result PathError FilePath) (e : UploadError) (q : FilePath)
      → (store settings u files r).result ≡ err e
      → IsKept (store settings u files r).files q
  unfolding store
  store_err (err f) e q h = inl refl
  store_err (ok destination) e q h = elim (Bool-cases (u.makes_directory && u.makes_temporary)) [
    | inl m ↦
        rw m (settle_err destination copied.written (after_close u copied.raised) e q (rw m at h))
    | inr m ↦ rw m (inl refl)
  ]

  -- An upload that fails, for whatever reason, leaves the content of every path as it was, but for
  -- the temporary file if that cannot be removed.
  pub write_upload_err :
      (e : UploadError) (q : FilePath)
      → (write_upload settings links fuel requested u files).result ≡ err e
      → IsKept (write_upload settings links fuel requested u files).files q
  unfolding write_upload
  write_upload_err e q h =
      store_err (resolve_workspace_path links fuel settings.workspace requested) e q h

  record Settled (destination p : FilePath) (w : Bytes) (raised : Option UploadError)
      (after : Files) : Type 0 where
    same : destination ≡ p
    nothing_raised : raised ≡ none
    content : after destination ≡ some w
    others : (q : FilePath) → q ≢ destination → after q ≡ files q

  settle_ok :
      (destination : FilePath) (w : Bytes) (raised : Option UploadError) (p : FilePath)
      → (settle destination u (put files u.temporary (some w)) w raised).result ≡ ok p
      → Settled destination p w raised
          (settle destination u (put files u.temporary (some w)) w raised).files
  unfolding settle
  settle_ok destination w (some f) p h =
      absurd (discarded_not_ok u (put files u.temporary (some w)) f p h)
  settle_ok destination w none p h = elim (Bool-cases u.replaces) [
    | inl r ↦ rw r (record {
      same = ok_eq (rw r at h);
      nothing_raised = refl;
      content =
          put_self (put (put files u.temporary (some w)) u.temporary none) destination (some w);
      others = put_other files u.temporary fresh w destination (some w);
    })
    | inr r ↦ absurd (discarded_not_ok u (put files u.temporary (some w)) io_error p (rw r at h))
  ]
    where
      ok_eq : ◌≡◌ {A = Result UploadError FilePath} (ok destination) (ok p) → destination ≡ p
      ok_eq k = cc

  closed_quietly : (raised : Option UploadError) → after_close u raised ≡ none → raised ≡ none
  closed_quietly none h = refl
  closed_quietly (some e) h = elim (Bool-cases u.closes) [
    | inl c ↦ rw c at h
    | inr c ↦ absurd (some_not_none (rw c at h))
  ]
    where
      some_not_none : ◌≡◌ {A = Option UploadError} (some io_error) none → ⊥
      some_not_none k = cc

  store_ok :
      (r : Result PathError FilePath) (p : FilePath)
      → resolve_workspace_path links fuel settings.workspace requested ≡ r
      → (store settings u files r).result ≡ ok p
      → IsStored settings links fuel requested u files p (store settings u files r).files
  unfolding store
  store_ok (err f) p e h = cc
  store_ok (ok destination) p e h = elim (Bool-cases (u.makes_directory && u.makes_temporary)) [
    | inl m ↦
        let s = settle_ok destination copied.written (after_close u copied.raised) p (rw m at h) in
        let quiet = closed_quietly copied.raised s.nothing_raised in
        rw m (record {
          resolved = e ∙ ap ok s.same;
          content =
              ap
                (settle destination u (put files u.temporary (some copied.written)) copied.written
                  (after_close u copied.raised)).files
                (sym s.same)
              ∙ (s.content
                  ∙ ap some (copy-written settings.maximum_upload_bytes 0 [] u.reads quiet));
          within_limit =
              omega
                (arith, copy-bound settings.maximum_upload_bytes 0 [] u.reads (omega arith) quiet);
          others = λ q n. s.others q (λ k. n (k ∙ s.same));
        })
    | inr m ↦ absurd (err_not_ok io_error p (rw m at h))
  ]

  -- An upload that succeeds stores at the resolved path exactly the bytes that the source yielded,
  -- no more than the limit, and leaves the content of every other path as it was.
  pub write_upload_ok :
      (p : FilePath)
      → (write_upload settings links fuel requested u files).result ≡ ok p
      → IsStored settings links fuel requested u files p
          (write_upload settings links fuel requested u files).files
  unfolding write_upload
  write_upload_ok p h =
      store_ok (resolve_workspace_path links fuel settings.workspace requested) p refl h

settle_total :
    (destination : FilePath) (u : Upload) (files : Files) (w : Bytes) (raised : Option UploadError)
    → raised ≡ none
    → u.replaces ≡ true
    → (settle destination u files w raised).result ≡ ok destination
unfolding settle
settle_total destination u files w none e r = rw r refl
settle_total destination u files w (some f) e r = cc

-- An upload to an accepted path whose bytes are read and written without failure and are within the
-- limit does succeed, if its directory and its temporary file can be made, and the file can be
-- closed and take its place.
pub write_upload_total :
    (settings : RuntimeSettings) (links : Links) (fuel : ℕ) (requested : Text) (u : Upload)
    (files : Files) (destination : FilePath) (m : ℕ)
    → resolve_workspace_path links fuel settings.workspace requested ≡ ok destination
    → settings.maximum_upload_bytes ≡ pos m
    → read_fails u.reads ≡ false
    → length (read_bytes u.reads) ≤ m
    → u.makes_directory ≡ true
    → u.makes_temporary ≡ true
    → u.closes ≡ true
    → u.replaces ≡ true
    → (write_upload settings links fuel requested u files).result ≡ ok destination
unfolding write_upload store
write_upload_total settings links fuel requested u files destination m e l f h d t c r =
    ap (λ x. (store settings u files x).result) e
    ∙ rw (d, t, c)
        (settle_total destination u _ _ _
          (ap (λ k. (copy k 0 [] u.reads).raised) l
            ∙ copy-raises_nothing m 0 [] u.reads f (omega arith))
          r)
