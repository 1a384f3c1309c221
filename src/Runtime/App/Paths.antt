-- ===== src/Runtime/App/Paths.antt =====
-- The status with which the routes of app.py on files refuse a path.
use xolis.Base.{
  ℕ, ◌<◌, ◌+◌, length, ◌++◌, ◌≡◌, ◌≢◌, refl, ap, ◌↔◌, Bool, true, false, ◌&&◌, Option, none, some,
  List, [], ◌∷◌, arith, Bool-cases, inl, inr, if◌then◌else◌,
}
use xolis.Base.Int.{ℤ, pos, leb_ℤ}
use xolis.Base.Result.{Result, ok, err}
use xolis.Text.{Text}
use xolis.Runtime.{Bytes, FilePath, RuntimeSettings}
use xolis.Runtime.Paths.{
  Links, PathError, PathViolation, violation, out_of_fuel, resolve_workspace_path,
}
use xolis.Runtime.Upload.{
  Files, Upload, UploadError, path_error, too_large, io_error, write_upload, store, settle, discard,
  after_close, put, copy, Read, chunk, read_failed, unwritten,
}
use xolis.Runtime.Listing.{DirEntry, Directories, list_directory, list_resolved, list_entries}
use xolis.Runtime.App.{
  HttpError, http_exception, upload_status, answer_upload, upload, answer_path, requested_file,
  download, download_file, list_files, answer_list, exists, exists_at,
}

-- A route refuses a path as forbidden.
abbrev pub IsForbidden {ℓ} : {A : Type ℓ} → Result HttpError A → Type ℓ
IsForbidden r = r ≡ err (http_exception 403)

-- The path may not be used: it is empty, absolute, or resolves to nothing below the workspace.
abbrev pub IsViolation : Result PathError FilePath → Type 0
IsViolation r = (v : PathViolation) × (r ≡ err (violation v))

requested_iff : (r : Result PathError FilePath) → IsForbidden (answer_path r) ↔ IsViolation r
requested_iff (ok p) = (λ h. cc, λ (v, h). cc)
requested_iff (err (violation v)) = (λ h. (v, refl), λ h. refl)
requested_iff (err out_of_fuel) = (λ h. cc, λ (v, h). cc)

-- The status of a refusal, and 0 for anything else.
status {ℓ} : {A : Type ℓ} → Result HttpError A → ℕ
status (err (http_exception n)) = n
status r = 0

status_differs {ℓ} :
    {A : Type ℓ} (n : ℕ)
    → 403 < n
    → ◌≡◌ {A = Result HttpError A} (err (http_exception n)) (err (http_exception 403))
    → ⊥
unfolding status
status_differs n l h = absurd (omega (arith, ap status h))

found_allowed :
    (b : Bool) (p : FilePath) → IsForbidden (if b then ok p else err (http_exception 404)) → ⊥
found_allowed true p h = cc
found_allowed false p h = status_differs 404 (omega arith) h

download_iff :
    (is_file : FilePath → Bool) (r : Result PathError FilePath)
    → IsForbidden (download_file is_file (answer_path r)) ↔ IsViolation r
download_iff is_file (ok p) = (λ h. absurd (found_allowed (is_file p) p h), λ (v, h). cc)
download_iff is_file (err (violation v)) = (λ h. (v, refl), λ h. refl)
download_iff is_file (err out_of_fuel) = (λ h. cc, λ (v, h). cc)

exists_iff :
    (there : FilePath → Bool) (r : Result PathError FilePath)
    → IsForbidden (exists_at there (answer_path r)) ↔ IsViolation r
exists_iff there (ok p) = (λ h. cc, λ (v, h). cc)
exists_iff there (err (violation v)) = (λ h. (v, refl), λ h. refl)
exists_iff there (err out_of_fuel) = (λ h. cc, λ (v, h). cc)

entries_allowed :
    (o : Option (List DirEntry)) → answer_list (list_entries o) ≡ err (http_exception 403) → ⊥
entries_allowed none h = status_differs 404 (omega arith) h
entries_allowed (some es) h = cc

list_iff :
    (directories : Directories) (r : Result PathError FilePath)
    → IsForbidden (answer_list (list_resolved directories r)) ↔ IsViolation r
list_iff directories (ok p) = (λ h. absurd (entries_allowed (directories p) h), λ (v, h). cc)
list_iff directories (err (violation v)) = (λ h. (v, refl), λ h. refl)
list_iff directories (err out_of_fuel) = (λ h. cc, λ (v, h). cc)

-- Copying raises no error about the path.
NoPathError : Option UploadError → Type 0
NoPathError (some (path_error e)) = ⊥
NoPathError o = Unit {0}

copy-NoPathError :
    (maximum : ℤ) (total : ℕ) (written : Bytes) (reads : List Read)
    → NoPathError (copy maximum total written reads).raised
unfolding copy NoPathError
copy-NoPathError maximum total written [] = tt
copy-NoPathError maximum total written (chunk [] ∷ rest) = tt
copy-NoPathError maximum total written (read_failed ∷ rest) = tt
copy-NoPathError maximum total written (unwritten [] ∷ rest) = tt
copy-NoPathError maximum total written (unwritten (b ∷ bs) ∷ rest) =
    elim (Bool-cases (leb_ℤ (pos (total + length (b ∷ bs))) maximum)) [
      | inl e ↦ rw e tt
      | inr e ↦ rw e tt
    ]
copy-NoPathError maximum total written (chunk (b ∷ bs) ∷ rest) =
    elim (Bool-cases (leb_ℤ (pos (total + length (b ∷ bs))) maximum)) [
      | inl e ↦ rw e (copy-NoPathError maximum (total + length (b ∷ bs)) (written ++ (b ∷ bs)) rest)
      | inr e ↦ rw e tt
    ]

failed_allowed :
    (e : UploadError)
    → NoPathError (some e)
    → IsForbidden {A = FilePath} (err (upload_status e))
    → ⊥
unfolding NoPathError
failed_allowed (path_error e) n h = n
failed_allowed (too_large m) n h = status_differs 413 (omega arith) h
failed_allowed io_error n h = cc

discarded_allowed :
    (u : Upload) (files : Files) (e : UploadError)
    → NoPathError (some e)
    → IsForbidden (answer_upload (discard u files e).result)
    → ⊥
unfolding discard
discarded_allowed u files e n h = elim (Bool-cases u.removes) [
  | inl r ↦ failed_allowed e n (rw r at h)
  | inr r ↦ failed_allowed io_error (unfold NoPathError in tt) (rw r at h)
]

settled_allowed :
    (p : FilePath) (u : Upload) (files : Files) (w : Bytes) (o : Option UploadError)
    → NoPathError o
    → IsForbidden (answer_upload (settle p u files w o).result)
    → ⊥
unfolding settle
settled_allowed p u files w (some e) n h = discarded_allowed u files e n h
settled_allowed p u files w none n h = elim (Bool-cases u.replaces) [
  | inl e ↦ replaced (rw e at h)
  | inr e ↦ discarded_allowed u files io_error (unfold NoPathError in tt) (rw e at h)
]
  where
    replaced : ◌≡◌ {A = Result HttpError FilePath} (ok p) (err (http_exception 403)) → ⊥
    replaced h = cc

closed-NoPathError :
    (u : Upload) (o : Option UploadError) → NoPathError o → NoPathError (after_close u o)
unfolding NoPathError
closed-NoPathError u o n = elim (Bool-cases u.closes) [ inl e ↦ rw e n | inr e ↦ rw e tt ]

stored_allowed :
    (settings : RuntimeSettings) (u : Upload) (files : Files) (p : FilePath)
    → IsForbidden (answer_upload (store settings u files (ok p)).result)
    → ⊥
unfolding store
stored_allowed settings u files p h = elim (Bool-cases (u.makes_directory && u.makes_temporary)) [
  | inl e ↦
      let c = copy settings.maximum_upload_bytes 0 [] u.reads in
      settled_allowed p u (put files u.temporary (some c.written)) c.written
        (after_close u c.raised)
        (closed-NoPathError u c.raised
          (copy-NoPathError settings.maximum_upload_bytes 0 [] u.reads))
        (rw e at h)
  | inr e ↦ failed_allowed io_error (unfold NoPathError in tt) (rw e at h)
]

upload_iff :
    (settings : RuntimeSettings) (u : Upload) (files : Files) (r : Result PathError FilePath)
    → IsForbidden (answer_upload (store settings u files r).result) ↔ IsViolation r
unfolding store
upload_iff settings u files (ok p) =
    (λ h. absurd (stored_allowed settings u files p h), λ (v, h). cc)
upload_iff settings u files (err (violation v)) = (λ h. (v, refl), λ h. refl)
upload_iff settings u files (err out_of_fuel) = (λ h. cc, λ (v, h). cc)

-- A refused name of an upload is forbidden, unless it is empty, which is answered first.
upload_route_iff :
    (settings : RuntimeSettings) (links : Links) (fuel : ℕ) (name : Text) (u : Upload)
    (files : Files)
    → IsForbidden (upload settings links fuel name u files).result
      ↔ ((name ≢ []) × IsViolation (resolve_workspace_path links fuel settings.workspace name))
unfolding upload write_upload status
upload_route_iff settings links fuel [] u files =
    (λ h. absurd (missing h), λ (n, v). absurd (n refl))
  where
    missing :
        ◌≡◌ {A = Result HttpError FilePath} (err (http_exception 400)) (err (http_exception 403))
        → ⊥
    missing h = omega (arith, ap status h)
upload_route_iff settings links fuel (c ∷ name) u files =
    let r = resolve_workspace_path links fuel settings.workspace (c ∷ name) in
    let (forward, back) = upload_iff settings u files r in
    (λ h. (λ e. cc, forward h), λ (n, v). back v)

module _ (settings : RuntimeSettings) (links : Links) (fuel : ℕ) (path : Text) where
  abbrev resolution : Result PathError FilePath
  resolution = resolve_workspace_path links fuel settings.workspace path

  -- Each route on files answers 403 exactly when the path is refused: the download, the listing, the
  -- test for existence, and the upload, whatever the files are; but an upload with an empty name,
  -- which is refused with another status.
  pub routes-IsForbidden :
      (is_file there : FilePath → Bool) (directories : Directories) (u : Upload) (files : Files)
      → (IsForbidden (download settings links fuel is_file path) ↔ IsViolation resolution)
        × (IsForbidden (list_files settings links fuel directories path) ↔ IsViolation resolution)
        × (IsForbidden (exists settings links fuel there path) ↔ IsViolation resolution)
        × (IsForbidden (upload settings links fuel path u files).result
            ↔ ((path ≢ []) × IsViolation resolution))
  unfolding download list_files exists requested_file list_directory
  routes-IsForbidden is_file there directories u files = (
    download_iff is_file resolution,
    list_iff directories resolution,
    exists_iff there resolution,
    upload_route_iff settings links fuel path u files,
  )
