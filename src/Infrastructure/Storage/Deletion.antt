-- ===== src/Infrastructure/Storage/Deletion.antt =====
-- Deleted blobs, and the bucket names and keys that every method of `LocalBlobStorage` in
-- app/infrastructure/storage/local.py refuses.
use mathlib.Core.Path.{subst}
use ai_backend_foundation.Action.{Action, Outcome, gets, ok, raise_if, raised, ◌>>=◌}
use ai_backend_foundation.Infrastructure.Storage.{
  Bytes, FilePath, FileSystem, delete, get, not_there, presign_get, put, suppress_not_found,
  unlink_quietly, validate_path,
}
use ai_backend_foundation.Infrastructure.Storage.Blobs.{moved_to, validate_again}
use ai_backend_foundation.Infrastructure.Storage.Paths.{IsSafe, ok_and_raised, validate_path-cases}
use ai_backend_foundation.Prelude.{Option, String, ap, false, inl, inr, refl, sym, ℕ, ◌∙◌, ◌≡◌, ◌⊎◌}
use ai_backend_foundation.Shared.Errors.{
  app, attribute_error, data_error, file_not_found_error, integrity_error, multiple_results_found,
  request_validation_error, runtime_error, unexpected_error, value_error,
}

-- What `contextlib.suppress(FileNotFoundError)` lets a call return from.
suppressed :
    (r : Outcome (Unit {0}))
    → suppress_not_found r ≡ ok tt
    → (r ≡ ok tt) ⊎ ((m : String) × (r ≡ raised (file_not_found_error m)))
suppressed (ok a) h = inl refl
suppressed (raised (file_not_found_error m)) h = inr (m, refl)
suppressed (raised (app e)) h = cc
suppressed (raised (request_validation_error ms)) h = cc
suppressed (raised (value_error m)) h = cc
suppressed (raised attribute_error) h = cc
suppressed (raised (runtime_error m)) h = cc
suppressed (raised integrity_error) h = cc
suppressed (raised data_error) h = cc
suppressed (raised multiple_results_found) h = cc
suppressed (raised (unexpected_error m)) h = cc

module _ (fs : FileSystem) (base_path : FilePath) (bucket key : String) where
  -- The call raises `ValueError` and changes no file.
  abbrev pub IsRefused : {A : Type 0} → Action fs.Store A → fs.Store → Type 0
  IsRefused m s = (message : String) × (m s ≡ (raised (value_error message), s))

  validate_path-IsRefused :
      (s : fs.Store)
      → ((IsSafe bucket × IsSafe key) → ⊥)
      → IsRefused (validate_path fs base_path bucket key) s
  validate_path-IsRefused s unsafe = elim (validate_path-cases fs base_path bucket key s) [
    | inl (p, facts, e) ↦ absurd (unsafe (facts.safe_bucket, facts.safe_key))
    | inr (m, e, refuted) ↦ (m, e)
  ]

  -- With a bucket or a key that is empty, or has a NUL, a backslash, a colon or a leading slash, or a
  -- part that is empty, "." or "..", each of the four methods raises `ValueError` and changes no file.
  pub unsafe_part-IsRefused :
      (s : fs.Store) (bytes : Bytes) (content_type : Option String) (ttl_s : ℕ)
      → ((IsSafe bucket × IsSafe key) → ⊥)
      → IsRefused (put fs base_path bucket key bytes content_type) s
        × IsRefused (get fs base_path bucket key) s
        × IsRefused (delete fs base_path bucket key) s
        × IsRefused (presign_get fs base_path bucket key ttl_s) s
  unfolding put get delete presign_get ◌>>=◌
  unsafe_part-IsRefused s bytes content_type ttl_s unsafe =
      let (m, e) = validate_path-IsRefused s unsafe in
      rw e ((m, refl), (m, refl), (m, refl), (m, refl))

  delete-at :
      (s : fs.Store) (path : FilePath)
      → validate_path fs base_path bucket key s ≡ (ok path, s)
      → delete fs base_path bucket key s ≡ unlink_quietly fs base_path path s
  unfolding delete ◌>>=◌
  delete-at s path e = rw e refl

  delete-refused :
      (s : fs.Store) (m : String)
      → validate_path fs base_path bucket key s ≡ (raised (value_error m), s)
      → delete fs base_path bucket key s ≡ (raised (value_error m), s)
  unfolding delete ◌>>=◌
  delete-refused s m e = rw e refl

  get-absent :
      (s : fs.Store) (path : FilePath)
      → validate_path fs base_path bucket key s ≡ (ok path, s)
      → fs.exists path s ≡ false
      → (get fs base_path bucket key s).0 ≡ raised (not_there bucket key)
  unfolding get ◌>>=◌ gets raise_if
  get-absent s path e absent = rw (e, absent) refl

  -- `path` is gone, and `unlink` does not find it.
  abbrev IsGone : FilePath → fs.Store → Type 0
  IsGone path s =
      (fs.exists path s ≡ false)
      × (m : String) × ((fs.unlink path s).0 ≡ raised (file_not_found_error m))

  delete-gone :
      (s : fs.Store) (path : FilePath)
      → validate_path fs base_path bucket key s ≡ (ok path, s)
      → IsGone path s
      → (delete fs base_path bucket key s).0 ≡ ok tt
  unfolding unlink_quietly
  delete-gone s path e (absent, m, missing) = ap (λ x. x.0) (delete-at s path e) ∙ rw missing refl

  unlinked_quietly :
      (s : fs.Store) (path : FilePath)
      → (unlink_quietly fs base_path path s).0 ≡ ok tt
      → IsGone path (fs.unlink path s).1
  unfolding unlink_quietly
  unlinked_quietly s path h = elim (suppressed _ h) [
    | inl removed ↦ fs.unlinked path s removed
    | inr (m, missing) ↦
        let (absent, same) = fs.unlink_missing path s m missing in
        subst (IsGone path) (sym same) (absent, m, missing)
  ]

  -- After a `delete` that returns, whether or not the blob was there, `get` of it raises
  -- `FileNotFoundError`, and a second `delete` of it returns.
  pub delete-get :
      (s : fs.Store)
      → (delete fs base_path bucket key s).0 ≡ ok tt
      → (let s' = (delete fs base_path bucket key s).1 in
          ((get fs base_path bucket key s').0 ≡ raised (not_there bucket key))
          × ((delete fs base_path bucket key s').0 ≡ ok tt))
  unfolding unlink_quietly
  delete-get s h = elim (validate_path-cases fs base_path bucket key s) [
    | inr (m, e, refuted) ↦ absurd (ok_and_raised h (ap (λ x. x.0) (delete-refused s m e)))
    | inl (path, facts, e) ↦
        let start = delete-at s path e in
        let gone = unlinked_quietly s path (ap (λ x. x.0) (sym start) ∙ h) in
        let after = ap (λ x. x.1) start in
        let again = validate_again fs base_path bucket key _ path (
          moved_to fs base_path bucket key s (fs.unlink path s).1 path
            (λ q. fs.resolve-unlink q _ path s facts.resolves) facts) in
        rw after (get-absent _ path again gone.0, delete-gone _ path again gone)
  ]
