-- ===== src/Tests/Storage.antt =====
-- Tests of app/infrastructure/storage/local.py, on a disk with room for one file.
use ai_backend_foundation.Action.{Action, Outcome, gets, lift, ok, pure, raised, ◌>>=◌}
use ai_backend_foundation.Infrastructure.Storage.{
  BlobRef, Bytes, FilePath, FileSystem, check_part, check_segments, delete, download, get,
  not_there, presign_get, put, unlink_quietly, validate_path,
}
use ai_backend_foundation.Infrastructure.Storage.Blobs.{IsChunk, put-download}
use ai_backend_foundation.Infrastructure.Storage.Deletion.{
  IsRefused, delete-get, unsafe_part-IsRefused,
}
use ai_backend_foundation.Infrastructure.Storage.Paths.{IsSafe, validate_path-contained}
use ai_backend_foundation.Prelude.{
  All, Bool, Bool-cases, List, Option, String, [], ap, arith, eq_refl, false, flatten,
  if◌then◌else◌, inl, inr, none, refl, some, str_eq, true, ◌&&◌, ◌++◌, ◌∷◌, ◌≡◌,
}
use ai_backend_foundation.Shared.Errors.{file_not_found_error, value_error}

abbrev path_eq : FilePath → FilePath → Bool
path_eq [] [] = true
path_eq [] (e ∷ q) = false
path_eq (d ∷ p) [] = false
path_eq (d ∷ p) (e ∷ q) = str_eq d e && path_eq p q

path_eq_refl : (p : FilePath) → path_eq p p ≡ true
path_eq_refl [] = refl
path_eq_refl (d ∷ p) = rw (eq_refl d) (path_eq_refl p)

abbrev Disk : Type 0
Disk = Option (FilePath × Bytes)

abbrev on_disk : FilePath → Disk → Bool
on_disk p none = false
on_disk p (some (q, bytes)) = path_eq p q

abbrev read_disk : FilePath → Disk → Outcome Bytes
read_disk p none = raised (file_not_found_error "")
read_disk p (some (q, bytes)) = if path_eq p q then ok bytes else raised (file_not_found_error "")

unfoldable remove : FilePath → Action Disk (Unit {0})
remove p s = if on_disk p s then (ok tt, none) else (raised (file_not_found_error ""), s)

remove-ok :
    (p : FilePath) (s : Disk)
    → (remove p s).0 ≡ ok tt
    → (on_disk p (remove p s).1 ≡ false)
      × (m : String) × ((remove p (remove p s).1).0 ≡ raised (file_not_found_error m))
unfolding remove
remove-ok p s h = elim (Bool-cases (on_disk p s)) [
  | inl there ↦ rw there (refl, "", refl)
  | inr absent ↦ ground (arith, h, absent)
]

remove-raised :
    (p : FilePath) (s : Disk) (m : String)
    → (remove p s).0 ≡ raised (file_not_found_error m)
    → (on_disk p s ≡ false) × ((remove p s).1 ≡ s)
unfolding remove
remove-raised p s m h = elim (Bool-cases (on_disk p s)) [
  | inl there ↦ ground (arith, h, there)
  | inr absent ↦ rw absent (refl, refl)
]

abbrev disk : FileSystem
disk = record {
  Store = Disk;
  resolve = λ p s. ok p;
  mkdir_parents = λ p s. (ok tt, s);
  write_bytes = λ p bytes s. (ok tt, some (p, bytes));
  exists = on_disk;
  read_bytes = read_disk;
  unlink = remove;
  as_uri = λ p. "file:";
  read_written = λ p bytes s h. (path_eq_refl p, rw (path_eq_refl p) refl);
  unlinked = remove-ok;
  unlink_missing = remove-raised;
  resolve-mkdir = λ q p s. refl;
  resolve-write = λ q p bytes s. refl;
  resolve-unlink = λ q o p s h. refl;
}

abbrev root : FilePath
root = "/" ∷ "blobs" ∷ []

abbrev a_blob : BlobRef
a_blob = record {
  bucket = "docs";
  key = "a/b.txt";
  content_type = none;
  size = some 3;
  etag = none;
}

abbrev empty_disk : Disk
empty_disk = none

abbrev full_disk : Disk
full_disk = some ("/" ∷ "blobs" ∷ "docs" ∷ "a" ∷ "b.txt" ∷ [], 1 ∷ 2 ∷ 3 ∷ [])

put_a : put disk root "docs" "a/b.txt" (1 ∷ 2 ∷ 3 ∷ []) none empty_disk ≡ (ok a_blob, full_disk)
unfolding put validate_path check_part check_segments ◌>>=◌ lift gets pure
put_a = refl

traversal :
    (get disk root "docs" "../b.txt" full_disk).0
    ≡ raised (value_error "key cannot contain '..' segments")
unfolding get validate_path check_part check_segments ◌>>=◌ lift gets pure
traversal = refl

-- Two names of the same file: a slash may be in the bucket as well as in the key.
same_file :
    validate_path disk root "docs/a" "b.txt" empty_disk
    ≡ validate_path disk root "docs" "a/b.txt" empty_disk
unfolding validate_path check_part check_segments ◌>>=◌ lift gets pure
same_file = refl

validate_path-contained_example :
    ((rest : FilePath) × ("/" ∷ "blobs" ∷ "docs" ∷ "a" ∷ "b.txt" ∷ [] ≡ root ++ rest))
    × IsSafe "docs"
    × IsSafe "a/b.txt"
    × (◌≡◌ {A = Disk} none none)
unfolding validate_path check_part check_segments ◌>>=◌ lift gets pure
validate_path-contained_example =
    validate_path-contained disk root "docs" "a/b.txt" none none
      ("/" ∷ "blobs" ∷ "docs" ∷ "a" ∷ "b.txt" ∷ []) refl

put-download_example :
    (let s' = (put disk root "docs" "a/b.txt" (1 ∷ 2 ∷ 3 ∷ []) none empty_disk).1 in
      (chunks_read : List Bytes) × (download disk root "docs" "a/b.txt" s' ≡ (ok chunks_read, s'))
      × (flatten chunks_read ≡ 1 ∷ 2 ∷ 3 ∷ [])
      × All IsChunk chunks_read)
put-download_example =
    put-download disk root "docs" "a/b.txt" empty_disk (1 ∷ 2 ∷ 3 ∷ []) none a_blob
      (ap (λ x. x.0) put_a)

unsafe_key : (IsSafe "docs" × IsSafe "../b.txt") → ⊥
unsafe_key h = h.1.plain.0.not_parent refl

unsafe_part-IsRefused_example :
    IsRefused disk root "docs" "../b.txt" (put disk root "docs" "../b.txt" [] none) full_disk
    × IsRefused disk root "docs" "../b.txt" (get disk root "docs" "../b.txt") full_disk
    × IsRefused disk root "docs" "../b.txt" (delete disk root "docs" "../b.txt") full_disk
    × IsRefused disk root "docs" "../b.txt" (presign_get disk root "docs" "../b.txt" 60) full_disk
unsafe_part-IsRefused_example =
    unsafe_part-IsRefused disk root "docs" "../b.txt" full_disk [] none 60 unsafe_key

delete_a : (delete disk root "docs" "a/b.txt" full_disk).0 ≡ ok tt
unfolding delete unlink_quietly validate_path check_part check_segments ◌>>=◌ lift gets pure remove
delete_a = refl

delete-get_example :
    (let s' = (delete disk root "docs" "a/b.txt" full_disk).1 in
      ((get disk root "docs" "a/b.txt" s').0 ≡ raised (not_there "docs" "a/b.txt"))
      × ((delete disk root "docs" "a/b.txt" s').0 ≡ ok tt))
delete-get_example = delete-get disk root "docs" "a/b.txt" full_disk delete_a
