-- ===== src/Infrastructure/Storage.antt =====
-- app/infrastructure/storage/local.py: `LocalBlobStorage`. A path is the list of its parts below the
-- root, and the file system is a parameter with what `pathlib` and the system document.
pub mod Paths
pub mod Blobs
pub mod Deletion
use Prim.Native.String.{◌++◌ as str_append}
use ai_backend_foundation.Action.{
  Action, Outcome, gets, lift, ok, pure, raise_if, raised, ◌>>=◌, ◌>>◌,
}
use ai_backend_foundation.Prelude.{
  Bool, List, Option, String, [], drop, false, has_code, if◌then◌else◌, is_empty, length, none, not,
  some, split_at_code, starts_with_code, str_eq, suc, take, true, zero, ℕ, ◌&&◌, ◌*◌, ◌++◌, ◌∷◌,
  ◌≡◌,
}
use ai_backend_foundation.Shared.Errors.{Exception, file_not_found_error, value_error}

abbrev pub FilePath : Type 0
FilePath = List String

abbrev pub Bytes : Type 0
Bytes = List ℕ

pub record FileSystem : Type 1 where
  pub Store : Type 0
  pub resolve : FilePath → Store → Outcome FilePath
  pub mkdir_parents : FilePath → Action Store (Unit {0})
  pub write_bytes : FilePath → Bytes → Action Store (Unit {0})
  pub exists : FilePath → Store → Bool
  pub read_bytes : FilePath → Store → Outcome Bytes
  pub unlink : FilePath → Action Store (Unit {0})
  pub as_uri : FilePath → String
  -- What was written is there and is read back.
  pub read_written :
      (p : FilePath) (bytes : Bytes) (s : Store)
      → (write_bytes p bytes s).0 ≡ ok tt
      → (exists p (write_bytes p bytes s).1 ≡ true)
        × (read_bytes p (write_bytes p bytes s).1 ≡ ok bytes)
  -- A file that was removed is not there, nor is one that `unlink` did not find; then it changes nothing.
  pub unlinked :
      (p : FilePath) (s : Store)
      → (unlink p s).0 ≡ ok tt
      → (exists p (unlink p s).1 ≡ false)
        × (m : String) × ((unlink p (unlink p s).1).0 ≡ raised (file_not_found_error m))
  pub unlink_missing :
      (p : FilePath) (s : Store) (m : String)
      → (unlink p s).0 ≡ raised (file_not_found_error m)
      → (exists p s ≡ false) × ((unlink p s).1 ≡ s)
  -- Only symbolic links matter to `resolve`. Making directories and writing neither make nor remove one,
  -- and `unlink` removes none under a path that `resolve` gave.
  pub resolve-mkdir : (q p : FilePath) (s : Store) → resolve q (mkdir_parents p s).1 ≡ resolve q s
  pub resolve-write :
      (q p : FilePath) (bytes : Bytes) (s : Store)
      → resolve q (write_bytes p bytes s).1 ≡ resolve q s
  pub resolve-unlink :
      (q o p : FilePath) (s : Store) → resolve o s ≡ ok p → resolve q (unlink p s).1 ≡ resolve q s

pub record BlobRef : Type 0 where
  pub bucket : String
  pub key : String
  pub content_type : Option String
  pub size : Option ℕ
  pub etag : Option String

abbrev pub segments : String → List String
segments = split_at_code b'/'

abbrev pub part_error : String → String → Outcome (Unit {0})
part_error part_name problem = raised (value_error (str_append part_name problem))

unfoldable pub check_segments : String → List String → Outcome (Unit {0})
check_segments part_name [] = ok tt
check_segments part_name (segment ∷ rest) =
    if str_eq segment ".."
    then part_error part_name " cannot contain '..' segments"
    else if str_eq segment "."
    then part_error part_name " cannot contain '.' segments"
    else if is_empty segment
    then part_error part_name " cannot contain empty segments"
    else check_segments part_name rest

-- One round of the loop over the bucket and the key.
unfoldable pub check_part : String → String → Outcome (Unit {0})
check_part part_name value =
    if is_empty value
    then part_error part_name " cannot be empty"
    else if has_code 0 value
    then part_error part_name " cannot contain NUL bytes"
    else if has_code b'\\' value
    then part_error part_name " cannot contain backslashes"
    else if starts_with_code b'/' value
    then part_error part_name " cannot be an absolute path"
    else if has_code b':' value
    then part_error part_name " contains forbidden character ':'"
    else check_segments part_name (segments value)

-- `full_path.relative_to(base_path)` succeeds
abbrev pub is_under : FilePath → FilePath → Bool
is_under [] path = true
is_under (d ∷ root) [] = false
is_under (d ∷ root) (e ∷ path) = str_eq d e && is_under root path

-- `path.parent`
abbrev pub parent : FilePath → FilePath
parent [] = []
parent (d ∷ []) = []
parent (d ∷ e ∷ path) = d ∷ parent (e ∷ path)

-- `while chunk := f.read(n)` on the bytes of a file: the fuel is their number, and each chunk takes
-- one at least.
unfoldable pub chunks_from : ℕ → ℕ → Bytes → List Bytes
chunks_from zero n bytes = []
chunks_from (suc fuel) n [] = []
chunks_from (suc fuel) n (b ∷ bytes) =
    let rest = chunks_from fuel n (drop n (b ∷ bytes)) in take n (b ∷ bytes) ∷ rest

abbrev pub chunk_size : ℕ
chunk_size = 64 * 1024

abbrev pub chunks : Bytes → List Bytes
chunks bytes = chunks_from (length bytes) chunk_size bytes

-- `contextlib.suppress(FileNotFoundError)`
abbrev pub suppress_not_found : Outcome (Unit {0}) → Outcome (Unit {0})
suppress_not_found (raised (file_not_found_error m)) = ok tt
suppress_not_found r = r

-- `except Exception as e: raise ValueError(…) from e`
abbrev pub invalid_path : Outcome FilePath → Outcome FilePath
invalid_path (ok path) = ok path
invalid_path (raised e) = raised (value_error "Invalid path")

abbrev pub not_there : String → String → Exception
not_there bucket key =
    file_not_found_error
      (str_append (str_append (str_append (str_append "Blob " bucket) "/") key) " not found")

-- `self` holds the base path, which `__init__` resolved.
module _ (fs : FileSystem) (base_path : FilePath) where
  abbrev pub contained : FilePath → Outcome FilePath
  contained full_path =
      if is_under base_path full_path
      then ok full_path
      else raised (value_error "Path traversal detected: resolved path is outside base_path")

  -- `self._base_path / bucket / key`
  abbrev pub joined : String → String → FilePath
  joined bucket key = base_path ++ (segments bucket ++ segments key)

  unfoldable pub validate_path : String → String → Action fs.Store FilePath
  validate_path bucket key = do
    lift (check_part "bucket" bucket)
    lift (check_part "key" key)
    resolved ← gets (fs.resolve (joined bucket key))
    full_path ← lift (invalid_path resolved)
    lift (contained full_path)

  unfoldable pub put : String → String → Bytes → Option String → Action fs.Store BlobRef
  put bucket key bytes content_type = do
    target_path ← validate_path bucket key
    fs.mkdir_parents (parent target_path)
    fs.write_bytes target_path bytes
    pure (record {
      bucket = bucket;
      key = key;
      content_type = content_type;
      size = some (length bytes);
      etag = none;
    })

  -- `get` up to the stream, which opens the file when it is read.
  unfoldable pub get : String → String → Action fs.Store FilePath
  get bucket key = do
    target_path ← validate_path bucket key
    there ← gets (fs.exists target_path)
    raise_if (not there) (not_there bucket key)
    pure target_path

  abbrev pub chunks_of : Outcome Bytes → Outcome (List Bytes)
  chunks_of (ok bytes) = ok (chunks bytes)
  chunks_of (raised e) = raised e

  unfoldable pub stream : FilePath → Action fs.Store (List Bytes)
  stream target_path = do bytes ← gets (fs.read_bytes target_path); lift (chunks_of bytes)

  -- A client that reads the whole stream at once.
  unfoldable pub download : String → String → Action fs.Store (List Bytes)
  download bucket key = do target_path ← get bucket key; stream target_path

  unfoldable pub unlink_quietly : FilePath → Action fs.Store (Unit {0})
  unlink_quietly target_path s = let (r, s') = fs.unlink target_path s in (suppress_not_found r, s')

  unfoldable pub delete : String → String → Action fs.Store (Unit {0})
  delete bucket key = do target_path ← validate_path bucket key; unlink_quietly target_path

  -- `ttl_s` is ignored.
  unfoldable pub presign_get : String → String → ℕ → Action fs.Store String
  presign_get bucket key ttl_s = do
    target_path ← validate_path bucket key
    pure (fs.as_uri target_path)
