-- ===== src/Infrastructure/Storage/Blobs.antt =====
-- What comes back from the blobs of `LocalBlobStorage` in app/infrastructure/storage/local.py.
use ai_backend_foundation.Action.{Action, gets, lift, ok, pure, raise_if, raised, ◌>>=◌, ◌>>◌}
use ai_backend_foundation.Action.Returns.{Returned-bind}
use ai_backend_foundation.Infrastructure.Storage.{
  BlobRef, Bytes, FilePath, FileSystem, chunk_size, chunks, chunks_from, download, get, parent, put,
  stream, validate_path,
}
use ai_backend_foundation.Infrastructure.Storage.Paths.{
  IsContained, ok_and_raised, ok_eq, validate_path-cases,
}
use ai_backend_foundation.Prelude.{
  All, List, Option, String, [], ap, arith, drop, flatten, inl, inr, length, none, refl, some, suc,
  sym, take, true, zero, ℕ, ◌++◌, ◌∙◌, ◌∷◌, ◌≡◌, ◌≤◌,
}
use ai_backend_foundation.Shared.Errors.{value_error}

-- Every chunk has a byte at least, and no more than are read at once.
abbrev pub IsChunk : Bytes → Type 0
IsChunk bytes = (1 ≤ length bytes) × (length bytes ≤ chunk_size)

take-drop : {A : Type 0} (n : ℕ) (xs : List A) → take n xs ++ drop n xs ≡ xs
take-drop zero xs = refl
take-drop (suc n) [] = refl
take-drop (suc n) (x ∷ xs) = ap (λ ys. x ∷ ys) (take-drop n xs)

length-take : {A : Type 0} (n : ℕ) (xs : List A) → length (take n xs) ≤ n
length-take zero xs = omega arith
length-take (suc n) [] = omega arith
length-take (suc n) (x ∷ xs) = let h = length-take n xs in omega (arith, h)

length-drop : {A : Type 0} (n : ℕ) (xs : List A) → length (drop n xs) ≤ length xs
length-drop zero xs = omega arith
length-drop (suc n) [] = omega arith
length-drop (suc n) (x ∷ xs) = let h = length-drop n xs in omega (arith, h)

-- The chunks of a file are its bytes, whenever the fuel is at least their number.
flatten-chunks_from :
    (fuel n : ℕ) (bytes : Bytes)
    → length bytes ≤ fuel
    → flatten (chunks_from fuel (suc n) bytes) ≡ bytes
unfolding chunks_from
flatten-chunks_from zero n [] h = refl
flatten-chunks_from zero n (b ∷ bytes) h = absurd (omega (arith, h))
flatten-chunks_from (suc fuel) n [] h = refl
flatten-chunks_from (suc fuel) n (b ∷ bytes) h =
    let less = length-drop n bytes in
    rw (flatten-chunks_from fuel n (drop n bytes) (omega (arith, h, less)))
      (ap (λ ys. b ∷ ys) (take-drop n bytes))

chunks_from-bounded :
    (fuel n : ℕ) (bytes : Bytes)
    → All (λ chunk. (1 ≤ length chunk) × (length chunk ≤ suc n)) (chunks_from fuel (suc n) bytes)
unfolding chunks_from
chunks_from-bounded zero n bytes = tt
chunks_from-bounded (suc fuel) n [] = tt
chunks_from-bounded (suc fuel) n (b ∷ bytes) =
    let some_bytes = length-take n bytes in
    ((omega arith, omega (arith, some_bytes)), chunks_from-bounded fuel n (drop n bytes))

module _ (fs : FileSystem) (base_path : FilePath) (bucket key : String) where
  abbrev Contained : fs.Store → FilePath → Type 0
  Contained = IsContained fs base_path bucket key

  pub validate_again :
      (s : fs.Store) (path : FilePath)
      → Contained s path
      → validate_path fs base_path bucket key s ≡ (ok path, s)
  validate_again s path h = elim (validate_path-cases fs base_path bucket key s) [
    | inl (p, facts, e) ↦ rw (ok_eq h.resolves facts.resolves) e
    | inr (m, e, refuted) ↦ absurd (refuted path h)
  ]

  -- Where the same path leads to the same place.
  pub moved_to :
      (s s' : fs.Store) (path : FilePath)
      → ((q : FilePath) → fs.resolve q s' ≡ fs.resolve q s)
      → Contained s path
      → Contained s' path
  moved_to s s' path same h = record {
    safe_bucket = h.safe_bucket;
    safe_key = h.safe_key;
    resolves = same _ ∙ h.resolves;
    under_base = h.under_base;
  }

  download-stored :
      (s : fs.Store) (path : FilePath) (bytes : Bytes)
      → Contained s path
      → fs.exists path s ≡ true
      → fs.read_bytes path s ≡ ok bytes
      → download fs base_path bucket key s ≡ (ok (chunks bytes), s)
  unfolding download get stream ◌>>=◌ gets lift raise_if pure
  download-stored s path bytes h there read = rw (validate_again s path h, there, read) refl

  -- What a `put` that returns did.
  record HasPut (bytes : Bytes) (content_type : Option String) (s : fs.Store) : Type 0 where
    path : FilePath
    facts : Contained s path
    written : (fs.write_bytes path bytes (fs.mkdir_parents (parent path) s).1).0 ≡ ok tt
    after :
        (put fs base_path bucket key bytes content_type s).1
        ≡ (fs.write_bytes path bytes (fs.mkdir_parents (parent path) s).1).1

  abbrev put_from : FilePath → Bytes → Option String → Action fs.Store BlobRef
  put_from path bytes content_type =
      fs.mkdir_parents (parent path)
      >> (fs.write_bytes path bytes
          >> pure (record {
            bucket = bucket;
            key = key;
            content_type = content_type;
            size = some (length bytes);
            etag = none;
          }))

  put-put_from :
      (s : fs.Store) (path : FilePath) (bytes : Bytes) (content_type : Option String)
      → validate_path fs base_path bucket key s ≡ (ok path, s)
      → put fs base_path bucket key bytes content_type s ≡ put_from path bytes content_type s
  unfolding put ◌>>=◌
  put-put_from s path bytes content_type e = rw e refl

  pub put-refused :
      (s : fs.Store) (bytes : Bytes) (content_type : Option String) (m : String)
      → validate_path fs base_path bucket key s ≡ (raised (value_error m), s)
      → put fs base_path bucket key bytes content_type s ≡ (raised (value_error m), s)
  unfolding put ◌>>=◌
  put-refused s bytes content_type m e = rw e refl

  put-HasPut :
      (s : fs.Store) (bytes : Bytes) (content_type : Option String) (ref : BlobRef)
      → (put fs base_path bucket key bytes content_type s).0 ≡ ok ref
      → HasPut bytes content_type s
  unfolding pure
  put-HasPut s bytes content_type ref h = elim (validate_path-cases fs base_path bucket key s) [
    | inr (m, e, refuted) ↦
        absurd (ok_and_raised h (ap (λ x. x.0) (put-refused s bytes content_type m e)))
    | inl (path, facts, e) ↦
        let start = put-put_from s path bytes content_type e in
        let made =
          Returned-bind (fs.mkdir_parents (parent path)) _ s (ap (λ x. x.0) (sym start) ∙ h) in
        let wrote = Returned-bind (fs.write_bytes path bytes) _ _ made.rest in
        record {
          path = path;
          facts = facts;
          written = wrote.step;
          after = ap (λ x. x.1) start ∙ (ap (λ x. x.1) made.whole ∙ ap (λ x. x.1) wrote.whole);
        }
  ]

  -- After a `put` that returns, reading the blob to its end gives the bytes that were put, in chunks
  -- none of which is empty or longer than 64 KiB, and changes no file.
  pub put-download :
      (s : fs.Store) (bytes : Bytes) (content_type : Option String) (ref : BlobRef)
      → (put fs base_path bucket key bytes content_type s).0 ≡ ok ref
      → (let s' = (put fs base_path bucket key bytes content_type s).1 in
          (chunks_read : List Bytes) × (download fs base_path bucket key s' ≡ (ok chunks_read, s'))
          × (flatten chunks_read ≡ bytes)
          × All IsChunk chunks_read)
  put-download s bytes content_type ref h =
      let done = put-HasPut s bytes content_type ref h in
      let made = (fs.mkdir_parents (parent done.path) s).1 in
      let (there, read) = fs.read_written done.path bytes made done.written in
      let facts =
        moved_to s (fs.write_bytes done.path bytes made).1 done.path
          (λ q. fs.resolve-write q done.path bytes made ∙ fs.resolve-mkdir q (parent done.path) s)
          done.facts in
      (
        chunks bytes,
        rw done.after (download-stored _ done.path bytes facts there read),
        flatten-chunks_from (length bytes) 65535 bytes (omega arith),
        chunks_from-bounded (length bytes) 65535 bytes,
      )
