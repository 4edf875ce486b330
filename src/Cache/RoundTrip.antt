-- ===== src/Cache/RoundTrip.antt =====
-- The cache as its clients see it: what is inserted is read back, and what is read is content.
use fuse_promise.Base.{
  ℕ, ◌+◌, ◌≤◌, ◌<◌, ◌≡◌, sym, ◌∙◌, Bool-cases, some, List, length, u64_max, bytes_at, ap, bytes_ext,
  nth-bytes_at, length-bytes_at, Option-cases, inl, inr, lookup, lookup-nil, lookup-insert_self,
  lookup-insert_ne, ℕ_key, Str, insert as map_insert, same, same_iff,
}
use fuse_promise.Base.Options.{>>=-eq-some}
use fuse_promise.Cache.{CachedChunk, CachedFile, CacheKey, ReadCache, cache_key}
use fuse_promise.Cache.File
use fuse_promise.Cache.Store.{read, insert, entry_or_default}
use fuse_promise.Cache.Overlay.{Agrees}
use fuse_promise.Cache.Coherence.{IsFile, read-eq-bytes_at}
use fuse_promise.Cache.Inserted.{insert-IsFilled, read-hit}

-- The bytes of every file of every promise.
abbrev pub Contents : Type 0
Contents = CacheKey → ℕ → ℕ

abbrev pub IsCoherent : Contents → ReadCache → Type 0
IsCoherent contents cache =
    (key : CacheKey) (file : CachedFile)
    → lookup key cache.files ≡ some file
    → IsFile (contents key) file

Agrees-bytes_at :
    (content : ℕ → ℕ) (offset : ℕ) (bytes : List ℕ)
    → Agrees content offset bytes
    → bytes ≡ bytes_at content offset (length bytes)
Agrees-bytes_at content offset bytes h =
    bytes_ext _ _ (sym (length-bytes_at content offset (length bytes)))
      (λ i l. h i l ∙ sym (nth-bytes_at content offset (length bytes) i l))

-- A cached file: an insertion within 64 bits succeeds, and its range is read back.
IsFile-read-insert :
    (content : ℕ → ℕ) (file : CachedFile) (offset : ℕ) (bytes : List ℕ) (chunk_size : ℕ)
    → 0 < chunk_size
    → IsFile content file
    → Agrees content offset bytes
    → offset + length bytes ≤ u64_max
    → (file' : CachedFile) × (File.insert file offset bytes chunk_size ≡ some file')
      × IsFile content file'
      × (File.read file' offset (length bytes) chunk_size ≡ some bytes)
IsFile-read-insert content file offset bytes chunk_size positive h agree fit =
    let (file', e, filled) =
      insert-IsFilled content chunk_size positive file offset bytes h agree fit in
    (
      file',
      e,
      filled.agrees,
      read-hit content chunk_size positive file' offset (length bytes) fit filled.agrees
            filled.covers
          ∙ sym (ap some (Agrees-bytes_at content offset bytes agree)),
    )

module _ (contents : Contents) where
  default-IsFile :
      (cache : ReadCache) (key : CacheKey)
      → IsCoherent contents cache
      → IsFile (contents key) (entry_or_default cache key)
  unfolding entry_or_default
  default-IsFile cache key h = elim (Option-cases (lookup key cache.files)) [
    | inl miss ↦
        rw (miss, entry_or_default) (λ base chunk e. cc (lookup-nil {V = CachedChunk} base))
    | inr (file, hit) ↦ rw (hit, entry_or_default) (h key file hit)
  ]

  put-IsCoherent :
      (cache : ReadCache) (key : CacheKey) (file : CachedFile)
      → IsCoherent contents cache
      → IsFile (contents key) file
      → IsCoherent contents (record cache { files = map_insert key file cache.files })
  put-IsCoherent cache key file h ok k f e = elim (Bool-cases (same key k)) [
    | inl here ↦
        let same_key : key ≡ k = (same_iff key k).0 here in
        let same_file : file ≡ f = cc (lookup-insert_self key file cache.files, same_key, e) in
        rw (← same_key, ← same_file) ok
    | inr other ↦ h k f (sym (lookup-insert_ne key k file cache.files other) ∙ e)
  ]

  module _ (cache : ReadCache) (promise_id relative_path : Str)
      (coherent : IsCoherent contents cache) where
    abbrev key : CacheKey
    key = record { promise_id = promise_id; relative_path = relative_path }

    -- Recording bytes that agree with the file content in a coherent read cache never panics,
    -- keeps the cache coherent, and the same range is then answered from the cache with those
    -- bytes, for a positive chunk size and a range within 64 bits.
    pub read-insert :
        (offset : ℕ) (bytes : List ℕ) (chunk_size : ℕ)
        → 0 < chunk_size
        → Agrees
            (contents (record { promise_id = promise_id; relative_path = relative_path }))
            offset
            bytes
        → offset + length bytes ≤ u64_max
        → (cache' : ReadCache) × (insert cache promise_id relative_path offset bytes chunk_size
            ≡ some cache')
          × IsCoherent contents cache'
          × (read cache' promise_id relative_path offset (length bytes) chunk_size ≡ some bytes)
    unfolding insert read
    read-insert offset bytes chunk_size positive agree fit =
        let (file, e, ok, hit) =
          IsFile-read-insert (contents key) (entry_or_default cache key) offset bytes chunk_size
            positive (default-IsFile cache key coherent) agree fit in
        (
          record cache { files = map_insert key file cache.files },
          rw e,
          put-IsCoherent cache key file coherent ok,
          rw (lookup-insert_self key file cache.files) hit,
        )

    -- Whatever a coherent read cache answers to a read is the content of the file at the range
    -- that was asked for.
    pub read-content :
        (offset n chunk_size : ℕ) (bytes : List ℕ)
        → read cache promise_id relative_path offset n chunk_size ≡ some bytes
        → bytes
          ≡ bytes_at
              (contents (record { promise_id = promise_id; relative_path = relative_path }))
              offset
              n
    unfolding read
    read-content offset n chunk_size bytes e =
        let (file, hit, run) = >>=-eq-some (lookup key cache.files) _ e in
        read-eq-bytes_at (contents key) file offset n chunk_size {bytes = bytes}
          (coherent key file hit) run
