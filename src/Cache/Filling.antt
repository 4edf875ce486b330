-- ===== src/Cache/Filling.antt =====
-- `CachedFile::insert`: it never panics, keeps the agreement with the content and all that was
-- covered, and covers every byte that it is given; the read of the inserted range then hits.
use fuse_promise.Base.{
  ℕ, ◌+◌, ◌≤◌, ◌<◌, ◌≡◌, sym, ◌∙◌, false, some, List, length, ◌==◌, u64_max, arith, Bool-cases,
  Option-cases, inl, inr, lookup, lookup-insert, insert as map_insert, ℕ_key,
}
use fuse_promise.Cache.{CachedRange, CachedChunk, CachedFile, chunk_base}
use fuse_promise.Cache.Chunk
use fuse_promise.Cache.File.{chunk_end, entry_or_default}
use fuse_promise.Cache.Overlay.{Agrees}
use fuse_promise.Cache.Merging.{Covers}
use fuse_promise.Cache.Hits.{IsChunk, ChunkCovers, insert_lem}
use fuse_promise.Cache.Coherence.{IsFile}

abbrev pub PieceCovers : ℕ → ℕ → ℕ → CachedFile → Type 0
PieceCovers base start end file =
    (chunk : CachedChunk) × (lookup base file.chunks ≡ some chunk) × ChunkCovers start end chunk

-- Each run of bytes of the range that lies in one chunk is covered there.
abbrev pub FileCovers : ℕ → ℕ → ℕ → CachedFile → Type 0
FileCovers chunk_size start end file =
    (x y : ℕ)
    → start ≤ x
    → x < y
    → y ≤ end
    → y ≤ chunk_end x chunk_size
    → PieceCovers (chunk_base x chunk_size) x y file

abbrev pub put_chunk : CachedFile → ℕ → CachedChunk → CachedFile
put_chunk file base chunk = record file { chunks = map_insert base chunk file.chunks }

pub shrink : (a b x y : ℕ) → a ≤ x → y ≤ b → (r : CachedRange) → Covers a b r → Covers x y r
shrink a b x y h k r c = (omega arith, omega arith)

lookup_put_self :
    (file : CachedFile) (base : ℕ) (chunk : CachedChunk)
    → lookup base (put_chunk file base chunk).chunks ≡ some chunk
lookup_put_self file base chunk = ground (arith, lookup-insert base base chunk file.chunks)

lookup_put_ne :
    (file : CachedFile) (base k : ℕ) (chunk : CachedChunk)
    → (base == k) ≡ false
    → lookup k (put_chunk file base chunk).chunks ≡ lookup k file.chunks
lookup_put_ne file base k chunk h = ground (arith, lookup-insert base k chunk file.chunks)

module _ (content : ℕ → ℕ) where
  default-IsChunk :
      (file : CachedFile) (base : ℕ)
      → IsFile content file
      → IsChunk content (entry_or_default file base)
  unfolding entry_or_default
  default-IsChunk file base h = elim (Option-cases (lookup base file.chunks)) [
    | inl miss ↦ rw (miss, entry_or_default) tt
    | inr (c, hit) ↦ rw (hit, entry_or_default) (h base c hit)
  ]

  entry_of_hit :
      (file : CachedFile) (base : ℕ) (chunk : CachedChunk)
      → lookup base file.chunks ≡ some chunk
      → entry_or_default file base ≡ chunk
  unfolding entry_or_default
  entry_of_hit file base chunk e = ground arith

  put-IsFile :
      (file : CachedFile) (base : ℕ) (chunk : CachedChunk)
      → IsFile content file
      → IsChunk content chunk
      → IsFile content (put_chunk file base chunk)
  put-IsFile file base chunk h c k d e = elim (Bool-cases (base == k)) [
    | inl here ↦
        let same_chunk : chunk ≡ d = ground (arith, lookup-insert base k chunk file.chunks) in
        rw (← same_chunk) c
    | inr other ↦ h k d (sym (lookup_put_ne file base k chunk other) ∙ e)
  ]

  -- One piece goes into its chunk.
  pub store_piece :
      (file : CachedFile) (base cursor next : ℕ) (piece : List ℕ)
      → cursor + length piece ≡ next
      → IsFile content file
      → Agrees content cursor piece
      → next ≤ u64_max
      → 0 < length piece
      → (chunk : CachedChunk) × (Chunk.insert (entry_or_default file base) cursor piece
          ≡ some chunk)
        × IsFile content (put_chunk file base chunk)
        × ((k a b : ℕ) → PieceCovers k a b file → PieceCovers k a b (put_chunk file base chunk))
        × PieceCovers base cursor next (put_chunk file base chunk)
  store_piece file base cursor next piece reach h agree fit some_bytes =
      let (chunk, e, ok, keep, new) =
        insert_lem content (entry_or_default file base) cursor piece (default-IsChunk file base h)
          agree (omega arith) some_bytes in
      (
        chunk,
        e,
        put-IsFile file base chunk h ok,
        λ k a b (c, hit, cover). elim (Bool-cases (base == k)) [
          | inl here ↦
              let bk : base ≡ k = ground arith in
              (
                chunk,
                ground (arith, lookup-insert base k chunk file.chunks),
                keep a b (rw (entry_of_hit file base c (rw bk hit)) cover),
              )
          | inr other ↦ (c, lookup_put_ne file base k chunk other ∙ hit, cover)
        ],
        (chunk, lookup_put_self file base chunk, rw (← reach) new),
      )
