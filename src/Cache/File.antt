-- ===== src/Cache/File.antt =====
-- `CachedFile::read` and `CachedFile::insert`: a request is cut at the chunk borders.
use fuse_promise.Base.{
  ℕ, zero, suc, ◌+◌, ◌-◌, min, Option, none, some, List, [], ◌++◌, length, ltb, ◌==◌, if◌then◌else◌,
  lookup, insert as map_insert, ℕ_key, checked_add, checked_sub, saturating_add, slice,
}
use fuse_promise.Base.Options.{◌>>=◌}
use fuse_promise.Cache.{CachedChunk, CachedFile, chunk_base}
use fuse_promise.Cache.Chunk

-- `checked_add(chunk_size).unwrap_or(u64::MAX)` from the base of the chunk of `cursor`.
unfoldable pub chunk_end : ℕ → ℕ → ℕ
chunk_end cursor chunk_size = saturating_add (chunk_base cursor chunk_size) chunk_size

-- `while cursor < end`, with fuel.
unfoldable pub read_loop : ℕ → CachedFile → ℕ → ℕ → ℕ → List ℕ → Option (List ℕ)
read_loop zero file chunk_size cursor end bytes = if ltb cursor end then none else some bytes
read_loop (suc fuel) file chunk_size cursor end bytes =
    let round = (do
      let read_end = min end (chunk_end cursor chunk_size)
      read_len ← checked_sub read_end cursor
      chunk ← lookup (chunk_base cursor chunk_size) file.chunks
      piece ← Chunk.read chunk cursor read_len
      read_loop fuel file chunk_size read_end end (bytes ++ piece)) in
    if ltb cursor end then round else some bytes

-- Every round reads at least one byte, so the length is fuel enough.
unfoldable pub read : CachedFile → ℕ → ℕ → ℕ → Option (List ℕ)
read file offset length chunk_size = do
  end ← checked_add offset length
  read_loop length file chunk_size offset end []

-- `chunks.entry(base).or_default()`.
unfoldable pub entry_or_default : CachedFile → ℕ → CachedChunk
entry_or_default file base = elim (lookup base file.chunks) [
  | none ↦ record { ranges = [] }
  | some chunk ↦ chunk
]

-- `while consumed < bytes.len()`, with fuel; `none` is a panic below.
unfoldable pub insert_loop : ℕ → CachedFile → ℕ → ℕ → ℕ → List ℕ → Option CachedFile
insert_loop zero file chunk_size cursor consumed bytes = some file
insert_loop (suc fuel) file chunk_size cursor consumed bytes =
    let count = min (length bytes - consumed) (chunk_end cursor chunk_size - cursor) in
    let base = chunk_base cursor chunk_size in
    let round = (do
      chunk ←
          Chunk.insert (entry_or_default file base) cursor (slice bytes consumed (consumed + count))
      insert_loop fuel (record file { chunks = map_insert base chunk file.chunks }) chunk_size
          (saturating_add cursor count) (consumed + count) bytes) in
    if ltb consumed (length bytes) then (if count == 0 then some file else round) else some file

unfoldable pub insert : CachedFile → ℕ → List ℕ → ℕ → Option CachedFile
insert file offset bytes chunk_size = insert_loop (length bytes) file chunk_size offset 0 bytes
