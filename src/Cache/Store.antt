-- ===== src/Cache/Store.antt =====
-- `ReadCache`: the cached files by promise and path.
use fuse_promise.Base.{ℕ, Option, none, some, List, [], lookup, insert as map_insert, Str}
use fuse_promise.Base.Options.{◌>>=◌}
use fuse_promise.Cache.{CachedFile, CacheKey, ReadCache, cache_key}
use fuse_promise.Cache.File

unfoldable pub clear : ReadCache → ReadCache
clear cache = record { files = [] }

unfoldable pub read : ReadCache → Str → Str → ℕ → ℕ → ℕ → Option (List ℕ)
read cache promise_id relative_path offset length chunk_size = do
  file ← lookup (record { promise_id = promise_id; relative_path = relative_path }) cache.files
  File.read file offset length chunk_size

-- `files.entry(key).or_default()`.
unfoldable pub entry_or_default : ReadCache → CacheKey → CachedFile
entry_or_default cache key = elim (lookup key cache.files) [
  | none ↦ record { chunks = [] }
  | some file ↦ file
]

unfoldable pub insert : ReadCache → Str → Str → ℕ → List ℕ → ℕ → Option ReadCache
insert cache promise_id relative_path offset bytes chunk_size = do
  let key : CacheKey = record { promise_id = promise_id; relative_path = relative_path }
  file ← File.insert (entry_or_default cache key) offset bytes chunk_size
  some (record cache { files = map_insert key file cache.files })
