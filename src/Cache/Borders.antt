-- ===== src/Cache/Borders.antt =====
-- The chunk borders: `chunk_base` and the end of a chunk.
use fuse_promise.Base.{ℕ, ◌+◌, ◌≤◌, ◌<◌, ◌≡◌, u64_max, arith}
use fuse_promise.Cache.{chunk_base}
use fuse_promise.Cache.File.{chunk_end}

module _ (offset chunk_size : ℕ) (positive : 0 < chunk_size) where
  pub chunk_base-le : chunk_base offset chunk_size ≤ offset
  unfolding chunk_base
  chunk_base-le = grind arith

  pub lt-chunk_base : offset < chunk_base offset chunk_size + chunk_size
  unfolding chunk_base
  lt-chunk_base = grind arith

  -- A position between the borders of a chunk has that chunk's base.
  pub chunk_base_same :
      (x : ℕ)
      → chunk_base offset chunk_size ≤ x
      → x < chunk_base offset chunk_size + chunk_size
      → chunk_base x chunk_size ≡ chunk_base offset chunk_size
  unfolding chunk_base
  chunk_base_same x h k = grind arith

  -- Short of the last byte position, the end of the chunk lies ahead.
  pub lt-chunk_end : offset < u64_max → offset < chunk_end offset chunk_size
  unfolding chunk_end
  lt-chunk_end h = ground (arith, lt-chunk_base)

  pub chunk_end-le : chunk_end offset chunk_size ≤ chunk_base offset chunk_size + chunk_size
  unfolding chunk_end
  chunk_end-le = ground arith
