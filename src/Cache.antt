-- ===== src/Cache.antt =====
-- The read-through cache of crates/fuse-promise-runtime/src/lib.rs: `CachedRange`, `CachedChunk`,
-- `CachedFile`, `ReadCache`. Where the source would panic (an index out of bounds) the result of
-- an insertion is `none`. A chunk size of 0, on which `chunk_base` divides by zero, is excluded
-- by `CachePolicy::chunk_size`.
pub mod Chunk
pub mod File
pub mod Store
pub mod Overlay
pub mod Merging
pub mod Sorting
pub mod Borders
pub mod Hits
pub mod Coherence
pub mod Filling
pub mod Inserted
pub mod RoundTrip
use fuse_promise.Base.{
  ℕ, zero, suc, ◌+◌, ◌-◌, ◌*◌, ◌/◌, ◌≡◌, min, max, Bool, true, false, ◌&&◌, ◌||◌, Option, none,
  some, List, [], ◌∷◌, ◌++◌, length, take, drop, replicate, ltb, leb, ◌==◌, if◌then◌else◌, Str, Key,
  same, cmp_str, cmp_str_iff, then_cmp, ℕ_key, Ordering, BTreeMap, lookup, insert, checked_add,
  checked_sub, saturating_add, u64_max, slice, copy_from_slice, is_some, ◌↔◌, arith, ap,
}
use fuse_promise.Base.Options.{◌>>=◌}

pub record CachedRange : Type 0 where
  pub offset : ℕ
  pub bytes : List ℕ

pub record CachedChunk : Type 0 where
  pub ranges : List CachedRange

pub record CachedFile : Type 0 where
  pub chunks : BTreeMap ℕ CachedChunk

pub record CacheKey : Type 0 where
  pub promise_id : Str
  pub relative_path : Str

pub record ReadCache : Type 0 where
  pub files : BTreeMap CacheKey CachedFile

-- The derived order of `CacheKey`.
abbrev pub cmp_key : CacheKey → CacheKey → Ordering
cmp_key a b = then_cmp (cmp_str a.promise_id b.promise_id) (cmp_str a.relative_path b.relative_path)

pub cmp_key_iff : (a b : CacheKey) → (cmp_key a b ≡ Ordering.eq) ↔ (a ≡ b)
cmp_key_iff a b = (
  λ h.
      ground
        (arith, cmp_str_iff a.promise_id b.promise_id, cmp_str_iff a.relative_path b.relative_path),
  λ e. ground (
    arith,
    ap (λ (k : CacheKey). k.promise_id) e,
    ap (λ (k : CacheKey). k.relative_path) e,
    cmp_str_iff a.promise_id b.promise_id,
    cmp_str_iff a.relative_path b.relative_path,
  ),
)

instance abbrev pub cache_key : Key CacheKey
cache_key = record { cmp = cmp_key; cmp_iff = cmp_key_iff }

unfoldable pub checked_range_end : ℕ → ℕ → Option ℕ
checked_range_end offset length = checked_add offset length

unfoldable pub chunk_base : ℕ → ℕ → ℕ
chunk_base offset chunk_size = offset / chunk_size * chunk_size

-- `CachedRange::end`.
unfoldable pub range_end : CachedRange → Option ℕ
unfolding checked_range_end
range_end range = checked_range_end range.offset (length range.bytes)
