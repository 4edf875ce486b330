-- ===== src/Cache/Chunk.antt =====
-- `CachedChunk::read` and `CachedChunk::insert`.
use fuse_promise.Base.{
  ℕ, ◌-◌, min, max, ◌&&◌, ◌||◌, Option, none, some, List, [], ◌∷◌, ◌++◌, length, replicate, ltb,
  leb, if◌then◌else◌, checked_add, slice, copy_from_slice,
}
use fuse_promise.Base.Options.{◌>>=◌}
use fuse_promise.Cache.{CachedRange, CachedChunk, checked_range_end, range_end}

-- The loop of `read`; an overflowing end of a range ends it too.
unfoldable pub read_ranges : List CachedRange → ℕ → ℕ → Option (List ℕ)
read_ranges [] offset end = none
read_ranges (range ∷ ranges) offset end =
    let later = read_ranges ranges offset end in
    range_end range >>= λ end_of_range.
    if leb range.offset offset && leb end end_of_range
    then some (slice range.bytes (offset - range.offset) (end - range.offset))
    else later

unfoldable pub read : CachedChunk → ℕ → ℕ → Option (List ℕ)
read chunk offset length = do end ← checked_add offset length; read_ranges chunk.ranges offset end

-- The variables of the loop of `insert`.
pub record Merge : Type 0 where
  pub merged_offset : ℕ
  pub merged_end : ℕ
  pub merged_bytes : List ℕ
  pub retained : List CachedRange

-- The range joins the merged one: its bytes first, the newer bytes over them.
unfoldable pub absorb : Merge → CachedRange → ℕ → Option Merge
absorb m range end_of_range = do
  let next_offset = min m.merged_offset range.offset
  let next_end = max m.merged_end end_of_range
  let next_bytes = replicate (next_end - next_offset) 0
  with_old ← copy_from_slice next_bytes (range.offset - next_offset) range.bytes
  with_new ← copy_from_slice with_old (m.merged_offset - next_offset) m.merged_bytes
  some (record m { merged_offset = next_offset; merged_end = next_end; merged_bytes = with_new })

-- One round of the loop.
unfoldable pub merge_range : Merge → CachedRange → Option Merge
merge_range m range = elim (range_end range) [
  | none ↦ some m
  | some end_of_range ↦
      if ltb end_of_range m.merged_offset || ltb m.merged_end range.offset
      then some (record m { retained = m.retained ++ (range ∷ []) })
      else absorb m range end_of_range
]

unfoldable pub merge_ranges : Merge → List CachedRange → Option Merge
merge_ranges m [] = some m
merge_ranges m (range ∷ ranges) = do m' ← merge_range m range; merge_ranges m' ranges

-- `sort_by_key(|range| range.offset)`, which is stable.
unfoldable pub insert_sorted : CachedRange → List CachedRange → List CachedRange
insert_sorted range [] = range ∷ []
insert_sorted range (r ∷ rs) =
    if leb range.offset r.offset then range ∷ r ∷ rs else r ∷ insert_sorted range rs

unfoldable pub sort_by_offset : List CachedRange → List CachedRange
sort_by_offset [] = []
sort_by_offset (r ∷ rs) = insert_sorted r (sort_by_offset rs)

unfoldable pub insert_nonempty : CachedChunk → ℕ → List ℕ → ℕ → Option CachedChunk
insert_nonempty chunk offset bytes new_end = do
  m ←
      merge_ranges
        (record {
          merged_offset = offset;
          merged_end = new_end;
          merged_bytes = bytes;
          retained = [];
        })
        chunk.ranges
  some (record {
    ranges =
        sort_by_offset
          (m.retained ++ (record { offset = m.merged_offset; bytes = m.merged_bytes } ∷ []));
  })

unfoldable pub insert : CachedChunk → ℕ → List ℕ → Option CachedChunk
insert chunk offset [] = some chunk
insert chunk offset (b ∷ bs) = elim (checked_range_end offset (length (b ∷ bs))) [
  | none ↦ some chunk
  | some new_end ↦ insert_nonempty chunk offset (b ∷ bs) new_end
]
