-- ===== src/Cache/Sorting.antt =====
-- `sort_by_key` in `CachedChunk::insert`.
use fuse_promise.Base.{List, [], ◌∷◌, leb, All, Any, Bool-cases, inl, inr, ◌⊎◌}
use fuse_promise.Cache.{CachedRange}
use fuse_promise.Cache.Chunk.{insert_sorted, sort_by_offset}

-- Sorting keeps what holds of all ranges and of some range.
module _ {ℓ} (P : CachedRange → Type ℓ) where
  All-insert_sorted :
      (r : CachedRange) (rs : List CachedRange) → P r → All P rs → All P (insert_sorted r rs)
  unfolding insert_sorted
  All-insert_sorted r [] p h = (p, tt)
  All-insert_sorted r (s ∷ rs) p h = elim (Bool-cases (leb r.offset s.offset)) [
    | inl le ↦ rw le (p, h)
    | inr gt ↦ rw gt (h.0, All-insert_sorted r rs p h.1)
  ]

  pub All-sort : (rs : List CachedRange) → All P rs → All P (sort_by_offset rs)
  unfolding sort_by_offset
  All-sort [] h = tt
  All-sort (r ∷ rs) h = All-insert_sorted r (sort_by_offset rs) h.0 (All-sort rs h.1)

module _ (P : CachedRange → Type 0) where
  Any-insert_sorted :
      (r : CachedRange) (rs : List CachedRange) → P r ⊎ Any P rs → Any P (insert_sorted r rs)
  unfolding insert_sorted
  Any-insert_sorted r [] h = h
  Any-insert_sorted r (s ∷ rs) h = elim (Bool-cases (leb r.offset s.offset)) [
    | inl le ↦ rw le h
    | inr gt ↦ rw gt (elim h [
      | inl p ↦ inr (Any-insert_sorted r rs (inl p))
      | inr (inl p) ↦ inl p
      | inr (inr p) ↦ inr (Any-insert_sorted r rs (inr p))
    ])
  ]

  pub Any-sort : (rs : List CachedRange) → Any P rs → Any P (sort_by_offset rs)
  unfolding sort_by_offset
  Any-sort [] h = h
  Any-sort (r ∷ rs) (inl p) = Any-insert_sorted r (sort_by_offset rs) (inl p)
  Any-sort (r ∷ rs) (inr p) = Any-insert_sorted r (sort_by_offset rs) (inr (Any-sort rs p))
