-- ===== src/Cache/Hits.antt =====
-- A chunk that agrees with the file's content: `insert` keeps what was covered and covers what it
-- is given; `read` answers what is covered, with the content's bytes.
use fuse_promise.Base.{
  ℕ, ◌+◌, ◌-◌, ◌≤◌, ◌<◌, ◌≡◌, refl, ap, sym, ◌∙◌, Bool, true, ◌&&◌, some, List, [], ◌∷◌, ◌++◌,
  length, leb, if◌then◌else◌, u64_max, slice, nth, bytes_at, length-slice, nth-slice, bytes_ext,
  nth-bytes_at, length-bytes_at, All, Any, All-append, Any-append_left, Any-append_right, arith,
  Bool-cases, inl, inr, le→leb,
}
use fuse_promise.Cache.{CachedRange, CachedChunk, checked_range_end}
use fuse_promise.Cache.Overlay.{Agrees}
use fuse_promise.Cache.Merging.{
  IsRange, Covers, IsMerge, MergeCovers, merge_ranges_lem, range_end_fits,
}
use fuse_promise.Cache.Sorting.{All-sort, Any-sort}
use fuse_promise.Cache.Chunk.{sort_by_offset, read_ranges, read, Merge, insert_nonempty, insert}

abbrev pub IsChunk : (ℕ → ℕ) → CachedChunk → Type 0
IsChunk content chunk = All (IsRange content) chunk.ranges

abbrev pub ChunkCovers : ℕ → ℕ → CachedChunk → Type 0
ChunkCovers start end chunk = Any (Covers start end) chunk.ranges

module _ (content : ℕ → ℕ) where
  merge_covers :
      (a b : ℕ) (m : Merge)
      → IsMerge content m
      → MergeCovers content a b m
      → Any
          (Covers a b)
          (m.retained ++ (record { offset = m.merged_offset; bytes = m.merged_bytes } ∷ []))
  merge_covers a b m im (inl h) = Any-append_left (Covers a b) m.retained _ h
  merge_covers a b m im (inr h) =
      Any-append_right (Covers a b) m.retained _ (inl (h.0, omega (arith, im.spans)))

  insert_nonempty_lem :
      (chunk : CachedChunk) (offset : ℕ) (bytes : List ℕ)
      → IsChunk content chunk
      → Agrees content offset bytes
      → offset + length bytes ≤ u64_max
      → (chunk' : CachedChunk) × (insert_nonempty chunk offset bytes (offset + length bytes)
          ≡ some chunk')
        × IsChunk content chunk'
        × ((a b : ℕ) → ChunkCovers a b chunk → ChunkCovers a b chunk')
        × ChunkCovers offset (offset + length bytes) chunk'
  unfolding insert_nonempty
  insert_nonempty_lem chunk offset bytes h agree fit =
      let start : Merge = record {
        merged_offset = offset;
        merged_end = offset + length bytes;
        merged_bytes = bytes;
        retained = [];
      } in
      let (m, e, im, keep) =
        merge_ranges_lem content start chunk.ranges
          (record { spans = refl; fits = fit; agrees = agree; retained = tt }) h in
      let all = m.retained ++ (record { offset = m.merged_offset; bytes = m.merged_bytes } ∷ []) in
      (
        record { ranges = sort_by_offset all },
        rw e,
        All-sort (IsRange content) all (
            All-append (IsRange content) m.retained _ im.retained
              (record { fits = omega (arith, im.spans); agrees = im.agrees }, tt)),
        λ a b c. Any-sort (Covers a b) all (merge_covers a b m im (keep a b (inr c))),
        Any-sort (Covers offset (offset + length bytes)) all (
            merge_covers offset (offset + length bytes) m im
              (keep offset (offset + length bytes) (inl (inr (omega arith, omega arith))))),
      )

  -- Inserting into a chunk never panics, keeps the agreement and all that was covered, and covers
  -- the new bytes.
  pub insert_lem :
      (chunk : CachedChunk) (offset : ℕ) (bytes : List ℕ)
      → IsChunk content chunk
      → Agrees content offset bytes
      → offset + length bytes ≤ u64_max
      → 0 < length bytes
      → (chunk' : CachedChunk) × (insert chunk offset bytes ≡ some chunk')
        × IsChunk content chunk'
        × ((a b : ℕ) → ChunkCovers a b chunk → ChunkCovers a b chunk')
        × ChunkCovers offset (offset + length bytes) chunk'
  unfolding insert checked_range_end
  insert_lem chunk offset [] h agree fit some_bytes = absurd (omega arith)
  insert_lem chunk offset (b ∷ bs) h agree fit some_bytes =
      rw (le→leb _ _ fit, insert) (insert_nonempty_lem chunk offset (b ∷ bs) h agree fit)

  slice-bytes_at :
      (r : CachedRange) (offset n : ℕ)
      → IsRange content r
      → Covers offset (offset + n) r
      → slice r.bytes (offset - r.offset) (offset + n - r.offset) ≡ bytes_at content offset n
  slice-bytes_at r offset n ir c =
      bytes_ext _ _ (size ∙ sym (length-bytes_at content offset n)) same_byte
    where
      size : length (slice r.bytes (offset - r.offset) (offset + n - r.offset)) ≡ n
      size =
          length-slice r.bytes (offset - r.offset) (offset + n - r.offset) (omega arith)
            (omega arith)
          ∙ omega arith

      same_byte :
          (i : ℕ)
          → i < length (slice r.bytes (offset - r.offset) (offset + n - r.offset))
          → nth (slice r.bytes (offset - r.offset) (offset + n - r.offset)) i
            ≡ nth (bytes_at content offset n) i
      same_byte i h =
          nth-slice r.bytes (offset - r.offset) (offset + n - r.offset) i (omega (arith, size))
          ∙ ir.agrees (offset - r.offset + i) (omega (arith, size))
          ∙ ap content (omega arith)
          ∙ sym (nth-bytes_at content offset n i (omega (arith, size)))

  holds : CachedRange → ℕ → ℕ → Bool
  holds r offset end = leb r.offset offset && leb end (r.offset + length r.bytes)

  read_ranges_step :
      (r : CachedRange) (rs : List CachedRange) (offset end : ℕ)
      → IsRange content r
      → read_ranges (r ∷ rs) offset end ≡ (
          if holds r offset end
          then some (slice r.bytes (offset - r.offset) (end - r.offset))
          else read_ranges rs offset end)
  unfolding read_ranges holds
  read_ranges_step r rs offset end ir = rw (range_end_fits content r ir)

  holds_covers :
      (r : CachedRange) (offset end : ℕ) → holds r offset end ≡ true → Covers offset end r
  unfolding holds
  holds_covers r offset end h = (ground arith, ground arith)

  covers_holds :
      (r : CachedRange) (offset end : ℕ) → Covers offset end r → holds r offset end ≡ true
  unfolding holds
  covers_holds r offset end h = ground (arith, h.0, h.1)

  -- Whatever a chunk answers is the content.
  read_ranges_sound :
      (rs : List CachedRange) (offset n : ℕ) {bytes : List ℕ}
      → All (IsRange content) rs
      → read_ranges rs offset (offset + n) ≡ some bytes
      → bytes ≡ bytes_at content offset n
  read_ranges_sound [] offset n h e = unfold read_ranges in cc
  read_ranges_sound (r ∷ rs) offset n {bytes} h e =
      let step = read_ranges_step r rs offset (offset + n) h.0 in
      elim (Bool-cases (holds r offset (offset + n))) [
        | inl hit ↦
            ground (arith, slice-bytes_at r offset n h.0 (holds_covers r offset (offset + n) hit))
        | inr miss ↦ read_ranges_sound rs offset n {bytes = bytes} h.1 (ground arith)
      ]

  -- What a chunk covers is answered.
  read_ranges_hit :
      (rs : List CachedRange) (offset n : ℕ)
      → All (IsRange content) rs
      → Any (Covers offset (offset + n)) rs
      → read_ranges rs offset (offset + n) ≡ some (bytes_at content offset n)
  read_ranges_hit [] offset n h c = absurd c
  read_ranges_hit (r ∷ rs) offset n h c =
      let step = read_ranges_step r rs offset (offset + n) h.0 in
      elim (Bool-cases (holds r offset (offset + n))) [
        | inl hit ↦
            ground (arith, slice-bytes_at r offset n h.0 (holds_covers r offset (offset + n) hit))
        | inr miss ↦ elim c [
          | inl here ↦ cc (miss, covers_holds r offset (offset + n) here)
          | inr later ↦ ground (arith, read_ranges_hit rs offset n h.1 later)
        ]
      ]

  pub read_sound :
      (chunk : CachedChunk) (offset n : ℕ) {bytes : List ℕ}
      → IsChunk content chunk
      → read chunk offset n ≡ some bytes
      → bytes ≡ bytes_at content offset n
  unfolding read
  read_sound chunk offset n {bytes} h e =
      read_ranges_sound chunk.ranges offset n {bytes = bytes} h (ground arith)

  pub read_hit :
      (chunk : CachedChunk) (offset n : ℕ)
      → IsChunk content chunk
      → offset + n ≤ u64_max
      → ChunkCovers offset (offset + n) chunk
      → read chunk offset n ≡ some (bytes_at content offset n)
  unfolding read
  read_hit chunk offset n h fit c = ground (arith, read_ranges_hit chunk.ranges offset n h c)
