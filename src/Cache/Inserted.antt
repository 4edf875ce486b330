-- ===== src/Cache/Inserted.antt =====
-- The loop of `CachedFile::insert`, and the read of what was inserted.
use fuse_promise.Base.{
  ℕ, zero, suc, ◌+◌, ◌-◌, ◌≤◌, ◌<◌, ◌≡◌, refl, ap, ◌∙◌, min, false, some, List, [], ◌++◌, length,
  ltb, le→leb, ◌==◌, saturating_add, u64_max, slice, bytes_at, bytes_at_done, bytes_at_split,
  length-slice, nth-slice, arith, Bool-cases, inl, inr, ℕ_key, Any-map,
}
use native.Mathlib.Decide.{dec_lt}
use fuse_promise.Cache.{CachedFile, chunk_base}
use fuse_promise.Cache.File.{chunk_end, read_loop, read, insert_loop, insert}
use fuse_promise.Cache.Overlay.{Agrees}
use fuse_promise.Cache.Hits.{read_hit}
use fuse_promise.Cache.Borders.{chunk_base-le, chunk_base_same, lt-chunk_end, chunk_end-le}
use fuse_promise.Cache.Coherence.{IsFile}
use fuse_promise.Cache.Filling.{PieceCovers, FileCovers, put_chunk, shrink, store_piece}

slice-Agrees :
    (content : ℕ → ℕ) (offset cursor consumed count : ℕ) (bytes : List ℕ)
    → cursor ≡ offset + consumed
    → Agrees content offset bytes
    → consumed + count ≤ length bytes
    → Agrees content cursor (slice bytes consumed (consumed + count))
slice-Agrees content offset cursor consumed count bytes at h fit i l =
    let size = length-slice bytes consumed (consumed + count) (omega arith) fit in
    nth-slice bytes consumed (consumed + count) i (omega (arith, size))
    ∙ h (consumed + i) (omega (arith, size))
    ∙ ap content (omega arith)

not_empty : (count : ℕ) → 0 < count → (count == 0) ≡ false
not_empty count h = ground arith

no_saturation :
    (cursor count : ℕ) → cursor + count ≤ u64_max → saturating_add cursor count ≡ cursor + count
no_saturation cursor count h = ground arith

module _ (content : ℕ → ℕ) (chunk_size : ℕ) (positive : 0 < chunk_size) where
  -- What the loop achieves from `cursor` on.
  pub record IsFilled (before : CachedFile) (start end : ℕ) (after : CachedFile) : Type 0 where
    pub agrees : IsFile content after
    pub keeps : (k a b : ℕ) → PieceCovers k a b before → PieceCovers k a b after
    pub covers : FileCovers chunk_size start end after

  IsFilled-nothing :
      (file : CachedFile) (start end : ℕ)
      → IsFile content file
      → end ≤ start
      → IsFilled file start end file
  IsFilled-nothing file start end h done = record {
    agrees = h;
    keeps = λ k a b c. c;
    covers = λ x y l m n o. absurd (omega arith);
  }

  -- The first piece reaches from the cursor to the border of its chunk or to the end.
  IsFilled-more :
      (file f1 f2 : CachedFile) (cursor next end : ℕ)
      → ((k a b : ℕ) → PieceCovers k a b file → PieceCovers k a b f1)
      → PieceCovers (chunk_base cursor chunk_size) cursor next f1
      → next ≡ min end (chunk_end cursor chunk_size)
      → IsFilled f1 next end f2
      → IsFilled file cursor end f2
  IsFilled-more file f1 f2 cursor next end keep new e r = record {
    agrees = r.agrees;
    keeps = λ k a b c. r.keeps k a b (keep k a b c);
    covers = λ x y l m n o. elim (dec_lt x next) [
      | no p ↦ r.covers x y (omega arith) m n o
      | yes p ↦
          let here : chunk_base x chunk_size ≡ chunk_base cursor chunk_size =
            chunk_base_same cursor chunk_size positive x
              (omega (arith, chunk_base-le cursor chunk_size positive))
              (omega (arith, chunk_end-le cursor chunk_size positive)) in
          let border : chunk_end x chunk_size ≡ chunk_end cursor chunk_size =
            unfold chunk_end in ap (λ b. saturating_add b chunk_size) here in
          let (chunk, hit, cover) = new in
          r.keeps (chunk_base x chunk_size) x y (
            chunk,
            rw here hit,
            Any-map (shrink cursor next x y l (omega arith)) chunk.ranges cover,
          )
    ];
  }

  insert_loop_lem :
      (fuel : ℕ) (file : CachedFile) (offset cursor consumed : ℕ) (bytes : List ℕ)
      → length bytes ≤ fuel + consumed
      → consumed ≤ length bytes
      → cursor ≡ offset + consumed
      → offset + length bytes ≤ u64_max
      → IsFile content file
      → Agrees content offset bytes
      → (file' : CachedFile) × (insert_loop fuel file chunk_size cursor consumed bytes ≡ some file')
        × IsFilled file cursor (offset + length bytes) file'
  unfolding insert_loop
  insert_loop_lem zero file offset cursor consumed bytes enough le at fit h agree =
      (file, refl, IsFilled-nothing file cursor (offset + length bytes) h (omega arith))
  insert_loop_lem (suc fuel) file offset cursor consumed bytes enough le at fit h agree =
      elim (Bool-cases (ltb consumed (length bytes))) [
        | inr done ↦
            (file, rw done, IsFilled-nothing file cursor (offset + length bytes) h (ground arith))
        | inl more ↦
            let left : consumed < length bytes = ground arith in
            let border = lt-chunk_end cursor chunk_size positive (omega arith) in
            let count = min (length bytes - consumed) (chunk_end cursor chunk_size - cursor) in
            let base = chunk_base cursor chunk_size in
            let piece = slice bytes consumed (consumed + count) in
            let size : length piece ≡ count =
              length-slice bytes consumed (consumed + count) (omega arith) (omega arith)
              ∙ omega arith in
            let agree_piece : Agrees content cursor piece =
              slice-Agrees content offset cursor consumed count bytes at agree (omega arith) in
            let (chunk, e, ok, keep, new) =
              store_piece content file base cursor (cursor + count) piece
                (ap (λ n. cursor + n) size) h agree_piece (omega arith) (omega (arith, size)) in
            let (file', e', filled) =
              insert_loop_lem fuel (put_chunk file base chunk) offset (cursor + count)
                (consumed + count) bytes (omega arith) (omega arith) (omega arith) fit ok agree in
            (
              file',
              rw more (
                  rw (not_empty count (omega arith))
                    (rw e (rw (no_saturation cursor count (omega arith)) e'))),
              IsFilled-more file (put_chunk file base chunk) file' cursor (cursor + count)
                  (offset + length bytes) keep new (omega arith) filled,
            )
      ]

  -- An insertion within 64 bits fills the file: it does not panic and covers all its bytes.
  pub insert-IsFilled :
      (file : CachedFile) (offset : ℕ) (bytes : List ℕ)
      → IsFile content file
      → Agrees content offset bytes
      → offset + length bytes ≤ u64_max
      → (file' : CachedFile) × (insert file offset bytes chunk_size ≡ some file')
        × IsFilled file offset (offset + length bytes) file'
  unfolding insert
  insert-IsFilled file offset bytes h agree fit =
      insert_loop_lem (length bytes) file offset offset 0 bytes (omega arith) (omega arith)
        (omega arith) fit h agree

  read_loop_hit :
      (fuel : ℕ) (file : CachedFile) (cursor end : ℕ) (acc : List ℕ)
      → end ≤ fuel + cursor
      → cursor ≤ end
      → end ≤ u64_max
      → IsFile content file
      → FileCovers chunk_size cursor end file
      → read_loop fuel file chunk_size cursor end acc
        ≡ some (acc ++ bytes_at content cursor (end - cursor))
  unfolding read_loop
  read_loop_hit zero file cursor end acc enough le fit h cover =
      ground (arith, bytes_at_done content cursor end acc)
  read_loop_hit (suc fuel) file cursor end acc enough le fit h cover =
      elim (Bool-cases (ltb cursor end)) [
        | inr done ↦ ground (arith, bytes_at_done content cursor end acc)
        | inl more ↦
            let left : cursor < end = ground arith in
            let border = lt-chunk_end cursor chunk_size positive (omega arith) in
            let next = min end (chunk_end cursor chunk_size) in
            let exact : cursor + (next - cursor) ≡ next = omega arith in
            let (chunk, hit, covered) =
              cover cursor next (omega arith) (omega arith) (omega arith) (omega arith) in
            let piece =
              read_hit content chunk cursor (next - cursor) (h _ chunk hit) (omega arith)
                (rw exact covered) in
            let rest =
              read_loop_hit fuel file next end (acc ++ bytes_at content cursor (next - cursor))
                (omega arith) (omega arith) fit h (λ x y l m n o. cover x y (omega arith) m n o) in
            rw more (
              rw (le→leb cursor next (omega arith)) (
                rw hit (
                  rw piece (
                    rest
                    ∙ ap some
                        (bytes_at_split content cursor next end acc (omega arith) (omega arith))))))
      ]

  -- A read of a covered range hits, with the content's bytes.
  pub read-hit :
      (file : CachedFile) (offset n : ℕ)
      → offset + n ≤ u64_max
      → IsFile content file
      → FileCovers chunk_size offset (offset + n) file
      → read file offset n chunk_size ≡ some (bytes_at content offset n)
  unfolding read
  read-hit file offset n fit h cover =
      let size : offset + n - offset ≡ n = omega arith in
      rw (le→leb _ _ fit) (
        read_loop_hit n file offset (offset + n) [] (omega arith) (omega arith) fit h cover
        ∙ ap (λ k. some (bytes_at content offset k)) size)
