-- ===== src/Cache/Merging.antt =====
-- A chunk that agrees with the file's content: `insert` never panics, keeps the agreement, keeps
-- what was covered and covers what it is given; `read` answers what is covered, rightly.
use fuse_promise.Base.{
  ℕ, ◌+◌, ◌≤◌, ◌≡◌, refl, min, max, ◌||◌, some, List, [], ◌∷◌, ◌++◌, length, ltb, u64_max, All, Any,
  All-append, Any-append_left, Any-append_right, arith, Bool-cases, inl, inr, ◌⊎◌,
}
use fuse_promise.Cache.{CachedRange, range_end}
use fuse_promise.Cache.Overlay.{Agrees, overlay}
use fuse_promise.Cache.Chunk.{Merge, absorb, merge_range, merge_ranges}

pub record IsRange (content : ℕ → ℕ) (range : CachedRange) : Type 0 where
  pub fits : range.offset + length range.bytes ≤ u64_max
  pub agrees : Agrees content range.offset range.bytes

abbrev pub Covers : ℕ → ℕ → CachedRange → Type 0
Covers start end range = (range.offset ≤ start) × (end ≤ range.offset + length range.bytes)

module _ (content : ℕ → ℕ) where
  pub record IsMerge (m : Merge) : Type 0 where
    pub spans : m.merged_offset + length m.merged_bytes ≡ m.merged_end
    pub fits : m.merged_end ≤ u64_max
    pub agrees : Agrees content m.merged_offset m.merged_bytes
    pub retained : All (IsRange content) m.retained

  pub range_end_fits :
      (r : CachedRange) → IsRange content r → range_end r ≡ some (r.offset + length r.bytes)
  unfolding range_end
  range_end_fits r h = ground (arith, h.fits)

  -- Two touching ranges make one that agrees and spans both.
  absorb_lem :
      (m : Merge) (r : CachedRange)
      → IsMerge m
      → IsRange content r
      → m.merged_offset ≤ r.offset + length r.bytes
      → r.offset ≤ m.merged_end
      → (m' : Merge) × (absorb m r (r.offset + length r.bytes) ≡ some m')
        × IsMerge m'
        × (m'.retained ≡ m.retained)
        × (m'.merged_offset ≡ min m.merged_offset r.offset)
        × (m'.merged_end ≡ max m.merged_end (r.offset + length r.bytes))
  unfolding absorb
  absorb_lem m r im ir left right =
      let end = r.offset + length r.bytes in
      let lo = min m.merged_offset r.offset in
      let (old, out, e_old, e_new, size, agree) =
        overlay content lo (max m.merged_end end) r.offset m.merged_offset r.bytes m.merged_bytes
          ir.agrees im.agrees refl (omega arith) (omega arith) (omega arith) in
      (
        record m { merged_offset = lo; merged_end = max m.merged_end end; merged_bytes = out },
        rw (e_old, e_new),
        record { spans = omega arith; fits = omega arith; agrees = agree; retained = im.retained },
        refl,
        refl,
        refl,
      )

  -- What the merged range or a retained one covers.
  abbrev pub MergeCovers : ℕ → ℕ → Merge → Type 0
  MergeCovers start end m =
      Any (Covers start end) m.retained ⊎ ((m.merged_offset ≤ start) × (end ≤ m.merged_end))

  -- One round: no panic, the invariant stays, and so does all that was covered.
  merge_range_lem :
      (m : Merge) (r : CachedRange)
      → IsMerge m
      → IsRange content r
      → (m' : Merge) × (merge_range m r ≡ some m')
        × IsMerge m'
        × (m'.merged_offset ≤ m.merged_offset)
        × (m.merged_end ≤ m'.merged_end)
        × ((a b : ℕ) → MergeCovers a b m ⊎ Covers a b r → MergeCovers a b m')
  unfolding merge_range
  merge_range_lem m r im ir =
      let end = r.offset + length r.bytes in
      elim (Bool-cases (ltb end m.merged_offset || ltb m.merged_end r.offset)) [
        | inl apart ↦ (
          record m { retained = m.retained ++ (r ∷ []) },
          rw (range_end_fits r ir, merge_range) (rw apart),
          record {
            spans = im.spans;
            fits = im.fits;
            agrees = im.agrees;
            retained = All-append (IsRange content) m.retained (r ∷ []) im.retained (ir, tt);
          },
          omega arith,
          omega arith,
          λ a b. elim [
            | inl (inl kept) ↦ inl (Any-append_left (Covers a b) m.retained (r ∷ []) kept)
            | inl (inr here) ↦ inr here
            | inr new ↦ inl (Any-append_right (Covers a b) m.retained (r ∷ []) (inl new))
          ],
        )
        | inr touch ↦
            let (m', e, im', same_retained, lo, hi) =
              absorb_lem m r im ir (ground arith) (ground arith) in
            (
              m',
              rw (range_end_fits r ir, merge_range) (rw touch e),
              im',
              omega arith,
              omega arith,
              λ a b. elim [
                | inl (inl kept) ↦ inl (rw same_retained kept)
                | inl (inr here) ↦ inr (omega arith, omega arith)
                | inr new ↦ inr (omega arith, omega arith)
              ],
            )
      ]

  -- The whole loop.
  pub merge_ranges_lem :
      (m : Merge) (rs : List CachedRange)
      → IsMerge m
      → All (IsRange content) rs
      → (m' : Merge) × (merge_ranges m rs ≡ some m')
        × IsMerge m'
        × ((a b : ℕ) → MergeCovers a b m ⊎ Any (Covers a b) rs → MergeCovers a b m')
  unfolding merge_ranges
  merge_ranges_lem m [] im h = (m, refl, im, λ a b. elim [ inl k ↦ k | inr k ↦ absurd k ])
  merge_ranges_lem m (r ∷ rs) im h =
      let (m', e, im', lo, hi, keep) = merge_range_lem m r im h.0 in
      let (m'', e', im'', keep') = merge_ranges_lem m' rs im' h.1 in
      (
        m'',
        rw e e',
        im'',
        λ a b. elim [
          | inl k ↦ keep' a b (inl (keep a b (inl k)))
          | inr (inl k) ↦ keep' a b (inl (keep a b (inr k)))
          | inr (inr k) ↦ keep' a b (inr k)
        ],
      )
