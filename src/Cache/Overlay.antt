-- ===== src/Cache/Overlay.antt =====
-- Two agreeing buffers that touch, copied over one fresh buffer that spans them.
use native.Mathlib.Decide.{dec_lt}
use fuse_promise.Base.{
  ℕ, ◌+◌, ◌-◌, ◌≤◌, ◌<◌, ◌≡◌, ap, ◌∙◌, min, max, some, List, length, replicate, nth,
  copy_from_slice, copy_from_slice_lem, length-replicate, arith,
}

-- The bytes from an offset on are those of the content.
abbrev pub Agrees : (ℕ → ℕ) → ℕ → List ℕ → Type 0
Agrees content offset bytes = (i : ℕ) → i < length bytes → nth bytes i ≡ content (offset + i)

module _ (content : ℕ → ℕ) where
  -- Two agreeing buffers that touch, written over one fresh buffer that spans them.
  module _ (lo hi o1 o2 : ℕ) (b1 b2 : List ℕ) (a1 : Agrees content o1 b1)
      (a2 : Agrees content o2 b2) where
    window_1 :
        (i : ℕ)
        → lo ≤ o1
        → o1 - lo ≤ i
        → i < (o1 - lo) + length b1
        → nth b1 (i - (o1 - lo)) ≡ content (lo + i)
    window_1 i l h k = a1 (i - (o1 - lo)) (omega arith) ∙ ap content (omega arith)

    window_2 :
        (i : ℕ)
        → lo ≤ o2
        → o2 - lo ≤ i
        → i < (o2 - lo) + length b2
        → nth b2 (i - (o2 - lo)) ≡ content (lo + i)
    window_2 i l h k = a2 (i - (o2 - lo)) (omega arith) ∙ ap content (omega arith)

    pub overlay :
        lo ≡ min o2 o1
        → hi ≡ max (o2 + length b2) (o1 + length b1)
        → o2 ≤ o1 + length b1
        → o1 ≤ o2 + length b2
        → (old : List ℕ) × (out : List ℕ) × (copy_from_slice (replicate (hi - lo) 0) (o1 - lo) b1
            ≡ some old)
          × (copy_from_slice old (o2 - lo) b2 ≡ some out)
          × (length out ≡ hi - lo)
          × Agrees content lo out
    overlay el eh t u =
        let zeros = length-replicate (hi - lo) (let z : ℕ = 0 in z) in
        let (x, ex, lx, inside_x, before_x, after_x) =
          copy_from_slice_lem (replicate (hi - lo) 0) (o1 - lo) b1 (omega (arith, zeros)) in
        let (y, ey, ly, inside_y, before_y, after_y) =
          copy_from_slice_lem x (o2 - lo) b2 (omega (arith, zeros)) in
        (
          x,
          y,
          ex,
          ey,
          omega (arith, zeros),
          λ i h. elim (dec_lt i (o2 - lo)) [
            | yes p ↦
                before_y i p
                ∙ inside_x i (omega (arith, zeros)) (omega (arith, zeros))
                ∙ window_1 i (omega arith) (omega (arith, zeros)) (omega (arith, zeros))
            | no p ↦ elim (dec_lt i ((o2 - lo) + length b2)) [
              | yes q ↦ inside_y i (omega arith) q ∙ window_2 i (omega arith) (omega arith) q
              | no q ↦
                  after_y i (omega arith)
                  ∙ inside_x i (omega (arith, zeros)) (omega (arith, zeros))
                  ∙ window_1 i (omega arith) (omega (arith, zeros)) (omega (arith, zeros))
            ]
          ],
        )
