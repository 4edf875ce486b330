-- ===== src/Base/Bytes.antt =====
-- Byte buffers read at a position: slices, `copy_from_slice`, and equality byte by byte.
use Prim.Native.Nat.{ℕ, zero, suc, ◌+◌, ◌-◌, ◌≤◌, ◌<◌}
use mathlib.Core.Path.{◌≡◌, refl, ap, ap₂, sym, ◌∙◌}
use mathlib.Core.Option.{Option, none, some}
use mathlib.Core.List.{List, [], ◌∷◌, ◌++◌, append-nil, append_assoc}
use native.Mathlib.Omega.{arith}
use fuse_promise.Base.Tests.{leb, le→leb, if◌then◌else◌}
use fuse_promise.Base.Lists.{length, take, drop, length-append, length-take, length-drop}

-- The byte at a position, 0 past the end.
unfoldable pub nth : List ℕ → ℕ → ℕ
nth [] i = 0
nth (b ∷ bs) zero = b
nth (b ∷ bs) (suc i) = nth bs i

-- `bytes[start..end]`, where the bounds hold.
unfoldable pub slice : List ℕ → ℕ → ℕ → List ℕ
slice bytes start end = take (end - start) (drop start bytes)

-- `dst[start..start + src.len()].copy_from_slice(src)`; `none` is the panic out of bounds.
unfoldable pub copy_from_slice : List ℕ → ℕ → List ℕ → Option (List ℕ)
copy_from_slice dst start src =
    if leb (start + length src) (length dst)
    then some (take start dst ++ (src ++ drop (start + length src) dst))
    else none

-- The bytes of a file from an offset on, the file being a function of the position.
unfoldable pub bytes_at : (ℕ → ℕ) → ℕ → ℕ → List ℕ
bytes_at content offset zero = []
bytes_at content offset (suc n) = content offset ∷ bytes_at content (suc offset) n

nth-append_left : (xs ys : List ℕ) (i : ℕ) → i < length xs → nth (xs ++ ys) i ≡ nth xs i
unfolding nth
nth-append_left [] ys i h = absurd (omega arith)
nth-append_left (x ∷ xs) ys zero h = refl
nth-append_left (x ∷ xs) ys (suc i) h = nth-append_left xs ys i (omega arith)

nth-append_right :
    (xs ys : List ℕ) (i : ℕ) → length xs ≤ i → nth (xs ++ ys) i ≡ nth ys (i - length xs)
unfolding nth
nth-append_right [] ys i h = ap (nth ys) (omega arith)
nth-append_right (x ∷ xs) ys zero h = absurd (omega arith)
nth-append_right (x ∷ xs) ys (suc i) h = grind (arith, nth-append_right xs ys i)

nth-take : (n : ℕ) (xs : List ℕ) (i : ℕ) → i < n → nth (take n xs) i ≡ nth xs i
unfolding nth
nth-take zero xs i h = absurd (omega arith)
nth-take (suc n) [] i h = refl
nth-take (suc n) (x ∷ xs) zero h = refl
nth-take (suc n) (x ∷ xs) (suc i) h = nth-take n xs i (omega arith)

nth-drop : (n : ℕ) (xs : List ℕ) (i : ℕ) → nth (drop n xs) i ≡ nth xs (n + i)
unfolding nth
nth-drop zero xs i = ap (nth xs) (omega arith)
nth-drop (suc n) [] i = refl
nth-drop (suc n) (x ∷ xs) i = nth-drop n xs i ∙ ap (nth (x ∷ xs)) {x = suc (n + i)} (omega arith)

pub nth-bytes_at :
    (content : ℕ → ℕ) (offset n i : ℕ)
    → i < n
    → nth (bytes_at content offset n) i ≡ content (offset + i)
unfolding nth bytes_at
nth-bytes_at content offset zero i h = absurd (omega arith)
nth-bytes_at content offset (suc n) zero h = ap content (omega arith)
nth-bytes_at content offset (suc n) (suc i) h =
    nth-bytes_at content (suc offset) n i (omega arith) ∙ ap content (omega arith)

pub length-bytes_at : (content : ℕ → ℕ) (offset n : ℕ) → length (bytes_at content offset n) ≡ n
unfolding bytes_at
length-bytes_at content offset zero = refl
length-bytes_at content offset (suc n) = ap suc (length-bytes_at content (suc offset) n)

pub bytes_at-add :
    (content : ℕ → ℕ) (offset m n : ℕ)
    → bytes_at content offset (m + n) ≡ bytes_at content offset m ++ bytes_at content (offset + m) n
unfolding bytes_at
bytes_at-add content offset zero n =
    let start : offset + zero ≡ offset = omega arith in
    let size : zero + n ≡ n = omega arith in rw (start, size)
bytes_at-add content offset (suc m) n =
    let step : suc m + n ≡ suc (m + n) = omega arith in
    let shift : offset + suc m ≡ suc offset + m = omega arith in
    rw (step, shift) (ap (◌∷◌ (content offset)) (bytes_at-add content (suc offset) m n))

-- Nothing is left of a range that ends where it starts.
pub bytes_at_done :
    (content : ℕ → ℕ) (cursor end : ℕ) (acc : List ℕ)
    → end ≤ cursor
    → acc ≡ acc ++ bytes_at content cursor (end - cursor)
unfolding bytes_at
bytes_at_done content cursor end acc h =
    let none_left : end - cursor ≡ 0 = omega arith in rw (none_left, append-nil acc)

-- A range is its first part and the rest.
pub bytes_at_split :
    (content : ℕ → ℕ) (cursor middle end : ℕ) (acc : List ℕ)
    → cursor ≤ middle
    → middle ≤ end
    → (acc ++ bytes_at content cursor (middle - cursor)) ++ bytes_at content middle (end - middle)
      ≡ acc ++ bytes_at content cursor (end - cursor)
bytes_at_split content cursor middle end acc h k =
    let size : end - cursor ≡ (middle - cursor) + (end - middle) = omega arith in
    let border : cursor + (middle - cursor) ≡ middle = omega arith in
    append_assoc acc _ _
    ∙ ap (λ xs. acc ++ xs)
        (ap (λ m. bytes_at content cursor (middle - cursor) ++ bytes_at content m (end - middle))
            (sym border)
          ∙ sym (bytes_at-add content cursor (middle - cursor) (end - middle))
          ∙ ap (bytes_at content cursor) (sym size))

-- Buffers of one length with the same bytes are equal.
pub bytes_ext :
    (xs ys : List ℕ)
    → length xs ≡ length ys
    → ((i : ℕ) → i < length xs → nth xs i ≡ nth ys i)
    → xs ≡ ys
unfolding nth
bytes_ext [] [] e h = refl
bytes_ext [] (y ∷ ys) e h = absurd (omega arith)
bytes_ext (x ∷ xs) [] e h = absurd (omega arith)
bytes_ext (x ∷ xs) (y ∷ ys) e h =
    ap₂ ◌∷◌ (h 0 (omega arith)) (bytes_ext xs ys (omega arith) (λ i l. h (suc i) (omega arith)))

pub length-slice :
    (bytes : List ℕ) (start end : ℕ)
    → start ≤ end
    → end ≤ length bytes
    → length (slice bytes start end) ≡ end - start
unfolding slice
length-slice bytes start end h k =
    omega (arith, length-take (end - start) (drop start bytes), length-drop start bytes)

pub nth-slice :
    (bytes : List ℕ) (start end i : ℕ)
    → i < end - start
    → nth (slice bytes start end) i ≡ nth bytes (start + i)
unfolding slice
nth-slice bytes start end i h =
    nth-take (end - start) (drop start bytes) i h ∙ nth-drop start bytes i

module _ (dst : List ℕ) (start : ℕ) (src : List ℕ) (fits : start + length src ≤ length dst) where
  abbrev rest : List ℕ
  rest = drop (start + length src) dst

  abbrev copied : List ℕ
  copied = take start dst ++ (src ++ rest)

  length-before : length (take start dst) ≡ start
  length-before = omega (arith, length-take start dst)

  length-copied : length copied ≡ length dst
  length-copied = omega (
    arith,
    length-before,
    length-append (take start dst) (src ++ rest),
    length-append src rest,
    length-drop (start + length src) dst,
  )

  nth-copied_after_start : (i : ℕ) → start ≤ i → nth copied i ≡ nth (src ++ rest) (i - start)
  nth-copied_after_start i h =
      nth-append_right (take start dst) (src ++ rest) i (omega (arith, length-before))
      ∙ ap (λ k. nth (src ++ rest) (i - k)) length-before

  nth-copied_inside :
      (i : ℕ) → start ≤ i → i < start + length src → nth copied i ≡ nth src (i - start)
  nth-copied_inside i h k =
      nth-copied_after_start i h ∙ nth-append_left src rest (i - start) (omega arith)

  nth-copied_before : (i : ℕ) → i < start → nth copied i ≡ nth dst i
  nth-copied_before i h =
      nth-append_left (take start dst) (src ++ rest) i (omega (arith, length-before))
      ∙ nth-take start dst i h

  nth-copied_after : (i : ℕ) → start + length src ≤ i → nth copied i ≡ nth dst i
  nth-copied_after i h =
      nth-copied_after_start i (omega arith)
      ∙ nth-append_right src rest (i - start) (omega arith)
      ∙ nth-drop (start + length src) dst (i - start - length src)
      ∙ ap (nth dst) (omega arith)

  -- A copy within bounds keeps the length, and replaces exactly the bytes of its window.
  pub copy_from_slice_lem :
      (out : List ℕ) × (copy_from_slice dst start src ≡ some out)
      × (length out ≡ length dst)
      × ((i : ℕ) → start ≤ i → i < start + length src → nth out i ≡ nth src (i - start))
      × ((i : ℕ) → i < start → nth out i ≡ nth dst i)
      × ((i : ℕ) → start + length src ≤ i → nth out i ≡ nth dst i)
  unfolding copy_from_slice
  copy_from_slice_lem = (
    copied,
    rw (le→leb _ _ fits),
    length-copied,
    nth-copied_inside,
    nth-copied_before,
    nth-copied_after,
  )
