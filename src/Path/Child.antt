-- ===== src/Path/Child.antt =====
-- `parent_path` and `leaf_name` take a path apart, `child_path` puts it together again.
use fuse_promise.Base.{
  ◌≡◌, refl, false, none, some, [], ◌∷◌, ◌++◌, Str, arith, Option-cases, inl, inr,
}
use fuse_promise.Path.{
  slash, has_byte, is_absolute, rsplit_once, parent_path, leaf_name, child_path,
}
use fuse_promise.Path.Pieces.{NoByte}

pub rsplit_none : (n : Str) → NoByte slash n → rsplit_once n ≡ none
unfolding rsplit_once has_byte
rsplit_none [] h = refl
rsplit_none (c ∷ n) h = ground (arith, rsplit_none n)

rsplit-slash : (n : Str) → NoByte slash n → rsplit_once (slash ∷ n) ≡ some ([], n)
unfolding rsplit_once
rsplit-slash n h = ground (arith, rsplit_none n h)

rsplit-append : (p n : Str) → NoByte slash n → rsplit_once (p ++ (slash ∷ n)) ≡ some (p, n)
unfolding rsplit_once
rsplit-append [] n h = rsplit-slash n h
rsplit-append (c ∷ p) n h = rw (rsplit-append p n h, rsplit_once)

-- The parent and the leaf of a child path are the parent and the name it was made of, for a
-- name without a slash.
pub parent-leaf-child_path :
    (p n : Str)
    → NoByte slash n
    → (parent_path (child_path p n) ≡ p) × (leaf_name (child_path p n) ≡ n)
unfolding parent_path leaf_name child_path
parent-leaf-child_path [] n h = (rw (rsplit_none n h, parent_path), rw (rsplit_none n h, leaf_name))
parent-leaf-child_path (c ∷ p) n h =
    (rw (rsplit-append (c ∷ p) n h, parent_path), rw (rsplit-append (c ∷ p) n h, leaf_name))

rsplit-none-NoByte : (s : Str) → rsplit_once s ≡ none → NoByte slash s
unfolding rsplit_once has_byte
rsplit-none-NoByte [] h = refl
rsplit-none-NoByte (c ∷ s) h = ground (arith, rsplit-none-NoByte s)

rsplit_sound : (s a b : Str) → rsplit_once s ≡ some (a, b) → (s ≡ a ++ (slash ∷ b)) × NoByte slash b
unfolding rsplit_once
rsplit_sound [] a b h = cc
rsplit_sound (c ∷ s) a b h = elim (Option-cases (rsplit_once s)) [
  | inl e ↦ (ground arith, ground (arith, rsplit-none-NoByte s e))
  | inr ((a', b'), e) ↦ ground (arith, rsplit_sound s a' b' e)
]

-- A relative path is the child path of its parent and its leaf, and the leaf has no slash.
pub child_path-parent-leaf :
    (p : Str)
    → is_absolute p ≡ false
    → (child_path (parent_path p) (leaf_name p) ≡ p) × NoByte slash (leaf_name p)
unfolding parent_path leaf_name child_path
child_path-parent-leaf p h = elim (Option-cases (rsplit_once p)) [
  | inl e ↦ ground (arith, rsplit-none-NoByte p e)
  | inr (([], b), e) ↦ ground (arith, rsplit_sound p [] b e)
  | inr ((c ∷ a, b), e) ↦ ground (arith, rsplit_sound p (c ∷ a) b e)
]
