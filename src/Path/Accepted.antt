-- ===== src/Path/Accepted.antt =====
-- The names that `validate_child_name` accepts, and the normal paths below a directory.
use fuse_promise.Base.{
  ◌≡◌, ◌≢◌, ◌↔◌, refl, ap, sym, ◌∙◌, false, some, List, [], ◌∷◌, ◌++◌, Str, All, All-append, arith,
  Option-cases, inl, inr,
}
use mathlib.Core.List.{append_assoc}
use fuse_promise.Status.{ok}
use fuse_promise.Path.{
  slash, is_empty, join, rsplit_once, leaf_name, child_path, validate_child_name,
  normalize_relative_path,
}
use fuse_promise.Path.Child.{rsplit_none, parent-leaf-child_path}
use fuse_promise.Path.Normal.{
  IsPart, validate_child_name-IsPart, normalize-join, normalize_confined,
}

join-snoc :
    (w : Str) (ws : List Str) (n : Str) → join ((w ∷ ws) ++ (n ∷ [])) ≡ join (w ∷ ws) ++ (slash ∷ n)
unfolding join
join-snoc w [] n = refl
join-snoc w (v ∷ vs) n =
    ap (λ r. w ++ (slash ∷ r)) (join-snoc v vs n)
    ∙ sym (append_assoc w (slash ∷ join (v ∷ vs)) (slash ∷ n))

join_nonempty : (w : Str) (ws : List Str) → IsPart w → is_empty (join (w ∷ ws)) ≡ false
unfolding join
join_nonempty [] ws h = cc (h.nonempty)
join_nonempty (c ∷ w) [] h = refl
join_nonempty (c ∷ w) (v ∷ vs) h = refl

child_path_below : (p n : Str) → is_empty p ≡ false → child_path p n ≡ p ++ (slash ∷ n)
unfolding child_path
child_path_below [] n h = cc
child_path_below (c ∷ p) n h = refl

child_path-join :
    (ws : List Str) (n : Str) → All IsPart ws → child_path (join ws) n ≡ join (ws ++ (n ∷ []))
unfolding child_path join
child_path-join [] n h = refl
child_path-join (w ∷ ws) n h =
    child_path_below (join (w ∷ ws)) n (join_nonempty w ws h.0) ∙ sym (join-snoc w ws n)

rsplit-leaf : (w r : Str) → (a : Str) × (rsplit_once (w ++ (slash ∷ r)) ≡ some (a, leaf_name r))
unfolding leaf_name rsplit_once
rsplit-leaf [] r = elim (Option-cases (rsplit_once r)) [
  | inl e ↦ ([], ground (arith, e))
  | inr ((a, b), e) ↦ (slash ∷ a, ground (arith, e))
]
rsplit-leaf (c ∷ w) r = let (a, e) = rsplit-leaf w r in (c ∷ a, ground (arith, e))

leaf_split : (s a b : Str) → rsplit_once s ≡ some (a, b) → leaf_name s ≡ b
unfolding leaf_name
leaf_split s a b e = ground (arith, e)

leaf-append : (w r : Str) → leaf_name (w ++ (slash ∷ r)) ≡ leaf_name r
leaf-append w r = let (a, e) = rsplit-leaf w r in leaf_split (w ++ (slash ∷ r)) a (leaf_name r) e

leaf-join : (w : Str) (ws : List Str) → All IsPart (w ∷ ws) → IsPart (leaf_name (join (w ∷ ws)))
unfolding join leaf_name
leaf-join w [] h = rw (rsplit_none w h.0.no_slash, leaf_name) h.0
leaf-join w (v ∷ vs) h = rw (leaf-append w (join (v ∷ vs))) (leaf-join v vs h.1)

leaf-IsPart : (q : Str) → q ≢ [] → normalize_relative_path q ≡ ok q → IsPart (leaf_name q)
unfolding join
leaf-IsPart q nonempty h = let (ws, e, parts) = normalize_confined q q h in at ws e parts
  where
    at : (ws : List Str) → q ≡ join ws → All IsPart ws → IsPart (leaf_name q)
    at [] e parts = absurd (nonempty e)
    at (w ∷ ws) e parts = rw e (leaf-join w ws parts)

child_nonempty : (p n : Str) → is_empty n ≡ false → child_path p n ≢ []
unfolding child_path
child_nonempty [] [] h = cc
child_nonempty [] (c ∷ n) h = λ e. cc
child_nonempty (c ∷ p) n h = λ e. cc

child-normal :
    (p n : Str)
    → normalize_relative_path p ≡ ok p
    → IsPart n
    → normalize_relative_path (child_path p n) ≡ ok (child_path p n)
child-normal p n h part =
    let (ws, e, parts) = normalize_confined p p h in
    rw (e, child_path-join ws n parts)
      (normalize-join (ws ++ (n ∷ [])) (All-append IsPart ws (n ∷ []) parts (part, tt)))

-- The names that may be looked up in a directory with a normal path are exactly those of its
-- possible children: the names whose child path is not empty, is its own normal form, and has
-- the name as its leaf.
pub validate_child_name-child_path :
    (p n : Str)
    → normalize_relative_path p ≡ ok p
    → (validate_child_name n ≡ ok tt) ↔ (
        (child_path p n ≢ [])
        × (normalize_relative_path (child_path p n) ≡ ok (child_path p n))
        × (leaf_name (child_path p n) ≡ n))
validate_child_name-child_path p n normal = (
  λ h.
      let part = (validate_child_name-IsPart n).0 h in
      (
        child_nonempty p n part.nonempty,
        child-normal p n normal part,
        (parent-leaf-child_path p n part.no_slash).1,
      ),
  λ h. (validate_child_name-IsPart n).1 (rw (← h.2) (leaf-IsPart (child_path p n) h.0 h.1)),
)
