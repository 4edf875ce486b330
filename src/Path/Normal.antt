-- ===== src/Path/Normal.antt =====
-- What `normalize_relative_path` accepts, what it returns, and that the result is a normal form.
use fuse_promise.Base.{
  ℕ, ◌≡◌, refl, ◌↔◌, ◌⊎◌, Bool, true, false, ◌||◌, List, [], ◌∷◌, ◌++◌, Str, same, same_iff,
  str_key, All, arith, Bool-cases, inl, inr, if◌then◌else◌, cmp_str,
}
use mathlib.Core.List.{append-nil}
use fuse_promise.Status.{ok, err, invalid_argument}
use fuse_promise.Path.{
  slash, dot, dot_dot, has_byte, split, join, is_absolute, is_empty, parse_component,
  validate_child_name, body, lead, components, collect_parts, normalize_relative_path,
}
use fuse_promise.Path.Pieces.{NoByte, split-NoByte, split-NoSlash, split-join, join-NoByte}

-- The pieces that stay: neither empty nor `.`.
unfoldable pub kept : List Str → List Str
kept [] = []
kept (w ∷ ws) = let rest = kept ws in if is_empty w || same w dot then rest else w ∷ rest

-- Some piece is `..`.
unfoldable pub climbs : List Str → Bool
climbs [] = false
climbs (w ∷ ws) = same w dot_dot || climbs ws

-- A piece that a normal path may have.
pub record IsPart (w : Str) : Type 0 where
  pub nonempty : is_empty w ≡ false
  pub not_dot : same w dot ≡ false
  pub not_dot_dot : same w dot_dot ≡ false
  pub no_slash : NoByte slash w
  pub no_nul : NoByte 0 w

dot_ne : (w : Str) → same w dot ≡ true → same w dot_dot ≡ false
unfolding cmp_str
dot_ne w h = rw ((same_iff w dot).0 h) refl

empty_ne : (w : Str) → is_empty w ≡ true → same w dot_dot ≡ false
unfolding cmp_str
empty_ne [] h = refl
empty_ne (c ∷ w) h = cc

collect-body :
    (ws : List Str)
    → collect_parts (body ws) ≡ (if climbs ws then err invalid_argument else ok (kept ws))
unfolding body kept climbs collect_parts parse_component
collect-body [] = refl
collect-body (w ∷ ws) = ground (arith, collect-body ws, dot_ne w, empty_ne w)

collect-components :
    (s : Str)
    → is_absolute s ≡ false
    → collect_parts (components s) ≡ collect_parts (body (split s))
unfolding components collect_parts
collect-components s h = leading (split s)
  where
    leading :
        (ws : List Str)
        → collect_parts (lead s ws ++ body (split s)) ≡ collect_parts (body (split s))
    leading [] = refl
    leading (w ∷ ws) = ground (arith, h)

-- Exactly the texts with a NUL, a leading slash or a `..` piece are refused, and any other text
-- is normalised to the join, in order, of its pieces that are neither empty nor `.`.
pub normalize-eq-kept :
    (s : Str)
    → normalize_relative_path s ≡ (
        if has_byte 0 s || (is_absolute s || climbs (split s))
        then err invalid_argument
        else ok (join (kept (split s))))
unfolding normalize_relative_path
normalize-eq-kept s = ground (arith, collect-components s, collect-body (split s))

kept-IsPart :
    (ws : List Str)
    → climbs ws ≡ false
    → All (NoByte slash) ws
    → All (NoByte 0) ws
    → All IsPart (kept ws)
unfolding kept climbs
kept-IsPart [] c h k = tt
kept-IsPart (w ∷ ws) c h k = elim (Bool-cases (is_empty w || same w dot)) [
  | inl drop ↦ rw drop (kept-IsPart ws (ground arith) h.1 k.1)
  | inr stay ↦ rw stay (
    record {
      nonempty = ground arith;
      not_dot = ground arith;
      not_dot_dot = ground arith;
      no_slash = h.0;
      no_nul = k.0;
    },
    kept-IsPart ws (ground arith) h.1 k.1,
  )
]

kept_parts : (ws : List Str) → All IsPart ws → kept ws ≡ ws
unfolding kept
kept_parts [] h = refl
kept_parts (w ∷ ws) h = ground (arith, h.0, kept_parts ws h.1)

climbs_parts : (ws : List Str) → All IsPart ws → climbs ws ≡ false
unfolding climbs
climbs_parts [] h = refl
climbs_parts (w ∷ ws) h = ground (arith, h.0, climbs_parts ws h.1)

pub kept-split-IsPart :
    (s : Str) → has_byte 0 s ≡ false → climbs (split s) ≡ false → All IsPart (kept (split s))
kept-split-IsPart s n c = kept-IsPart (split s) c (split-NoSlash s) (split-NoByte 0 s n)

parts-NoByte : (b : ℕ) (ws : List Str) → (b ≡ 0) ⊎ (b ≡ slash) → All IsPart ws → All (NoByte b) ws
parts-NoByte b [] e h = tt
parts-NoByte b (w ∷ ws) e h =
    (elim e [ inl z ↦ rw z h.0.no_nul | inr z ↦ rw z h.0.no_slash ], parts-NoByte b ws e h.1)

head_relative : (w r : Str) → IsPart w → is_absolute (w ++ r) ≡ false
unfolding has_byte
head_relative [] r h = cc (h.nonempty)
head_relative (c ∷ w) r h = ground (arith, h.no_slash)

join_relative : (ws : List Str) → All IsPart ws → is_absolute (join ws) ≡ false
unfolding join
join_relative [] h = refl
join_relative (w ∷ []) h = rw (← append-nil w) (head_relative w [] h.0)
join_relative (w ∷ v ∷ vs) h = head_relative w _ h.0

normalize_nil : normalize_relative_path (join []) ≡ ok (join [])
unfolding normalize_relative_path has_byte join collect_parts components split cmp_str body
    parse_component
normalize_nil = refl

-- A join of pieces that a normal path may have is its own normal form.
pub normalize-join :
    (ws : List Str) → All IsPart ws → normalize_relative_path (join ws) ≡ ok (join ws)
normalize-join [] h = normalize_nil
normalize-join (w ∷ ws) h = ground (
  arith,
  normalize-eq-kept (join (w ∷ ws)),
  join-NoByte 0 (w ∷ ws) (omega arith) (parts-NoByte 0 (w ∷ ws) (inl refl) h),
  join_relative (w ∷ ws) h,
  split-join w ws (parts-NoByte slash (w ∷ ws) (inr refl) h),
  climbs_parts (w ∷ ws) h,
  kept_parts (w ∷ ws) h,
)

-- An accepted path is confined: it is a join of pieces that are nonempty, are not `.` or `..`,
-- and hold no slash and no NUL.
pub normalize_confined :
    (s p : Str) → normalize_relative_path s ≡ ok p → (ws : List Str) × (p ≡ join ws) × All IsPart ws
normalize_confined s p h = (
  kept (split s),
  ground (arith, normalize-eq-kept s),
  kept-split-IsPart s (ground (arith, normalize-eq-kept s)) (ground (arith, normalize-eq-kept s)),
)

-- The normal form of a path is its own normal form.
pub normalize_idem :
    (s p : Str) → normalize_relative_path s ≡ ok p → normalize_relative_path p ≡ ok p
normalize_idem s p h =
    let (ws, e, parts) = normalize_confined s p h in rw e (normalize-join ws parts)

-- The tests of a name, one by one.
pub validate_child_name-IsPart : (n : Str) → (validate_child_name n ≡ ok tt) ↔ IsPart n
unfolding validate_child_name
validate_child_name-IsPart n = (
  λ h. record {
    nonempty = ground arith;
    not_dot = ground arith;
    not_dot_dot = ground arith;
    no_slash = ground arith;
    no_nul = ground arith;
  },
  λ h. ground (arith, h.nonempty, h.not_dot, h.not_dot_dot, h.no_slash, h.no_nul),
)
