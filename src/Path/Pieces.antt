-- ===== src/Path/Pieces.antt =====
-- `split` and `join` on paths whose pieces have no slash.
use fuse_promise.Base.{
  ℕ, ◌≡◌, refl, ap, ◌∙◌, ◌≢◌, false, ◌||◌, List, [], ◌∷◌, ◌++◌, ◌==◌, Str, All, arith, Bool-cases,
  inl, inr,
}
use fuse_promise.Path.{slash, has_byte, cons_head, split, join}

abbrev pub NoByte : ℕ → Str → Type 0
NoByte b s = has_byte b s ≡ false

pub has_byte-append : (b : ℕ) (s t : Str) → has_byte b (s ++ t) ≡ (has_byte b s || has_byte b t)
unfolding has_byte
has_byte-append b [] t = refl
has_byte-append b (c ∷ s) t = ground (arith, has_byte-append b s t)

pub split_one : (w : Str) → NoByte slash w → split w ≡ w ∷ []
unfolding split has_byte
split_one [] h = refl
split_one (c ∷ w) h = ground (arith, split_one w)

pub split-append : (w r : Str) → NoByte slash w → split (w ++ (slash ∷ r)) ≡ w ∷ split r
unfolding split has_byte
split-append [] r h = refl
split-append (c ∷ w) r h = ground (arith, split-append w r)

abbrev NonNil : List Str → Type 0
NonNil [] = ⊥
NonNil (w ∷ ws) = Unit

-- A byte that the text does not have is in none of its pieces.
All-cons_head :
    (b c : ℕ) (ws : List Str)
    → (c == b) ≡ false
    → All (NoByte b) ws
    → All (NoByte b) (cons_head c ws)
unfolding has_byte
All-cons_head b c [] e h = ground arith
All-cons_head b c (w ∷ ws) e h = (ground (arith, h.0), h.1)

pub split-NoByte : (b : ℕ) (s : Str) → NoByte b s → All (NoByte b) (split s)
unfolding split has_byte
split-NoByte b [] h = (refl, tt)
split-NoByte b (c ∷ s) h = elim (Bool-cases (c == slash)) [
  | inl cut ↦ rw cut (refl, split-NoByte b s (ground arith))
  | inr on ↦ rw on (All-cons_head b c (split s) (ground arith) (split-NoByte b s (ground arith)))
]

pub split-NoSlash : (s : Str) → All (NoByte slash) (split s)
unfolding split has_byte
split-NoSlash [] = (refl, tt)
split-NoSlash (c ∷ s) = elim (Bool-cases (c == slash)) [
  | inl cut ↦ rw cut (refl, split-NoSlash s)
  | inr on ↦ rw on (All-cons_head slash c (split s) on (split-NoSlash s))
]

pub split-join :
    (w : Str) (ws : List Str) → All (NoByte slash) (w ∷ ws) → split (join (w ∷ ws)) ≡ w ∷ ws
unfolding join
split-join w [] h = split_one w h.0
split-join w (v ∷ vs) h = split-append w (join (v ∷ vs)) h.0 ∙ ap (◌∷◌ w) (split-join v vs h.1)

pub join-NoByte : (b : ℕ) (ws : List Str) → b ≢ slash → All (NoByte b) ws → NoByte b (join ws)
unfolding join has_byte
join-NoByte b [] n h = refl
join-NoByte b (w ∷ []) n h = h.0
join-NoByte b (w ∷ v ∷ vs) n h =
    ground (arith, has_byte-append b w (slash ∷ join (v ∷ vs)), join-NoByte b (v ∷ vs) n h.1)
