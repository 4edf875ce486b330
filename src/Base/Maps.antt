-- ===== src/Base/Maps.antt =====
-- `BTreeMap` and `BTreeSet` as association lists in the order of the keys.
use Prim.Native.Nat.{Ordering}
use mathlib.Core.Path.{◌≡◌, refl, ap, ◌∙◌}
use mathlib.Core.Bool.{Bool, false, ◌||◌}
use mathlib.Core.List.{List, [], ◌∷◌, map}
use mathlib.Core.Option.{Option, none, some}
use native.Mathlib.Omega.{arith}
use mathlib.Core.Option
use mathlib.Core.Logic.{inl, inr}
use fuse_promise.Base.Tests.{if◌then◌else◌, Bool-cases}
use fuse_promise.Base.Lists.{All}
use fuse_promise.Base.Keys.{Key, same, same_iff, same_refl, Ordering-cases}

abbrev pub BTreeMap : Type 0 → Type 0 → Type 0
BTreeMap K V = List (K × V)

abbrev pub BTreeSet : Type 0 → Type 0
BTreeSet K = List K

-- `values()`: in the order of the keys.
abbrev pub values : {K V : Type 0} → BTreeMap K V → List V
values m = map (λ e. e.1) m

abbrev place : {A : Type 0} → Ordering → A → A → A → A
place Ordering.lt a b c = a
place Ordering.eq a b c = b
place Ordering.gt a b c = c

module _ {K V : Type 0} ⦃e : Key K⦄ where
  unfoldable pub lookup : K → BTreeMap K V → Option V
  lookup k [] = none
  lookup k ((j, v) ∷ m) = if same j k then some v else lookup k m

  unfoldable pub insert : K → V → BTreeMap K V → BTreeMap K V
  insert k v [] = (k, v) ∷ []
  insert k v ((j, w) ∷ m) =
      place (e.cmp k j) ((k, v) ∷ (j, w) ∷ m) ((k, v) ∷ m) ((j, w) ∷ insert k v m)

  unfoldable pub remove : K → BTreeMap K V → BTreeMap K V
  remove k [] = []
  remove k ((j, w) ∷ m) = let rest = remove k m in if same j k then rest else (j, w) ∷ rest

  pub lookup-insert :
      (k j : K) (v : V) (m : BTreeMap K V)
      → lookup j (insert k v m) ≡ (if same k j then some v else lookup j m)
  unfolding lookup insert
  lookup-insert k j v [] = refl
  lookup-insert k j v ((i, w) ∷ m) =
      ground (arith, e.cmp_iff k i, e.cmp_iff i j, e.cmp_iff k j, lookup-insert k j v m)

  pub lookup-remove :
      (k j : K) (m : BTreeMap K V) → lookup j (remove k m) ≡ (if same k j then none else lookup j m)
  unfolding lookup remove
  lookup-remove k j [] = ground arith
  lookup-remove k j ((i, w) ∷ m) =
      ground (arith, e.cmp_iff i k, e.cmp_iff i j, e.cmp_iff k j, lookup-remove k j m)

  pub lookup-nil : (k : K) → lookup k [] ≡ none
  unfolding lookup
  lookup-nil k = refl

  pub lookup-insert_self : (k : K) (v : V) (m : BTreeMap K V) → lookup k (insert k v m) ≡ some v
  lookup-insert_self k v m =
      lookup-insert k k v m ∙ ap (λ b. if b then some v else lookup k m) (same_refl k)

  pub lookup-insert_ne :
      (k j : K) (v : V) (m : BTreeMap K V) → same k j ≡ false → lookup j (insert k v m) ≡ lookup j m
  lookup-insert_ne k j v m h = lookup-insert k j v m ∙ ap (λ b. if b then some v else lookup j m) h

  -- What holds of every entry holds of the one that is found, and survives `insert`.
  module _ {ℓ} (P : K × V → Type ℓ) where
    pub lookup-All : (k : K) (m : BTreeMap K V) {v : V} → All P m → lookup k m ≡ some v → P (k, v)
    unfolding lookup
    lookup-All k [] h p = cc
    lookup-All k ((j, w) ∷ m) {v} h p = elim (Bool-cases (same j k)) [
      | inl hit ↦
          let kj : j ≡ k = (same_iff j k).0 hit in
          let wv : w ≡ v = ground arith in rw (← kj, ← wv) (h.0)
      | inr miss ↦ lookup-All k m h.1 (ground arith)
    ]

    pub insert-All : (k : K) (v : V) (m : BTreeMap K V) → P (k, v) → All P m → All P (insert k v m)
    unfolding insert
    insert-All k v [] p h = (p, tt)
    insert-All k v ((j, w) ∷ m) p h = elim (Ordering-cases (e.cmp k j)) [
      | inl lt ↦ rw lt (p, h)
      | inr (inl eq) ↦ rw eq (p, h.1)
      | inr (inr gt) ↦ rw gt (h.0, insert-All k v m p h.1)
    ]

    pub remove-All : (k : K) (m : BTreeMap K V) → All P m → All P (remove k m)
    unfolding remove
    remove-All k [] h = tt
    remove-All k ((j, w) ∷ m) h = elim (Bool-cases (same j k)) [
      | inl hit ↦ rw hit (remove-All k m h.1)
      | inr miss ↦ rw miss (h.0, remove-All k m h.1)
    ]

  -- `values_mut()`: a change of each value leaves the keys alone.
  unfoldable pub map_values : (V → V) → BTreeMap K V → BTreeMap K V
  map_values f [] = []
  map_values f ((j, v) ∷ m) = (j, f v) ∷ map_values f m

  pub lookup-map_values :
      (f : V → V) (k : K) (m : BTreeMap K V) → lookup k (map_values f m) ≡ Option.map f (lookup k m)
  unfolding lookup map_values
  lookup-map_values f k [] = refl
  lookup-map_values f k ((j, v) ∷ m) = ground (arith, lookup-map_values f k m)

-- Sets, the same way.
module _ {K : Type 0} ⦃e : Key K⦄ where
  unfoldable pub contains : K → BTreeSet K → Bool
  contains k [] = false
  contains k (j ∷ s) = same j k || contains k s

  unfoldable pub set_insert : K → BTreeSet K → BTreeSet K
  set_insert k [] = k ∷ []
  set_insert k (j ∷ s) = place (e.cmp k j) (k ∷ j ∷ s) (j ∷ s) (j ∷ set_insert k s)

  pub contains-set_insert :
      (k j : K) (s : BTreeSet K) → contains j (set_insert k s) ≡ (same k j || contains j s)
  unfolding contains set_insert
  contains-set_insert k j [] = refl
  contains-set_insert k j (i ∷ s) =
      ground (arith, e.cmp_iff k i, e.cmp_iff i j, e.cmp_iff k j, contains-set_insert k j s)
