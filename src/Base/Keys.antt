-- ===== src/Base/Keys.antt =====
-- Ordered keys, as `BTreeMap` asks of them: a comparison that is `eq` exactly at equal keys.
-- Byte strings compare lexicographically, as `str` does.
use Prim.Native.Nat.{ℕ, compare, Ordering}
use mathlib.Core.Path.{◌≡◌, refl}
use mathlib.Core.Logic.{◌↔◌, ◌⊎◌, inl, inr}
use mathlib.Core.Bool.{Bool, true, false}
use mathlib.Core.List.{List, [], ◌∷◌}
use native.Mathlib.Omega.{arith}

pub record Key (K : Type 0) : Type 0 where
  pub cmp : K → K → Ordering
  pub cmp_iff : (a b : K) → (cmp a b ≡ Ordering.eq) ↔ (a ≡ b)

abbrev pub is_eq : Ordering → Bool
is_eq Ordering.eq = true
is_eq Ordering.lt = false
is_eq Ordering.gt = false

-- Equality of keys, as a test.
abbrev pub same : {K : Type 0} ⦃e : Key K⦄ → K → K → Bool
same ⦃e⦄ a b = is_eq (e.cmp a b)

pub same_iff : {K : Type 0} ⦃e : Key K⦄ (a b : K) → (same a b ≡ true) ↔ (a ≡ b)
same_iff ⦃e⦄ a b = ground (arith, e.cmp_iff a b)

pub same_refl : {K : Type 0} ⦃e : Key K⦄ (a : K) → same a a ≡ true
same_refl a = (same_iff a a).1 refl

pub Ordering-cases : (o : Ordering) → (o ≡ Ordering.lt) ⊎ ((o ≡ Ordering.eq) ⊎ (o ≡ Ordering.gt))
Ordering-cases Ordering.lt = inl refl
Ordering-cases Ordering.eq = inr (inl refl)
Ordering-cases Ordering.gt = inr (inr refl)

-- `Ordering::then`.
abbrev pub then_cmp : Ordering → Ordering → Ordering
then_cmp Ordering.eq r = r
then_cmp Ordering.lt r = Ordering.lt
then_cmp Ordering.gt r = Ordering.gt

-- The bytes of a `str` or of a `Path`.
abbrev pub Str : Type 0
Str = List ℕ

unfoldable pub cmp_str : Str → Str → Ordering
cmp_str [] [] = Ordering.eq
cmp_str [] (y ∷ ys) = Ordering.lt
cmp_str (x ∷ xs) [] = Ordering.gt
cmp_str (x ∷ xs) (y ∷ ys) = then_cmp (compare x y) (cmp_str xs ys)

pub cmp_str_iff : (s t : Str) → (cmp_str s t ≡ Ordering.eq) ↔ (s ≡ t)
unfolding cmp_str
cmp_str_iff [] [] = (λ _. refl, λ _. refl)
cmp_str_iff [] (y ∷ ys) = (λ e. cc, λ e. cc)
cmp_str_iff (x ∷ xs) [] = (λ e. cc, λ e. cc)
cmp_str_iff (x ∷ xs) (y ∷ ys) =
    (λ e. ground (arith, cmp_str_iff xs ys), λ e. ground (arith, cmp_str_iff xs ys))

pub cmp_ℕ_iff : (a b : ℕ) → (compare a b ≡ Ordering.eq) ↔ (a ≡ b)
cmp_ℕ_iff a b = ground arith

instance abbrev pub ℕ_key : Key ℕ
ℕ_key = record { cmp = compare; cmp_iff = cmp_ℕ_iff }

instance abbrev pub str_key : Key Str
str_key = record { cmp = cmp_str; cmp_iff = cmp_str_iff }
