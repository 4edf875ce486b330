-- ===== src/Base/Decimal.antt =====
-- The decimal text of a number, as `format!` prints a `u64`; distinct numbers print differently.
use Prim.Native.Nat.{ℕ, zero, suc, ◌+◌, ◌-◌, ◌*◌, ◌/◌, ◌%◌, ◌<◌}
use mathlib.Core.Path.{◌≡◌, refl, ap, sym, ◌∙◌}
use mathlib.Core.Logic.{inl, inr}
use mathlib.Core.List.{List, [], ◌∷◌, ◌++◌}
use native.Mathlib.Omega.{arith}
use fuse_promise.Base.Tests.{ltb, if◌then◌else◌, Bool-cases}

-- Each round drops a digit, so the number itself is fuel enough.
unfoldable pub digits : ℕ → ℕ → List ℕ
digits zero n = []
digits (suc fuel) n =
    let rest = digits fuel (n / 10) ++ ((48 + n % 10) ∷ []) in
    if ltb n 10 then (48 + n) ∷ [] else rest

unfoldable pub decimal : ℕ → List ℕ
unfolding digits
decimal n = digits (suc n) n

value_from : ℕ → List ℕ → ℕ
value_from acc [] = acc
value_from acc (c ∷ cs) = value_from (acc * 10 + (c - 48)) cs

value_from-snoc :
    (acc c : ℕ) (s : List ℕ) → value_from acc (s ++ (c ∷ [])) ≡ value_from acc s * 10 + (c - 48)
unfolding value_from
value_from-snoc acc c [] = refl
value_from-snoc acc c (d ∷ s) = value_from-snoc (acc * 10 + (d - 48)) c s

value_from-digits : (fuel n : ℕ) → n < fuel → value_from 0 (digits fuel n) ≡ n
unfolding digits
value_from-digits zero n h = absurd (omega arith)
value_from-digits (suc fuel) n h = elim (Bool-cases (ltb n 10)) [
  | inl small ↦ rw small (unfold value_from in omega arith)
  | inr large ↦ rw large (
      value_from-snoc 0 (48 + n % 10) (digits fuel (n / 10))
      ∙ omega (arith, value_from-digits fuel (n / 10) (ground arith)))
]

pub decimal-injective : (m n : ℕ) → decimal m ≡ decimal n → m ≡ n
unfolding decimal
decimal-injective m n e =
    sym (value_from-digits (suc m) m (omega arith))
    ∙ ap (value_from 0) e
    ∙ value_from-digits (suc n) n (omega arith)
