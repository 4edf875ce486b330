-- ===== src/Status.antt =====
-- `Status` and `Result` of crates/fuse-promise-runtime/src/lib.rs.
use fuse_promise.Base.{◌≡◌, refl, ◌⊎◌, inl, inr, Option, none, some, Bool, true, false}

pub data Status : Type 0 where
  ok_status invalid_argument unavailable permission not_found already_exists : Status
  provider_gone io timeout cancelled version_mismatch : Status

pub data Result (A : Type 0) : Type 0 where
  ok : A → Result A
  err : Status → Result A

-- The question mark: the first error ends the method.
infixl 5 ◌>>=◌ ◌>>◌
abbrev pub ◌>>=◌ : {A B : Type 0} → Result A → (A → Result B) → Result B
err failure >>= rest = err failure
ok value >>= rest = rest value

-- `if test { return Err(failure) }`.
abbrev pub refuse : Bool → Status → Result (Unit {0})
refuse false failure = ok tt
refuse true failure = err failure

abbrev pub ◌>>◌ : {B : Type 0} → Result (Unit {0}) → Result B → Result B
check >> rest = check >>= λ passed. rest

-- `Option::ok_or`.
abbrev pub ok_or : {A : Type 0} → Option A → Status → Result A
ok_or none e = err e
ok_or (some a) e = ok a

-- A chain that succeeds succeeds in its first part.
pub >>=-eq-ok :
    {A B : Type 0} (first : Result A) (rest : A → Result B) {b : B}
    → (first >>= rest) ≡ ok b
    → (a : A) × (first ≡ ok a) × (rest a ≡ ok b)
>>=-eq-ok (err failure) rest h = cc
>>=-eq-ok (ok value) rest h = (value, refl, h)

pub Result-cases :
    {A : Type 0} (r : Result A) → ((a : A) × (r ≡ ok a)) ⊎ ((e : Status) × (r ≡ err e))
Result-cases (err failure) = inr (failure, refl)
Result-cases (ok value) = inl (value, refl)
