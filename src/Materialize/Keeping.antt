-- ===== src/Materialize/Keeping.antt =====
-- Steps of a materialization and a file that is there: the statements, and the rules for chains of steps.
use fuse_promise.Base.{◌≡◌, refl, ◌∙◌, some}
use fuse_promise.Status
use fuse_promise.Status.{Status}
use fuse_promise.Ipc.Message.{IoResult, done, fail}
use fuse_promise.Materialize.Files.{FileIdentity, Files, Place}
use fuse_promise.Materialize.Monad.{
  World, Either, raise, value, M, ◌>>=◌, ◌>>◌, continue, pure, map_error, rethrow, lift, of_io,
  look, act,
}

module _ (F : Files) (q : Place) (i : FileIdentity) where
  abbrev pub IsKept : World F → Type 0
  IsKept w = F.entry q w.files ≡ some i

  abbrev pub Good :
      {E A : Type 0} → (A → World F → Type 0) → (E → Type 0) → World F → Either E A → Type 0
  Good Q R w (value a) = Q a w
  Good Q R w (raise e) = R e

  -- The file is kept; a value satisfies `Q` in the new world, an error satisfies `R`.
  pub record Keeps {E A : Type 0} (Q : A → World F → Type 0) (R : E → Type 0)
      (result : World F × Either E A) : Type 0 where
    pub kept : IsKept result.0
    pub good : Good Q R result.0 result.1

  abbrev pub Plain : {A : Type 0} → A → World F → Type 0
  Plain a w = Unit {0}

  abbrev pub AnyError : {E : Type 0} → E → Type 0
  AnyError e = Unit {0}

  pub continue_lem :
      {E A B : Type 0} {Q : A → World F → Type 0} {Q' : B → World F → Type 0} {R : E → Type 0}
      (w : World F) (r : Either E A) (next : A → M F E B)
      → IsKept w
      → Good Q R w r
      → ((a : A) (w' : World F) → IsKept w' → Q a w' → Keeps Q' R (next a w'))
      → Keeps Q' R (continue w r next)
  continue_lem w (value a) next kept good h = h a w kept good
  continue_lem w (raise e) next kept good h = record { kept = kept; good = good }

  pub bind_lem :
      {E A B : Type 0} {Q : A → World F → Type 0} {Q' : B → World F → Type 0} {R : E → Type 0}
      (step : M F E A) (next : A → M F E B) (w : World F)
      → Keeps Q R (step w)
      → ((a : A) (w' : World F) → IsKept w' → Q a w' → Keeps Q' R (next a w'))
      → Keeps Q' R ((step >>= next) w)
  unfolding ◌>>=◌
  bind_lem {Q} step next w first h =
      continue_lem {Q = Q} (step w).0 (step w).1 next first.kept first.good h

  pub then_lem :
      {E B : Type 0} {Q : Unit {0} → World F → Type 0} {Q' : B → World F → Type 0} {R : E → Type 0}
      (step : M F E (Unit {0})) (next : M F E B) (w : World F)
      → Keeps Q R (step w)
      → ((w' : World F) → IsKept w' → Q tt w' → Keeps Q' R (next w'))
      → Keeps Q' R ((step >> next) w)
  unfolding ◌>>◌
  then_lem {Q} step next w first h =
      continue_lem {Q = Q} (step w).0 (step w).1 (λ passed. next) first.kept first.good
        (λ a w' kept good. h w' kept good)

  map_lem :
      {E E' A : Type 0} (Q : A → World F → Type 0) (R : E → Type 0) (R' : E' → Type 0) (f : E → E')
      (w : World F) (r : Either E A)
      → ((e : E) → R e → R' (f e))
      → Good Q R w r
      → Good Q R' w (map_error f r)
  map_lem Q R R' f w (value a) h good = good
  map_lem Q R R' f w (raise e) h good = h e good

  pub rethrow_lem :
      {E E' A : Type 0} {Q : A → World F → Type 0} {R : E → Type 0} {R' : E' → Type 0} (f : E → E')
      (step : M F E A) (w : World F)
      → ((e : E) → R e → R' (f e))
      → Keeps Q R (step w)
      → Keeps Q R' (rethrow f step w)
  rethrow_lem {Q} {R} {R'} f step w h first = record {
    kept = first.kept;
    good = map_lem Q R R' f (step w).0 (step w).1 h first.good;
  }

  Plain-Good : {E A : Type 0} (w : World F) (r : Either E A) → Good Plain AnyError w r
  Plain-Good w (value a) = tt
  Plain-Good w (raise e) = tt

  pub plain_lem :
      {E A : Type 0} (result : World F × Either E A) → IsKept result.0 → Keeps Plain AnyError result
  plain_lem result kept = record { kept = kept; good = Plain-Good result.0 result.1 }

  pub lift_lem :
      {A : Type 0} (r : Status.Result A) (w : World F) → IsKept w → Keeps Plain AnyError (lift r w)
  lift_lem r w kept = plain_lem (lift r w) kept

  pub look_lem :
      {A : Type 0} (call : F.State → IoResult A) (w : World F)
      → IsKept w
      → Keeps Plain AnyError (look call w)
  look_lem call w kept = plain_lem (look call w) kept

  pub act_lem :
      {A : Type 0} (call : F.State → F.State × IoResult A) (w : World F)
      → F.entry q (call w.files).0 ≡ F.entry q w.files
      → IsKept w
      → Keeps Plain AnyError (act call w)
  act_lem call w same kept = plain_lem (act call w) (same ∙ kept)

  pub pure_lem :
      {E A : Type 0} (Q : A → World F → Type 0) (R : E → Type 0) (a : A) (w : World F)
      → IsKept w
      → Q a w
      → Keeps Q R (pure a w)
  pure_lem Q R a w kept good = record { kept = kept; good = good }

  io-Good :
      {A : Type 0} (Q : A → World F → Type 0) (w : World F) (r : IoResult A)
      → ((a : A) → r ≡ done a → Q a w)
      → Good Q AnyError w (of_io r)
  io-Good Q w (done a) h = h a refl
  io-Good Q w (fail e) h = tt

  pub look_post :
      {A : Type 0} (Q : A → World F → Type 0) (call : F.State → IoResult A) (w : World F)
      → IsKept w
      → ((a : A) → call w.files ≡ done a → Q a w)
      → Keeps Q AnyError (look call w)
  look_post Q call w kept h = record { kept = kept; good = io-Good Q w (call w.files) h }

  pub act_post :
      {A : Type 0} (Q : A → World F → Type 0) (call : F.State → F.State × IoResult A) (w : World F)
      → IsKept (act call w).0
      → ((a : A) → (call w.files).1 ≡ done a → Q a (act call w).0)
      → Keeps Q AnyError (act call w)
  act_post Q call w kept h = record {
    kept = kept;
    good = io-Good Q (act call w).0 (call w.files).1 h;
  }
