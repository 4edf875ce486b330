-- ===== src/Materialize/Monad.antt =====
-- The world that a materialization changes: the daemon's state, the file system, the counter of
-- temporary names and the client. A step returns the new world beside an error too.
use fuse_promise.Base.{ℕ, List, ◌≡◌, refl, ◌⊎◌, inl, inr}
use fuse_promise.Status
use fuse_promise.Status.{Status}
use fuse_promise.Ipc.Message.{IoResult, done, fail, ErrorKind}
use fuse_promise.Ipc.State.{IpcState}
use fuse_promise.Ipc.Route.{Turn}
use fuse_promise.Materialize.Files.{Files}
use fuse_promise.Materialize.Data.{Progress}

-- How the client takes a report of progress.
pub data ClientReply : Type 0 where
  lost goes_on cancels closes sends_other : ClientReply

-- `turns` are the waits of the reads to come, `client` the client's replies to come; both may run
-- out. `reported` are the frames of progress that were written.
pub record World (F : Files) : Type 0 where
  pub ipc : IpcState
  pub files : F.State
  pub temp_counter : ℕ
  pub turns : List Turn
  pub client : List ClientReply
  pub reported : List Progress

pub data Either (E A : Type 0) : Type 0 where
  raise : E → Either E A
  value : A → Either E A

abbrev pub M : Files → Type 0 → Type 0 → Type 0
M F E A = World F → World F × Either E A

abbrev pub continue :
    {F : Files} {E A B : Type 0} → World F → Either E A → (A → M F E B) → World F × Either E B
continue w (value a) next = next a w
continue w (raise e) next = (w, raise e)

infixl 5 ◌>>=◌ ◌>>◌
unfoldable pub ◌>>=◌ : {F : Files} {E A B : Type 0} → M F E A → (A → M F E B) → M F E B
◌>>=◌ step next w = continue (step w).0 (step w).1 next

unfoldable pub ◌>>◌ : {F : Files} {E B : Type 0} → M F E (Unit {0}) → M F E B → M F E B
◌>>◌ step next w = continue (step w).0 (step w).1 (λ passed. next)

abbrev pub pure : {F : Files} {E A : Type 0} → A → M F E A
pure a w = (w, value a)

abbrev pub throw : {F : Files} {E A : Type 0} → E → M F E A
throw e w = (w, raise e)

abbrev pub map_error : {E E' A : Type 0} → (E → E') → Either E A → Either E' A
map_error f (raise e) = raise (f e)
map_error f (value a) = value a

-- `map_err`.
abbrev pub rethrow : {F : Files} {E E' A : Type 0} → (E → E') → M F E A → M F E' A
rethrow f step w = ((step w).0, map_error f (step w).1)

abbrev pub of_result : {A : Type 0} → Status.Result A → Either Status A
of_result (Status.ok a) = value a
of_result (Status.err e) = raise e

-- A `Result` of a part that changes nothing.
abbrev pub lift : {F : Files} {A : Type 0} → Status.Result A → M F Status A
lift r w = (w, of_result r)

unfoldable pub io_error_to_status : ErrorKind → Status
io_error_to_status ErrorKind.invalid_input = Status.invalid_argument
io_error_to_status ErrorKind.invalid_data = Status.invalid_argument
io_error_to_status ErrorKind.not_found = Status.not_found
io_error_to_status ErrorKind.already_exists = Status.already_exists
io_error_to_status ErrorKind.permission_denied = Status.permission
io_error_to_status ErrorKind.timed_out = Status.timeout
io_error_to_status ErrorKind.interrupted = Status.cancelled
io_error_to_status ErrorKind.connection_refused = Status.provider_gone
io_error_to_status ErrorKind.connection_reset = Status.provider_gone
io_error_to_status ErrorKind.broken_pipe = Status.provider_gone
io_error_to_status _ = Status.io

abbrev pub of_io : {A : Type 0} → IoResult A → Either Status A
of_io (done a) = value a
of_io (fail kind) = raise (io_error_to_status kind)

-- A call of the file system that only looks.
abbrev pub look : {F : Files} {A : Type 0} → (F.State → IoResult A) → M F Status A
look call w = (w, of_io (call w.files))

-- A call of the file system that may change it.
abbrev pub act : {F : Files} {A : Type 0} → (F.State → F.State × IoResult A) → M F Status A
act call w = (record w { files = (call w.files).0 }, of_io (call w.files).1)

-- A chain that gives a value does so in its first part.
pub continue-eq-value :
    {F : Files} {E A B : Type 0} (w : World F) (r : Either E A) (next : A → M F E B) {b : B}
    → (continue w r next).1 ≡ value b
    → (a : A) × (r ≡ value a) × ((next a w).1 ≡ value b)
continue-eq-value w (raise e) next h = cc
continue-eq-value w (value a) next h = (a, refl, h)

pub map_error-eq-value :
    {E E' A : Type 0} (f : E → E') (r : Either E A) {a : A} → map_error f r ≡ value a → r ≡ value a
map_error-eq-value f (raise e) h = cc
map_error-eq-value f (value b) h = cc

pub Either-cases :
    {E A : Type 0} (r : Either E A) → ((a : A) × (r ≡ value a)) ⊎ ((e : E) × (r ≡ raise e))
Either-cases (value a) = inl (a, refl)
Either-cases (raise e) = inr (e, refl)

pub value_injective : {E A : Type 0} {a b : A} → ◌≡◌ {A = Either E A} (value a) (value b) → a ≡ b
value_injective h = cc
