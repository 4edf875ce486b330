-- ===== src/Materialize/Data.antt =====
-- The data of a materialization: the plan, its entries, what was created, the progress.
use fuse_promise.Base.{
  ℕ, ltb, ◌||◌, Bool, Option, none, some, List, [], ◌∷◌, Str, length, wrapping_add,
}
use fuse_promise.Status.{Status}
use fuse_promise.Node.{ℤ, NodeKind, file, directory}
use fuse_promise.Ipc.Message.{ConflictPolicy, ErrorCode}
use fuse_promise.Ipc.Session.{status_to_error_code}
use fuse_promise.Materialize.Files.{FileIdentity}

-- `MaterializeEntryPlan`.
pub record Entry : Type 0 where
  pub relative_path : Str
  pub target_path : Str
  pub kind : NodeKind
  pub size : ℕ
  pub mode : ℕ
  pub mtime_nsec : ℤ

pub record MaterializePlan : Type 0 where
  pub promise_id : Str
  pub target_path : Str
  pub conflict_policy : ConflictPolicy
  pub entries : List Entry

pub record CreatedTarget : Type 0 where
  pub path : Str
  pub identity : FileIdentity
  pub kind : NodeKind
  pub remove_on_cleanup : Bool

pub record Progress : Type 0 where
  pub target_path : Str
  pub entries_done : ℕ
  pub entries_total : ℕ
  pub bytes_written : ℕ
  pub bytes_total : ℕ
  pub files_written : ℕ
  pub files_total : ℕ
  pub directories_created : ℕ
  pub directories_total : ℕ

-- `MaterializeOperationError`.
pub record OperationError : Type 0 where
  pub status : Status
  pub progress : Option Progress

-- `MaterializeWriteError`.
pub record WriteError : Type 0 where
  pub status : Status
  pub target : Option CreatedTarget
  pub bytes_written : ℕ

pub record FileOutcome : Type 0 where
  pub bytes_written : ℕ
  pub target : CreatedTarget

unfoldable pub without_created_target : Status → WriteError
without_created_target status = record { status = status; target = none; bytes_written = 0 }

unfoldable pub with_target : Status → CreatedTarget → ℕ → WriteError
with_target status target bytes_written = record {
  status = status;
  target = some target;
  bytes_written = bytes_written;
}

unfoldable pub without_progress : Status → OperationError
without_progress status = record { status = status; progress = none }

unfoldable pub with_progress : Status → Progress → OperationError
with_progress status progress = record { status = status; progress = some progress }

-- The entries of one kind, in order.
unfoldable pub files_of : List Entry → List Entry
files_of [] = []
files_of (e ∷ es) = elim e.kind [ file ↦ e ∷ files_of es | directory ↦ files_of es ]

unfoldable pub directories_of : List Entry → List Entry
directories_of [] = []
directories_of (e ∷ es) = elim e.kind [
  | file ↦ directories_of es
  | directory ↦ e ∷ directories_of es
]

-- `.map(|entry| entry.size).sum()`, which wraps in a release build.
unfoldable pub sum_sizes : List Entry → ℕ
sum_sizes [] = 0
sum_sizes (e ∷ es) = wrapping_add e.size (sum_sizes es)

-- `MaterializeProgress::new`.
unfoldable pub new_progress : Str → List Entry → Progress
unfolding files_of directories_of sum_sizes
new_progress target_path entries = record {
  target_path = target_path;
  entries_done = 0;
  entries_total = length entries;
  bytes_written = 0;
  bytes_total = sum_sizes (files_of entries);
  files_written = 0;
  files_total = length (files_of entries);
  directories_created = 0;
  directories_total = length (directories_of entries);
}

unfoldable pub has_partial : Progress → Bool
has_partial p = ltb 0 p.bytes_written || (ltb 0 p.files_written || ltb 0 p.directories_created)

-- `MaterializeFailedBody`: the code of the status and the progress.
pub record FailedBody : Type 0 where
  pub code : ErrorCode
  pub progress : Progress

unfoldable pub to_failed_body : OperationError → Progress → FailedBody
unfolding status_to_error_code
to_failed_body error progress = record {
  code = status_to_error_code error.status;
  progress = progress;
}
