-- ===== src/Materialize/Files.antt =====
-- What materialization asks of the file system: `std::fs` and `rustix::fs`, over an unknown state.
-- Only the identities and the kinds of files show in it, and what a call answers; the entries of
-- the directories are there for the statements, and no operation asks for them.
use fuse_promise.Base.{ℕ, ◌≡◌, ◌≢◌, ◌&&◌, Bool, List, Option, none, some, ◌==◌, Str}
use fuse_promise.Node.{ℤ}
use fuse_promise.Ipc.Message.{IoResult, done, fail}

-- `FileIdentity`: device and inode.
pub record FileIdentity : Type 0 where
  pub dev : ℕ
  pub ino : ℕ

infix 50 ◌is◌
abbrev pub ◌is◌ : FileIdentity → FileIdentity → Bool
a is b = a.dev == b.dev && a.ino == b.ino

-- What `symlink_metadata` tells.
pub record Metadata : Type 0 where
  pub identity : FileIdentity
  pub is_symlink : Bool
  pub is_dir : Bool
  pub is_file : Bool

-- A place in a directory: the directory itself, however a path may lead to it, and a name in it,
-- other than `.` and `..`.
pub record Place : Type 0 where
  pub parent : FileIdentity
  pub name : Str

pub record Files : Type 1 where
  pub State : Type 0
  -- The directory entry at a place: what the name is linked to in the directory.
  pub entry : Place → State → Option FileIdentity
  -- An open file.
  pub Handle : Type 0
  pub symlink_metadata : Str → State → IoResult Metadata
  -- `DirBuilder::create` with a mode.
  pub create_dir : Str → ℕ → State → State × IoResult (Unit {0})
  -- `open` with `WRONLY | CREATE | EXCL | NOFOLLOW` and a mode.
  pub open_new : Str → ℕ → State → State × IoResult Handle
  -- `File::open`, for reading.
  pub open_existing : Str → State → IoResult Handle
  pub metadata : Handle → State → IoResult Metadata
  pub write_all : Handle → List ℕ → State → State × IoResult (Unit {0})
  -- `read_at` into a buffer of the given length: the bytes that were read.
  pub read_at : Handle → ℕ → ℕ → State → IoResult (List ℕ)
  pub set_permissions : Handle → ℕ → State → State × IoResult (Unit {0})
  -- Seconds and nanoseconds, for both times.
  pub futimens : Handle → ℤ → ℤ → State → State × IoResult (Unit {0})
  pub set_path_permissions : Str → ℕ → State → State × IoResult (Unit {0})
  pub rename : Str → Str → State → State × IoResult (Unit {0})
  pub remove_file : Str → State → State × IoResult (Unit {0})
  pub remove_dir : Str → State → State × IoResult (Unit {0})

-- The identity of what a path names.
abbrev pub identity_of : IoResult Metadata → Option FileIdentity
identity_of (done m) = some m.identity
identity_of (fail e) = none

abbrev pub identity_at : (F : Files) → Str → F.State → Option FileIdentity
identity_at F path s = identity_of (F.symlink_metadata path s)

-- What materialization relies on, as POSIX has it. Of the calls here only those that create, remove
-- or rename change directory entries: permissions may hide a file from its paths, and its entry
-- stays. `unlink` and `rmdir` take away no entry of a file other than the one that `lstat` shows at
-- the path. `mkdir` and an exclusive `open` take no entry away, and what they create is none of the
-- files that have an entry.
pub record IsLawful (F : Files) : Type 0 where
  pub remove_file_entry :
      (s : F.State) (p : Str) (q : Place) {i : FileIdentity}
      → F.entry q s ≡ some i
      → identity_at F p s ≢ some i
      → F.entry q (F.remove_file p s).0 ≡ some i
  pub remove_dir_entry :
      (s : F.State) (p : Str) (q : Place) {i : FileIdentity}
      → F.entry q s ≡ some i
      → identity_at F p s ≢ some i
      → F.entry q (F.remove_dir p s).0 ≡ some i
  pub set_path_permissions_entry :
      (s : F.State) (p : Str) (q : Place) (mode : ℕ)
      → F.entry q (F.set_path_permissions p mode s).0 ≡ F.entry q s
  pub set_permissions_entry :
      (s : F.State) (handle : F.Handle) (q : Place) (mode : ℕ)
      → F.entry q (F.set_permissions handle mode s).0 ≡ F.entry q s
  pub write_all_entry :
      (s : F.State) (handle : F.Handle) (q : Place) (bytes : List ℕ)
      → F.entry q (F.write_all handle bytes s).0 ≡ F.entry q s
  pub futimens_entry :
      (s : F.State) (handle : F.Handle) (q : Place) (seconds nanoseconds : ℤ)
      → F.entry q (F.futimens handle seconds nanoseconds s).0 ≡ F.entry q s
  pub create_dir_entry :
      (s : F.State) (p : Str) (q : Place) (mode : ℕ) {i : FileIdentity}
      → F.entry q s ≡ some i
      → (F.entry q (F.create_dir p mode s).0 ≡ some i)
        × ((F.create_dir p mode s).1 ≡ done tt → identity_at F p (F.create_dir p mode s).0 ≢ some i)
  pub open_new_entry :
      (s : F.State) (p : Str) (q : Place) (mode : ℕ) {i : FileIdentity}
      → F.entry q s ≡ some i
      → (F.entry q (F.open_new p mode s).0 ≡ some i)
        × ((handle : F.Handle)
            → (F.open_new p mode s).1 ≡ done handle
            → identity_of (F.metadata handle (F.open_new p mode s).0) ≢ some i)
