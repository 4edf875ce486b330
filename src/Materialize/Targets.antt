-- ===== src/Materialize/Targets.antt =====
-- Where files are written: `validate_target_dir`, `validate_existing_materialize_target`,
-- `preflight_materialize_targets`, `unique_materialize_target_path`, `create_materialized_directory`,
-- `apply_directory_metadata`, `cleanup_created_targets`.
use fuse_promise.Base.{
  ℕ, zero, suc, ◌+◌, ◌%◌, ◌/◌, Bool, true, false, not, ◌&&◌, ◌||◌, List, [], ◌∷◌, ◌==◌, Str,
  if◌then◌else◌,
}
use fuse_promise.Status
use fuse_promise.Status.{Status}
use fuse_promise.Path.{is_absolute}
use fuse_promise.RuntimeDir.{join_path}
use fuse_promise.Node.{ℤ, pos, negsuc, NodeKind, file, directory, is_file}
use fuse_promise.Ipc.Message.{
  IoResult, done, fail, ErrorKind, ConflictPolicy, fail_policy, overwrite, rename,
}
use fuse_promise.Materialize.Files.{Files, FileIdentity, Metadata, ◌is◌}
use fuse_promise.Materialize.Data.{Entry, CreatedTarget}
use fuse_promise.Materialize.Monad.{
  M, ◌>>=◌, ◌>>◌, pure, throw, lift, look, act, io_error_to_status,
}
use fuse_promise.Materialize.Names.{rename_candidate_name}

-- What `symlink_metadata` says: a file, no file, or another error.
pub data Look : Type 0 where
  there : Metadata → Look
  absent : Look
  unclear : Status → Look

unfoldable pub look_of : IoResult Metadata → Look
unfolding io_error_to_status
look_of (done m) = there m
look_of (fail ErrorKind.not_found) = absent
look_of (fail kind) = unclear (io_error_to_status kind)

unfoldable pub validate_existing_materialize_target :
    NodeKind → Metadata → ConflictPolicy → Status.Result (Unit {0})
validate_existing_materialize_target kind m policy =
    if m.is_symlink then Status.err Status.invalid_argument else elim policy [
      | fail_policy ↦ Status.err Status.already_exists
      | rename ↦ Status.err Status.already_exists
      | overwrite ↦
          if (elim kind [ directory ↦ m.is_dir | file ↦ m.is_file ])
          then Status.ok tt
          else Status.err Status.already_exists
    ]

abbrev pub is_rename : ConflictPolicy → Bool
is_rename rename = true
is_rename fail_policy = false
is_rename overwrite = false

-- Nanoseconds since the epoch as whole seconds and the rest; both have the sign of the time.
abbrev pub negate : ℕ → ℤ
negate zero = pos 0
negate (suc n) = negsuc n

abbrev pub seconds_of : ℤ → ℤ
seconds_of (pos n) = pos (n / 1000000000)
seconds_of (negsuc n) = negate ((n + 1) / 1000000000)

abbrev pub nanoseconds_of : ℤ → ℤ
nanoseconds_of (pos n) = pos (n % 1000000000)
nanoseconds_of (negsuc n) = negate ((n + 1) % 1000000000)

module _ (F : Files) where
  unfoldable pub validate_target_dir : Str → M F Status (Unit {0})
  validate_target_dir target_dir = do
    lift (Status.refuse (not (is_absolute target_dir)) Status.invalid_argument)
    m ← look (F.symlink_metadata target_dir)
    lift (Status.refuse (m.is_symlink || not m.is_dir) Status.invalid_argument)

  abbrev pub preflight_entry : Entry → ConflictPolicy → M F Status (Unit {0})
  preflight_entry entry policy w = elim (look_of (F.symlink_metadata entry.target_path w.files)) [
    | there m ↦ lift (validate_existing_materialize_target entry.kind m policy) w
    | absent ↦ pure tt w
    | unclear status ↦ throw status w
  ]

  unfoldable pub preflight_materialize_targets : List Entry → ConflictPolicy → M F Status (Unit {0})
  unfolding look_of validate_existing_materialize_target
  preflight_materialize_targets [] policy = pure tt
  preflight_materialize_targets (entry ∷ entries) policy =
      preflight_entry entry policy >> preflight_materialize_targets entries policy

  -- The loop over the attempts, of which `left` are left.
  unfoldable pub unique_from : ℕ → ℕ → Str → Str → NodeKind → M F Status Str
  unfolding look_of rename_candidate_name join_path
  unique_from zero attempt target_dir target_name kind w = throw Status.already_exists w
  unique_from (suc left) attempt target_dir target_name kind w =
      let name =
        if attempt == 0 then target_name else rename_candidate_name target_name kind attempt in
      let candidate = join_path target_dir name in
      elim (look_of (F.symlink_metadata candidate w.files)) [
        | there m ↦ unique_from left (attempt + 1) target_dir target_name kind w
        | absent ↦ pure candidate w
        | unclear status ↦ throw status w
      ]

  unfoldable pub unique_materialize_target_path : Str → Str → NodeKind → M F Status Str
  unfolding unique_from
  unique_materialize_target_path = unique_from 1024 0

  unfoldable pub materialize_target_path : Str → Str → NodeKind → ConflictPolicy → M F Status Str
  unfolding unique_materialize_target_path join_path
  materialize_target_path target_dir target_name kind policy =
      if is_rename policy
      then unique_materialize_target_path target_dir target_name kind
      else pure (join_path target_dir target_name)

  abbrev pub directory_target : Str → FileIdentity → Bool → CreatedTarget
  directory_target path identity remove_on_cleanup = record {
    path = path;
    identity = identity;
    kind = directory;
    remove_on_cleanup = remove_on_cleanup;
  }

  -- `DirBuilder::create` with mode 0o700.
  abbrev pub make_directory : Entry → M F Status CreatedTarget
  make_directory entry = do
    act (F.create_dir entry.target_path 448)
    m ← look (F.symlink_metadata entry.target_path)
    pure (directory_target entry.target_path m.identity true)

  abbrev pub keep_directory : Entry → ConflictPolicy → Metadata → M F Status CreatedTarget
  keep_directory entry policy m =
      lift (validate_existing_materialize_target entry.kind m policy)
      >> pure (directory_target entry.target_path m.identity false)

  unfoldable pub create_materialized_directory : Entry → ConflictPolicy → M F Status CreatedTarget
  unfolding look_of validate_existing_materialize_target
  create_materialized_directory entry policy w =
      elim (look_of (F.symlink_metadata entry.target_path w.files)) [
        | there m ↦ keep_directory entry policy m w
        | absent ↦ make_directory entry w
        | unclear status ↦ throw status w
      ]

  unfoldable pub apply_mtime : F.Handle → ℤ → M F Status (Unit {0})
  apply_mtime handle mtime_nsec =
      act (F.futimens handle (seconds_of mtime_nsec) (nanoseconds_of mtime_nsec))

  -- A mode is cut to its low twelve bits.
  unfoldable pub apply_directory_metadata : Entry → FileIdentity → M F Status (Unit {0})
  unfolding apply_mtime
  apply_directory_metadata entry expected = do
    handle ← look (F.open_existing entry.target_path)
    m ← look (F.metadata handle)
    lift (Status.refuse (not (m.identity is expected)) Status.unavailable)
    act (F.set_permissions handle (entry.mode % 4096))
    apply_mtime handle entry.mtime_nsec

  -- What the path names now, if it is still the target.
  abbrev pub still_there : CreatedTarget → F.State → Bool
  still_there target s = elim (F.symlink_metadata target.path s) [
    | done m ↦ m.identity is target.identity
    | fail e ↦ false
  ]

  unfoldable pub restore_created_directory_permissions : CreatedTarget → F.State → F.State
  restore_created_directory_permissions target s =
      if still_there target s then (F.set_path_permissions target.path 448 s).0 else s

  -- The first loop of `cleanup_created_targets`.
  unfoldable pub restore_permissions : List CreatedTarget → F.State → F.State
  unfolding restore_created_directory_permissions
  restore_permissions [] s = s
  restore_permissions (target ∷ targets) s = restore_permissions targets (
      if not (is_file target.kind) && target.remove_on_cleanup
      then restore_created_directory_permissions target s
      else s)

  abbrev pub remove_kind : NodeKind → Str → F.State → F.State
  remove_kind file path s = (F.remove_file path s).0
  remove_kind directory path s = (F.remove_dir path s).0

  unfoldable pub remove_target : CreatedTarget → F.State → F.State
  remove_target target s =
      if target.remove_on_cleanup && still_there target s
      then remove_kind target.kind target.path s
      else s

  -- The second loop: the newest target first.
  unfoldable pub remove_targets : List CreatedTarget → F.State → F.State
  unfolding remove_target
  remove_targets [] s = s
  remove_targets (target ∷ targets) s = remove_target target (remove_targets targets s)

  unfoldable pub cleanup_created_targets : List CreatedTarget → F.State → F.State
  unfolding restore_permissions remove_targets
  cleanup_created_targets targets s = remove_targets targets (restore_permissions targets s)
