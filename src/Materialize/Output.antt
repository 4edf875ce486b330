-- ===== src/Materialize/Output.antt =====
-- The file that is written: `open_materialized_file` with what it calls, and
-- `finalize_materialized_file`.
use fuse_promise.Base.{ℕ, zero, suc, Bool, true, false, Str, wrapping_add, if◌then◌else◌}
use fuse_promise.Status.{Status}
use fuse_promise.Node.{file}
use fuse_promise.Ipc.Message.{ConflictPolicy, fail_policy, overwrite, rename}
use fuse_promise.Materialize.Files.{Files, FileIdentity}
use fuse_promise.Materialize.Data.{
  Entry, CreatedTarget, WriteError, without_created_target, with_target,
}
use fuse_promise.Materialize.Monad.{
  World, Either, raise, value, M, ◌>>=◌, ◌>>◌, pure, throw, rethrow, lift, look, act,
}
use fuse_promise.Materialize.Names.{materialize_temp_path}
use fuse_promise.Materialize.Targets.{
  Look, there, absent, unclear, look_of, validate_existing_materialize_target,
}

abbrev pub file_target : Str → FileIdentity → Bool → CreatedTarget
file_target path identity remove_on_cleanup = record {
  path = path;
  identity = identity;
  kind = file;
  remove_on_cleanup = remove_on_cleanup;
}

module _ (F : Files) where
  -- `MaterializeFileTarget`.
  pub record FileTarget : Type 0 where
    pub file : F.Handle
    pub write_target : CreatedTarget
    pub final_path : Str
    pub final_remove_on_cleanup : Bool
    pub replace_on_success : Bool

  -- Mode 0o600.
  unfoldable pub open_materialize_output : Str → M F Status (F.Handle × FileIdentity)
  open_materialize_output path = do
    handle ← act (F.open_new path 384)
    m ← look (F.metadata handle)
    pure (handle, m.identity)

  unfoldable pub open_final_materialized_file : Entry → Bool → M F Status FileTarget
  unfolding open_materialize_output
  open_final_materialized_file entry remove_on_cleanup = do
    (handle, identity) ← open_materialize_output entry.target_path
    pure (record {
      file = handle;
      write_target = file_target entry.target_path identity remove_on_cleanup;
      final_path = entry.target_path;
      final_remove_on_cleanup = remove_on_cleanup;
      replace_on_success = false;
    })

  abbrev pub replacement : Entry → Str → F.Handle × FileIdentity → FileTarget
  replacement entry temp_path (handle, identity) = record {
    file = handle;
    write_target = file_target temp_path identity true;
    final_path = entry.target_path;
    final_remove_on_cleanup = false;
    replace_on_success = true;
  }

  -- A name that is taken is tried again with the next one.
  abbrev pub retry :
      World F × Either Status FileTarget
      → M F Status FileTarget
      → World F × Either Status FileTarget
  retry (w, value target) again = (w, value target)
  retry (w, raise Status.already_exists) again = again w
  retry (w, raise status) again = (w, raise status)

  abbrev pub open_temporary : ℕ → Entry → ℕ → M F Status FileTarget
  open_temporary process_id entry attempt = do
    temp_path ← lift (materialize_temp_path process_id entry.target_path attempt)
    opened ← open_materialize_output temp_path
    pure (replacement entry temp_path opened)

  -- The loop over the attempts, of which `left` are left; each takes the next number.
  unfoldable pub open_replacement : ℕ → ℕ → Entry → M F Status FileTarget
  unfolding open_materialize_output materialize_temp_path
  open_replacement process_id zero entry w = throw Status.already_exists w
  open_replacement process_id (suc left) entry w =
      let attempt = w.temp_counter in
      let w' = record w { temp_counter = wrapping_add attempt 1 } in
      let again = λ (v : World F). open_replacement process_id left entry v in
      retry (open_temporary process_id entry attempt w') again

  unfoldable pub open_replacement_materialized_file : ℕ → Entry → M F Status FileTarget
  unfolding open_replacement
  open_replacement_materialized_file process_id entry = open_replacement process_id 16 entry

  -- An existing target is replaced, a new one is written in place.
  abbrev pub open_existing_target : ℕ → Entry → ConflictPolicy → M F Status FileTarget
  open_existing_target process_id entry fail_policy = open_final_materialized_file entry true
  open_existing_target process_id entry overwrite =
      open_replacement_materialized_file process_id entry
  open_existing_target process_id entry rename = open_final_materialized_file entry true

  abbrev pub open_target : ℕ → Entry → ConflictPolicy → Look → M F Status FileTarget
  open_target process_id entry policy (there m) =
      lift (validate_existing_materialize_target entry.kind m policy)
      >> open_existing_target process_id entry policy
  open_target process_id entry policy absent = open_final_materialized_file entry true
  open_target process_id entry policy (unclear status) = throw status

  -- Every error up to here leaves no target to clean up.
  unfoldable pub open_materialized_file : ℕ → Entry → ConflictPolicy → M F WriteError FileTarget
  unfolding open_final_materialized_file open_replacement_materialized_file without_created_target
      look_of validate_existing_materialize_target
  open_materialized_file process_id entry policy w =
      rethrow without_created_target
        (open_target process_id entry policy
          (look_of (F.symlink_metadata entry.target_path w.files)))
        w

  unfoldable pub finalize_materialized_file : FileTarget → ℕ → M F WriteError CreatedTarget
  unfolding with_target
  finalize_materialized_file target bytes_written =
      (if target.replace_on_success
        then rethrow (λ status. with_target status target.write_target bytes_written)
            (act (F.rename target.write_target.path target.final_path))
        else pure tt)
      >> pure (
          file_target target.final_path target.write_target.identity target.final_remove_on_cleanup)
