-- ===== src/Materialize/Kept.antt =====
-- The calls of a materialization that create, open and stamp files, and the files that are there,
-- under a policy that does not overwrite.
use fuse_promise.Base.{ℕ, ◌%◌, ◌≡◌, ◌≢◌, refl, ap, sym, ◌∙◌, true, false, none, some, Str, inl, inr}
use fuse_promise.Node.{ℤ}
use fuse_promise.Ipc.Message.{ConflictPolicy, fail_policy, overwrite, rename}
use fuse_promise.Materialize.Files.{
  FileIdentity, Metadata, Files, identity_of, identity_at, IsLawful, Place,
}
use fuse_promise.Materialize.Data.{
  Entry, CreatedTarget, WriteError, with_target, without_created_target,
}
use fuse_promise.Materialize.Monad.{World}
use fuse_promise.Materialize.Targets.{
  Look, there, absent, unclear, look_of, directory_target, make_directory, keep_directory,
  create_materialized_directory, apply_mtime, apply_directory_metadata, seconds_of, nanoseconds_of,
}
use fuse_promise.Materialize.Free.{Look-cases}
use fuse_promise.Materialize.Output.{
  FileTarget, file_target, open_materialize_output, open_final_materialized_file, open_target,
  open_materialized_file, finalize_materialized_file,
}
use fuse_promise.Materialize.Cleanup.{IsSpared}
use fuse_promise.Materialize.Keeping.{
  IsKept, Keeps, Plain, AnyError, bind_lem, then_lem, rethrow_lem, lift_lem, look_lem, act_lem,
  pure_lem, look_post, act_post,
}

-- The policies that do not overwrite.
abbrev pub IsCareful : ConflictPolicy → Type 0
IsCareful fail_policy = Unit {0}
IsCareful overwrite = ⊥
IsCareful rename = Unit {0}

module _ (F : Files) (lawful : IsLawful F) (q : Place) (i : FileIdentity) where
  abbrev pub Spares : CreatedTarget → World F → Type 0
  Spares target w = IsSpared i target

  pub apply_mtime_lem :
      (handle : F.Handle) (mtime_nsec : ℤ) (w : World F)
      → IsKept F q i w
      → Keeps F q i (Plain F q i) (AnyError F q i) (apply_mtime F handle mtime_nsec w)
  unfolding apply_mtime
  apply_mtime_lem handle mtime_nsec w kept =
      act_lem F q i (F.futimens handle (seconds_of mtime_nsec) (nanoseconds_of mtime_nsec)) w
        (lawful.futimens_entry w.files handle q (seconds_of mtime_nsec) (nanoseconds_of mtime_nsec))
        kept

  pub apply_directory_metadata_lem :
      (entry : Entry) (expected : FileIdentity) (w : World F)
      → IsKept F q i w
      → Keeps F q i (Plain F q i) (AnyError F q i) (apply_directory_metadata F entry expected w)
  unfolding apply_directory_metadata
  apply_directory_metadata_lem entry expected w kept =
      bind_lem F q i _ _ w (look_lem F q i (F.open_existing entry.target_path) w kept)
        (λ handle w1 kept1 p1.
          bind_lem F q i _ _ w1 (look_lem F q i (F.metadata handle) w1 kept1) (λ m w2 kept2 p2.
            then_lem F q i _ _ w2 (lift_lem F q i _ w2 kept2) (λ w3 kept3 p3.
              then_lem F q i _ _ w3
                (act_lem F q i (F.set_permissions handle (entry.mode % 4096)) w3
                  (lawful.set_permissions_entry w3.files handle q (entry.mode % 4096)) kept3)
                (λ w4 kept4 p4. apply_mtime_lem handle entry.mtime_nsec w4 kept4))))

  -- A new directory is not the file.
  make_directory_lem :
      (entry : Entry) (w : World F)
      → IsKept F q i w
      → Keeps F q i Spares (AnyError F q i) (make_directory F entry w)
  make_directory_lem entry w kept =
      let made = lawful.create_dir_entry w.files entry.target_path q 448 kept in
      then_lem F q i {Q = λ u v. identity_at F entry.target_path v.files ≢ some i} _ _ w
        (act_post F q i _ (F.create_dir entry.target_path 448) w made.0 (λ u e. made.1 e))
        (λ w1 kept1 fresh.
          bind_lem F q i {Q = λ m v. some m.identity ≢ some i} _ _ w1
            (look_post F q i _ (F.symlink_metadata entry.target_path) w1 kept1
              (λ m e same. fresh (ap identity_of e ∙ same)))
            (λ m w2 kept2 other.
              pure_lem F q i Spares (AnyError F q i)
                (directory_target F entry.target_path m.identity true) w2 kept2
                (λ removable same. other (ap some (sym same)))))

  keep_directory_lem :
      (entry : Entry) (policy : ConflictPolicy) (m : Metadata) (w : World F)
      → IsKept F q i w
      → Keeps F q i Spares (AnyError F q i) (keep_directory F entry policy m w)
  keep_directory_lem entry policy m w kept =
      then_lem F q i _ _ w (lift_lem F q i _ w kept) (λ w1 kept1 p.
        pure_lem F q i Spares (AnyError F q i)
          (directory_target F entry.target_path m.identity false) w1 kept1 (λ removable. cc))

  pub create_materialized_directory_lem :
      (entry : Entry) (policy : ConflictPolicy) (w : World F)
      → IsKept F q i w
      → Keeps F q i Spares (AnyError F q i) (create_materialized_directory F entry policy w)
  unfolding create_materialized_directory
  create_materialized_directory_lem entry policy w kept =
      elim (Look-cases (look_of (F.symlink_metadata entry.target_path w.files))) [
        | inl (m, e) ↦
            rw (create_materialized_directory, e) (keep_directory_lem entry policy m w kept)
        | inr (inl e) ↦ rw (create_materialized_directory, e) (make_directory_lem entry w kept)
        | inr (inr (x, e)) ↦
            rw (create_materialized_directory, e) (record { kept = kept; good = tt })
      ]

  -- A new file is not the file.
  open_materialize_output_lem :
      (path : Str) (w : World F)
      → IsKept F q i w
      → Keeps F q i (λ opened v. i ≢ opened.1) (AnyError F q i) (open_materialize_output F path w)
  unfolding open_materialize_output
  open_materialize_output_lem path w kept =
      let opened = lawful.open_new_entry w.files path q 384 kept in
      bind_lem F q i {Q = λ handle v. identity_of (F.metadata handle v.files) ≢ some i} _ _ w
        (act_post F q i _ (F.open_new path 384) w opened.0 (λ handle e. opened.1 handle e))
        (λ handle w1 kept1 fresh.
          bind_lem F q i {Q = λ m v. i ≢ m.identity} _ _ w1
            (look_post F q i _ (F.metadata handle) w1 kept1
              (λ m e same. fresh (ap identity_of e ∙ ap some (sym same))))
            (λ m w2 kept2 other. pure_lem F q i _ _ (handle, m.identity) w2 kept2 other))

  -- The file to write is spared, and it is not renamed in the end.
  pub record IsFresh (target : FileTarget F) : Type 0 where
    pub spared : IsSpared i target.write_target
    pub stays : target.replace_on_success ≡ false
    pub differs : i ≢ target.write_target.identity

  abbrev pub Fresh : FileTarget F → World F → Type 0
  Fresh target w = IsFresh target

  open_final_lem :
      (entry : Entry) (w : World F)
      → IsKept F q i w
      → Keeps F q i Fresh (AnyError F q i) (open_final_materialized_file F entry true w)
  unfolding open_final_materialized_file
  open_final_lem entry w kept =
      bind_lem F q i _ _ w (open_materialize_output_lem entry.target_path w kept)
        (λ opened w1 kept1 differs.
          pure_lem F q i Fresh _ _ w1 kept1
            (record { spared = λ removable. differs; stays = refl; differs = differs }))

  -- An error that names a target names one that is spared.
  abbrev pub SparesError : WriteError → Type 0
  SparesError error = elim error.target as (λ x. Type 0) [
    | none ↦ Unit {0}
    | some target ↦ IsSpared i target
  ]

  open_target_lem :
      (process_id : ℕ) (entry : Entry) (policy : ConflictPolicy) (found : Look) (w : World F)
      → IsCareful policy
      → IsKept F q i w
      → Keeps F q i Fresh (AnyError F q i) (open_target F process_id entry policy found w)
  open_target_lem process_id entry fail_policy (there m) w careful kept =
      then_lem F q i _ _ w (lift_lem F q i _ w kept) (λ w1 kept1 p. open_final_lem entry w1 kept1)
  open_target_lem process_id entry rename (there m) w careful kept =
      then_lem F q i _ _ w (lift_lem F q i _ w kept) (λ w1 kept1 p. open_final_lem entry w1 kept1)
  open_target_lem process_id entry overwrite (there m) w careful kept = absurd careful
  open_target_lem process_id entry policy absent w careful kept = open_final_lem entry w kept
  open_target_lem process_id entry policy (unclear code) w careful kept = record {
    kept = kept;
    good = tt;
  }

  pub open_materialized_file_lem :
      (process_id : ℕ) (entry : Entry) (policy : ConflictPolicy) (w : World F)
      → IsCareful policy
      → IsKept F q i w
      → Keeps F q i Fresh SparesError (open_materialized_file F process_id entry policy w)
  unfolding open_materialized_file without_created_target
  open_materialized_file_lem process_id entry policy w careful kept =
      let found = look_of (F.symlink_metadata entry.target_path w.files) in
      rethrow_lem F q i without_created_target (open_target F process_id entry policy found) w
        (λ e any. tt) (open_target_lem process_id entry policy found w careful kept)

  pub finalize_materialized_file_lem :
      (target : FileTarget F) (bytes_written : ℕ) (w : World F)
      → IsFresh target
      → IsKept F q i w
      → Keeps F q i Spares SparesError (finalize_materialized_file F target bytes_written w)
  unfolding finalize_materialized_file with_target
  finalize_materialized_file_lem target bytes_written w fresh kept =
      rw (finalize_materialized_file, fresh.stays)
        (then_lem F q i _ _ w (pure_lem F q i (Plain F q i) SparesError tt w kept tt) (λ w1 kept1 p.
          pure_lem F q i Spares SparesError
            (file_target target.final_path target.write_target.identity
              target.final_remove_on_cleanup)
            w1 kept1 (λ removable. fresh.differs)))
