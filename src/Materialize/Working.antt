-- ===== src/Materialize/Working.antt =====
-- The loops of a materialization that may not overwrite, and giving up in them.
use fuse_promise.Base.{ℕ, Option, none, some, List, [], ◌∷◌, Str, All, All-append}
use fuse_promise.Status.{Status}
use fuse_promise.Runtime.{mark_node_materialized}
use fuse_promise.Ipc.Message.{ConflictPolicy}
use fuse_promise.Materialize.Files.{FileIdentity, Files, IsLawful, Place}
use fuse_promise.Materialize.Data.{Entry, CreatedTarget, WriteError, FileOutcome}
use fuse_promise.Materialize.Monad.{World, Either, raise, value}
use fuse_promise.Materialize.Targets.{create_materialized_directory, apply_directory_metadata}
use fuse_promise.Materialize.Copy.{report_progress, write_materialized_file}
use fuse_promise.Materialize.Run.{
  Work, find_directory, push, give_up, or_give_up, report, with_directory, add_directory,
  create_directories, failed_work, with_file, file_written, write_files, finish_directory,
  finish_directories, marked_world, mark_entries,
}
use fuse_promise.Materialize.Cleanup.{IsSpared, cleanup_created_targets_other}
use fuse_promise.Materialize.Keeping.{
  IsKept, Keeps, Plain, AnyError, bind_lem, then_lem, plain_lem, pure_lem,
}
use fuse_promise.Materialize.Kept.{
  IsCareful, Spares, SparesError, apply_directory_metadata_lem, create_materialized_directory_lem,
}
use fuse_promise.Materialize.Copied.{write_materialized_file_lem}
use fuse_promise.Materialize.Fetched.{report_lem}

module _ (F : Files) (lawful : IsLawful F) (q : Place) (i : FileIdentity) where
  abbrev pub SparesWork : Work → World F → Type 0
  SparesWork work w = All (IsSpared i) work.created

  give_up_lem :
      {A : Type 0} {Q : A → World F → Type 0} (code : Status) (work : Work) (w : World F)
      → SparesWork work w
      → IsKept F q i w
      → Keeps F q i Q (AnyError F q i) (give_up F code work w)
  unfolding give_up
  give_up_lem code work w spared kept = record {
    kept = cleanup_created_targets_other F lawful q i work.created w.files spared kept;
    good = tt;
  }

  or_give_up_lem :
      {A : Type 0} {Q : A → World F → Type 0} (work : Work) (result : World F × Either Status A)
      → SparesWork work result.0
      → Keeps F q i Q (AnyError F q i) result
      → Keeps F q i Q (AnyError F q i) (or_give_up F work result)
  or_give_up_lem work (w, value a) spared h = record { kept = h.kept; good = h.good }
  or_give_up_lem work (w, raise code) spared h = give_up_lem code work w spared h.kept

  pub report_work :
      (work : Work) (w : World F)
      → SparesWork work w
      → IsKept F q i w
      → Keeps F q i (Plain F q i) (AnyError F q i) (report F work w)
  report_work work w spared kept =
      or_give_up_lem work (report_progress F work.progress w) spared
        (report_lem F q i work.progress w kept)

  pub create_directories_lem :
      (entries : List Entry) (policy : ConflictPolicy) (work : Work) (w : World F)
      → SparesWork work w
      → IsKept F q i w
      → Keeps F q i SparesWork (AnyError F q i) (create_directories F entries policy work w)
  unfolding create_directories
  create_directories_lem [] policy work w spared kept =
      pure_lem F q i SparesWork _ work w kept spared
  create_directories_lem (entry ∷ entries) policy work w spared kept =
      bind_lem F q i {Q = SparesWork} (add_directory F entry policy work)
        (create_directories F entries policy) w
        (bind_lem F q i {Q = Spares F lawful q i}
          (λ v. or_give_up F work (create_materialized_directory F entry policy v)) _ w
          (or_give_up_lem work (create_materialized_directory F entry policy w) spared
            (create_materialized_directory_lem F lawful q i entry policy w kept))
          (λ target w1 kept1 target_spared.
            let next = with_directory F work target in
            let all =
              All-append (IsSpared i) work.created (target ∷ []) spared (target_spared, tt) in
            then_lem F q i _ _ w1 (report_work next w1 all kept1)
              (λ w2 kept2 p. pure_lem F q i SparesWork _ next w2 kept2 all)))
        (λ next w1 kept1 spared1. create_directories_lem entries policy next w1 spared1 kept1)

  push_lem :
      (targets : List CreatedTarget) (found : Option CreatedTarget)
      → All (IsSpared i) targets
      → (elim found as (λ x. Type 0) [ none ↦ Unit {0} | some target ↦ IsSpared i target ])
      → All (IsSpared i) (push targets found)
  push_lem targets none spared h = spared
  push_lem targets (some target) spared h =
      All-append (IsSpared i) targets (target ∷ []) spared (h, tt)

  file_written_lem :
      (work : Work) (result : World F × Either WriteError FileOutcome)
      → All (IsSpared i) work.created
      → Keeps F q i (λ outcome v. IsSpared i outcome.target) (SparesError F lawful q i) result
      → Keeps F q i SparesWork (AnyError F q i) (file_written F work result)
  file_written_lem work (w, value outcome) spared h =
      let next = with_file F work outcome in
      let all = All-append (IsSpared i) work.created (outcome.target ∷ []) spared (h.good, tt) in
      then_lem F q i _ _ w (report_work next w all h.kept)
        (λ w1 kept1 p. pure_lem F q i SparesWork _ next w1 kept1 all)
  file_written_lem work (w, raise error) spared h =
      give_up_lem error.status (failed_work F work error) w
        (push_lem work.created error.target spared h.good) h.kept

  pub write_files_lem :
      (process_id : ℕ) (promise_id : Str) (entries : List Entry) (policy : ConflictPolicy)
      (work : Work) (w : World F)
      → IsCareful policy
      → SparesWork work w
      → IsKept F q i w
      → Keeps F q i SparesWork
          (AnyError F q i)
          (write_files F process_id promise_id entries policy work w)
  unfolding write_files
  write_files_lem process_id promise_id [] policy work w careful spared kept =
      pure_lem F q i SparesWork _ work w kept spared
  write_files_lem process_id promise_id (entry ∷ entries) policy work w careful spared kept =
      bind_lem F q i {Q = SparesWork}
        (λ v.
          file_written F work
            (write_materialized_file F process_id promise_id entry policy work.progress v))
        (write_files F process_id promise_id entries policy) w
        (file_written_lem work
          (write_materialized_file F process_id promise_id entry policy work.progress w) spared
          (write_materialized_file_lem F q i lawful process_id promise_id entry policy work.progress
            w careful kept))
        (λ next w1 kept1 spared1.
          write_files_lem process_id promise_id entries policy next w1 careful spared1 kept1)

  finish_directory_lem :
      (entry : Entry) (work : Work) (found : Option CreatedTarget) (w : World F)
      → SparesWork work w
      → IsKept F q i w
      → Keeps F q i (Plain F q i) (AnyError F q i) (finish_directory F entry work found w)
  finish_directory_lem entry work none w spared kept = give_up_lem Status.io work w spared kept
  finish_directory_lem entry work (some target) w spared kept =
      or_give_up_lem work (apply_directory_metadata F entry target.identity w) spared
        (apply_directory_metadata_lem F lawful q i entry target.identity w kept)

  pub finish_directories_lem :
      (entries : List Entry) (work : Work) (w : World F)
      → SparesWork work w
      → IsKept F q i w
      → Keeps F q i (Plain F q i) (AnyError F q i) (finish_directories F entries work w)
  unfolding finish_directories
  finish_directories_lem [] work w spared kept = pure_lem F q i _ _ tt w kept tt
  finish_directories_lem (entry ∷ entries) work w spared kept =
      then_lem F q i (finish_directory F entry work (find_directory entry.target_path work.created))
        (finish_directories F entries work) w
        (finish_directory_lem entry work (find_directory entry.target_path work.created) w spared
          kept)
        (λ w1 kept1 p. finish_directories_lem entries work w1 spared kept1)

  pub mark_entries_lem :
      (promise_id : Str) (entries : List Entry) (work : Work) (w : World F)
      → SparesWork work w
      → IsKept F q i w
      → Keeps F q i (Plain F q i) (AnyError F q i) (mark_entries F promise_id entries work w)
  unfolding mark_entries
  mark_entries_lem promise_id [] work w spared kept = pure_lem F q i _ _ tt w kept tt
  mark_entries_lem promise_id (entry ∷ entries) work w spared kept =
      let marking = λ (v : World F). marked_world F v (
        mark_node_materialized promise_id entry.relative_path (some entry.target_path)
          v.ipc.runtime) in
      then_lem F q i (λ v. or_give_up F work (marking v)) (mark_entries F promise_id entries work) w
        (or_give_up_lem work (marking w) spared (plain_lem F q i (marking w) kept))
        (λ w1 kept1 p. mark_entries_lem promise_id entries work w1 spared kept1)
