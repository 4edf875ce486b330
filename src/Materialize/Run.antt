-- ===== src/Materialize/Run.antt =====
-- `materialize_node_in_state` and `handle_materialize`.
use fuse_promise.Base.{
  ℕ, not, ◌&&◌, Option, none, some, List, [], ◌∷◌, ◌++◌, Str, str_key, wrapping_add, if◌then◌else◌,
}
use mathlib.Core.List.{reverse}
use fuse_promise.Status
use fuse_promise.Status.{Status}
use fuse_promise.Node.{is_file}
use fuse_promise.Runtime.{Runtime, mark_node_materialized}
use fuse_promise.Ipc.Message.{MaterializeBody, ConflictPolicy, ErrorCode}
use fuse_promise.Ipc.Session.{status_to_error_code}
use fuse_promise.Materialize.Files.{Files}
use fuse_promise.Materialize.Data.{
  Entry, MaterializePlan, CreatedTarget, Progress, WriteError, FileOutcome, OperationError,
  without_progress, with_progress, files_of, directories_of, new_progress, has_partial, FailedBody,
  to_failed_body,
}
use fuse_promise.Materialize.Monad.{
  World, Either, raise, value, M, ◌>>=◌, ◌>>◌, pure, rethrow, lift, of_result,
}
use fuse_promise.Materialize.Targets.{
  create_materialized_directory, apply_directory_metadata, cleanup_created_targets,
}
use fuse_promise.Path.{components}
use fuse_promise.Ipc.Resolve.{same_components}
use fuse_promise.Materialize.Plan.{validate_materialize_request, plan_materialize}
use fuse_promise.Materialize.Copy.{report_progress, write_materialized_file}

-- The targets so far, oldest first, and the progress.
pub record Work : Type 0 where
  pub created : List CreatedTarget
  pub progress : Progress

-- The first target that is a directory at the path.
unfoldable pub find_directory : Str → List CreatedTarget → Option CreatedTarget
unfolding same_components
find_directory path [] = none
find_directory path (target ∷ targets) =
    let later = find_directory path targets in
    if not (is_file target.kind) && same_components (components target.path) (components path)
    then some target
    else later

abbrev pub push : List CreatedTarget → Option CreatedTarget → List CreatedTarget
push targets none = targets
push targets (some target) = targets ++ (target ∷ [])

-- The progress behind a directory that was created or found.
abbrev pub directory_done : Progress → CreatedTarget → Progress
directory_done p target = record p {
  directories_created =
      if target.remove_on_cleanup
      then wrapping_add p.directories_created 1
      else p.directories_created;
  entries_done = wrapping_add p.entries_done 1;
}

abbrev pub file_done : Progress → FileOutcome → Progress
file_done p outcome = record p {
  bytes_written = wrapping_add p.bytes_written outcome.bytes_written;
  files_written = wrapping_add p.files_written 1;
  entries_done = wrapping_add p.entries_done 1;
}

module _ (F : Files) where
  -- An error of the operation: what was created is cleaned up first.
  unfoldable pub give_up : {A : Type 0} → Status → Work → M F OperationError A
  unfolding cleanup_created_targets with_progress
  give_up status work w = (
    record w { files = cleanup_created_targets F work.created w.files },
    raise (with_progress status work.progress),
  )

  abbrev pub or_give_up :
      {A : Type 0} → Work → World F × Either Status A → World F × Either OperationError A
  or_give_up work (w, value a) = (w, value a)
  or_give_up work (w, raise status) = give_up status work w

  abbrev pub report : Work → M F OperationError (Unit {0})
  report work w = or_give_up work (report_progress F work.progress w)

  abbrev pub with_directory : Work → CreatedTarget → Work
  with_directory work target = record {
    created = work.created ++ (target ∷ []);
    progress = directory_done work.progress target;
  }

  abbrev pub add_directory : Entry → ConflictPolicy → Work → M F OperationError Work
  add_directory entry policy work =
      (λ w. or_give_up work (create_materialized_directory F entry policy w)) >>= λ target.
      report (with_directory work target) >> pure (with_directory work target)

  -- The first loop.
  unfoldable pub create_directories : List Entry → ConflictPolicy → Work → M F OperationError Work
  unfolding create_materialized_directory report_progress
  create_directories [] policy work = pure work
  create_directories (entry ∷ entries) policy work =
      add_directory entry policy work >>= λ next. create_directories entries policy next

  abbrev pub failed_work : Work → WriteError → Work
  failed_work work error = record {
    created = push work.created error.target;
    progress = record (work.progress) {
      bytes_written = wrapping_add work.progress.bytes_written error.bytes_written;
    };
  }

  abbrev pub with_file : Work → FileOutcome → Work
  with_file work outcome = record {
    created = work.created ++ (outcome.target ∷ []);
    progress = file_done work.progress outcome;
  }

  abbrev pub file_written :
      Work → World F × Either WriteError FileOutcome → World F × Either OperationError Work
  file_written work (w, raise error) = give_up error.status (failed_work work error) w
  file_written work (w, value outcome) =
      (report (with_file work outcome) >> pure (with_file work outcome)) w

  -- The second loop.
  unfoldable pub write_files :
      ℕ → Str → List Entry → ConflictPolicy → Work → M F OperationError Work
  unfolding write_materialized_file report_progress
  write_files process_id promise_id [] policy work = pure work
  write_files process_id promise_id (entry ∷ entries) policy work =
      (λ w.
        file_written work
          (write_materialized_file F process_id promise_id entry policy work.progress w))
      >>= λ next. write_files process_id promise_id entries policy next

  abbrev pub finish_directory : Entry → Work → Option CreatedTarget → M F OperationError (Unit {0})
  finish_directory entry work none w = give_up Status.io work w
  finish_directory entry work (some target) w =
      or_give_up work (apply_directory_metadata F entry target.identity w)

  -- The third loop, over the directories from the last to the first.
  unfoldable pub finish_directories : List Entry → Work → M F OperationError (Unit {0})
  unfolding find_directory apply_directory_metadata
  finish_directories [] work = pure tt
  finish_directories (entry ∷ entries) work =
      finish_directory entry work (find_directory entry.target_path work.created)
      >> finish_directories entries work

  abbrev pub marked_world :
      World F → Runtime × Status.Result (Unit {0}) → World F × Either Status (Unit {0})
  marked_world w (rt, r) = (record w { ipc = record (w.ipc) { runtime = rt } }, of_result r)

  -- The last loop: each entry's node points to what was written.
  unfoldable pub mark_entries : Str → List Entry → Work → M F OperationError (Unit {0})
  unfolding mark_node_materialized
  mark_entries promise_id [] work = pure tt
  mark_entries promise_id (entry ∷ entries) work =
      (λ w. or_give_up work (
        marked_world w (
          mark_node_materialized promise_id entry.relative_path (some entry.target_path)
            w.ipc.runtime)))
      >> mark_entries promise_id entries work

  -- The four loops, behind the plan.
  unfoldable pub carry_out : ℕ → MaterializePlan → Work → M F OperationError Work
  unfolding create_directories write_files finish_directories mark_entries files_of directories_of
  carry_out process_id plan work = do
    made ← create_directories (directories_of plan.entries) plan.conflict_policy work
    written ←
        write_files process_id plan.promise_id (files_of plan.entries) plan.conflict_policy made
    finish_directories (directories_of (reverse plan.entries)) written
    mark_entries plan.promise_id plan.entries written
    pure written

  abbrev pub start : MaterializePlan → Work
  start plan = record { created = []; progress = new_progress plan.target_path plan.entries }

  -- The progress at the end is the body of the answer.
  unfoldable pub materialize_node_in_state : ℕ → MaterializeBody → M F OperationError Progress
  unfolding validate_materialize_request plan_materialize new_progress carry_out without_progress
  materialize_node_in_state process_id body = do
    rethrow without_progress (lift (validate_materialize_request body))
    plan ← rethrow without_progress (plan_materialize F body)
    report (start plan)
    work ← carry_out process_id plan (start plan)
    pure work.progress

  -- The frame that ends the exchange.
  pub data Answer : Type 0 where
    materialized_answer : Progress → Answer
    failed_answer : FailedBody → Answer
    error_answer : ErrorCode → Answer

  abbrev pub failure_answer : OperationError → Option Progress → Answer
  failure_answer error none = error_answer (status_to_error_code error.status)
  failure_answer error (some progress) =
      if has_partial progress
      then failed_answer (to_failed_body error progress)
      else error_answer (status_to_error_code error.status)

  abbrev pub answer_result : World F × Either OperationError Progress → World F × Answer
  answer_result (w, value progress) = (w, materialized_answer progress)
  answer_result (w, raise error) = (w, failure_answer error error.progress)

  unfoldable pub handle_materialize : ℕ → MaterializeBody → World F → World F × Answer
  unfolding materialize_node_in_state has_partial to_failed_body status_to_error_code
  handle_materialize process_id body w = answer_result (materialize_node_in_state process_id body w)
