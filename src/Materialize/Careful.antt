-- ===== src/Materialize/Careful.antt =====
-- A whole materialization that may not overwrite.
use fuse_promise.Base.{ℕ, ◌≡◌, some}
use mathlib.Core.List.{reverse}
use fuse_promise.Ipc.Message.{MaterializeBody}
use fuse_promise.Materialize.Files.{FileIdentity, Files, IsLawful, Place}
use fuse_promise.Materialize.Data.{
  Progress, OperationError, without_progress, MaterializePlan, files_of, directories_of,
}
use fuse_promise.Materialize.Monad.{World, Either, raise, value, lift}
use fuse_promise.Materialize.Plan.{validate_materialize_request, plan_materialize}
use fuse_promise.Materialize.Planned.{plan_materialize_lem}
use fuse_promise.Materialize.Run.{
  Work, carry_out, start, materialize_node_in_state, answer_result, handle_materialize,
}
use fuse_promise.Materialize.Keeping.{
  IsKept, Keeps, Plain, AnyError, bind_lem, then_lem, rethrow_lem, lift_lem, pure_lem,
}
use fuse_promise.Materialize.Kept.{IsCareful}
use fuse_promise.Materialize.Working.{
  SparesWork, report_work, create_directories_lem, write_files_lem, finish_directories_lem,
  mark_entries_lem,
}

module _ (F : Files) (lawful : IsLawful F) (q : Place) (i : FileIdentity) where
  carry_out_lem :
      (process_id : ℕ) (plan : MaterializePlan) (work : Work) (w : World F)
      → IsCareful plan.conflict_policy
      → SparesWork F lawful q i work w
      → IsKept F q i w
      → Keeps F q i (Plain F q i) (AnyError F q i) (carry_out F process_id plan work w)
  unfolding carry_out
  carry_out_lem process_id plan work w careful spared kept =
      bind_lem F q i _ _ w
        (create_directories_lem F lawful q i (directories_of plan.entries) plan.conflict_policy work
          w spared kept)
        (λ made w1 kept1 spared1.
          bind_lem F q i _ _ w1
            (write_files_lem F lawful q i process_id plan.promise_id (files_of plan.entries)
              plan.conflict_policy made w1 careful spared1 kept1)
            (λ written w2 kept2 spared2.
              then_lem F q i _ _ w2
                (finish_directories_lem F lawful q i (directories_of (reverse plan.entries)) written
                  w2 spared2 kept2)
                (λ w3 kept3 p3.
                  then_lem F q i _ _ w3
                    (mark_entries_lem F lawful q i plan.promise_id plan.entries written w3 spared2
                      kept3)
                    (λ w4 kept4 p4. pure_lem F q i _ _ written w4 kept4 tt))))

  materialize_lem :
      (process_id : ℕ) (body : MaterializeBody) (w : World F)
      → IsCareful body.conflict_policy
      → IsKept F q i w
      → Keeps F q i (Plain F q i) (AnyError F q i) (materialize_node_in_state F process_id body w)
  unfolding materialize_node_in_state
  materialize_lem process_id body w careful kept =
      then_lem F q i _ _ w
        (rethrow_lem F q i without_progress (lift (validate_materialize_request body)) w
          (λ e any. tt) (lift_lem F q i _ w kept))
        (λ w1 kept1 p1.
          bind_lem F q i _ _ w1
            (rethrow_lem F q i without_progress (plan_materialize F body) w1 (λ e any. tt)
              (plan_materialize_lem F q i body w1 careful kept1))
            (λ plan w2 kept2 careful2.
              then_lem F q i _ _ w2 (report_work F lawful q i (start F plan) w2 tt kept2)
                (λ w3 kept3 p3.
                  bind_lem F q i _ _ w3
                    (carry_out_lem process_id plan (start F plan) w3 careful2 tt kept3)
                    (λ work w4 kept4 p4. pure_lem F q i _ _ work.progress w4 kept4 tt))))

  answer_lem :
      (result : World F × Either OperationError Progress)
      → IsKept F q i result.0
      → IsKept F q i (answer_result F result).0
  answer_lem (w, value progress) kept = kept
  answer_lem (w, raise error) kept = kept

  -- A materialization that is not told to overwrite leaves each directory entry that was there,
  -- other than `.` and `..`, linked to the same file or directory, however it ends, its
  -- cleaning up after an error included; of the file system it takes that what is created is
  -- none of the files that have an entry, that removing a path takes away entries of the file
  -- at the path only, that writing, stamping and changing permissions change no entry, and that
  -- no other process changes entries meanwhile.
  pub handle_materialize_careful :
      (process_id : ℕ) (body : MaterializeBody) (w : World F)
      → IsCareful body.conflict_policy
      → F.entry q w.files ≡ some i
      → F.entry q (handle_materialize F process_id body w).0.files ≡ some i
  unfolding handle_materialize
  handle_materialize_careful process_id body w careful kept =
      answer_lem (materialize_node_in_state F process_id body w)
        (materialize_lem process_id body w careful kept).kept
