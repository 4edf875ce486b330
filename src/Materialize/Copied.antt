-- ===== src/Materialize/Copied.antt =====
-- The copy of a file, and the other files that are there.
use fuse_promise.Base.{
  ℕ, zero, suc, ◌-◌, ◌%◌, min, Option, none, some, Str, length, inl, inr, Bool-cases, ltb,
  checked_add,
}
use fuse_promise.Status
use fuse_promise.Status.{Status}
use fuse_promise.Ipc.Message.{ConflictPolicy, max_provider_read_len}
use fuse_promise.Materialize.Files.{FileIdentity, Files, IsLawful, Place}
use fuse_promise.Materialize.Data.{Entry, Progress, with_target}
use fuse_promise.Materialize.Monad.{World, M, lift, act}
use fuse_promise.Materialize.Chunks.{read_materialize_chunk}
use fuse_promise.Materialize.Targets.{apply_mtime}
use fuse_promise.Materialize.Output.{FileTarget}
use fuse_promise.Materialize.Copy.{
  is_empty_chunk, report_progress, at_offset, failing, copy_chunk, copy_loop, seal,
  write_materialized_file,
}
use fuse_promise.Materialize.Cleanup.{IsSpared}
use fuse_promise.Materialize.Keeping.{
  IsKept, Keeps, Plain, AnyError, bind_lem, then_lem, rethrow_lem, lift_lem, act_lem, pure_lem,
  continue_lem,
}
use fuse_promise.Materialize.Kept.{
  IsCareful, SparesError, IsFresh, apply_mtime_lem, open_materialized_file_lem,
  finalize_materialized_file_lem,
}
use fuse_promise.Materialize.Fetched.{read_lem, report_lem}

module _ (F : Files) (q : Place) (i : FileIdentity) where
  module _ (lawful : IsLawful F) (promise_id : Str) (entry : Entry) (target : FileTarget F)
      (progress : Progress) where
    failing_lem :
        {A : Type 0} (offset : ℕ) (step : M F Status A) (w : World F)
        → IsFresh F lawful q i target
        → Keeps F q i (Plain F q i) (AnyError F q i) (step w)
        → Keeps F q i
            (Plain F q i)
            (SparesError F lawful q i)
            (failing F promise_id entry target progress offset step w)
    unfolding with_target
    failing_lem offset step w fresh h =
        rethrow_lem F q i (λ status. with_target status target.write_target offset) step w
          (λ e any. fresh.spared) h

    copy_chunk_lem :
        (offset : ℕ) (w : World F)
        → IsFresh F lawful q i target
        → IsKept F q i w
        → Keeps F q i
            (Plain F q i)
            (SparesError F lawful q i)
            (copy_chunk F promise_id entry target progress offset w)
    unfolding copy_chunk
    copy_chunk_lem offset w fresh kept =
        let wanted = min (entry.size - offset) max_provider_read_len in
        bind_lem F q i _ _ w
          (failing_lem offset
            (read_materialize_chunk F promise_id entry.relative_path offset wanted) w fresh
            (read_lem F q i promise_id entry.relative_path offset wanted w kept))
          (λ bytes w1 kept1 p1.
            then_lem F q i _ _ w1
              (failing_lem offset (lift (Status.refuse (is_empty_chunk bytes) Status.io)) w1 fresh
                (lift_lem F q i _ w1 kept1))
              (λ w2 kept2 p2.
                then_lem F q i _ _ w2
                  (failing_lem offset (act (F.write_all target.file bytes)) w2 fresh (
                    act_lem F q i (F.write_all target.file bytes) w2
                      (lawful.write_all_entry w2.files target.file q bytes) kept2))
                  (λ w3 kept3 p3.
                    bind_lem F q i _ _ w3
                      (failing_lem offset
                        (lift (
                          Status.ok_or (checked_add offset (length bytes)) Status.invalid_argument))
                        w3 fresh (lift_lem F q i _ w3 kept3))
                      (λ next w4 kept4 p4.
                        then_lem F q i _ _ w4
                          (failing_lem next
                            (report_progress F (at_offset F progress progress.bytes_written next))
                            w4 fresh
                            (report_lem F q i (at_offset F progress progress.bytes_written next) w4
                              kept4))
                          (λ w5 kept5 p5. pure_lem F q i _ _ next w5 kept5 tt)))))

    copy_loop_lem :
        (fuel offset : ℕ) (w : World F)
        → IsFresh F lawful q i target
        → IsKept F q i w
        → Keeps F q i
            (Plain F q i)
            (SparesError F lawful q i)
            (copy_loop F promise_id entry target progress fuel offset w)
    unfolding copy_loop
    copy_loop_lem zero offset w fresh kept = elim (Bool-cases (ltb offset entry.size)) [
      | inl more ↦ rw (copy_loop, more) (pure_lem F q i _ _ none w kept tt)
      | inr over ↦ rw (copy_loop, over) (pure_lem F q i _ _ (some offset) w kept tt)
    ]
    copy_loop_lem (suc fuel) offset w fresh kept = elim (Bool-cases (ltb offset entry.size)) [
      | inl more ↦
          let chunk = copy_chunk_lem offset w fresh kept in
          rw (copy_loop, more)
            (continue_lem F q i {Q = Plain F q i}
              (copy_chunk F promise_id entry target progress offset w).0
              (copy_chunk F promise_id entry target progress offset w).1
              (copy_loop F promise_id entry target progress fuel) chunk.kept chunk.good
              (λ next w1 kept1 p1. copy_loop_lem fuel next w1 fresh kept1))
      | inr over ↦ rw (copy_loop, over) (pure_lem F q i _ _ (some offset) w kept tt)
    ]

    seal_lem :
        (copied : Option ℕ) (w : World F)
        → IsFresh F lawful q i target
        → IsKept F q i w
        → Keeps F q i
            (λ outcome v. IsSpared i outcome.target)
            (SparesError F lawful q i)
            (seal F promise_id entry target progress copied w)
    unfolding with_target
    seal_lem none w fresh kept = record { kept = kept; good = fresh.spared }
    seal_lem (some offset) w fresh kept =
        then_lem F q i _ _ w
          (failing_lem offset (act (F.set_permissions target.file (entry.mode % 4096))) w fresh (
            act_lem F q i (F.set_permissions target.file (entry.mode % 4096)) w
              (lawful.set_permissions_entry w.files target.file q (entry.mode % 4096)) kept))
          (λ w1 kept1 p1.
            then_lem F q i _ _ w1
              (failing_lem offset (apply_mtime F target.file entry.mtime_nsec) w1 fresh
                (apply_mtime_lem F lawful q i target.file entry.mtime_nsec w1 kept1))
              (λ w2 kept2 p2.
                bind_lem F q i _ _ w2
                  (finalize_materialized_file_lem F lawful q i target offset w2 fresh kept2)
                  (λ final w3 kept3 spared.
                    pure_lem F q i _ _ (record { bytes_written = offset; target = final }) w3 kept3
                      spared)))

  pub write_materialized_file_lem :
      (lawful : IsLawful F) (process_id : ℕ) (promise_id : Str) (entry : Entry)
      (policy : ConflictPolicy) (progress : Progress) (w : World F)
      → IsCareful policy
      → IsKept F q i w
      → Keeps F q i
          (λ outcome v. IsSpared i outcome.target)
          (SparesError F lawful q i)
          (write_materialized_file F process_id promise_id entry policy progress w)
  unfolding write_materialized_file
  write_materialized_file_lem lawful process_id promise_id entry policy progress w careful kept =
      bind_lem F q i _ _ w
        (open_materialized_file_lem F lawful q i process_id entry policy w careful kept)
        (λ target w1 kept1 fresh.
          bind_lem F q i _ _ w1
            (copy_loop_lem lawful promise_id entry target progress entry.size 0 w1 fresh kept1)
            (λ copied w2 kept2 p2.
              seal_lem lawful promise_id entry target progress copied w2 fresh kept2))
