-- ===== src/Materialize/Copy.antt =====
-- `write_materialized_file`: the loop over the chunks of a file, and the reports to the client.
use fuse_promise.Base.{
  ℕ, zero, suc, ◌-◌, ◌%◌, min, Bool, true, false, Option, none, some, List, [], ◌∷◌, ◌++◌, Str,
  length, ltb, checked_add, wrapping_add, if◌then◌else◌,
}
use fuse_promise.Status
use fuse_promise.Status.{Status}
use fuse_promise.Ipc.Message.{ConflictPolicy, max_provider_read_len}
use fuse_promise.Materialize.Files.{Files}
use fuse_promise.Materialize.Data.{Entry, Progress, WriteError, FileOutcome, with_target}
use fuse_promise.Materialize.Monad.{
  ClientReply, lost, goes_on, cancels, closes, sends_other, Either, raise, value, M, ◌>>=◌, ◌>>◌,
  continue, pure, throw, rethrow, lift, act,
}
use fuse_promise.Materialize.Targets.{apply_mtime}
use fuse_promise.Materialize.Chunks.{read_materialize_chunk}
use fuse_promise.Materialize.Output.{FileTarget, open_materialized_file, finalize_materialized_file}

abbrev pub next_reply : List ClientReply → ClientReply × List ClientReply
next_reply [] = (closes, [])
next_reply (reply ∷ replies) = (reply, replies)

abbrev pub answer_of : ClientReply → Either Status (Unit {0})
answer_of lost = raise Status.cancelled
answer_of goes_on = value tt
answer_of cancels = raise Status.cancelled
answer_of closes = raise Status.cancelled
answer_of sends_other = raise Status.invalid_argument

abbrev pub is_empty_chunk : List ℕ → Bool
is_empty_chunk [] = true
is_empty_chunk (b ∷ bs) = false

module _ (F : Files) where
  -- The closure of `handle_materialize`: a frame to the client, and its reply.
  unfoldable pub report_progress : Progress → M F Status (Unit {0})
  report_progress progress w =
      let (reply, replies) = next_reply w.client in
      (record w { client = replies; reported = w.reported ++ (progress ∷ []) }, answer_of reply)

  abbrev pub at_offset : Progress → ℕ → ℕ → Progress
  at_offset progress before offset = record progress { bytes_written = wrapping_add before offset }

  module _ (promise_id : Str) (entry : Entry) (target : FileTarget F) (progress : Progress) where
    -- An error of the loop names the file that is being written.
    abbrev pub failing : {A : Type 0} → ℕ → M F Status A → M F WriteError A
    failing offset step = rethrow (λ status. with_target status target.write_target offset) step

    -- One round: a chunk is read, written, counted and reported. The result is the new offset.
    unfoldable pub copy_chunk : ℕ → M F WriteError ℕ
    unfolding read_materialize_chunk with_target report_progress
    copy_chunk offset = do
      bytes ← failing offset (
          read_materialize_chunk F promise_id entry.relative_path offset
            (min (entry.size - offset) max_provider_read_len))
      failing offset (lift (Status.refuse (is_empty_chunk bytes) Status.io))
      failing offset (act (F.write_all target.file bytes))
      next ←
          failing offset
            (lift (Status.ok_or (checked_add offset (length bytes)) Status.invalid_argument))
      failing next (report_progress (at_offset progress progress.bytes_written next))
      pure next

    -- `while offset < entry.size`, with fuel; `none` means that the fuel ran out.
    unfoldable pub copy_loop : ℕ → ℕ → M F WriteError (Option ℕ)
    unfolding copy_chunk
    copy_loop zero offset w = if ltb offset entry.size then pure none w else pure (some offset) w
    copy_loop (suc fuel) offset w =
        let round = continue (copy_chunk offset w).0 (copy_chunk offset w).1 (copy_loop fuel) in
        if ltb offset entry.size then round else pure (some offset) w

    -- What follows the loop. The fuel does not run out: each round writes at least one byte.
    abbrev pub seal : Option ℕ → M F WriteError FileOutcome
    seal none = throw (with_target Status.io target.write_target 0)
    seal (some offset) = do
      failing offset (act (F.set_permissions target.file (entry.mode % 4096)))
      failing offset (apply_mtime F target.file entry.mtime_nsec)
      final ← finalize_materialized_file F target offset
      pure (record { bytes_written = offset; target = final })

  unfoldable pub write_materialized_file :
      ℕ → Str → Entry → ConflictPolicy → Progress → M F WriteError FileOutcome
  unfolding open_materialized_file copy_loop finalize_materialized_file apply_mtime with_target
  write_materialized_file process_id promise_id entry policy progress = do
    target ← open_materialized_file F process_id entry policy
    copied ← copy_loop promise_id entry target progress entry.size 0
    seal promise_id entry target progress copied
