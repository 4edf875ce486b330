-- ===== src/Materialize/Fetched.antt =====
-- The chunks of a copy and the reports of progress, and the files that are there.
use fuse_promise.Base.{ℕ, Str}
use fuse_promise.Status
use fuse_promise.Status.{Status}
use fuse_promise.Node.{ReadPlan, ProviderReadPlan, request, materialized_plan, cached, eof}
use fuse_promise.Runtime.Reads.{plan_provider_read}
use fuse_promise.Materialize.Files.{FileIdentity, Files, Place}
use fuse_promise.Materialize.Data.{Progress}
use fuse_promise.Materialize.Monad.{World, raise}
use fuse_promise.Materialize.Chunks.{
  read_materialize_provider_chunk, read_local_materialized_chunk, serve_chunk,
  read_without_provider, read_planned, read_materialize_chunk,
}
use fuse_promise.Materialize.Copy.{report_progress}
use fuse_promise.Materialize.Keeping.{
  IsKept, Keeps, Plain, AnyError, bind_lem, then_lem, plain_lem, lift_lem, look_lem, pure_lem,
}

module _ (F : Files) (q : Place) (i : FileIdentity) where
  provider_lem :
      (plan : ProviderReadPlan) (w : World F)
      → IsKept F q i w
      → Keeps F q i (Plain F q i) (AnyError F q i) (read_materialize_provider_chunk F plan w)
  unfolding read_materialize_provider_chunk
  provider_lem plan w kept = plain_lem F q i (read_materialize_provider_chunk F plan w) kept

  serve_lem :
      (plan : ReadPlan) (w : World F)
      → IsKept F q i w
      → Keeps F q i (Plain F q i) (AnyError F q i) (serve_chunk F plan w)
  unfolding read_local_materialized_chunk
  serve_lem (request plan) w kept = provider_lem plan w kept
  serve_lem (materialized_plan plan) w kept =
      bind_lem F q i _ _ w (look_lem F q i (F.open_existing plan.path) w kept)
        (λ handle w1 kept1 p1.
          bind_lem F q i _ _ w1 (look_lem F q i (F.read_at handle plan.offset plan.length) w1 kept1)
            (λ bytes w2 kept2 p2.
              then_lem F q i _ _ w2 (lift_lem F q i _ w2 kept2)
                (λ w3 kept3 p3. pure_lem F q i _ _ bytes w3 kept3 tt)))
  serve_lem (cached bytes) w kept = pure_lem F q i _ _ bytes w kept tt
  serve_lem eof w kept = record { kept = kept; good = tt }

  without_provider_lem :
      (promise_id relative_path : Str) (offset count : ℕ) (w : World F)
      → IsKept F q i w
      → Keeps F q i
          (Plain F q i)
          (AnyError F q i)
          (read_without_provider F promise_id relative_path offset count w)
  without_provider_lem promise_id relative_path offset count w kept =
      bind_lem F q i _ _ w (lift_lem F q i _ w kept) (λ plan w1 kept1 p. serve_lem plan w1 kept1)

  thrown :
      {A : Type 0} (e : Status) (w : World F)
      → IsKept F q i w
      → Keeps F q i (Plain F q i {A = A}) (AnyError F q i) (w, raise e)
  thrown e w kept = record { kept = kept; good = tt }

  planned_lem :
      (promise_id relative_path : Str) (offset count : ℕ) (r : Status.Result ProviderReadPlan)
      (w : World F)
      → IsKept F q i w
      → Keeps F q i
          (Plain F q i)
          (AnyError F q i)
          (read_planned F promise_id relative_path offset count r w)
  planned_lem promise_id relative_path offset count (Status.ok plan) w kept =
      provider_lem plan w kept
  planned_lem promise_id relative_path offset count (Status.err Status.ok_status) w kept =
      thrown Status.ok_status w kept
  planned_lem promise_id relative_path offset count (Status.err Status.invalid_argument) w kept =
      thrown Status.invalid_argument w kept
  planned_lem promise_id relative_path offset count (Status.err Status.unavailable) w kept =
      thrown Status.unavailable w kept
  planned_lem promise_id relative_path offset count (Status.err Status.permission) w kept =
      thrown Status.permission w kept
  planned_lem promise_id relative_path offset count (Status.err Status.not_found) w kept =
      thrown Status.not_found w kept
  planned_lem promise_id relative_path offset count (Status.err Status.already_exists) w kept =
      thrown Status.already_exists w kept
  planned_lem promise_id relative_path offset count (Status.err Status.provider_gone) w kept =
      without_provider_lem promise_id relative_path offset count w kept
  planned_lem promise_id relative_path offset count (Status.err Status.io) w kept =
      thrown Status.io w kept
  planned_lem promise_id relative_path offset count (Status.err Status.timeout) w kept =
      thrown Status.timeout w kept
  planned_lem promise_id relative_path offset count (Status.err Status.cancelled) w kept =
      thrown Status.cancelled w kept
  planned_lem promise_id relative_path offset count (Status.err Status.version_mismatch) w kept =
      thrown Status.version_mismatch w kept

  pub read_lem :
      (promise_id relative_path : Str) (offset count : ℕ) (w : World F)
      → IsKept F q i w
      → Keeps F q i
          (Plain F q i)
          (AnyError F q i)
          (read_materialize_chunk F promise_id relative_path offset count w)
  unfolding read_materialize_chunk
  read_lem promise_id relative_path offset count w kept =
      planned_lem promise_id relative_path offset count
        (plan_provider_read w.ipc.runtime promise_id relative_path offset count) w kept

  pub report_lem :
      (progress : Progress) (w : World F)
      → IsKept F q i w
      → Keeps F q i (Plain F q i) (AnyError F q i) (report_progress F progress w)
  unfolding report_progress
  report_lem progress w kept = plain_lem F q i (report_progress F progress w) kept
