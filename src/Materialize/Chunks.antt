-- ===== src/Materialize/Chunks.antt =====
-- `read_materialize_chunk`: a chunk of a promised file, from its provider while that is live,
-- else from what is materialized or cached.
use fuse_promise.Base.{ℕ, not, List, [], ◌∷◌, ◌==◌, Str, length, if◌then◌else◌}
use fuse_promise.Status
use fuse_promise.Status.{Status}
use fuse_promise.Node.{ProviderReadPlan, ReadPlan, request, materialized_plan, cached, eof}
use fuse_promise.Runtime.Reads.{plan_provider_read, plan_read}
use fuse_promise.Ipc.Message.{
  IoResult, done, fail, ProviderReadStatus, ProviderReadRequest, ProviderReadResponse, is_read_ok,
}
use fuse_promise.Ipc.State.{next_provider_read_request_id}
use fuse_promise.Ipc.Route.{Turn, route_provider_read}
use fuse_promise.Materialize.Files.{Files}
use fuse_promise.Materialize.Monad.{
  Either, raise, value, M, ◌>>=◌, ◌>>◌, pure, throw, lift, look, io_error_to_status,
}

unfoldable pub provider_read_status_to_status : ProviderReadStatus → Status
provider_read_status_to_status ProviderReadStatus.read_ok = Status.ok_status
provider_read_status_to_status ProviderReadStatus.invalid_argument = Status.invalid_argument
provider_read_status_to_status ProviderReadStatus.permission = Status.permission
provider_read_status_to_status ProviderReadStatus.not_found = Status.not_found
provider_read_status_to_status ProviderReadStatus.provider_gone = Status.provider_gone
provider_read_status_to_status ProviderReadStatus.io = Status.io
provider_read_status_to_status ProviderReadStatus.timeout = Status.timeout
provider_read_status_to_status ProviderReadStatus.cancelled = Status.cancelled

-- When no turn is given, the write succeeds and no other connection moves.
abbrev pub quiet : Turn
quiet = record { written = done tt; others = [] }

abbrev pub next_turn : List Turn → Turn × List Turn
next_turn [] = (quiet, [])
next_turn (turn ∷ turns) = (turn, turns)

abbrev pub read_request : ℕ → ProviderReadPlan → ProviderReadRequest
read_request request_id plan = record {
  request_id = request_id;
  provider_id = plan.provider_id;
  promise_id = plan.promise_id;
  relative_path = plan.relative_path;
  provider_node_id = plan.provider_node_id;
  offset = plan.offset;
  length = plan.length;
}

abbrev pub bytes_of : IoResult ProviderReadResponse → Either Status (List ℕ)
bytes_of (fail kind) = raise (io_error_to_status kind)
bytes_of (done response) =
    if is_read_ok response.status
    then value response.bytes
    else raise (provider_read_status_to_status response.status)

module _ (F : Files) where
  unfoldable pub read_materialize_provider_chunk : ProviderReadPlan → M F Status (List ℕ)
  unfolding next_provider_read_request_id route_provider_read io_error_to_status
      provider_read_status_to_status
  read_materialize_provider_chunk plan w =
      let (st, request_id) = next_provider_read_request_id w.ipc in
      let (turn, turns) = next_turn w.turns in
      let (st', answer) = route_provider_read (read_request request_id plan) turn st in
      (record w { ipc = st'; turns = turns }, bytes_of answer)

  unfoldable pub read_local_materialized_chunk : Str → ℕ → ℕ → M F Status (List ℕ)
  read_local_materialized_chunk path offset count = do
    handle ← look (F.open_existing path)
    bytes ← look (F.read_at handle offset count)
    lift (Status.refuse (not (length bytes == count)) Status.io)
    pure bytes

  abbrev pub serve_chunk : ReadPlan → M F Status (List ℕ)
  serve_chunk (request plan) = read_materialize_provider_chunk plan
  serve_chunk (materialized_plan plan) =
      read_local_materialized_chunk plan.path plan.offset plan.length
  serve_chunk (cached bytes) = pure bytes
  serve_chunk eof = throw Status.io

  -- Behind a provider that is gone: what `plan_read` finds.
  abbrev pub read_without_provider : Str → Str → ℕ → ℕ → M F Status (List ℕ)
  read_without_provider promise_id relative_path offset count w =
      (lift (plan_read w.ipc.runtime promise_id relative_path offset count) >>= serve_chunk) w

  abbrev pub read_planned : Str → Str → ℕ → ℕ → Status.Result ProviderReadPlan → M F Status (List ℕ)
  read_planned promise_id relative_path offset count (Status.ok plan) =
      read_materialize_provider_chunk plan
  read_planned promise_id relative_path offset count (Status.err Status.provider_gone) =
      read_without_provider promise_id relative_path offset count
  read_planned promise_id relative_path offset count (Status.err status) = throw status

  unfoldable pub read_materialize_chunk : Str → Str → ℕ → ℕ → M F Status (List ℕ)
  unfolding read_materialize_provider_chunk read_local_materialized_chunk plan_provider_read
      plan_read
  read_materialize_chunk promise_id relative_path offset count w =
      read_planned promise_id relative_path offset count
        (plan_provider_read w.ipc.runtime promise_id relative_path offset count) w
