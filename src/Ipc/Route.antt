-- ===== src/Ipc/Route.antt =====
-- `IpcState::route_provider_read` as a whole: the request is registered and written, the other
-- connections go on while the reader waits, and the wait ends by a message or by the timeout.
use fuse_promise.Base.{
  ℕ, Option, none, some, List, [], ◌∷◌, ◌==◌, BTreeMap, lookup, ℕ_key, drop, length, if◌then◌else◌,
}
use fuse_promise.Ipc.Message.{
  broken_pipe, IoResult, done, fail, ProviderReadRequest, ProviderReadResponse,
}
use fuse_promise.Node.{ProviderId}
use fuse_promise.Runtime.{Runtime}
use fuse_promise.Ipc.State.{
  IpcState, ProviderRoute, start_provider_read, read_timed_out, complete_provider_read,
  disconnect_provider_id,
}

-- What another connection does to the state: it answers a read of its provider, is cut off, starts
-- a read of its own, or changes the runtime or the routes.
pub data Step : Type 0 where
  answers : List ProviderId → ProviderReadResponse → Step
  disconnects : ℕ → Step
  starts : ProviderReadRequest → IoResult (Unit {0}) → Step
  gives_up : ℕ → Step
  changes : Runtime → BTreeMap ℕ ProviderRoute → Step

unfoldable pub take_step : Step → IpcState → IpcState
take_step (answers registered body) st = (complete_provider_read registered body st).0
take_step (disconnects provider_id) st = disconnect_provider_id provider_id st
take_step (starts request written) st = (start_provider_read request written st).0
take_step (gives_up request_id) st = (read_timed_out request_id st).0
take_step (changes runtime routes) st = record st { runtime = runtime; provider_routes = routes }

unfoldable pub take_steps : List Step → IpcState → IpcState
unfolding take_step
take_steps [] st = st
take_steps (step ∷ steps) st = take_steps steps (take_step step st)

-- How the write of the request ends, and what the other connections do during the wait.
pub record Turn : Type 0 where
  pub written : IoResult (Unit {0})
  pub others : List Step

-- The first message for a reader.
unfoldable pub received :
    ℕ → List (ℕ × IoResult ProviderReadResponse) → Option (IoResult ProviderReadResponse)
received request_id [] = none
received request_id ((id, message) ∷ rest) =
    let later = received request_id rest in if id == request_id then some message else later

-- Without a message: the sender is kept as long as the read is pending.
abbrev pub unanswered : ℕ → IpcState → IpcState × IoResult ProviderReadResponse
unanswered request_id st = elim (lookup request_id st.pending_reads) [
  | none ↦ (st, fail broken_pipe)
  | some pending ↦ read_timed_out request_id st
]

abbrev pub end_wait :
    ℕ → IpcState → Option (IoResult ProviderReadResponse) → IpcState × IoResult ProviderReadResponse
end_wait request_id st (some message) = (st, message)
end_wait request_id st none = unanswered request_id st

-- `recv_timeout`: the messages that came behind the first `seen` ones.
unfoldable pub wait : ℕ → ℕ → IpcState → IpcState × IoResult ProviderReadResponse
unfolding received read_timed_out
wait request_id seen st = end_wait request_id st (received request_id (drop seen st.sent))

abbrev pub started :
    ProviderReadRequest
    → List Step
    → IpcState × IoResult (Unit {0})
    → IpcState × IoResult ProviderReadResponse
started request others (st, fail e) = (st, fail e)
started request others (st, done u) =
    wait request.request_id (length st.sent) (take_steps others st)

unfoldable pub route_provider_read :
    ProviderReadRequest → Turn → IpcState → IpcState × IoResult ProviderReadResponse
unfolding wait take_steps
route_provider_read request turn st =
    started request turn.others (start_provider_read request turn.written st)
