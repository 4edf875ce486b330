-- ===== src/Ipc/Growing.antt =====
-- The messages to the readers, over the steps of the other connections.
use fuse_promise.Base.{
  ℕ, ◌≡◌, refl, ap, sym, ◌∙◌, List, [], ◌∷◌, ◌++◌, lookup, ℕ_key, Option-cases, inl, inr,
}
use mathlib.Core.List.{append_assoc, append-nil}
use fuse_promise.Node.{ProviderId, from_raw}
use fuse_promise.Ipc.Message.{
  IoResult, done, fail, ProviderReadRequest, ProviderReadResponse, broken_pipe,
}
use fuse_promise.Ipc.State.{
  IpcState, read_result, answer_pending, complete_provider_read, disconnect_provider_id,
  fail_provider_pending_reads, failures_of, start_provider_read, after_write, remove_pending_read,
  read_timed_out,
}
use fuse_promise.Ipc.Route.{
  Step, answers, disconnects, starts, gives_up, changes, take_step, take_steps,
}
use fuse_promise.Ipc.Started.{
  IsSent, refused, duplicate, sent_off, start_provider_read-IsSent, registered_state,
}
use fuse_promise.Ipc.Waiting.{from_body_cases}

abbrev pub Messages : Type 0
Messages = List (ℕ × IoResult ProviderReadResponse)

abbrev pub IsGrown : IpcState → IpcState → Type 0
IsGrown st st' = (more : Messages) × (st'.sent ≡ st.sent ++ more)

same_lem : (st st' : IpcState) → st'.sent ≡ st.sent → IsGrown st st'
same_lem st st' h = ([], h ∙ sym (append-nil st.sent))

IsGrown-trans : (st st' st'' : IpcState) → IsGrown st st' → IsGrown st' st'' → IsGrown st st''
IsGrown-trans st st' st'' (more, h) (others, h') =
    (more ++ others, h' ∙ ap (λ l. l ++ others) h ∙ append_assoc st.sent more others)

disconnect-IsGrown :
    (provider_id : ℕ) (st : IpcState) → IsGrown st (disconnect_provider_id provider_id st)
unfolding disconnect_provider_id fail_provider_pending_reads
disconnect-IsGrown provider_id st = elim (Option-cases (from_raw provider_id)) [
  | inl e ↦ rw (e, disconnect_provider_id) (same_lem st st refl)
  | inr (id, e) ↦
      rw (e, disconnect_provider_id) (failures_of provider_id broken_pipe st.pending_reads, refl)
]

answer-IsGrown :
    (registered : List ProviderId) (body : ProviderReadResponse) (st : IpcState)
    → IsGrown st (answer_pending registered body st).0
unfolding answer_pending
answer-IsGrown registered body st = elim (Option-cases (lookup body.request_id st.pending_reads)) [
  | inl miss ↦ rw (miss, answer_pending) (same_lem st st refl)
  | inr (pending, hit) ↦
      rw (hit, answer_pending) ((body.request_id, read_result registered pending body) ∷ [], refl)
]

start-IsGrown :
    (request : ProviderReadRequest) (written : IoResult (Unit {0})) (st : IpcState)
    (result : IpcState × IoResult (Unit {0}))
    → IsSent request written st result
    → IsGrown st result.0
unfolding after_write remove_pending_read
start-IsGrown request written st r (refused e) = same_lem st st refl
start-IsGrown request written st r (duplicate pending taken) =
    same_lem st (registered_state request st) refl
start-IsGrown request (done u) st r (sent_off body free valid) =
    same_lem st (registered_state request st) refl
start-IsGrown request (fail e) st r (sent_off body free valid) =
    disconnect-IsGrown body.provider_id
      (remove_pending_read body.request_id (registered_state request st))

step-IsGrown : (step : Step) (st : IpcState) → IsGrown st (take_step step st)
unfolding take_step complete_provider_read read_timed_out remove_pending_read
step-IsGrown (answers registered body) st = elim (from_body_cases body) [
  | inl valid ↦ rw (valid, take_step, complete_provider_read) (answer-IsGrown registered body st)
  | inr (e, invalid) ↦ rw (invalid, take_step, complete_provider_read) (same_lem st st refl)
]
step-IsGrown (disconnects provider_id) st = disconnect-IsGrown provider_id st
step-IsGrown (starts request written) st =
    start-IsGrown request written st (start_provider_read request written st)
      (start_provider_read-IsSent request written st)
step-IsGrown (gives_up request_id) st = same_lem st (remove_pending_read request_id st) refl
step-IsGrown (changes runtime routes) st =
    same_lem st (record st { runtime = runtime; provider_routes = routes }) refl

pub steps-IsGrown : (steps : List Step) (st : IpcState) → IsGrown st (take_steps steps st)
unfolding take_steps
steps-IsGrown [] st = same_lem st st refl
steps-IsGrown (step ∷ steps) st =
    IsGrown-trans st (take_step step st) (take_steps steps (take_step step st))
      (step-IsGrown step st) (steps-IsGrown steps (take_step step st))
