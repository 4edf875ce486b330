-- ===== src/Ipc/Unanswered.antt =====
-- Quiet steps during a wait.
use fuse_promise.Base.{
  ℕ, ◌≢◌, ap, sym, ◌∙◌, none, some, List, [], ◌∷◌, ◌++◌, lookup, remove, ℕ_key, All, insert-All,
  remove-All, lookup-insert, lookup-remove, Option-cases, inl, inr, if◌then◌else◌,
}
use mathlib.Core.List.{append_assoc}
use fuse_promise.Node.{ProviderId, from_raw}
use fuse_promise.Ipc.Message.{
  IoResult, done, fail, ProviderReadRequest, ProviderReadResponse, broken_pipe,
}
use fuse_promise.Ipc.State.{
  IpcState, PendingRead, read_result, answer_pending, complete_provider_read,
  disconnect_provider_id, fail_provider_pending_reads, failures_of, start_provider_read,
  after_write, remove_pending_read, read_timed_out,
}
use fuse_promise.Ipc.Route.{
  Step, answers, disconnects, starts, gives_up, changes, take_step, take_steps, received,
}
use fuse_promise.Ipc.Started.{
  IsSent, refused, duplicate, sent_off, start_provider_read-IsSent, registered_state,
}
use fuse_promise.Ipc.Growing.{Messages}
use fuse_promise.Ipc.Waiting.{from_body_cases, IsOwn, others_lem}
use fuse_promise.Ipc.Quiet.{
  received-append, into_body-keeps, IsQuiet, IsUnanswered, miss_lem, failures_silent,
  others_pending,
}

module _ (request : ProviderReadRequest) where
  module _ {earlier : Messages} where
    -- A message for another reader.
    sent_elsewhere :
        (id : ℕ) (message : IoResult ProviderReadResponse) (st : IpcState)
        → id ≢ request.request_id
        → IsUnanswered request earlier st
        → IsUnanswered request earlier (record st {
          pending_reads = remove id st.pending_reads;
          sent = st.sent ++ ((id, message) ∷ []);
        })
    unfolding received
    sent_elsewhere id message st differs h = record {
      later = h.later ++ ((id, message) ∷ []);
      sent_lem =
          ap (λ l. l ++ ((id, message) ∷ [])) h.sent_lem
          ∙ append_assoc earlier h.later ((id, message) ∷ []);
      silent =
          received-append request.request_id h.later ((id, message) ∷ []) h.silent
          ∙ ap (λ b. if b then some message else none) (miss_lem request id differs);
      own = remove-All (IsOwn request) id st.pending_reads h.own;
      pending =
          lookup-remove id request.request_id st.pending_reads
          ∙ ap (λ b. if b then none else lookup request.request_id st.pending_reads)
              (miss_lem request id differs)
          ∙ h.pending;
    }

    removed_quiet :
        (id : ℕ) (st : IpcState)
        → id ≢ request.request_id
        → IsUnanswered request earlier st
        → IsUnanswered request earlier (remove_pending_read id st)
    unfolding remove_pending_read
    removed_quiet id st differs h = record {
      later = h.later;
      sent_lem = h.sent_lem;
      silent = h.silent;
      own = remove-All (IsOwn request) id st.pending_reads h.own;
      pending =
          lookup-remove id request.request_id st.pending_reads
          ∙ ap (λ b. if b then none else lookup request.request_id st.pending_reads)
              (miss_lem request id differs)
          ∙ h.pending;
    }

    registered_quiet :
        (other : ProviderReadRequest) (st : IpcState)
        → other.request_id ≢ request.request_id
        → IsUnanswered request earlier st
        → IsUnanswered request earlier (registered_state other st)
    registered_quiet other st differs h =
        let own : PendingRead = record { provider_id = other.provider_id; request = other } in
        record {
          later = h.later;
          sent_lem = h.sent_lem;
          silent = h.silent;
          own =
              insert-All (IsOwn request) other.request_id own st.pending_reads
                (λ same. absurd (differs same)) h.own;
          pending =
              lookup-insert other.request_id request.request_id own st.pending_reads
              ∙ ap (λ b. if b then some own else lookup request.request_id st.pending_reads)
                  (miss_lem request other.request_id differs)
              ∙ h.pending;
        }

    disconnect_quiet :
        (provider_id : ℕ) (st : IpcState)
        → provider_id ≢ request.provider_id
        → IsUnanswered request earlier st
        → IsUnanswered request earlier (disconnect_provider_id provider_id st)
    unfolding disconnect_provider_id fail_provider_pending_reads
    disconnect_quiet provider_id st differs h = elim (Option-cases (from_raw provider_id)) [
      | inl e ↦
          rw (e, disconnect_provider_id)
            (record {
              later = h.later;
              sent_lem = h.sent_lem;
              silent = h.silent;
              own = h.own;
              pending = h.pending;
            })
      | inr (id, e) ↦
          let failures = failures_of provider_id broken_pipe st.pending_reads in
          rw (e, disconnect_provider_id)
            (record {
              later = h.later ++ failures;
              sent_lem = ap (λ l. l ++ failures) h.sent_lem ∙ append_assoc earlier h.later failures;
              silent =
                  received-append request.request_id h.later failures h.silent
                  ∙ failures_silent request provider_id broken_pipe st.pending_reads differs h.own;
              own = others_lem request provider_id st.pending_reads h.own;
              pending = others_pending request provider_id st.pending_reads differs h.pending;
            })
    ]

    answer_quiet :
        (registered : List ProviderId) (body : ProviderReadResponse) (st : IpcState)
        → body.request_id ≢ request.request_id
        → IsUnanswered request earlier st
        → IsUnanswered request earlier (answer_pending registered body st).0
    unfolding answer_pending
    answer_quiet registered body st differs h =
        elim (Option-cases (lookup body.request_id st.pending_reads)) [
          | inl miss ↦ rw (miss, answer_pending) h
          | inr (pending, hit) ↦
              rw (hit, answer_pending)
                (sent_elsewhere body.request_id (read_result registered pending body) st differs h)
        ]

    start_quiet :
        (other : ProviderReadRequest) (written : IoResult (Unit {0})) (st : IpcState)
        (result : IpcState × IoResult (Unit {0}))
        → IsQuiet request (starts other written)
        → IsUnanswered request earlier st
        → IsSent other written st result
        → IsUnanswered request earlier result.0
    unfolding after_write
    start_quiet other (done u) st r quiet h (refused e) = h
    start_quiet other (fail e') st r quiet h (refused e) = h
    start_quiet other (done u) st r quiet h (duplicate pending taken) =
        registered_quiet other st quiet h
    start_quiet other (fail e') st r quiet h (duplicate pending taken) =
        registered_quiet other st quiet.0 h
    start_quiet other (done u) st r quiet h (sent_off body free valid) =
        registered_quiet other st quiet h
    start_quiet other (fail e') st r quiet h (sent_off body free valid) =
        let (same_id, same_provider, nonzero) = into_body-keeps other body valid in
        disconnect_quiet body.provider_id
          (remove_pending_read body.request_id (registered_state other st))
          (λ e. quiet.1 (sym same_provider ∙ e))
          (removed_quiet body.request_id (registered_state other st)
            (λ e. quiet.0 (sym same_id ∙ e)) (registered_quiet other st quiet.0 h))

    step_quiet :
        (step : Step) (st : IpcState)
        → IsQuiet request step
        → IsUnanswered request earlier st
        → IsUnanswered request earlier (take_step step st)
    unfolding take_step complete_provider_read read_timed_out
    step_quiet (answers registered body) st quiet h = elim (from_body_cases body) [
      | inl valid ↦
          rw (valid, take_step, complete_provider_read) (answer_quiet registered body st quiet h)
      | inr (e, invalid) ↦ rw (invalid, take_step, complete_provider_read) h
    ]
    step_quiet (disconnects provider_id) st quiet h = disconnect_quiet provider_id st quiet h
    step_quiet (starts other written) st quiet h =
        start_quiet other written st (start_provider_read other written st) quiet h
          (start_provider_read-IsSent other written st)
    step_quiet (gives_up request_id) st quiet h = removed_quiet request_id st quiet h
    step_quiet (changes runtime routes) st quiet h = record {
      later = h.later;
      sent_lem = h.sent_lem;
      silent = h.silent;
      own = h.own;
      pending = h.pending;
    }

    pub steps_quiet :
        (steps : List Step) (st : IpcState)
        → All (IsQuiet request) steps
        → IsUnanswered request earlier st
        → IsUnanswered request earlier (take_steps steps st)
    unfolding take_steps
    steps_quiet [] st quiet h = h
    steps_quiet (step ∷ steps) st quiet h =
        steps_quiet steps (take_step step st) quiet.1 (step_quiet step st quiet.0 h)
