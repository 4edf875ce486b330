-- ===== src/Ipc/Steps.antt =====
-- The steps of other connections, and the messages for a reader.
use fuse_promise.Base.{
  ℕ, ◌≡◌, ◌≢◌, refl, ap, ◌∙◌, some, List, [], ◌∷◌, ◌++◌, ◌==◌, lookup, ℕ_key, Bool-cases,
  Option-cases, inl, inr, All, All-append, lookup-All, insert-All, remove-All, BTreeMap,
}
use mathlib.Core.List.{append_assoc}
use fuse_promise.Node.{ProviderId, from_raw}
use fuse_promise.Ipc.Message.{
  IoResult, done, fail, ErrorKind, ProviderReadRequest, ProviderReadResponse,
}
use fuse_promise.Ipc.State.{
  IpcState, PendingRead, read_result, answer_pending, complete_provider_read,
  disconnect_provider_id, fail_provider_pending_reads, failures_of, start_provider_read,
  after_write, remove_pending_read, read_timed_out,
}
use fuse_promise.Ipc.Route.{
  Step, answers, disconnects, starts, gives_up, changes, take_step, take_steps,
}
use fuse_promise.Ipc.Delivery.{delivery_lem}
use fuse_promise.Ipc.Started.{
  registered_state, IsSent, refused, duplicate, sent_off, start_provider_read-IsSent,
}
use fuse_promise.Ipc.Waiting.{
  from_body_cases, IsAnswer, IsOwn, IsSource, IsMessage, IsWaiting, others_lem,
}

module _ (request : ProviderReadRequest) (Q : ProviderReadResponse → Type 0) where
  failures_lem :
      (provider_id : ℕ) (kind : ErrorKind) (m : BTreeMap ℕ PendingRead)
      → All (IsMessage request Q) (failures_of provider_id kind m)
  unfolding failures_of
  failures_lem provider_id kind [] = tt
  failures_lem provider_id kind ((id, pending) ∷ m) =
      elim (Bool-cases (pending.provider_id == provider_id)) [
        | inl e ↦ rw e ((λ same. tt), failures_lem provider_id kind m)
        | inr e ↦ rw e (failures_lem provider_id kind m)
      ]

  disconnect_lem :
      {earlier : List (ℕ × IoResult ProviderReadResponse)} (provider_id : ℕ) (st : IpcState)
      → IsWaiting request Q earlier st
      → IsWaiting request Q earlier (disconnect_provider_id provider_id st)
  unfolding disconnect_provider_id fail_provider_pending_reads
  disconnect_lem {earlier} provider_id st h = elim (Option-cases (from_raw provider_id)) [
    | inl e ↦
        rw (e, disconnect_provider_id)
          (record { later = h.later; sent_lem = h.sent_lem; good = h.good; own = h.own })
    | inr (id, e) ↦
        let failures = failures_of provider_id ErrorKind.broken_pipe st.pending_reads in
        rw (e, disconnect_provider_id)
          (record {
            later = h.later ++ failures;
            sent_lem = ap (λ l. l ++ failures) h.sent_lem ∙ append_assoc earlier h.later failures;
            good =
                All-append (IsMessage request Q) h.later failures h.good
                  (failures_lem provider_id ErrorKind.broken_pipe st.pending_reads);
            own = others_lem request provider_id st.pending_reads h.own;
          })
  ]

  pending-IsOwn :
      (id : ℕ) (m : BTreeMap ℕ PendingRead) {pending : PendingRead}
      → All (IsOwn request) m
      → lookup id m ≡ some pending
      → IsOwn request (id, pending)
  pending-IsOwn id m h e = lookup-All (IsOwn request) id m h e

  -- The message for a pending read is good.
  message_lem :
      (registered : List ProviderId) (body : ProviderReadResponse) (pending : PendingRead)
      → ((response : ProviderReadResponse)
          → IsAnswer request response (answers registered body)
          → Q response)
      → IsOwn request (body.request_id, pending)
      → IsMessage request Q (body.request_id, read_result registered pending body)
  message_lem registered body pending source own same =
      elim (delivery_lem registered pending body) [
        | inl (delivered, delivery) ↦ rw delivered (source body (refl, rw (own same) at delivery))
        | inr (e, failed) ↦ rw failed tt
      ]

  answer_pending_lem :
      {earlier : List (ℕ × IoResult ProviderReadResponse)} (registered : List ProviderId)
      (body : ProviderReadResponse) (st : IpcState)
      → ((response : ProviderReadResponse)
          → IsAnswer request response (answers registered body)
          → Q response)
      → IsWaiting request Q earlier st
      → IsWaiting request Q earlier (answer_pending registered body st).0
  unfolding answer_pending
  answer_pending_lem {earlier} registered body st source h =
      elim (Option-cases (lookup body.request_id st.pending_reads)) [
        | inl miss ↦ rw (miss, answer_pending) h
        | inr (pending, hit) ↦
            let own : IsOwn request (body.request_id, pending) =
              lookup-All (IsOwn request) body.request_id st.pending_reads h.own hit in
            let message : List (ℕ × IoResult ProviderReadResponse) =
              (body.request_id, read_result registered pending body) ∷ [] in
            rw (hit, answer_pending)
              (record {
                later = h.later ++ message;
                sent_lem = ap (λ l. l ++ message) h.sent_lem ∙ append_assoc earlier h.later message;
                good =
                    All-append (IsMessage request Q) h.later message h.good
                      (message_lem registered body pending source own, tt);
                own = remove-All (IsOwn request) body.request_id st.pending_reads h.own;
              })
      ]

  answer_lem :
      {earlier : List (ℕ × IoResult ProviderReadResponse)} (registered : List ProviderId)
      (body : ProviderReadResponse) (st : IpcState)
      → ((response : ProviderReadResponse)
          → IsAnswer request response (answers registered body)
          → Q response)
      → IsWaiting request Q earlier st
      → IsWaiting request Q earlier (complete_provider_read registered body st).0
  unfolding complete_provider_read
  answer_lem {earlier} registered body st source h = elim (from_body_cases body) [
    | inl same ↦ rw (same, complete_provider_read) (answer_pending_lem registered body st source h)
    | inr (e, invalid) ↦ rw (invalid, complete_provider_read) h
  ]

  removed_lem :
      {earlier : List (ℕ × IoResult ProviderReadResponse)} (id : ℕ) (st : IpcState)
      → IsWaiting request Q earlier st
      → IsWaiting request Q earlier (remove_pending_read id st)
  unfolding remove_pending_read
  removed_lem id st h = record {
    later = h.later;
    sent_lem = h.sent_lem;
    good = h.good;
    own = remove-All (IsOwn request) id st.pending_reads h.own;
  }

  after_write_lem :
      {earlier : List (ℕ × IoResult ProviderReadResponse)} (body : ProviderReadRequest)
      (written : IoResult (Unit {0})) (st : IpcState)
      → IsWaiting request Q earlier st
      → IsWaiting request Q earlier (after_write body written st).0
  unfolding after_write
  after_write_lem body (done u) st h = h
  after_write_lem body (fail e) st h =
      disconnect_lem body.provider_id (remove_pending_read body.request_id st)
        (removed_lem body.request_id st h)

  registered_lem :
      {earlier : List (ℕ × IoResult ProviderReadResponse)} (other : ProviderReadRequest)
      (st : IpcState)
      → other.request_id ≢ request.request_id
      → IsWaiting request Q earlier st
      → IsWaiting request Q earlier (registered_state other st)
  registered_lem other st differs h = record {
    later = h.later;
    sent_lem = h.sent_lem;
    good = h.good;
    own =
        insert-All (IsOwn request) other.request_id
          (record { provider_id = other.provider_id; request = other }) st.pending_reads
          (λ same. absurd (differs same)) h.own;
  }

  start_lem :
      {earlier : List (ℕ × IoResult ProviderReadResponse)} (other : ProviderReadRequest)
      (written : IoResult (Unit {0})) (st : IpcState) (result : IpcState × IoResult (Unit {0}))
      → other.request_id ≢ request.request_id
      → IsWaiting request Q earlier st
      → IsSent other written st result
      → IsWaiting request Q earlier result.0
  start_lem other written st r differs h (refused e) = h
  start_lem other written st r differs h (duplicate pending taken) =
      registered_lem other st differs h
  start_lem other written st r differs h (sent_off body free valid) =
      after_write_lem body written (registered_state other st) (registered_lem other st differs h)

  step_lem :
      {earlier : List (ℕ × IoResult ProviderReadResponse)} (step : Step) (st : IpcState)
      → IsSource request Q step
      → IsWaiting request Q earlier st
      → IsWaiting request Q earlier (take_step step st)
  unfolding take_step read_timed_out
  step_lem (answers registered body) st source h = answer_lem registered body st source.1 h
  step_lem (disconnects provider_id) st source h = disconnect_lem provider_id st h
  step_lem (starts other written) st source h =
      start_lem other written st (start_provider_read other written st) source.0 h
        (start_provider_read-IsSent other written st)
  step_lem (gives_up request_id) st source h = removed_lem request_id st h
  step_lem (changes runtime routes) st source h = record {
    later = h.later;
    sent_lem = h.sent_lem;
    good = h.good;
    own = h.own;
  }

  pub steps_lem :
      {earlier : List (ℕ × IoResult ProviderReadResponse)} (steps : List Step) (st : IpcState)
      → All (IsSource request Q) steps
      → IsWaiting request Q earlier st
      → IsWaiting request Q earlier (take_steps steps st)
  unfolding take_steps
  steps_lem [] st sources h = h
  steps_lem (step ∷ steps) st sources h =
      steps_lem steps (take_step step st) sources.1 (step_lem step st sources.0 h)
