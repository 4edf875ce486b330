-- ===== src/Ipc/Answered.antt =====
-- The answer of a provider, and the reader that waits for it.
use fuse_promise.Base.{
  ◌≡◌, ◌≢◌, refl, ap, sym, ◌∙◌, false, none, some, List, [], ◌∷◌, ◌++◌, lookup, ℕ_key, All, length,
  drop, drop-append_self, lookup-insert_self, insert-All, same_refl, inl, inr, arith, if◌then◌else◌,
}
use mathlib.Core.List.{append_assoc, append-nil}
use fuse_promise.Node.{ProviderId}
use fuse_promise.Ipc.Message.{
  IoResult, done, ProviderReadRequest, ProviderReadResponse, nonempty, from_body, validate,
  validate_nonzero, validate_provider_read_response_for_request,
}
use fuse_promise.Ipc.State.{
  IpcState, PendingRead, read_result, answer_pending, complete_provider_read, start_provider_read,
  after_write,
}
use fuse_promise.Ipc.Route.{
  Step, answers, take_step, take_steps, received, started, wait, route_provider_read,
}
use fuse_promise.Ipc.Delivery.{IsDelivery}
use fuse_promise.Ipc.Started.{
  IsSent, refused, duplicate, sent_off, start_provider_read-IsSent, registered_state,
}
use fuse_promise.Ipc.Growing.{Messages, steps-IsGrown}
use fuse_promise.Ipc.Waiting.{IsOwn, free_lem}
use fuse_promise.Ipc.Unanswered.{steps_quiet}
use fuse_promise.Ipc.Quiet.{own_pending, IsQuiet, IsUnanswered, received-append, into_body-keeps}

-- A delivery to a request with an id passes the checks.
valid_delivery :
    (registered : List ProviderId) (pending : PendingRead) (response : ProviderReadResponse)
    → pending.request.request_id ≢ 0
    → IsDelivery registered pending response
    → (from_body response ≡ done response)
      × (read_result registered pending response ≡ done response)
unfolding from_body validate validate_nonzero read_result
    validate_provider_read_response_for_request
valid_delivery registered pending response nonzero d =
    let owner = d.owner in
    let same_id = d.same_id in
    let bounded = d.bounded in
    elim d.fits [
      | inl (good, fits) ↦ (ground arith, ground arith)
      | inr (bad, empty) ↦
          let nothing : nonempty response.bytes ≡ false = ap nonempty empty in
          (ground arith, ground arith)
    ]

-- The state once the delivery has been made.
delivered_state :
    (registered : List ProviderId) (pending : PendingRead) (response : ProviderReadResponse)
    (st : IpcState)
    → pending.request.request_id ≢ 0
    → IsDelivery registered pending response
    → lookup pending.request.request_id st.pending_reads ≡ some pending
    → (take_step (answers registered response) st).sent
      ≡ st.sent ++ ((pending.request.request_id, done response) ∷ [])
unfolding take_step complete_provider_read answer_pending
delivered_state registered pending response st nonzero d hit =
    let (valid, result) = valid_delivery registered pending response nonzero d in
    let found : lookup response.request_id st.pending_reads ≡ some pending = rw (d.same_id) hit in
    rw (valid, take_step, complete_provider_read, answer_pending, found, result, d.same_id) refl

take_steps-append :
    (steps others : List Step) (st : IpcState)
    → take_steps (steps ++ others) st ≡ take_steps others (take_steps steps st)
unfolding take_steps
take_steps-append [] others st = refl
take_steps-append (step ∷ steps) others st = take_steps-append steps others (take_step step st)

module _ (request : ProviderReadRequest) where
  -- The answer is the first message for the reader, and stays it.
  answer_sent :
      (earlier : Messages) (registered : List ProviderId) (response : ProviderReadResponse)
      (rest : List Step) (st : IpcState)
      → request.request_id ≢ 0
      → IsDelivery registered (own_pending request) response
      → IsUnanswered request earlier st
      → received request.request_id
          (drop (length earlier) (take_steps (answers registered response ∷ rest) st).sent)
        ≡ some (done response)
  unfolding take_steps received
  answer_sent earlier registered response rest st nonzero d h =
      let id = request.request_id in
      let st' = take_step (answers registered response) st in
      let message : Messages = (id, done response) ∷ [] in
      let (more, grown) = steps-IsGrown rest st' in
      let sent : (take_steps rest st').sent ≡ earlier ++ (h.later ++ (message ++ more)) =
        grown
        ∙ ap (λ l. l ++ more)
            (delivered_state registered (own_pending request) response st nonzero d h.pending)
        ∙ ap (λ l. (l ++ message) ++ more) h.sent_lem
        ∙ append_assoc (earlier ++ h.later) message more
        ∙ append_assoc earlier h.later (message ++ more) in
      ap (λ l. received id (drop (length earlier) l)) sent
      ∙ ap (received id) (drop-append_self earlier (h.later ++ (message ++ more)))
      ∙ received-append id h.later (message ++ more) h.silent
      ∙ ap (λ b. if b then some (done response) else received id more) (same_refl id)

  first_wait :
      (st : IpcState)
      → lookup request.request_id st.pending_reads ≡ none
      → IsUnanswered request st.sent (registered_state request st)
  unfolding received
  first_wait st free = record {
    later = [];
    sent_lem = sym (append-nil st.sent);
    silent = refl;
    own =
        insert-All (IsOwn request) request.request_id (own_pending request) st.pending_reads
          (λ same. refl) (free_lem request st.pending_reads free);
    pending = lookup-insert_self request.request_id (own_pending request) st.pending_reads;
  }

  started_answered :
      (registered : List ProviderId) (response : ProviderReadResponse) (before rest : List Step)
      (st : IpcState) (result : IpcState × IoResult (Unit {0}))
      → IsSent request (done tt) st result
      → result.1 ≡ done tt
      → All (IsQuiet request) before
      → IsDelivery registered (own_pending request) response
      → (started request (before ++ (answers registered response ∷ rest)) result).1 ≡ done response
  unfolding after_write wait
  started_answered registered response before rest st r (refused e) h quiet d = cc
  started_answered registered response before rest st r (duplicate pending taken) h quiet d = cc
  started_answered registered response before rest st r (sent_off body free valid) h quiet d =
      let st' = registered_state request st in
      let (same_id, same_provider, nonzero) = into_body-keeps request body valid in
      let arrived =
        answer_sent st.sent registered response rest (take_steps before st') nonzero d
          (steps_quiet request before st' quiet (first_wait st free)) in
      rw (take_steps-append before (answers registered response ∷ rest) st', arrived) refl

  -- A read that was registered and written returns the response that the provider answers with
  -- during the wait, when the response has the id of the request and fits it and the steps
  -- before it are about other reads and other providers; what happens behind it does not
  -- matter.
  pub route_provider_read_answered :
      (registered : List ProviderId) (response : ProviderReadResponse) (before rest : List Step)
      (st : IpcState)
      → (start_provider_read request (done tt) st).1 ≡ done tt
      → All (IsQuiet request) before
      → IsDelivery registered (own_pending request) response
      → (route_provider_read request
          (record { written = done tt; others = before ++ (answers registered response ∷ rest) })
          st).1
        ≡ done response
  unfolding route_provider_read
  route_provider_read_answered registered response before rest st e quiet delivery =
      started_answered registered response before rest st (start_provider_read request (done tt) st)
        (start_provider_read-IsSent request (done tt) st) e quiet delivery
