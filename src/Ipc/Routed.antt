-- ===== src/Ipc/Routed.antt =====
-- What `route_provider_read` returns to the reader.
use fuse_promise.Base.{
  ℕ, ◌≡◌, refl, ap, sym, ◌∙◌, some, List, [], ◌∷◌, ◌==◌, ==_iff, lookup, ℕ_key, Bool-cases,
  Option-cases, inl, inr, arith, length, drop, drop-append_self, All, Any, All-map, insert-All,
}
use mathlib.Core.List.{append-nil}
use fuse_promise.Ipc.Message.{IoResult, done, fail, ProviderReadRequest, ProviderReadResponse}
use fuse_promise.Ipc.State.{IpcState, start_provider_read, after_write, read_timed_out}
use fuse_promise.Ipc.Route.{Step, take_steps, Turn, received, started, wait, route_provider_read}
use fuse_promise.Ipc.Started.{
  registered_state, IsSent, refused, duplicate, sent_off, start_provider_read-IsSent,
}
use fuse_promise.Ipc.Steps.{steps_lem}
use fuse_promise.Ipc.Waiting.{IsAnswer, IsOther, IsOwn, IsSource, IsMessage, IsWaiting, free_lem}

module _ (request : ProviderReadRequest) where
  module _ (Q : ProviderReadResponse → Type 0) where
    received_lem :
        (later : List (ℕ × IoResult ProviderReadResponse)) {response : ProviderReadResponse}
        → All (IsMessage request Q) later
        → received request.request_id later ≡ some (done response)
        → Q response
    unfolding received
    received_lem [] h e = cc
    received_lem ((id, message) ∷ later) {response} h e =
        elim (Bool-cases (id == request.request_id)) [
          | inl hit ↦
              let found : message ≡ done response = ground arith in
              rw found at (h.0 ((==_iff id request.request_id).0 hit))
          | inr miss ↦ received_lem later h.1 (ground arith)
        ]

    waited_lem :
        (earlier : List (ℕ × IoResult ProviderReadResponse)) (st : IpcState)
        {response : ProviderReadResponse}
        → IsWaiting request Q earlier st
        → (wait request.request_id (length earlier) st).1 ≡ done response
        → Q response
    unfolding wait read_timed_out
    waited_lem earlier st {response} h e =
        let messages : drop (length earlier) st.sent ≡ h.later =
          ap (drop (length earlier)) h.sent_lem ∙ drop-append_self earlier h.later in
        elim (Option-cases (received request.request_id h.later)) [
          | inr (message, found) ↦
              let reached : message ≡ done response = cc (e, messages, found) in
              received_lem h.later h.good (found ∙ ap some reached)
          | inl silent ↦ elim (Option-cases (lookup request.request_id st.pending_reads)) [
            | inl gone ↦ cc (e, messages, silent, gone)
            | inr (pending, kept) ↦ cc (e, messages, silent, kept)
          ]
        ]

    started_lem :
        (others : List Step) (written : IoResult (Unit {0})) (st : IpcState)
        (result : IpcState × IoResult (Unit {0})) {response : ProviderReadResponse}
        → All (IsSource request Q) others
        → IsSent request written st result
        → (started request others result).1 ≡ done response
        → Q response
    unfolding after_write
    started_lem others written st r sources (refused e') e = cc
    started_lem others written st r sources (duplicate pending taken) e = cc
    started_lem others (fail e') st r sources (sent_off body free valid) e = cc
    started_lem others (done u) st r sources (sent_off body free valid) e =
        waited_lem st.sent (take_steps others (registered_state request st))
          (steps_lem request Q others (registered_state request st) sources (record {
            later = [];
            sent_lem = sym (append-nil st.sent);
            good = tt;
            own =
                insert-All (IsOwn request) request.request_id
                  (record { provider_id = request.provider_id; request = request }) st.pending_reads
                  (λ same. refl) (free_lem request st.pending_reads free);
          }))
          e

  sources_lem :
      (steps : List Step)
      → All (IsOther request) steps
      → All (IsSource request (λ response. Any (IsAnswer request response) steps)) steps
  sources_lem [] others = tt
  sources_lem (step ∷ steps) others = (
    (others.0, λ response answer. inl answer),
    All-map (λ other source. (source.0, λ response answer. inr (source.1 response answer))) steps
        (sources_lem steps others.1),
  )

  -- A response that a routed read returns comes from a connection that has registered the
  -- provider of the request and has answered with it during the wait, and it has the id of the
  -- request and fits it; the other connections start no read under the same id meanwhile.
  pub route_provider_read-IsAnswer :
      (turn : Turn) (st : IpcState) {response : ProviderReadResponse}
      → All (IsOther request) turn.others
      → (route_provider_read request turn st).1 ≡ done response
      → Any (IsAnswer request response) turn.others
  unfolding route_provider_read
  route_provider_read-IsAnswer turn st {response} others e =
      started_lem (λ r. Any (IsAnswer request r) turn.others) turn.others turn.written st
        (start_provider_read request turn.written st) (sources_lem turn.others others)
        (start_provider_read-IsSent request turn.written st) e
