-- ===== src/Ipc/Started.antt =====
-- How `start_provider_read` may end.
use fuse_promise.Base.{◌≡◌, none, some, lookup, insert, ℕ_key, Option-cases, inl, inr}
use fuse_promise.Ipc.Message.{
  IoResult, done, fail, IoResult-cases, ErrorKind, ProviderReadRequest, into_body,
}
use fuse_promise.Ipc.State.{
  IpcState, PendingRead, start_provider_read, send_read_request, after_write,
}

-- The state with the pending read of the request.
abbrev pub registered_state : ProviderReadRequest → IpcState → IpcState
registered_state request st = record st {
  pending_reads =
      insert request.request_id (record { provider_id = request.provider_id; request = request })
        st.pending_reads;
}

-- How `start_provider_read` may end.
pub data IsSent (request : ProviderReadRequest) (written : IoResult (Unit {0})) (st : IpcState)
    : IpcState × IoResult (Unit {0}) → Type 0 where
  refused : (e : ErrorKind) → IsSent request written st (st, fail e)
  duplicate :
      (pending : PendingRead)
      → lookup request.request_id st.pending_reads ≡ some pending
      → IsSent request written st (registered_state request st, fail ErrorKind.invalid_data)
  sent_off :
      (body : ProviderReadRequest)
      → lookup request.request_id st.pending_reads ≡ none
      → into_body request ≡ done body
      → IsSent request written st (after_write body written (registered_state request st))

pub start_provider_read-IsSent :
    (request : ProviderReadRequest) (written : IoResult (Unit {0})) (st : IpcState)
    → IsSent request written st (start_provider_read request written st)
unfolding start_provider_read send_read_request
start_provider_read-IsSent request written st = elim (IoResult-cases (into_body request)) [
  | inr (e, invalid) ↦ rw (invalid, start_provider_read) (refused e)
  | inl (body, valid) ↦ elim (Option-cases (lookup request.provider_id st.provider_routes)) [
    | inl no_route ↦ rw (valid, start_provider_read, no_route) (refused ErrorKind.not_found)
    | inr (route, routed) ↦ elim (Option-cases (lookup request.request_id st.pending_reads)) [
      | inl free ↦
          rw (valid, start_provider_read, routed, send_read_request, free)
            (sent_off body free valid)
      | inr (pending, taken) ↦
          rw (valid, start_provider_read, routed, send_read_request, taken)
            (duplicate pending taken)
    ]
  ]
]
