-- ===== src/Ipc/Guards.antt =====
-- Who changes the state: `validate_provider_owner`, and the requests before `Hello`.
use fuse_promise.Base.{
  ℕ, ◌≡◌, refl, Bool, true, false, none, some, List, [], ◌∷◌, All, lookup, ℕ_key, Bool-cases,
  Option-cases, inl, inr, ◌⊎◌, arith,
}
use fuse_promise.Status.{ok, Result-cases}
use fuse_promise.Node.{from_raw}
use fuse_promise.RuntimeDir.{Environment}
use fuse_promise.Ipc.Message.{
  Request, hello, status, inspect, provider_register, provider_unregister, promise_commit,
  materialize, materialize_continue, materialize_cancel, provider_read_response, ErrorCode,
  invalid_request, MaterializeBody, PromiseCommitBody,
}
use fuse_promise.Ipc.State.{IpcState, ProviderRoute, owner_without_route, validate_provider_owner}
use fuse_promise.Ipc.Session.{
  Outcome, respond, error, Session, new_session, Fresh, status_to_error_code, handle_promise_commit,
  handle_unregister, handle_request, Event, run, handle_client,
}

abbrev pub is_hello : Request → Bool
is_hello (hello protocol api) = true
is_hello _ = false

module _ (env : Environment)
    (handle_materialize : MaterializeBody → IpcState → IpcState × Outcome) where
  early_lem :
      (fresh : Fresh) (request : Request) (s : Session) (st : IpcState)
      → s.negotiated ≡ false
      → is_hello request ≡ false
      → handle_request env handle_materialize fresh request s st
        ≡ (st, s, respond (error invalid_request))
  unfolding handle_request
  early_lem fresh (hello protocol api) s st early other = cc
  early_lem fresh status s st early other = rw early refl
  early_lem fresh inspect s st early other = rw early refl
  early_lem fresh provider_register s st early other = rw early refl
  early_lem fresh (provider_unregister raw token) s st early other = rw early refl
  early_lem fresh (promise_commit request) s st early other = rw early refl
  early_lem fresh (materialize request) s st early other = rw early refl
  early_lem fresh materialize_continue s st early other = rw early refl
  early_lem fresh materialize_cancel s st early other = rw early refl
  early_lem fresh (provider_read_response body) s st early other = rw early refl

  run_early :
      (events : List Event) (s : Session) (st : IpcState)
      → s.negotiated ≡ false
      → All (λ event. is_hello event.request ≡ false) events
      → run env handle_materialize events s st ≡ (st, s)
  unfolding run
  run_early [] s st early all = refl
  run_early (event ∷ events) s st early all = elim (Bool-cases event.written) [
    | inl written ↦
        rw (early_lem event.fresh event.request s st early all.0, written)
          (run_early events s st early all.1)
    | inr lost ↦ rw (early_lem event.fresh event.request s st early all.0, lost) refl
  ]

  -- A client none of whose requests is a Hello leaves the state of the daemon as it was.
  pub handle_client_early :
      (events : List Event) (st : IpcState)
      → All (λ event. is_hello event.request ≡ false) events
      → handle_client env handle_materialize events st ≡ st
  unfolding handle_client new_session
  handle_client_early events st all = rw (run_early events new_session st refl all) refl

-- The caller owns the provider: its raw id is no zero, and its route has the caller's token.
pub record IsOwner (st : IpcState) (raw token : ℕ) : Type 0 where
  pub nonzero : from_raw raw ≡ some raw
  pub route : ProviderRoute
  pub routed : lookup raw st.provider_routes ≡ some route
  pub same_token : route.owner_token ≡ token

owner_lem :
    (st : IpcState) (raw token : ℕ)
    → from_raw raw ≡ some raw
    → validate_provider_owner st raw token ≡ ok tt
    → IsOwner st raw token
unfolding validate_provider_owner owner_without_route
owner_lem st raw token nonzero h = elim (Option-cases (lookup raw st.provider_routes)) [
  | inl miss ↦ absurd (ground arith)
  | inr (route, hit) ↦ record {
    nonzero = nonzero;
    route = route;
    routed = hit;
    same_token = ground arith;
  }
]

from_raw-cases : (raw : ℕ) → (from_raw raw ≡ none) ⊎ (from_raw raw ≡ some raw)
unfolding from_raw
from_raw-cases raw = ground arith

-- A request to unregister a provider comes with the token of the route of the provider, or
-- changes neither the state nor the session and is answered with an error.
pub handle_unregister-IsOwner :
    (raw token : ℕ) (s : Session) (st : IpcState)
    → IsOwner st raw token
      ⊎ ((code : ErrorCode) × (handle_unregister raw token s st ≡ (st, s, respond (error code))))
unfolding handle_unregister
handle_unregister-IsOwner raw token s st = elim (from_raw-cases raw) [
  | inl zero_id ↦ inr (invalid_request, rw (zero_id, handle_unregister) refl)
  | inr id ↦ elim (Result-cases (validate_provider_owner st raw token)) [
    | inl (u, owner) ↦ inl (owner_lem st raw token id owner)
    | inr (e, stranger) ↦ inr (status_to_error_code e, rw (id, handle_unregister, stranger) refl)
  ]
]

-- A commit comes with the token of the route of its provider, or changes nothing and is
-- answered with an error.
pub handle_promise_commit-IsOwner :
    (request : PromiseCommitBody) (st : IpcState)
    → IsOwner st request.provider_id request.provider_owner_token
      ⊎ ((code : ErrorCode) × (handle_promise_commit request st ≡ (st, respond (error code))))
unfolding handle_promise_commit
handle_promise_commit-IsOwner request st = elim (from_raw-cases request.provider_id) [
  | inl zero_id ↦ inr (invalid_request, rw (zero_id, handle_promise_commit) refl)
  | inr id ↦
      elim (Result-cases
        (validate_provider_owner st request.provider_id request.provider_owner_token)) [
          | inl (u, owner) ↦
              inl (owner_lem st request.provider_id request.provider_owner_token id owner)
          | inr (e, stranger) ↦
              inr (status_to_error_code e, rw (id, handle_promise_commit, stranger) refl)
        ]
]
