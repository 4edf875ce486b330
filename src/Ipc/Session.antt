-- ===== src/Ipc/Session.antt =====
-- The requests of one connection: `handle_client_with_state`, `handle_client_requests`,
-- `handle_promise_commit`, `disconnect_registered_providers` of
-- crates/fuse-promise-ipc/src/lib.rs. A request is answered by at most one frame; a write that
-- fails ends the connection behind the change of state.
use fuse_promise.Base.{
  ℕ, Bool, true, false, not, ◌&&◌, none, some, List, [], ◌∷◌, ◌++◌, ◌==◌, Str, if◌then◌else◌,
}
use fuse_promise.Status
use fuse_promise.Status.{Status, Result, ok, err}
use fuse_promise.Node.{ProviderId, from_raw, NodeKind, file, directory, NodeAttr, PromiseTree}
use fuse_promise.Builder
use fuse_promise.Builder.{PromiseBuilder, add_dir, add_file}
use fuse_promise.RuntimeDir.{Environment}
use fuse_promise.Runtime.{Runtime, register_provider, unregister_provider, commit_promise}
use fuse_promise.Ipc.Message.{
  ErrorKind, other, IoResult, done, fail, PromiseNodeBody, PromiseCommitBody, MaterializeBody,
  Request, hello, status, inspect, provider_register, provider_unregister, promise_commit,
  materialize, materialize_continue, materialize_cancel, provider_read_response, ErrorCode,
  invalid_request, version_mismatch, unavailable, not_found_code, already_exists_code,
  provider_gone_code, permission_code, cancelled_code, internal, ipc_protocol_version, api_version,
}
use fuse_promise.Ipc.Report.{StatusBody, InspectBody, from_runtime_with_mount, inspect_runtime}
use fuse_promise.Ipc.State.{
  IpcState, IpcMountStatus, visible_promise_path, register_provider_route, validate_provider_owner,
  disconnect_provider_id, complete_provider_read,
}

unfoldable pub status_to_error_code : Status → ErrorCode
status_to_error_code Status.invalid_argument = invalid_request
status_to_error_code Status.unavailable = unavailable
status_to_error_code Status.permission = permission_code
status_to_error_code Status.not_found = not_found_code
status_to_error_code Status.already_exists = already_exists_code
status_to_error_code Status.provider_gone = provider_gone_code
status_to_error_code Status.cancelled = cancelled_code
status_to_error_code Status.version_mismatch = version_mismatch
status_to_error_code _ = internal

pub data Response : Type 0 where
  hello_response : ℕ → ℕ → Response
  status_response : StatusBody → Response
  inspect_response : InspectBody → Response
  provider_registered : ℕ → ℕ → Response
  provider_unregistered : Response
  promise_committed : Str → Str → Response
  materialized_response failed_response : Response
  error : ErrorCode → Response

-- What a request leads to: a frame, nothing, or the end of the connection.
pub data Outcome : Type 0 where
  respond : Response → Outcome
  silent : Outcome
  abort : ErrorKind → Outcome

pub record Session : Type 0 where
  pub negotiated : Bool
  pub registered : List ProviderId

unfoldable pub new_session : Session
new_session = record { negotiated = false; registered = [] }

-- What the operating system gives while a provider registers: a token, a second handle.
pub record Fresh : Type 0 where
  pub token : IoResult ℕ
  pub cloned : IoResult (Unit {0})

abbrev pub status_error : Status → Outcome
status_error e = respond (error (status_to_error_code e))

abbrev pub add_body : PromiseBuilder → NodeKind → Str → NodeAttr → Str → Result PromiseBuilder
add_body b file path attr provider_node_id = add_file b path attr provider_node_id
add_body b directory path attr provider_node_id = add_dir b path attr provider_node_id

-- The loop over the nodes of a commit request.
unfoldable pub build : PromiseBuilder → List PromiseNodeBody → Result PromiseBuilder
build b [] = ok b
build b (node ∷ nodes) =
    let attr : NodeAttr = record {
      mode = node.mode;
      size = node.size;
      mtime_nsec = node.mtime_nsec;
    } in
    Status.◌>>=◌ (add_body b node.kind node.relative_path attr node.provider_node_id)
      (λ b'. build b' nodes)

unfoldable pub builder_of : PromiseCommitBody → ProviderId → Result PromiseBuilder
unfolding build
builder_of request provider_id = build (Builder.new provider_id) request.nodes

abbrev committed : IpcMountStatus → IpcState × Result PromiseTree → IpcState × Outcome
committed m (st, err e) = (st, status_error e)
committed m (st, ok tree) = elim (visible_promise_path m tree.promise_id) [
  | err e ↦ (st, abort other)
  | ok path ↦ (st, respond (promise_committed tree.promise_id path))
]

abbrev with_runtime : {A : Type 0} → IpcState → Runtime × Result A → IpcState × Result A
with_runtime st (rt, r) = (record st { runtime = rt }, r)

-- `handle_promise_commit` behind the check of the owner.
unfoldable pub commit_nodes : PromiseCommitBody → ProviderId → IpcState → IpcState × Outcome
unfolding builder_of
commit_nodes request provider_id st =
    if not st.mount_status.ready_for_commits
    then (st, status_error Status.unavailable)
    else (elim (builder_of request provider_id) [
      | err e ↦ (st, status_error e)
      | ok builder ↦ committed st.mount_status (with_runtime st (commit_promise builder st.runtime))
    ])

unfoldable pub handle_promise_commit : PromiseCommitBody → IpcState → IpcState × Outcome
unfolding commit_nodes
handle_promise_commit request st = elim (from_raw request.provider_id) [
  | none ↦ (st, respond (error invalid_request))
  | some provider_id ↦ elim (validate_provider_owner st provider_id request.provider_owner_token) [
    | err e ↦ (st, status_error e)
    | ok u ↦ commit_nodes request provider_id st
  ]
]

-- `ProviderRegister`: the runtime's change stays if the token or the second handle fails.
unfoldable pub handle_register : Fresh → Session → IpcState → IpcState × Session × Outcome
handle_register fresh s st =
    let (rt, provider_id) = register_provider st.runtime in
    let st' = record st { runtime = rt } in
    elim fresh.token [
      | fail e ↦ (st', s, abort e)
      | done token ↦ elim fresh.cloned [
        | fail e ↦ (st', s, abort e)
        | done u ↦ (
          register_provider_route provider_id token st',
          record s { registered = s.registered ++ (provider_id ∷ []) },
          respond (provider_registered provider_id token),
        )
      ]
    ]

-- `registered_providers.retain(|id| *id != provider_id)`.
unfoldable pub retain_others : ProviderId → List ProviderId → List ProviderId
retain_others provider_id [] = []
retain_others provider_id (id ∷ ids) =
    let rest = retain_others provider_id ids in if id == provider_id then rest else id ∷ rest

abbrev unregistered :
    ProviderId → Session → IpcState → Runtime × Result (Unit {0}) → IpcState × Session × Outcome
unregistered provider_id s st (rt, err e) = (record st { runtime = rt }, s, status_error e)
unregistered provider_id s st (rt, ok u) = (
  disconnect_provider_id provider_id (record st { runtime = rt }),
  record s { registered = retain_others provider_id s.registered },
  respond provider_unregistered,
)

unfoldable pub handle_unregister : ℕ → ℕ → Session → IpcState → IpcState × Session × Outcome
unfolding retain_others
handle_unregister raw token s st = elim (from_raw raw) [
  | none ↦ (st, s, respond (error invalid_request))
  | some provider_id ↦ elim (validate_provider_owner st provider_id token) [
    | err e ↦ (st, s, status_error e)
    | ok u ↦ unregistered provider_id s st (unregister_provider provider_id st.runtime)
  ]
]

abbrev keep_session : Session → IpcState × Outcome → IpcState × Session × Outcome
keep_session s (st, o) = (st, s, o)

abbrev read_answered : Session → IpcState × IoResult (Unit {0}) → IpcState × Session × Outcome
read_answered s (st, done u) = (st, s, silent)
read_answered s (st, fail e) = (st, s, abort e)

abbrev report_status : Result StatusBody → Outcome
report_status (ok body) = respond (status_response body)
report_status (err e) = abort other

-- `Hello` alone is served before the negotiation.
abbrev greet : ℕ → ℕ → Session → IpcState → IpcState × Session × Outcome
greet protocol api s st =
    if protocol == ipc_protocol_version && api == api_version
    then (
      st,
      record s { negotiated = true },
      respond (hello_response ipc_protocol_version api_version),
    )
    else (st, s, respond (error version_mismatch))

-- `handle_materialize` writes into the file system and is an argument here.
module _ (env : Environment)
    (handle_materialize : MaterializeBody → IpcState → IpcState × Outcome) where
  -- A request of a client that has said hello.
  unfoldable pub serve_request : Fresh → Request → Session → IpcState → IpcState × Session × Outcome
  unfolding handle_register handle_unregister handle_promise_commit
  serve_request fresh (hello protocol api) s st = greet protocol api s st
  serve_request fresh status s st =
      (st, s, report_status (from_runtime_with_mount env st.mount_status st.runtime))
  serve_request fresh inspect s st =
      (st, s, respond (inspect_response (inspect_runtime st.runtime)))
  serve_request fresh provider_register s st = handle_register fresh s st
  serve_request fresh (provider_unregister raw token) s st = handle_unregister raw token s st
  serve_request fresh (promise_commit request) s st =
      keep_session s (handle_promise_commit request st)
  serve_request fresh (materialize request) s st = keep_session s (handle_materialize request st)
  serve_request fresh materialize_continue s st = (st, s, respond (error invalid_request))
  serve_request fresh materialize_cancel s st = (st, s, respond (error invalid_request))
  serve_request fresh (provider_read_response body) s st =
      read_answered s (complete_provider_read s.registered body st)

  abbrev refuse_early : Request → Session → IpcState → IpcState × Session × Outcome
  refuse_early (hello protocol api) s st = greet protocol api s st
  refuse_early _ s st = (st, s, respond (error invalid_request))

  -- One round of the loop of `handle_client_requests`.
  unfoldable pub handle_request :
      Fresh → Request → Session → IpcState → IpcState × Session × Outcome
  unfolding serve_request
  handle_request fresh request s st =
      if s.negotiated then serve_request fresh request s st else refuse_early request s st

-- `disconnect_registered_providers`, at the end of every connection.
unfoldable pub disconnect_registered_providers : List ProviderId → IpcState → IpcState
unfolding disconnect_provider_id
disconnect_registered_providers [] st = st
disconnect_registered_providers (provider_id ∷ ids) st =
    disconnect_registered_providers ids (disconnect_provider_id provider_id st)

-- What the client sends, and how the answer's write ends.
pub record Event : Type 0 where
  pub request : Request
  pub fresh : Fresh
  pub written : Bool

abbrev goes_on : Outcome → Bool → Bool
goes_on (respond r) written = written
goes_on silent written = true
goes_on (abort e) written = false

module _ (env : Environment)
    (handle_materialize : MaterializeBody → IpcState → IpcState × Outcome) where
  -- The loop of `handle_client_requests`: until the client is done, a write fails or a round does.
  unfoldable pub run : List Event → Session → IpcState → IpcState × Session
  unfolding handle_request
  run [] s st = (st, s)
  run (event ∷ events) s st =
      let (st', s', outcome) =
        handle_request env handle_materialize event.fresh event.request s st in
      let rest = run events s' st' in if goes_on outcome event.written then rest else (st', s')

  -- `handle_client_with_state`, for a peer that passed `validate_peer`.
  unfoldable pub handle_client : List Event → IpcState → IpcState
  unfolding run disconnect_registered_providers
  handle_client events st =
      let (st', s) = run events new_session st in disconnect_registered_providers s.registered st'
