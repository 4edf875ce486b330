-- ===== src/Ipc/State.antt =====
-- `IpcState` of crates/fuse-promise-ipc/src/lib.rs: provider routes and the reads that wait for
-- an answer. A mutex is not modelled: each method holds the locks that it takes one at a time, and
-- is a function of the state here. What is sent to a waiting reader is kept in `sent`.
use fuse_promise.Base.{
  ℕ, Bool, true, false, ◌||◌, Option, none, some, List, [], ◌∷◌, ◌++◌, ◌==◌, Str, BTreeMap, lookup,
  insert, remove, ℕ_key, is_some, wrapping_add, if◌then◌else◌,
}
use fuse_promise.Status.{Status, Result, ok, err}
use fuse_promise.RuntimeDir.{join_path}
use fuse_promise.Node.{ProviderId, from_raw}
use fuse_promise.Runtime.{Runtime, unregister_provider, provider}
use fuse_promise.Ipc.Message.{
  ErrorKind, broken_pipe, permission_denied, invalid_data, timed_out, IoResult, done, fail, ◌>>◌,
  ProviderReadRequest, ProviderReadResponse, into_body, from_body,
  validate_provider_read_response_for_request,
}

-- `not-mounted` and `mounted`
abbrev pub not_mounted_text : Str
not_mounted_text = 110 ∷ 111 ∷ 116 ∷ 45 ∷ 109 ∷ 111 ∷ 117 ∷ 110 ∷ 116 ∷ 101 ∷ 100 ∷ []

abbrev pub mounted_text : Str
mounted_text = 109 ∷ 111 ∷ 117 ∷ 110 ∷ 116 ∷ 101 ∷ 100 ∷ []

-- `not-implemented`, `disabled` and `enabled`
abbrev pub not_implemented_text : Str
not_implemented_text =
    110 ∷ 111 ∷ 116 ∷ 45 ∷ 105 ∷ 109 ∷ 112 ∷ 108 ∷ 101 ∷ 109 ∷ 101 ∷ 110 ∷ 116 ∷ 101 ∷ 100 ∷ []

abbrev pub disabled_text : Str
disabled_text = 100 ∷ 105 ∷ 115 ∷ 97 ∷ 98 ∷ 108 ∷ 101 ∷ 100 ∷ []

abbrev pub enabled_text : Str
enabled_text = 101 ∷ 110 ∷ 97 ∷ 98 ∷ 108 ∷ 101 ∷ 100 ∷ []

pub record IpcMountStatus : Type 0 where
  pub mount : Str
  pub fuse_adapter : Str
  pub mount_path : Option Str
  pub ready_for_commits : Bool

unfoldable pub not_mounted : IpcMountStatus
not_mounted = record {
  mount = not_mounted_text;
  fuse_adapter = not_implemented_text;
  mount_path = none;
  ready_for_commits = false;
}

unfoldable pub mount_disabled : Str → IpcMountStatus
mount_disabled mount_path = record {
  mount = not_mounted_text;
  fuse_adapter = disabled_text;
  mount_path = some mount_path;
  ready_for_commits = false;
}

unfoldable pub mounted : Str → IpcMountStatus
mounted mount_path = record {
  mount = mounted_text;
  fuse_adapter = enabled_text;
  mount_path = some mount_path;
  ready_for_commits = false;
}

unfoldable pub commit_ready : Str → IpcMountStatus
commit_ready mount_path = record {
  mount = mounted_text;
  fuse_adapter = enabled_text;
  mount_path = some mount_path;
  ready_for_commits = true;
}

abbrev join_mount : Option Str → Str → Result Str
join_mount none promise_id = err Status.unavailable
join_mount (some mount_path) promise_id = ok (join_path mount_path promise_id)

unfoldable pub visible_promise_path : IpcMountStatus → Str → Result Str
visible_promise_path m promise_id =
    if m.ready_for_commits then join_mount m.mount_path promise_id else err Status.unavailable

pub record ProviderRoute : Type 0 where
  pub owner_token : ℕ

pub record PendingRead : Type 0 where
  pub provider_id : ℕ
  pub request : ProviderReadRequest

pub record IpcState : Type 0 where
  pub runtime : Runtime
  pub mount_status : IpcMountStatus
  pub provider_routes : BTreeMap ℕ ProviderRoute
  pub pending_reads : BTreeMap ℕ PendingRead
  pub next_read_request_id : ℕ
  pub sent : List (ℕ × IoResult ProviderReadResponse)

unfoldable pub new : Runtime → IpcState
unfolding not_mounted
new runtime = record {
  runtime = runtime;
  mount_status = not_mounted;
  provider_routes = [];
  pending_reads = [];
  next_read_request_id = 1;
  sent = [];
}

unfoldable pub set_mount_status : IpcMountStatus → IpcState → IpcState
set_mount_status m st = record st { mount_status = m }

-- `fetch_add(1)`: the id that was free, and the state behind it.
unfoldable pub next_provider_read_request_id : IpcState → IpcState × ℕ
next_provider_read_request_id st = (
  record st { next_read_request_id = wrapping_add st.next_read_request_id 1 },
  st.next_read_request_id,
)

unfoldable pub register_provider_route : ℕ → ℕ → IpcState → IpcState
register_provider_route provider_id owner_token st = record st {
  provider_routes = insert provider_id (record { owner_token = owner_token }) st.provider_routes;
}

unfoldable pub owner_without_route : IpcState → ProviderId → Result (Unit {0})
owner_without_route st provider_id =
    if is_some (provider st.runtime provider_id)
    then err Status.provider_gone
    else err Status.not_found

unfoldable pub validate_provider_owner : IpcState → ProviderId → ℕ → Result (Unit {0})
unfolding owner_without_route
validate_provider_owner st provider_id owner_token = elim (lookup provider_id st.provider_routes) [
  | none ↦ owner_without_route st provider_id
  | some route ↦ if route.owner_token == owner_token then ok tt else err Status.permission
]

unfoldable pub remove_pending_read : ℕ → IpcState → IpcState
remove_pending_read request_id st = record st { pending_reads = remove request_id st.pending_reads }

-- The pending reads of other providers stay; those of the provider go, in the order of their ids.
unfoldable pub pending_of_others : ℕ → BTreeMap ℕ PendingRead → BTreeMap ℕ PendingRead
pending_of_others provider_id [] = []
pending_of_others provider_id ((request_id, pending) ∷ rest) =
    let others = pending_of_others provider_id rest in
    if pending.provider_id == provider_id then others else (request_id, pending) ∷ others

unfoldable pub failures_of :
    ℕ → ErrorKind → BTreeMap ℕ PendingRead → List (ℕ × IoResult ProviderReadResponse)
failures_of provider_id kind [] = []
failures_of provider_id kind ((request_id, pending) ∷ rest) =
    let others = failures_of provider_id kind rest in
    if pending.provider_id == provider_id then (request_id, fail kind) ∷ others else others

unfoldable pub fail_provider_pending_reads : ℕ → ErrorKind → IpcState → IpcState
unfolding pending_of_others failures_of
fail_provider_pending_reads provider_id kind st = record st {
  pending_reads = pending_of_others provider_id st.pending_reads;
  sent = st.sent ++ failures_of provider_id kind st.pending_reads;
}

abbrev pub drop_route : ℕ → IpcState → IpcState
drop_route provider_id st = record st { provider_routes = remove provider_id st.provider_routes }

unfoldable pub disconnect_provider_id : ℕ → IpcState → IpcState
unfolding fail_provider_pending_reads
disconnect_provider_id provider_id st =
    let st' = drop_route provider_id st in
    elim (from_raw provider_id) [
      | none ↦ st'
      | some id ↦
          fail_provider_pending_reads provider_id broken_pipe
            (record st' { runtime = (unregister_provider id st'.runtime).0 })
    ]

-- A failed write ends the provider's connection.
unfoldable pub after_write :
    ProviderReadRequest → IoResult (Unit {0}) → IpcState → IpcState × IoResult (Unit {0})
unfolding disconnect_provider_id remove_pending_read
after_write body (done u) st = (st, done tt)
after_write body (fail e) st =
    (disconnect_provider_id body.provider_id (remove_pending_read body.request_id st), fail e)

-- `route_provider_read` up to the wait: the request is registered, then written; `written` is
-- the result of the write. A duplicate id has replaced the older read when it is refused.
unfoldable pub send_read_request :
    ProviderReadRequest
    → ProviderReadRequest
    → IoResult (Unit {0})
    → IpcState
    → IpcState × IoResult (Unit {0})
unfolding after_write
send_read_request request body written st =
    let pending : PendingRead = record { provider_id = request.provider_id; request = request } in
    let st' = record st { pending_reads = insert request.request_id pending st.pending_reads } in
    if is_some (lookup request.request_id st.pending_reads)
    then (st', fail invalid_data)
    else after_write body written st'

unfoldable pub start_provider_read :
    ProviderReadRequest → IoResult (Unit {0}) → IpcState → IpcState × IoResult (Unit {0})
unfolding send_read_request
start_provider_read request written st = elim (into_body request) [
  | fail e ↦ (st, fail e)
  | done body ↦ elim (lookup request.provider_id st.provider_routes) [
    | none ↦ (st, fail ErrorKind.not_found)
    | some route ↦ send_read_request request body written st
  ]
]

-- The wait ended by the timeout.
unfoldable pub read_timed_out : ℕ → IpcState → IpcState × IoResult ProviderReadResponse
unfolding remove_pending_read
read_timed_out request_id st = (remove_pending_read request_id st, fail timed_out)

unfoldable pub owns : ℕ → List ProviderId → Bool
owns provider_id [] = false
owns provider_id (id ∷ ids) = id == provider_id || owns provider_id ids

-- What the waiting reader is sent.
unfoldable pub read_result :
    List ProviderId → PendingRead → ProviderReadResponse → IoResult ProviderReadResponse
read_result registered pending response =
    if owns pending.provider_id registered
    then (do validate_provider_read_response_for_request pending.request response; done response)
    else fail permission_denied

unfoldable pub answer_pending :
    List ProviderId → ProviderReadResponse → IpcState → IpcState × IoResult (Unit {0})
unfolding read_result
answer_pending registered response st = elim (lookup response.request_id st.pending_reads) [
  | none ↦ (st, fail invalid_data)
  | some pending ↦ (
    record st {
      pending_reads = remove response.request_id st.pending_reads;
      sent = st.sent ++ ((response.request_id, read_result registered pending response) ∷ []);
    },
    done tt,
  )
]

unfoldable pub complete_provider_read :
    List ProviderId → ProviderReadResponse → IpcState → IpcState × IoResult (Unit {0})
unfolding answer_pending
complete_provider_read registered body st = elim (from_body body) [
  | fail e ↦ (st, fail e)
  | done response ↦ answer_pending registered response st
]
