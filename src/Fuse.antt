-- ===== src/Fuse.antt =====
-- crates/fuse-promise-daemon/src/fuse_adapter.rs: the FUSE handlers on a locked runtime, without
-- the calls of the `fuser` library. A lock that is poisoned is not modelled.
pub mod Answers
use fuse_promise.Base.{
  ℕ, ◌+◌, ◌*◌, ◌/◌, ◌%◌, ◌&&◌, ◌||◌, is_some, Bool, true, false, not, Option, none, some, List, [],
  ◌∷◌, ◌++◌, ◌==◌, Str, str_key, leb, ltb, drop, length, slice, try_u32, lookup, if◌then◌else◌, min,
}
use fuse_promise.Status
use fuse_promise.Status.{Status}
use fuse_promise.Node.{
  NodeKind, file, directory, is_file, is_directory, PromiseNode, RuntimeEntry, mount_root,
  promise_node, entry_inode, DirectoryEntry, fuse_root_inode, ProviderReadPlan,
  CoalescedProviderReadPlan, ReadPlan, request, materialized_plan, cached, eof,
}
use fuse_promise.Runtime
use fuse_promise.Runtime.{Runtime, promise}
use fuse_promise.Runtime.Lookup.{lookup_inode, read_dir}
use fuse_promise.Runtime.Reads
use fuse_promise.Runtime.Reads.{plan_coalesced_provider_read, plan_sequential_prefetch}
use fuse_promise.Runtime.Caching
use fuse_promise.Ipc.Message
use fuse_promise.Ipc.Message.{
  ErrorKind, ProviderReadStatus, is_read_ok, ProviderReadRequest, ProviderReadResponse, IoResult,
  max_provider_read_len,
}
use fuse_promise.Ipc.State.{IpcState, next_provider_read_request_id}

-- The error numbers that the adapter answers with.
pub data Errno : Type 0 where
  e_inval e_io e_acces e_noent e_exist e_timedout e_canceled e_isdir e_rofs : Errno

unfoldable pub status_to_errno : Status → Errno
status_to_errno Status.invalid_argument = e_inval
status_to_errno Status.version_mismatch = e_inval
status_to_errno Status.permission = e_acces
status_to_errno Status.not_found = e_noent
status_to_errno Status.already_exists = e_exist
status_to_errno Status.timeout = e_timedout
status_to_errno Status.cancelled = e_canceled
status_to_errno _ = e_io

unfoldable pub provider_status_to_errno : ProviderReadStatus → Errno
provider_status_to_errno ProviderReadStatus.invalid_argument = e_inval
provider_status_to_errno ProviderReadStatus.permission = e_acces
provider_status_to_errno ProviderReadStatus.not_found = e_noent
provider_status_to_errno ProviderReadStatus.timeout = e_timedout
provider_status_to_errno ProviderReadStatus.cancelled = e_canceled
provider_status_to_errno _ = e_io

-- A result of the adapter.
pub data Reply (A : Type 0) : Type 0 where
  reply : A → Reply A
  refused : Errno → Reply A

infixl 5 ◌>>=◌
abbrev pub ◌>>=◌ : {A B : Type 0} → Reply A → (A → Reply B) → Reply B
reply a >>= f = f a
refused e >>= f = refused e

-- `map_err(status_to_errno)`.
unfoldable pub errno_of : {A : Type 0} → Status.Result A → Reply A
unfolding status_to_errno
errno_of (Status.ok a) = reply a
errno_of (Status.err e) = refused (status_to_errno e)

unfoldable pub provider_reply_bytes : List ℕ → ℕ → ℕ → Reply (List ℕ)
provider_reply_bytes bytes start count =
    if start == 0 && leb (length bytes) count
    then reply bytes
    else (if ltb (length bytes) (start + count)
        then refused e_io
        else reply (slice bytes start (start + count)))

abbrev inode_or_missing : Option PromiseNode → Reply ℕ
inode_or_missing none = refused e_noent
inode_or_missing (some parent) = reply parent.inode

abbrev parent_in : Runtime → Str → Str → Option PromiseNode
parent_in rt promise_id parent_path = elim (promise rt promise_id) [
  | none ↦ none
  | some tree ↦ lookup parent_path tree.nodes
]

abbrev node_parent : Runtime → Str → Option Str → Reply ℕ
node_parent rt promise_id none = reply fuse_root_inode
node_parent rt promise_id (some parent_path) =
    inode_or_missing (parent_in rt promise_id parent_path)

unfoldable pub parent_inode : Runtime → RuntimeEntry → Reply ℕ
unfolding promise
parent_inode rt mount_root = reply fuse_root_inode
parent_inode rt (promise_node promise_id node) = node_parent rt promise_id node.parent_path

-- `readdir` answers these from the given offset on.
unfoldable pub directory_entries : Runtime → ℕ → Reply (List DirectoryEntry)
unfolding errno_of parent_inode
directory_entries rt inode = do
  entry ← errno_of (lookup_inode rt inode)
  parent ← parent_inode rt entry
  entries ← errno_of (read_dir rt inode)
  reply (
      record { name = 46 ∷ []; inode = entry_inode entry; kind = directory }
      ∷ record { name = 46 ∷ 46 ∷ []; inode = parent; kind = directory }
      ∷ entries)

-- `open`, by whether the flags ask for more than reading: the handle is the inode.
unfoldable pub open_inode : Runtime → Bool → ℕ → Reply ℕ
unfolding errno_of
open_inode rt writable inode = if writable then refused e_rofs else (do
  entry ← errno_of (lookup_inode rt inode)
  elim entry [
    | mount_root ↦ refused e_isdir
    | promise_node promise_id node ↦ if is_file node.kind then reply inode else refused e_isdir
  ])

pub data FuseReadPlan : Type 0 where
  provider_read : ProviderReadRequest → ℕ → ℕ → FuseReadPlan
  materialized_read : Str → ℕ → ℕ → FuseReadPlan
  cached_bytes : List ℕ → FuseReadPlan

abbrev pub request_of : ℕ → ProviderReadPlan → ProviderReadRequest
request_of request_id plan = record {
  request_id = request_id;
  provider_id = plan.provider_id;
  promise_id = plan.promise_id;
  relative_path = plan.relative_path;
  provider_node_id = plan.provider_node_id;
  offset = plan.offset;
  length = plan.length;
}

-- The coalesced plan takes the next request id.
abbrev number_request :
    IpcState → Reply CoalescedProviderReadPlan → IpcState × Reply (Option FuseReadPlan)
number_request st (refused e) = (st, refused e)
number_request st (reply plan) =
    let (st', request_id) = next_provider_read_request_id st in
    (
      st',
      reply (
          some (
            provider_read (request_of request_id plan.provider) plan.response_offset
              plan.response_length)),
    )

unfoldable pub serve_plan : IpcState → Reply ReadPlan → IpcState × Reply (Option FuseReadPlan)
unfolding errno_of next_provider_read_request_id
serve_plan st (refused e) = (st, refused e)
serve_plan st (reply eof) = (st, reply none)
serve_plan st (reply (request plan)) =
    number_request st (errno_of (plan_coalesced_provider_read st.runtime plan))
serve_plan st (reply (materialized_plan plan)) =
    (st, reply (some (materialized_read plan.path plan.offset plan.length)))
serve_plan st (reply (cached bytes)) = (st, reply (some (cached_bytes bytes)))

abbrev plan_node : Runtime → RuntimeEntry → ℕ → ℕ → Reply ReadPlan
plan_node rt mount_root offset size = refused e_isdir
plan_node rt (promise_node promise_id node) offset size =
    errno_of (Reads.plan_read rt promise_id node.relative_path offset size)

-- `PromiseFilesystem::plan_read`, for a size that `read` has cut.
unfoldable pub plan_read : ℕ → ℕ → ℕ → IpcState → IpcState × Reply (Option FuseReadPlan)
unfolding serve_plan errno_of
plan_read inode offset size st =
    serve_plan st
      (do entry ← errno_of (lookup_inode st.runtime inode); plan_node st.runtime entry offset size)

-- `read`, up to the work that its plan names.
unfoldable pub read_begin : ℕ → ℕ → ℕ → IpcState → IpcState × Reply (Option FuseReadPlan)
unfolding plan_read
read_begin inode offset size st = plan_read inode offset (min size max_provider_read_len) st

abbrev recorded :
    IpcState → Option (Runtime × Status.Result (Unit {0})) → Option (IpcState × Reply (Unit {0}))
recorded st none = none
recorded st (some (rt, r)) = some (record st { runtime = rt }, errno_of r)

-- `PromiseFilesystem::record_cached_read`; an outer `none` is a panic.
unfoldable pub record_cached_read :
    ProviderReadRequest → List ℕ → IpcState → Option (IpcState × Reply (Unit {0}))
unfolding errno_of
record_cached_read r bytes st =
    recorded st (Caching.record_cached_read r.promise_id r.relative_path r.offset bytes st.runtime)

abbrev number_prefetch :
    IpcState → Status.Result (Option ProviderReadPlan) → IpcState × Option ProviderReadRequest
number_prefetch st (Status.err e) = (st, none)
number_prefetch st (Status.ok none) = (st, none)
number_prefetch st (Status.ok (some plan)) =
    let (st', request_id) = next_provider_read_request_id st in
    (st', some (request_of request_id plan))

-- `prefetch_after_provider_read` up to its own read: only behind a full answer.
unfoldable pub prefetch_begin :
    ProviderReadRequest → ℕ → IpcState → IpcState × Option ProviderReadRequest
unfolding next_provider_read_request_id
prefetch_begin r bytes_read st =
    if not (bytes_read == r.length) || not (is_some (try_u32 bytes_read))
    then (st, none)
    else number_prefetch st
        (plan_sequential_prefetch st.runtime r.promise_id r.relative_path r.offset bytes_read)

abbrev answer_bytes : Reply (Unit {0}) → List ℕ → ℕ → ℕ → Reply (List ℕ)
answer_bytes (refused e) bytes start count = refused e
answer_bytes (reply u) bytes start count = provider_reply_bytes bytes start count

abbrev answered :
    List ℕ → ℕ → ℕ → Option (IpcState × Reply (Unit {0})) → Option (IpcState × Reply (List ℕ))
answered bytes start count none = none
answered bytes start count (some (st, r)) = some (st, answer_bytes r bytes start count)

-- `read`, from the provider's response on, without the prefetch: it does not touch the reply.
unfoldable pub read_answered :
    ProviderReadRequest
    → ℕ
    → ℕ
    → ProviderReadResponse
    → IpcState
    → Option (IpcState × Reply (List ℕ))
unfolding record_cached_read provider_reply_bytes provider_status_to_errno
read_answered r start count response st =
    if is_read_ok response.status
    then answered response.bytes start count (record_cached_read r response.bytes st)
    else some (st, refused (provider_status_to_errno response.status))
