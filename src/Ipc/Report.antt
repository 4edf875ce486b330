-- ===== src/Ipc/Report.antt =====
-- What the daemon reports of itself: `DaemonStatus`, `StatusBody`, `InspectBody` of
-- crates/fuse-promise-ipc/src/lib.rs, without their printing.
use fuse_promise.Base.{ℕ, Option, none, some, List, [], ◌∷◌, Str, map, values}
use fuse_promise.Status.{Result, ok, ◌>>=◌}
use fuse_promise.Node.{NodeKind, CachePolicy, PromiseState, PromiseNode, PromiseTree}
use fuse_promise.RuntimeDir.{Environment, default_mount_path, default_control_socket_path}
use fuse_promise.Runtime.{Runtime, provider_count, promise_count}
use fuse_promise.Ipc.State.{IpcMountStatus}

-- `API_VERSION`
abbrev pub api_version_now : ℕ
api_version_now = 1

-- `connected`
abbrev pub connected_text : Str
connected_text = 99 ∷ 111 ∷ 110 ∷ 110 ∷ 101 ∷ 99 ∷ 116 ∷ 101 ∷ 100 ∷ []

-- `DaemonStatus` and `StatusBody`; the text of the cache policy is the policy.
pub record StatusBody : Type 0 where
  pub api_version : ℕ
  pub mount_path : Str
  pub socket_path : Str
  pub daemon : Str
  pub mount : Str
  pub fuse_adapter : Str
  pub cache_policy : CachePolicy
  pub providers : ℕ
  pub promises : ℕ

abbrev or_default : Option Str → Result Str → Result Str
or_default none r = r
or_default (some p) r = ok p

unfoldable pub from_runtime_with_mount : Environment → IpcMountStatus → Runtime → Result StatusBody
from_runtime_with_mount env m rt = do
  mount_path ← or_default m.mount_path (default_mount_path env)
  socket_path ← default_control_socket_path env
  ok (record {
    api_version = api_version_now;
    mount_path = mount_path;
    socket_path = socket_path;
    daemon = connected_text;
    mount = m.mount;
    fuse_adapter = m.fuse_adapter;
    cache_policy = rt.cache_policy;
    providers = provider_count rt;
    promises = promise_count rt;
  })

pub record InspectNodeBody : Type 0 where
  pub relative_path : Str
  pub inode : ℕ
  pub kind : NodeKind
  pub size : ℕ
  pub mode : ℕ
  pub provider_node_id : Str

pub record InspectPromiseBody : Type 0 where
  pub promise_id : Str
  pub provider_id : ℕ
  pub state : PromiseState
  pub nodes : List InspectNodeBody

pub record InspectBody : Type 0 where
  pub providers : ℕ
  pub promises : List InspectPromiseBody

abbrev shown_path : Str → Str
shown_path [] = 46 ∷ []
shown_path (c ∷ s) = c ∷ s

unfoldable pub inspect_node : PromiseNode → InspectNodeBody
inspect_node node = record {
  relative_path = shown_path node.relative_path;
  inode = node.inode;
  kind = node.kind;
  size = node.attr.size;
  mode = node.attr.mode;
  provider_node_id = node.provider_node_id;
}

unfoldable pub inspect_promise : PromiseTree → InspectPromiseBody
unfolding inspect_node
inspect_promise tree = record {
  promise_id = tree.promise_id;
  provider_id = tree.provider_id;
  state = tree.state;
  nodes = map inspect_node (values tree.nodes);
}

unfoldable pub inspect_runtime : Runtime → InspectBody
unfolding inspect_promise
inspect_runtime rt = record {
  providers = provider_count rt;
  promises = map inspect_promise (values rt.promises);
}
