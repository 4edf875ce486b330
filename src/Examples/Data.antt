-- ===== src/Examples/Data.antt =====
-- Inputs of the examples: a provider, a promise with one file `a`, a connection.
use fuse_promise.Base.{true, some, none, [], ◌∷◌, Str}
use fuse_promise.Node.{
  live, pos, NodeAttr, PromiseNode, PromiseTree, available, file, read_through, ProviderReadPlan,
}
use fuse_promise.Builder.{root_node}
use fuse_promise.Runtime.{Runtime}
use fuse_promise.Ipc.Message.{
  MaterializeBody, PromiseCommitBody, ProviderReadRequest, ProviderReadResponse, read_ok, done,
  provider_register, hello, status,
}
use fuse_promise.Ipc.State.{IpcState, mounted_text, enabled_text}
use fuse_promise.Ipc.Session.{Outcome, silent, Event, Fresh}

abbrev pub name_a : Str
name_a = 97 ∷ []

abbrev pub promise_p : Str
promise_p = 112 ∷ []

abbrev pub attr : NodeAttr
attr = record { mode = 420; size = 10; mtime_nsec = pos 0 }

abbrev pub node_a : PromiseNode
node_a = record {
  node_id = 2;
  inode = 3;
  relative_path = name_a;
  parent_path = some [];
  name = name_a;
  provider_node_id = name_a;
  materialized_path = none;
  kind = file;
  attr = attr;
}

abbrev pub tree_p : PromiseTree
tree_p = record {
  promise_id = promise_p;
  provider_id = 1;
  state = available;
  nodes = ([], root_node) ∷ (name_a, node_a) ∷ [];
  children = ([], name_a ∷ []) ∷ [];
}

-- Chunks of four bytes.
abbrev pub runtime : Runtime
runtime = record {
  next_provider_id = 2;
  next_promise_id = 1;
  next_node_id = 4;
  next_inode = 4;
  providers = (1, record { id = 1; state = live }) ∷ [];
  promises = (promise_p, tree_p) ∷ [];
  cache_policy = read_through 4;
  read_cache = record { files = [] };
}

-- A second provider is known and goes.
abbrev pub two_providers : Runtime
two_providers = record runtime {
  providers = (1, record { id = 1; state = live }) ∷ (2, record { id = 2; state = live }) ∷ [];
}

-- Three bytes from position 5, and one more than the file has at its end.
abbrev pub plan : ProviderReadPlan
plan = record {
  provider_id = 1;
  promise_id = promise_p;
  relative_path = name_a;
  provider_node_id = name_a;
  offset = 5;
  length = 3;
}

abbrev pub read_request : ProviderReadRequest
read_request = record {
  request_id = 7;
  provider_id = 1;
  promise_id = promise_p;
  relative_path = name_a;
  provider_node_id = name_a;
  offset = 5;
  length = 3;
}

abbrev pub read_response : ProviderReadResponse
read_response = record { request_id = 7; status = read_ok; bytes = 1 ∷ 2 ∷ 3 ∷ [] }

abbrev pub state : IpcState
state = record {
  runtime = runtime;
  mount_status = record {
    mount = mounted_text;
    fuse_adapter = enabled_text;
    mount_path = some (47 ∷ []);
    ready_for_commits = true;
  };
  provider_routes = (1, record { owner_token = 9 }) ∷ [];
  pending_reads = (7, record { provider_id = 1; request = read_request }) ∷ [];
  next_read_request_id = 8;
  sent = [];
}

abbrev pub commit : PromiseCommitBody
commit = record {
  provider_id = 1;
  provider_owner_token = 9;
  nodes =
      record {
        kind = file;
        relative_path = name_a;
        provider_node_id = name_a;
        mode = 420;
        size = 10;
        mtime_nsec = pos 0;
      }
      ∷ [];
}

abbrev pub fresh : Fresh
fresh = record { token = done 5; cloned = done tt }

abbrev pub greeting : Event
greeting = record { request = hello 1 1; fresh = fresh; written = true }

abbrev pub registration : Event
registration = record { request = provider_register; fresh = fresh; written = true }

abbrev pub inquiry : Event
inquiry = record { request = status; fresh = fresh; written = true }

abbrev pub no_materialize : MaterializeBody → IpcState → IpcState × Outcome
no_materialize body st = (st, silent)
