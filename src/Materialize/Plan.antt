-- ===== src/Materialize/Plan.antt =====
-- `plan_materialize`: what is written where.
use fuse_promise.Base.{not, ◌||◌, none, some, List, [], ◌∷◌, Str, if◌then◌else◌}
use fuse_promise.Status
use fuse_promise.Status.{Status}
use fuse_promise.Path.{is_empty}
use fuse_promise.RuntimeDir.{join_path}
use fuse_promise.Node.{PromiseNode, is_available}
use fuse_promise.Node.Subtree.{Walk, subtree_nodes}
use fuse_promise.Runtime.{Runtime, promise, has_provider}
use fuse_promise.Ipc.Message.{MaterializeBody}
use fuse_promise.Ipc.Resolve.{resolve_visible_path}
use fuse_promise.Materialize.Files.{Files}
use fuse_promise.Materialize.Data.{Entry, MaterializePlan}
use fuse_promise.Materialize.Monad.{M, ◌>>=◌, ◌>>◌, pure, lift}
use fuse_promise.Materialize.Names.{materialize_target_name, subtree_target_suffix}
use fuse_promise.Materialize.Targets.{
  validate_target_dir, materialize_target_path, preflight_materialize_targets,
}

-- A walk that ran out of fuel would be an internal error; the trees that a builder makes have none.
abbrev pub ended : Walk → Status.Result (List PromiseNode)
ended none = Status.err Status.io
ended (some r) = r

-- `MaterializeRequest::from_body`.
unfoldable pub validate_materialize_request : MaterializeBody → Status.Result (Unit {0})
validate_materialize_request request =
    Status.refuse (is_empty request.source_path || is_empty request.target_dir)
      Status.invalid_argument

-- The nodes under the path, while the promise is available and its provider live.
unfoldable pub nodes_to_copy : Runtime → Str → Str → Status.Result (List PromiseNode)
unfolding promise has_provider subtree_nodes
nodes_to_copy rt promise_id relative_path =
    Status.◌>>=◌ (Status.ok_or (promise rt promise_id) Status.not_found) (λ tree.
      Status.◌>>◌
        (Status.refuse (not (is_available tree.state) || not (has_provider rt tree.provider_id))
          Status.provider_gone)
        (ended (subtree_nodes tree relative_path)))

abbrev pub first : List PromiseNode → Status.Result PromiseNode
first [] = Status.err Status.not_found
first (node ∷ nodes) = Status.ok node

-- `target_path.join(suffix)`, or the target itself for the root of the copy.
abbrev pub entry_target : Str → Str → Str
entry_target target_path suffix =
    if is_empty suffix then target_path else join_path target_path suffix

abbrev pub entry_of : PromiseNode → Str → Entry
entry_of node target_path = record {
  relative_path = node.relative_path;
  target_path = target_path;
  kind = node.kind;
  size = node.attr.size;
  mode = node.attr.mode;
  mtime_nsec = node.attr.mtime_nsec;
}

-- The loop over the nodes.
unfoldable pub plan_entries : Str → Str → List PromiseNode → Status.Result (List Entry)
unfolding subtree_target_suffix join_path
plan_entries relative_path target_path [] = Status.ok []
plan_entries relative_path target_path (node ∷ nodes) =
    Status.◌>>=◌ (subtree_target_suffix relative_path node.relative_path) (λ suffix.
      Status.◌>>=◌ (plan_entries relative_path target_path nodes)
        (λ entries. Status.ok (entry_of node (entry_target target_path suffix) ∷ entries)))

module _ (F : Files) where
  unfoldable pub plan_materialize : MaterializeBody → M F Status MaterializePlan
  unfolding resolve_visible_path nodes_to_copy materialize_target_name plan_entries
  plan_materialize request w =
      (do
        validate_target_dir F request.target_dir
        (promise_id, relative_path) ←
            lift (resolve_visible_path w.ipc.mount_status request.source_path)
        nodes ← lift (nodes_to_copy w.ipc.runtime promise_id relative_path)
        root ← lift (first nodes)
        target_name ← lift (materialize_target_name promise_id root)
        target_path ←
            materialize_target_path F request.target_dir target_name root.kind
              request.conflict_policy
        entries ← lift (plan_entries relative_path target_path nodes)
        preflight_materialize_targets F entries request.conflict_policy
        pure (record {
          promise_id = promise_id;
          target_path = target_path;
          conflict_policy = request.conflict_policy;
          entries = entries;
        }))
        w
