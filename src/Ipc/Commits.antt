-- ===== src/Ipc/Commits.antt =====
-- The builder of a commit request.
use fuse_promise.Base.{◌≡◌, some, lookup, str_key, List, [], ◌∷◌, Str}
use fuse_promise.Status.{ok, >>=-eq-ok}
use fuse_promise.Node.{ProviderId, NodeKind, file, directory, NodeAttr, PromiseNode}
use fuse_promise.Path.{normalize_relative_path}
use fuse_promise.Node.Subtree.{subtree_nodes}
use fuse_promise.Node.Total.{subtree_nodes_ends}
use fuse_promise.Builder.Linked.{IsLinked, new-IsLinked, add_node-IsLinked, finish-IsClosed}
use fuse_promise.Builder
use fuse_promise.Builder.{PromiseBuilder, add_node, add_dir, add_file, finish}
use fuse_promise.Builder.Invariant.{IsTree}
use fuse_promise.Builder.Growth.{new-IsTree, add_node-IsTree}
use fuse_promise.Ipc.Message.{PromiseNodeBody, PromiseCommitBody}
use fuse_promise.Ipc.Session.{add_body, build, builder_of}

-- What every successful `add_node` keeps, the loop over the nodes of a request keeps.
module _ (P : PromiseBuilder → Type 0)
    (add_node-keeps : (b b' : PromiseBuilder) (path : Str) (attr : NodeAttr)
        (provider_node_id : Str) (kind : NodeKind)
      → P b
      → add_node b path attr provider_node_id kind ≡ ok b'
      → P b') where
  add_body-keeps :
      (b b' : PromiseBuilder) (kind : NodeKind) (path : Str) (attr : NodeAttr)
      (provider_node_id : Str)
      → P b
      → add_body b kind path attr provider_node_id ≡ ok b'
      → P b'
  unfolding add_dir add_file
  add_body-keeps b b' file path attr provider_node_id kept h =
      add_node-keeps b b' path attr provider_node_id file kept h
  add_body-keeps b b' directory path attr provider_node_id kept h =
      add_node-keeps b b' path attr provider_node_id directory kept h

  build-keeps :
      (nodes : List PromiseNodeBody) (b b' : PromiseBuilder) → P b → build b nodes ≡ ok b' → P b'
  unfolding build
  build-keeps [] b b' kept h = let same_builder : b ≡ b' = cc in rw (← same_builder) kept
  build-keeps (node ∷ nodes) b b' kept h =
      let attr : NodeAttr = record {
        mode = node.mode;
        size = node.size;
        mtime_nsec = node.mtime_nsec;
      } in
      let (b1, added, rest) =
        >>=-eq-ok (add_body b node.kind node.relative_path attr node.provider_node_id)
          (λ b1. build b1 nodes) h in
      build-keeps nodes b1 b'
        (add_body-keeps b b1 node.kind node.relative_path attr node.provider_node_id kept added)
        rest

-- A builder that comes of the nodes of a commit request holds a tree: each node stands under
-- its own normal path with valid attributes, and each but the root has a directory above it
-- that lists it.
pub builder_of-IsTree :
    (request : PromiseCommitBody) (provider_id : ProviderId) (b : PromiseBuilder)
    → builder_of request provider_id ≡ ok b
    → IsTree b
unfolding builder_of
builder_of-IsTree request provider_id b h =
    build-keeps IsTree add_node-IsTree request.nodes (Builder.new provider_id) b
      (new-IsTree provider_id) h

-- In the tree of a builder that comes of the nodes of a commit request, the walk below a path
-- whose normal form names a node does not run out of fuel and does not fail: it gives a list of
-- nodes that starts with this node.
pub builder_of-subtree_nodes :
    (request : PromiseCommitBody) (provider_id : ProviderId) (b : PromiseBuilder)
    (promise_id relative_path path : Str) (node : PromiseNode)
    → builder_of request provider_id ≡ ok b
    → normalize_relative_path relative_path ≡ ok path
    → lookup path b.nodes ≡ some node
    → (rest : List PromiseNode) × (subtree_nodes (finish b promise_id) relative_path
        ≡ some (ok (node ∷ rest)))
unfolding builder_of finish
builder_of-subtree_nodes request provider_id b promise_id relative_path path node h normal found =
    subtree_nodes_ends (finish b promise_id)
      (finish-IsClosed b promise_id (
        build-keeps IsLinked add_node-IsLinked request.nodes (Builder.new provider_id) b
          (new-IsLinked provider_id) h))
      relative_path path node normal found
