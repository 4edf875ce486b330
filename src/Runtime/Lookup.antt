-- ===== src/Runtime/Lookup.antt =====
-- `lookup_inode`, `lookup_child`, `read_dir` of `Runtime`.
use fuse_promise.Base.{
  ℕ, Bool, false, not, Option, none, some, List, [], ◌∷◌, Str, ◌==◌, lookup, values, contains,
  str_key, if◌then◌else◌,
}
use fuse_promise.Status.{
  Result, ok, err, invalid_argument, not_found, io, ◌>>=◌, ◌>>◌, refuse, ok_or,
}
use fuse_promise.Path.{validate_child_name, child_path}
use fuse_promise.Node.{
  PromiseNode, PromiseTree, directory, is_file, RuntimeEntry, mount_root, promise_node,
  DirectoryEntry, fuse_root_inode,
}
use fuse_promise.Runtime.{Runtime, promise}

-- `find_map` over the nodes of one tree.
unfoldable pub find_node : ℕ → List PromiseNode → Option PromiseNode
find_node inode [] = none
find_node inode (node ∷ nodes) = if node.inode == inode then some node else find_node inode nodes

abbrev pub or_later : Str → Option PromiseNode → Option RuntimeEntry → Option RuntimeEntry
or_later promise_id none later = later
or_later promise_id (some node) later = some (promise_node promise_id node)

-- `find_map` over the trees.
unfoldable pub find_entry : ℕ → List PromiseTree → Option RuntimeEntry
unfolding find_node
find_entry inode [] = none
find_entry inode (tree ∷ trees) =
    or_later tree.promise_id (find_node inode (values tree.nodes)) (find_entry inode trees)

unfoldable pub lookup_inode : Runtime → ℕ → Result RuntimeEntry
unfolding find_entry
lookup_inode rt inode =
    if inode == fuse_root_inode
    then ok mount_root
    else ok_or (find_entry inode (values rt.promises)) not_found

-- `let RuntimeEntry::PromiseNode { .. } = .. else { unreachable!(..) }`: `lookup_inode` answers
-- `mount_root` for the root inode alone, which was handled before.
abbrev pub expect_node : RuntimeEntry → Result (Str × PromiseNode)
expect_node mount_root = err io
expect_node (promise_node promise_id node) = ok (promise_id, node)

abbrev pub has_child : PromiseTree → Str → Str → Bool
has_child tree parent child = elim (lookup parent tree.children) [
  | none ↦ false
  | some children ↦ contains child children
]

unfoldable pub lookup_root : Runtime → Str → Result RuntimeEntry
unfolding promise
lookup_root rt name = do
  tree ← ok_or (promise rt name) not_found
  node ← ok_or (lookup [] tree.nodes) not_found
  ok (promise_node tree.promise_id node)

unfoldable pub lookup_below : Runtime → ℕ → Str → Result RuntimeEntry
unfolding promise
lookup_below rt parent_inode name = do
  entry ← lookup_inode rt parent_inode
  (promise_id, parent) ← expect_node entry
  refuse (is_file parent.kind) invalid_argument
  tree ← ok_or (promise rt promise_id) not_found
  let child_relative_path = child_path parent.relative_path name
  refuse (not (has_child tree parent.relative_path child_relative_path)) not_found
  child ← ok_or (lookup child_relative_path tree.nodes) not_found
  ok (promise_node promise_id child)

unfoldable pub lookup_child : Runtime → ℕ → Str → Result RuntimeEntry
unfolding lookup_root lookup_below
lookup_child rt parent_inode name = do
  validate_child_name name
  if parent_inode == fuse_root_inode then lookup_root rt name else lookup_below rt parent_inode name

-- `map(..).collect::<Result<Vec<_>>>()`.
unfoldable pub collect {ℓ} : {A : Type ℓ} {B : Type 0} → (A → Result B) → List A → Result (List B)
collect f [] = ok []
collect f (x ∷ xs) = do y ← f x; ys ← collect f xs; ok (y ∷ ys)

abbrev pub root_entry : PromiseTree → Result DirectoryEntry
root_entry tree = do
  root ← ok_or (lookup [] tree.nodes) not_found
  ok (record { name = tree.promise_id; inode = root.inode; kind = directory })

abbrev pub child_entry : PromiseTree → Str → Result DirectoryEntry
child_entry tree child_path = do
  child ← ok_or (lookup child_path tree.nodes) not_found
  ok (record { name = child.name; inode = child.inode; kind = child.kind })

unfoldable pub read_node_dir : Runtime → ℕ → Result (List DirectoryEntry)
unfolding promise collect
read_node_dir rt inode = do
  entry ← lookup_inode rt inode
  (promise_id, node) ← expect_node entry
  refuse (is_file node.kind) invalid_argument
  tree ← ok_or (promise rt promise_id) not_found
  children ← ok_or (lookup node.relative_path tree.children) not_found
  collect (child_entry tree) children

unfoldable pub read_dir : Runtime → ℕ → Result (List DirectoryEntry)
unfolding read_node_dir
read_dir rt inode =
    if inode == fuse_root_inode
    then collect root_entry (values rt.promises)
    else read_node_dir rt inode
