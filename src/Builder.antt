-- ===== src/Builder.antt =====
-- `PromiseBuilder` of crates/fuse-promise-runtime/src/lib.rs. `add_node` changes the builder only
-- where it succeeds, so an error carries no builder.
pub mod Invariant
pub mod Growth
pub mod Listings
pub mod Linked
use fuse_promise.Base.{
  ℕ, ◌+◌, Bool, not, Option, none, some, List, [], ◌∷◌, Str, BTreeMap, BTreeSet, lookup, insert,
  set_insert, str_key, is_some, values, wrapping_add,
}
use fuse_promise.Status.{
  Result, ok, err, invalid_argument, not_found, already_exists, ◌>>=◌, ◌>>◌, refuse, ok_or,
}
use fuse_promise.Path.{is_empty, normalize_relative_path, parent_path, leaf_name}
use fuse_promise.Node.{
  ℤ, pos, ProviderId, NodeKind, file, directory, is_file, is_directory, NodeAttr, PromiseNode,
  PromiseTree, available, validate_attr,
}

pub record PromiseBuilder : Type 0 where
  pub provider_id : ProviderId
  pub next_node_id : ℕ
  pub next_inode : ℕ
  pub nodes : BTreeMap Str PromiseNode
  pub children : BTreeMap Str (BTreeSet Str)

abbrev pub root_node : PromiseNode
root_node = record {
  node_id = 1;
  inode = 1;
  relative_path = [];
  parent_path = none;
  name = [];
  provider_node_id = [];
  materialized_path = none;
  kind = directory;
  attr = record { mode = 493; size = 0; mtime_nsec = pos 0 };
}

unfoldable pub new : ProviderId → PromiseBuilder
new provider_id = record {
  provider_id = provider_id;
  next_node_id = 2;
  next_inode = 2;
  nodes = ([], root_node) ∷ [];
  children = ([], []) ∷ [];
}

-- `children.entry(path).or_default()`.
unfoldable pub entry_or_default : Str → BTreeMap Str (BTreeSet Str) → BTreeMap Str (BTreeSet Str)
entry_or_default path children = elim (lookup path children) [
  | none ↦ insert path [] children
  | some s ↦ children
]

-- `children.entry(parent).or_default().insert(path)`.
unfoldable pub add_child : Str → Str → BTreeMap Str (BTreeSet Str) → BTreeMap Str (BTreeSet Str)
add_child parent path children = elim (lookup parent children) [
  | none ↦ insert parent (set_insert path []) children
  | some s ↦ insert parent (set_insert path s) children
]

abbrev pub new_node : PromiseBuilder → Str → NodeAttr → Str → NodeKind → PromiseNode
new_node b path attr provider_node_id kind = record {
  node_id = b.next_node_id;
  inode = b.next_inode;
  relative_path = path;
  parent_path = some (parent_path path);
  name = leaf_name path;
  provider_node_id = provider_node_id;
  materialized_path = none;
  kind = kind;
  attr = attr;
}

-- The part of `add_node` behind its checks.
unfoldable pub place_node : PromiseBuilder → Str → NodeAttr → Str → NodeKind → PromiseBuilder
place_node b path attr provider_node_id kind =
    let children = add_child (parent_path path) path b.children in
    record b {
      next_node_id = wrapping_add b.next_node_id 1;
      next_inode = wrapping_add b.next_inode 1;
      nodes = insert path (new_node b path attr provider_node_id kind) b.nodes;
      children = elim kind [ file ↦ children | directory ↦ entry_or_default path children ];
    }

unfoldable pub add_node : PromiseBuilder → Str → NodeAttr → Str → NodeKind → Result PromiseBuilder
unfolding place_node
add_node b relative_path attr provider_node_id kind = do
  refuse (is_empty provider_node_id) invalid_argument
  validate_attr kind attr
  path ← normalize_relative_path relative_path
  refuse (is_empty path) invalid_argument
  refuse (is_some (lookup path b.nodes)) already_exists
  parent_node ← ok_or (lookup (parent_path path) b.nodes) not_found
  refuse (is_file parent_node.kind) invalid_argument
  ok (place_node b path attr provider_node_id kind)

unfoldable pub add_dir : PromiseBuilder → Str → NodeAttr → Str → Result PromiseBuilder
add_dir b relative_path attr provider_node_id =
    add_node b relative_path attr provider_node_id directory

unfoldable pub add_file : PromiseBuilder → Str → NodeAttr → Str → Result PromiseBuilder
add_file b relative_path attr provider_node_id = add_node b relative_path attr provider_node_id file

unfoldable pub finish : PromiseBuilder → Str → PromiseTree
finish b promise_id = record {
  promise_id = promise_id;
  provider_id = b.provider_id;
  state = available;
  nodes = b.nodes;
  children = b.children;
}
