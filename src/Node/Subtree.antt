-- ===== src/Node/Subtree.antt =====
-- `PromiseTree::subtree_nodes` and `collect_subtree_nodes` of
-- crates/fuse-promise-runtime/src/lib.rs. The walk takes fuel, one unit for each level; an outer
-- `none` means that the fuel ran out.
use fuse_promise.Base.{
  ℕ, zero, suc, max, Option, none, some, List, [], ◌∷◌, ◌++◌, Str, BTreeMap, lookup, str_key,
  is_some, length, if◌then◌else◌,
}
use fuse_promise.Status.{Result, ok, err, not_found}
use fuse_promise.Path.{normalize_relative_path}
use fuse_promise.Node.{NodeKind, PromiseNode, PromiseTree, file, directory}

-- What a walk has collected, if it ended.
abbrev pub Walk : Type 0
Walk = Option (Result (List PromiseNode))

abbrev pub before : List PromiseNode → Walk → Walk
before nodes none = none
before nodes (some (err e)) = some (err e)
before nodes (some (ok later)) = some (ok (nodes ++ later))

abbrev pub and_then : Walk → Walk → Walk
and_then none rest = none
and_then (some (err e)) rest = some (err e)
and_then (some (ok nodes)) rest = before nodes rest

-- The loop over the children.
unfoldable pub walk_all : (Str → Walk) → List Str → Walk
walk_all walk [] = some (ok [])
walk_all walk (child_path ∷ rest) = and_then (walk child_path) (walk_all walk rest)

abbrev pub walk_children : (Str → Walk) → Option (List Str) → Walk
walk_children walk none = some (err not_found)
walk_children walk (some children) = walk_all walk children

abbrev pub walk_kind : (Str → Walk) → PromiseTree → Str → PromiseNode → NodeKind → Walk
walk_kind walk tree path node file = some (ok (node ∷ []))
walk_kind walk tree path node directory =
    before (node ∷ []) (walk_children walk (lookup path tree.children))

abbrev pub walk_node : (Str → Walk) → PromiseTree → Str → Option PromiseNode → Walk
walk_node walk tree path none = some (err not_found)
walk_node walk tree path (some node) = walk_kind walk tree path node node.kind

-- `collect_subtree_nodes`.
unfoldable pub collect_subtree_nodes : ℕ → PromiseTree → Str → Walk
unfolding walk_all
collect_subtree_nodes zero tree path = none
collect_subtree_nodes (suc fuel) tree path =
    walk_node (λ child. collect_subtree_nodes fuel tree child) tree path (lookup path tree.nodes)

-- The length of the longest path: no walk goes deeper.
unfoldable pub deepest : BTreeMap Str PromiseNode → ℕ
deepest [] = 0
deepest ((path, node) ∷ nodes) = max (length path) (deepest nodes)

unfoldable pub subtree_from : PromiseTree → Str → Walk
unfolding collect_subtree_nodes deepest
subtree_from tree root_path =
    if is_some (lookup root_path tree.nodes)
    then collect_subtree_nodes (suc (deepest tree.nodes)) tree root_path
    else some (err not_found)

unfoldable pub subtree_nodes : PromiseTree → Str → Walk
unfolding subtree_from
subtree_nodes tree relative_path = elim (normalize_relative_path relative_path) [
  | err e ↦ some (err e)
  | ok root_path ↦ subtree_from tree root_path
]
