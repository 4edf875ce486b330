-- ===== src/Node/Total.antt =====
-- The fuel of the walk of a subtree.
use fuse_promise.Base.{
  ℕ, zero, suc, ◌+◌, ◌≤◌, ◌<◌, ◌≡◌, refl, ap, ◌∙◌, true, some, List, [], ◌∷◌, ◌++◌, Str, BTreeMap,
  lookup, str_key, same, same_iff, is_some, length, All, All-map, ◌⊎◌, Bool-cases, inl, inr, arith,
}
use fuse_promise.Status.{ok}
use fuse_promise.Path.{normalize_relative_path}
use fuse_promise.Node.{PromiseNode, PromiseTree, NodeKind, file, directory}
use fuse_promise.Node.Subtree.{
  Walk, walk_all, walk_kind, walk_node, collect_subtree_nodes, deepest, subtree_from, subtree_nodes,
}

abbrev pub IsFound : PromiseTree → Str → Type 0
IsFound tree path = (node : PromiseNode) × (lookup path tree.nodes ≡ some node)

-- Each directory has a list of children, which are nodes with longer paths.
abbrev pub IsClosed : PromiseTree → Type 0
IsClosed tree =
    (path : Str) (node : PromiseNode)
    → lookup path tree.nodes ≡ some node
    → node.kind ≡ directory
    → (children : List Str) × (lookup path tree.children ≡ some children)
      × All (λ child. (length path < length child) × IsFound tree child) children

lookup-deepest :
    (path : Str) (nodes : BTreeMap Str PromiseNode) {node : PromiseNode}
    → lookup path nodes ≡ some node
    → length path ≤ deepest nodes
unfolding lookup deepest
lookup-deepest path [] h = cc
lookup-deepest path ((p, n) ∷ nodes) h = elim (Bool-cases (same p path)) [
  | inl hit ↦ let longest = ap length ((same_iff p path).0 hit) in omega arith
  | inr miss ↦ let rest = lookup-deepest path nodes (rw miss at h) in omega arith
]

-- A walk that ends well.
abbrev Ended : Walk → Type 0
Ended walk = (nodes : List PromiseNode) × (walk ≡ some (ok nodes))

walk_all-Ended :
    (walk : Str → Walk) (children : List Str)
    → All (λ child. Ended (walk child)) children
    → Ended (walk_all walk children)
unfolding walk_all
walk_all-Ended walk [] h = ([], refl)
walk_all-Ended walk (child ∷ rest) ((nodes, e), h) =
    let (later, f) = walk_all-Ended walk rest h in (nodes ++ later, rw (e, f) refl)

kind_cases : (kind : NodeKind) → (kind ≡ file) ⊎ (kind ≡ directory)
kind_cases file = inl refl
kind_cases directory = inr refl

module _ (tree : PromiseTree) (closed : IsClosed tree) where
  walk_children-Ended :
      (walk : Str → Walk) (path : Str) (children : List Str)
      → ((child : Str) → length path < length child → IsFound tree child → Ended (walk child))
      → All (λ child. (length path < length child) × IsFound tree child) children
      → Ended (walk_all walk children)
  walk_children-Ended walk path children h all =
      walk_all-Ended walk children (All-map (λ child found. h child found.0 found.1) children all)

  -- The walk of a node starts with the node.
  walk_node_ends :
      (walk : Str → Walk) (path : Str) (node : PromiseNode)
      → lookup path tree.nodes ≡ some node
      → ((child : Str) → length path < length child → IsFound tree child → Ended (walk child))
      → (rest : List PromiseNode) × (walk_node walk tree path (some node) ≡ some (ok (node ∷ rest)))
  walk_node_ends walk path node found h = elim (kind_cases node.kind) [
    | inl e ↦ ([], ap (walk_kind walk tree path node) e)
    | inr e ↦
        let (children, listed, all) = closed path node found e in
        let (rest, f) = walk_children-Ended walk path children h all in
        (rest, ap (walk_kind walk tree path node) e ∙ rw (listed, f) refl)
  ]

  collect_ends :
      (fuel : ℕ) (path : Str) (node : PromiseNode)
      → deepest tree.nodes < length path + fuel
      → lookup path tree.nodes ≡ some node
      → (rest : List PromiseNode) × (collect_subtree_nodes fuel tree path ≡ some (ok (node ∷ rest)))
  unfolding collect_subtree_nodes
  collect_ends zero path node enough found =
      let bound = lookup-deepest path tree.nodes found in absurd (omega arith)
  collect_ends (suc fuel) path node enough found =
      let (rest, e) =
        walk_node_ends (λ child. collect_subtree_nodes fuel tree child) path node found
          (λ child longer present.
            let (below, f) = collect_ends fuel child present.0 (omega arith) present.1 in
            (present.0 ∷ below, f)) in
      (rest, rw found e)

  -- The walk of a subtree does not run out of fuel and does not fail: for a path whose normal
  -- form names a node, it gives a list of nodes that starts with this node; each directory of
  -- the tree lists children that are nodes with longer paths.
  pub subtree_nodes_ends :
      (relative_path path : Str) (node : PromiseNode)
      → normalize_relative_path relative_path ≡ ok path
      → lookup path tree.nodes ≡ some node
      → (rest : List PromiseNode) × (subtree_nodes tree relative_path ≡ some (ok (node ∷ rest)))
  unfolding subtree_nodes subtree_from
  subtree_nodes_ends relative_path path node normal found =
      let (rest, e) = collect_ends (suc (deepest tree.nodes)) path node (omega arith) found in
      let present : is_some (lookup path tree.nodes) ≡ true = ap is_some found in
      (rest, rw (normal, subtree_nodes, subtree_from, present) e)
