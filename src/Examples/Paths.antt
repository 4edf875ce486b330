-- ===== src/Examples/Paths.antt =====
-- Paths and the mount directory.
use fuse_promise.Base.{
  some, none, Option, ℕ, ◌≤◌, ◌*◌, ◌/◌, ◌≢◌, ap, BTreeMap, insert, lookup-insert_self, lookup,
  lookup-All, str_key, length, ◌<◌, arith, ◌≡◌, refl, ◌↔◌, true, [], ◌∷◌, Str, All, if◌then◌else◌,
  List, ◌||◌, ◌%◌, cmp_str,
}
use fuse_promise.Status.{ok, err, invalid_argument, permission}
use fuse_promise.Path.{
  is_absolute, has_byte, slash, dot_dot, body, parse_component, components, split, collect_parts,
  join, normalize_relative_path, parent_path, leaf_name, validate_child_name, child_path,
}
use fuse_promise.Path.Normal.{
  IsPart, kept, climbs, normalize-eq-kept, normalize_confined, normalize_idem, normalize-join,
}
use fuse_promise.Path.Pieces.{NoByte}
use fuse_promise.Path.Accepted.{validate_child_name-child_path}
use fuse_promise.RuntimeDir.{
  Metadata, Stat, found, missing, Created, made, exists, MountFiles, prepare_mount_dir,
  validate_mount_dir_path, validate_private,
}
use fuse_promise.RuntimeDir.Prepared.{IsLawful, IsPrepared, prepare_mount_dir-IsPrepared}
use fuse_promise.RuntimeDir.{join_path}
use fuse_promise.Ipc.State.{commit_ready}
use fuse_promise.Ipc.Resolve.{resolve_visible_path}
use fuse_promise.Ipc.Resolved.{resolve-join_path}
use fuse_promise.Node.{PromiseNode, directory}
use fuse_promise.Node.Subtree.{subtree_nodes}
use fuse_promise.Node.Total.{IsFound, IsClosed, subtree_nodes_ends}
use fuse_promise.Builder.{root_node}
use fuse_promise.Examples.Data.{name_a, node_a, tree_p}
use fuse_promise.Path.Child.{parent-leaf-child_path, child_path-parent-leaf}

-- `a/./b`
abbrev dotted : Str
dotted = 97 ∷ 47 ∷ 46 ∷ 47 ∷ 98 ∷ []

-- `a/b`
abbrev plain : Str
plain = 97 ∷ 47 ∷ 98 ∷ []

abbrev part_a : Str
part_a = 97 ∷ []

normal_dotted : normalize_relative_path dotted ≡ ok plain
unfolding normalize_relative_path components split body parse_component collect_parts join has_byte
    cmp_str
normal_dotted = refl

part_a-IsPart : IsPart part_a
unfolding has_byte cmp_str
part_a-IsPart = record {
  nonempty = refl;
  not_dot = refl;
  not_dot_dot = refl;
  no_slash = refl;
  no_nul = refl;
}

slashless : NoByte slash part_a
unfolding has_byte
slashless = refl

normalize-eq-kept_example : normalize_relative_path dotted ≡ (
    if has_byte 0 dotted || (is_absolute dotted || climbs (split dotted))
    then err invalid_argument
    else ok (join (kept (split dotted))))
normalize-eq-kept_example = normalize-eq-kept dotted

normalize_confined_example : (ws : List Str) × (plain ≡ join ws) × All IsPart ws
normalize_confined_example = normalize_confined dotted plain normal_dotted

normalize_idem_example : normalize_relative_path plain ≡ ok plain
normalize_idem_example = normalize_idem dotted plain normal_dotted

normalize-join_example :
    normalize_relative_path (join (part_a ∷ part_a ∷ [])) ≡ ok (join (part_a ∷ part_a ∷ []))
normalize-join_example = normalize-join (part_a ∷ part_a ∷ []) (part_a-IsPart, (part_a-IsPart, tt))

plain_normal : normalize_relative_path plain ≡ ok plain
unfolding normalize_relative_path components split body parse_component collect_parts join has_byte
    cmp_str
plain_normal = refl

validate_child_name_example : (validate_child_name dot_dot ≡ ok tt) ↔ (
    (child_path plain dot_dot ≢ [])
    × (normalize_relative_path (child_path plain dot_dot) ≡ ok (child_path plain dot_dot))
    × (leaf_name (child_path plain dot_dot) ≡ dot_dot))
validate_child_name_example = validate_child_name-child_path plain dot_dot plain_normal

parent-leaf_example :
    (parent_path (child_path plain part_a) ≡ plain) × (leaf_name (child_path plain part_a) ≡ part_a)
parent-leaf_example = parent-leaf-child_path plain part_a slashless

child_path_example :
    (child_path (parent_path plain) (leaf_name plain) ≡ plain) × NoByte slash (leaf_name plain)
child_path_example = child_path-parent-leaf plain refl

-- A file system whose umask is 0o077, for user 1000.
abbrev Mounts : Type 0
Mounts = BTreeMap Str Metadata

abbrev look : Option Metadata → Stat
look (some m) = found m
look none = missing

abbrev make : Str → ℕ → Mounts → Option Metadata → Mounts × Created
make path mode mounts (some m) = (mounts, exists)
make path mode mounts none =
    (insert path (record { is_dir = true; uid = 1000; mode = mode / 64 * 64 }) mounts, made)

abbrev mount_files : MountFiles
mount_files = record {
  State = Mounts;
  symlink_metadata = λ path mounts. look (lookup path mounts);
  metadata = λ path mounts. look (lookup path mounts);
  create_dir = λ path mode mounts. make path mode mounts (lookup path mounts);
}

mount_made :
    (path : Str) (mode : ℕ) (mounts : Mounts) (free : Option Metadata)
    → (make path mode mounts free).1 ≡ made
    → (m : Metadata) × (look (lookup path (make path mode mounts free).0) ≡ found m)
      × (m.is_dir ≡ true)
      × (m.uid ≡ 1000)
      × (m.mode % 64 ≤ mode % 64)
mount_made path mode mounts (some m) e = cc
mount_made path mode mounts none e =
    let m : Metadata = record { is_dir = true; uid = 1000; mode = mode / 64 * 64 } in
    (m, ap look (lookup-insert_self path m mounts), refl, refl, omega arith)

mount_files-IsLawful : IsLawful mount_files 1000
mount_files-IsLawful = record {
  made_directory = λ path mode mounts e. mount_made path mode mounts (lookup path mounts) e;
}

-- A directory that another user made.
abbrev foreign : Mounts
foreign = (47 ∷ part_a, record { is_dir = true; uid = 0; mode = 448 }) ∷ []

prepare_mount_dir_example :
    ((prepare_mount_dir mount_files 1000 (47 ∷ part_a) []).1 ≡ ok tt)
    ↔ ((is_absolute (47 ∷ part_a) ≡ true) × IsPrepared mount_files 1000 (47 ∷ part_a) [])
prepare_mount_dir_example =
    prepare_mount_dir-IsPrepared mount_files 1000 (47 ∷ part_a) [] mount_files-IsLawful

prepared_new : (prepare_mount_dir mount_files 1000 (47 ∷ part_a) []).1 ≡ ok tt
unfolding prepare_mount_dir validate_mount_dir_path validate_private lookup insert cmp_str
prepared_new = refl

prepared_foreign : (prepare_mount_dir mount_files 1000 (47 ∷ part_a) foreign).1 ≡ err permission
unfolding prepare_mount_dir validate_mount_dir_path validate_private lookup insert cmp_str
prepared_foreign = refl

-- The mount `/m`.
abbrev mount : Str
mount = 47 ∷ 109 ∷ []

resolve-join_path_example :
    resolve_visible_path (commit_ready mount) (join_path mount (join (part_a ∷ part_a ∷ [])))
    ≡ ok (part_a, join (part_a ∷ []))
resolve-join_path_example =
    resolve-join_path mount part_a (part_a ∷ []) refl (part_a-IsPart, (part_a-IsPart, tt))

tree_p-IsClosed : IsClosed tree_p
unfolding lookup cmp_str
tree_p-IsClosed path node h e =
    lookup-All
      (λ entry.
        entry.1.kind ≡ directory
        → (children : List Str) × (lookup entry.0 tree_p.children ≡ some children)
          × All (λ child. (length entry.0 < length child) × IsFound tree_p child) children)
      path tree_p.nodes
      ((λ root. (name_a ∷ [], refl, ((omega arith, (node_a, refl)), tt))), ((λ kind. cc), tt)) h e

root_normal : normalize_relative_path [] ≡ ok []
unfolding normalize_relative_path has_byte collect_parts components split body parse_component join
    cmp_str
root_normal = refl

root_found : lookup [] tree_p.nodes ≡ some root_node
unfolding lookup cmp_str
root_found = refl

subtree_nodes_example :
    (rest : List PromiseNode) × (subtree_nodes tree_p [] ≡ some (ok (root_node ∷ rest)))
subtree_nodes_example =
    subtree_nodes_ends tree_p tree_p-IsClosed [] [] root_node root_normal root_found
