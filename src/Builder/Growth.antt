-- ===== src/Builder/Growth.antt =====
-- `add_node` keeps the builder's tree.
use fuse_promise.Base.{
  ◌≡◌, refl, sym, ◌∙◌, Bool, true, false, Option, none, some, [], Str, lookup, str_key, is_some,
  lookup-insert_self, lookup-insert_ne, same, same_iff, Bool-cases, inl, inr, lookup-All,
}
use fuse_promise.Status.{
  Status, ok, invalid_argument, not_found, already_exists, refuse, ok_or, >>=-eq-ok,
}
use fuse_promise.Path.{is_empty, join, normalize_relative_path, parent_path}
use fuse_promise.Path.Normal.{normalize_idem, normalize-join}
use fuse_promise.Node.{
  ProviderId, NodeKind, file, directory, is_file, NodeAttr, PromiseNode, validate_attr,
}
use fuse_promise.Builder.{PromiseBuilder, new, new_node, place_node, add_node}
use fuse_promise.Builder.Invariant.{
  IsListed, IsNode, IsTree, add_child_self, add_child-keeps, entry_or_default-keeps,
}

is_some_lem : {A : Type 0} (o : Option A) → is_some o ≡ false → o ≡ none
is_some_lem none h = refl
is_some_lem (some a) h = cc

-- The builder starts with the root alone.
pub new-IsTree : (provider_id : ProviderId) → IsTree (new provider_id)
unfolding new validate_attr join
new-IsTree provider_id path node h =
    lookup-All (λ entry. IsNode (new provider_id) entry.0 entry.1) path (new provider_id).nodes
      (
        record {
          keyed = refl;
          normal = normalize-join [] tt;
          valid = refl;
          parented = λ below. cc;
        },
        tt,
      )
      h

-- A test that was passed.
pub refuse_lem : (test : Bool) (e : Status) {u : Unit {0}} → refuse test e ≡ ok u → test ≡ false
refuse_lem true e h = cc
refuse_lem false e h = refl

ok_or_lem : {A : Type 0} (o : Option A) (e : Status) {a : A} → ok_or o e ≡ ok a → o ≡ some a
ok_or_lem none e h = cc
ok_or_lem (some a) e h = cc

module _ (b : PromiseBuilder) (path : Str) (attr : NodeAttr) (provider_node_id : Str)
    (kind : NodeKind) where
  abbrev after : PromiseBuilder
  after = place_node b path attr provider_node_id kind

  IsListed-new : IsListed (parent_path path) path after.children
  unfolding place_node
  IsListed-new =
      elim kind
        as (λ k.
          IsListed (parent_path path) path (place_node b path attr provider_node_id k).children) [
            | file ↦ add_child_self (parent_path path) path b.children
            | directory ↦
                entry_or_default-keeps path (parent_path path) path _
                  (add_child_self (parent_path path) path b.children)
          ]

  IsListed-old : (p c : Str) → IsListed p c b.children → IsListed p c after.children
  unfolding place_node
  IsListed-old p c h =
      elim kind as (λ k. IsListed p c (place_node b path attr provider_node_id k).children) [
        | file ↦ add_child-keeps (parent_path path) path p c b.children h
        | directory ↦
            entry_or_default-keeps path p c _
              (add_child-keeps (parent_path path) path p c b.children h)
      ]

  -- A node that was there stays where it was.
  found-old :
      (k : Str) (node : PromiseNode)
      → lookup path b.nodes ≡ none
      → lookup k b.nodes ≡ some node
      → lookup k after.nodes ≡ some node
  unfolding place_node
  found-old k node fresh h = elim (Bool-cases (same path k)) [
    | inl here ↦ let same_path : path ≡ k = (same_iff path k).0 here in cc (same_path, fresh, h)
    | inr other ↦
        lookup-insert_ne path k (new_node b path attr provider_node_id kind) b.nodes other ∙ h
  ]

  IsNode-old :
      (k : Str) (node : PromiseNode)
      → lookup path b.nodes ≡ none
      → IsNode b k node
      → IsNode after k node
  IsNode-old k node fresh h = record {
    keyed = h.keyed;
    normal = h.normal;
    valid = h.valid;
    parented = λ below.
        let p = h.parented below in
        record {
          parent = p.parent;
          above = found-old (parent_path k) p.parent fresh p.above;
          is_dir = p.is_dir;
          listed = IsListed-old (parent_path k) k p.listed;
        };
  }

  placed :
      (parent : PromiseNode)
      → IsTree b
      → lookup path b.nodes ≡ none
      → normalize_relative_path path ≡ ok path
      → validate_attr kind attr ≡ ok tt
      → lookup (parent_path path) b.nodes ≡ some parent
      → is_file parent.kind ≡ false
      → IsTree after
  unfolding place_node
  placed parent tree fresh normal valid above is_dir k node h = elim (Bool-cases (same path k)) [
    | inl here ↦
        let same_path : path ≡ k = (same_iff path k).0 here in
        let same_node : new_node b path attr provider_node_id kind ≡ node = cc (
          lookup-insert_self path (new_node b path attr provider_node_id kind) b.nodes,
          same_path,
          h,
        ) in
        rw (← same_path, ← same_node)
          (record {
            keyed = refl;
            normal = normal;
            valid = valid;
            parented = λ below. record {
              parent = parent;
              above = found-old (parent_path path) parent fresh above;
              is_dir = is_dir;
              listed = IsListed-new;
            };
          })
    | inr other ↦ IsNode-old k node fresh (
        tree k node (
          sym (lookup-insert_ne path k (new_node b path attr provider_node_id kind) b.nodes other)
          ∙ h))
  ]

-- Adding a node keeps the tree of a builder: each node stands under its own normal path with
-- valid attributes, and each but the root has a directory above it that lists it.
pub add_node-IsTree :
    (b b' : PromiseBuilder) (relative_path : Str) (attr : NodeAttr) (provider_node_id : Str)
    (kind : NodeKind)
    → IsTree b
    → add_node b relative_path attr provider_node_id kind ≡ ok b'
    → IsTree b'
unfolding add_node
add_node-IsTree b b' relative_path attr provider_node_id kind tree h =
    let (u1, named, h1) = >>=-eq-ok (refuse (is_empty provider_node_id) invalid_argument) _ h in
    let (u2, valid, h2) = >>=-eq-ok (validate_attr kind attr) _ h1 in
    let (path, normal, h3) = >>=-eq-ok (normalize_relative_path relative_path) _ h2 in
    let (u4, below, h4) = >>=-eq-ok (refuse (is_empty path) invalid_argument) _ h3 in
    let (u5, fresh, h5) = >>=-eq-ok (refuse (is_some (lookup path b.nodes)) already_exists) _ h4 in
    let (parent, above, h6) =
      >>=-eq-ok (ok_or (lookup (parent_path path) b.nodes) not_found) _ h5 in
    let (u7, is_dir, h7) = >>=-eq-ok (refuse (is_file parent.kind) invalid_argument) _ h6 in
    let absent =
      is_some_lem (lookup path b.nodes)
        (refuse_lem (is_some (lookup path b.nodes)) already_exists fresh) in
    let same_result : place_node b path attr provider_node_id kind ≡ b' = cc in
    rw (← same_result) (
      placed b path attr provider_node_id kind parent tree absent
        (normalize_idem relative_path path normal) valid
        (ok_or_lem (lookup (parent_path path) b.nodes) not_found above)
        (refuse_lem (is_file parent.kind) invalid_argument is_dir))
