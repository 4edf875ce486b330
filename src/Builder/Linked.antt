-- ===== src/Builder/Linked.antt =====
-- The nodes and the listings of a builder, as `add_node` changes them.
use fuse_promise.Base.{
  ◌≡◌, refl, ap, ◌∙◌, false, some, [], Str, BTreeMap, BTreeSet, lookup, insert, str_key, is_some,
  All, All-map, lookup-All, lookup-insert_self, inl, inr, cmp_str,
}
use fuse_promise.Status.{ok, invalid_argument, not_found, already_exists, refuse, ok_or, >>=-eq-ok}
use fuse_promise.Path.{is_empty, normalize_relative_path, parent_path}
use fuse_promise.Node.{
  ProviderId, NodeKind, file, directory, is_file, NodeAttr, PromiseNode, validate_attr,
}
use fuse_promise.Node.Total.{IsClosed}
use fuse_promise.Builder.Growth.{refuse_lem}
use fuse_promise.Builder.{PromiseBuilder, new, new_node, place_node, add_node, finish, add_child}
use fuse_promise.Builder.Listings.{
  IsChild, IsLinkedTo, HasListing, parent_shorter, add_child-linked, add_child-listing,
  entry-linked, entry-listing, entry_self, insert_cases, insert_found,
}

-- Each listing is of children, and each directory has one.
pub record IsLinked (b : PromiseBuilder) : Type 0 where
  pub linked : IsLinkedTo b.nodes b.children
  pub listed :
      (path : Str) (node : PromiseNode)
      → lookup path b.nodes ≡ some node
      → node.kind ≡ directory
      → HasListing b.children path

linked_grows :
    (nodes : BTreeMap Str PromiseNode) (path : Str) (node : PromiseNode)
    (children : BTreeMap Str (BTreeSet Str))
    → IsLinkedTo nodes children
    → IsLinkedTo (insert path node nodes) children
linked_grows nodes path node children linked p listing h =
    All-map (λ child found. (found.0, insert_found path child node nodes found.1.1)) listing
      (linked p listing h)

module _ (b : PromiseBuilder) (path : Str) (attr : NodeAttr) (provider_node_id : Str) where
  abbrev made : NodeKind → PromiseNode
  made kind = new_node b path attr provider_node_id kind

  child_linked :
      (kind : NodeKind)
      → is_empty path ≡ false
      → IsLinked b
      → IsLinkedTo (insert path (made kind) b.nodes) (add_child (parent_path path) path b.children)
  child_linked kind below h =
      add_child-linked (insert path (made kind) b.nodes) (parent_path path) path b.children
        (parent_shorter path below, (made kind, lookup-insert_self path (made kind) b.nodes))
        (linked_grows b.nodes path (made kind) b.children h.linked)

  place_node-IsLinked :
      (kind : NodeKind)
      → is_empty path ≡ false
      → IsLinked b
      → IsLinked (place_node b path attr provider_node_id kind)
  unfolding place_node
  place_node-IsLinked file below h = record {
    linked = child_linked file below h;
    listed = λ p node found kind. elim (insert_cases path p (made file) b.nodes found) [
      | inl (here, equal) ↦ let clash : file ≡ directory = ap (λ n. n.kind) equal ∙ kind in cc
      | inr old ↦ add_child-listing (parent_path path) path p b.children (h.listed p node old kind)
    ];
  }
  place_node-IsLinked directory below h = record {
    linked =
        entry-linked (insert path (made directory) b.nodes) path
          (add_child (parent_path path) path b.children) (child_linked directory below h);
    listed = λ p node found kind. elim (insert_cases path p (made directory) b.nodes found) [
      | inl (here, equal) ↦
          rw (← here) (entry_self path (add_child (parent_path path) path b.children))
      | inr old ↦
          entry-listing path p (add_child (parent_path path) path b.children)
            (add_child-listing (parent_path path) path p b.children (h.listed p node old kind))
    ];
  }

pub add_node-IsLinked :
    (b b' : PromiseBuilder) (relative_path : Str) (attr : NodeAttr) (provider_node_id : Str)
    (kind : NodeKind)
    → IsLinked b
    → add_node b relative_path attr provider_node_id kind ≡ ok b'
    → IsLinked b'
unfolding add_node
add_node-IsLinked b b' relative_path attr provider_node_id kind linked h =
    let (u1, named, h1) = >>=-eq-ok (refuse (is_empty provider_node_id) invalid_argument) _ h in
    let (u2, valid, h2) = >>=-eq-ok (validate_attr kind attr) _ h1 in
    let (path, normal, h3) = >>=-eq-ok (normalize_relative_path relative_path) _ h2 in
    let (u4, below, h4) = >>=-eq-ok (refuse (is_empty path) invalid_argument) _ h3 in
    let (u5, fresh, h5) = >>=-eq-ok (refuse (is_some (lookup path b.nodes)) already_exists) _ h4 in
    let (parent, above, h6) =
      >>=-eq-ok (ok_or (lookup (parent_path path) b.nodes) not_found) _ h5 in
    let (u7, is_dir, h7) = >>=-eq-ok (refuse (is_file parent.kind) invalid_argument) _ h6 in
    let same_result : place_node b path attr provider_node_id kind ≡ b' = cc in
    rw (← same_result) (
      place_node-IsLinked b path attr provider_node_id kind
        (refuse_lem (is_empty path) invalid_argument below) linked)

pub new-IsLinked : (provider_id : ProviderId) → IsLinked (new provider_id)
unfolding new lookup cmp_str
new-IsLinked provider_id = record {
  linked = λ path listing h.
      lookup-All (λ entry. All (IsChild (new provider_id).nodes entry.0) entry.1) path
        (new provider_id).children (tt, tt) h;
  listed = λ path node h kind.
      lookup-All (λ entry. entry.1.kind ≡ directory → HasListing (new provider_id).children entry.0)
        path (new provider_id).nodes ((λ root. ([], refl)), tt) h kind;
}

pub finish-IsClosed :
    (b : PromiseBuilder) (promise_id : Str) → IsLinked b → IsClosed (finish b promise_id)
unfolding finish
finish-IsClosed b promise_id h path node found kind =
    let (listing, e) = h.listed path node found kind in (listing, e, h.linked path listing e)
