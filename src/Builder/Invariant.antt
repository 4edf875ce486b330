-- ===== src/Builder/Invariant.antt =====
-- What `PromiseBuilder::add_dir` and `add_file` keep: the nodes form a tree.
use fuse_promise.Base.{
  ◌≡◌, refl, ap, ◌∙◌, ◌||◌, Bool, true, false, none, some, [], Str, BTreeMap, BTreeSet, lookup,
  insert, set_insert, contains, str_key, if◌then◌else◌, lookup-insert, lookup-insert_self,
  lookup-insert_ne, contains-set_insert, same, same_iff, same_refl, Bool-cases, Option-cases, inl,
  inr,
}
use fuse_promise.Status.{ok}
use fuse_promise.Path.{is_empty, normalize_relative_path, parent_path}
use fuse_promise.Node.{is_file, PromiseNode, validate_attr}
use fuse_promise.Builder.{PromiseBuilder, entry_or_default, add_child}

-- `child` is listed under `parent`.
pub record IsListed (parent child : Str) (children : BTreeMap Str (BTreeSet Str)) : Type 0 where
  pub siblings : BTreeSet Str
  pub listing : lookup parent children ≡ some siblings
  pub member : contains child siblings ≡ true

-- The directory above a node, which lists it.
pub record HasParent (path : Str) (nodes : BTreeMap Str PromiseNode)
    (children : BTreeMap Str (BTreeSet Str)) : Type 0 where
  pub parent : PromiseNode
  pub above : lookup (parent_path path) nodes ≡ some parent
  pub is_dir : is_file parent.kind ≡ false
  pub listed : IsListed (parent_path path) path children

-- Each node stands under its own path, which is in normal form, has valid attributes, and all but
-- the root have a parent.
pub record IsNode (b : PromiseBuilder) (path : Str) (node : PromiseNode) : Type 0 where
  pub keyed : node.relative_path ≡ path
  pub normal : normalize_relative_path path ≡ ok path
  pub valid : validate_attr node.kind node.attr ≡ ok tt
  pub parented : is_empty path ≡ false → HasParent path b.nodes b.children

abbrev pub IsTree : PromiseBuilder → Type 0
IsTree b = (path : Str) (node : PromiseNode) → lookup path b.nodes ≡ some node → IsNode b path node

pub add_child_self :
    (parent path : Str) (children : BTreeMap Str (BTreeSet Str))
    → IsListed parent path (add_child parent path children)
unfolding add_child
add_child_self parent path children = elim (Option-cases (lookup parent children)) [
  | inl miss ↦
      rw (miss, add_child)
        (record {
          siblings = set_insert path [];
          listing = lookup-insert_self parent (set_insert path []) children;
          member =
              contains-set_insert path path [] ∙ ap (λ b. b || contains path []) (same_refl path);
        })
  | inr (s, hit) ↦
      rw (hit, add_child)
        (record {
          siblings = set_insert path s;
          listing = lookup-insert_self parent (set_insert path s) children;
          member =
              contains-set_insert path path s ∙ ap (λ b. b || contains path s) (same_refl path);
        })
]

or_true : (a b : Bool) → b ≡ true → (a || b) ≡ true
or_true true b h = refl
or_true false b h = h

insert_larger :
    (parent path p c : Str) (s : BTreeSet Str) (children : BTreeMap Str (BTreeSet Str))
    → lookup parent children ≡ some s
    → IsListed p c children
    → IsListed p c (insert parent (set_insert path s) children)
insert_larger parent path p c s children hit h = elim (Bool-cases (same parent p)) [
  | inl here ↦
      let same_path : parent ≡ p = (same_iff parent p).0 here in
      let same_set : s ≡ h.siblings = cc (hit, h.listing, same_path) in
      record {
        siblings = set_insert path s;
        listing =
            lookup-insert parent p (set_insert path s) children
            ∙ ap (λ b. if b then some (set_insert path s) else lookup p children) here;
        member =
            contains-set_insert path c s
            ∙ or_true (same path c) (contains c s) (rw same_set h.member);
      }
  | inr other ↦ record {
    siblings = h.siblings;
    listing = lookup-insert_ne parent p (set_insert path s) children other ∙ h.listing;
    member = h.member;
  }
]

insert_fresh :
    (parent p c : Str) (s : BTreeSet Str) (children : BTreeMap Str (BTreeSet Str))
    → lookup parent children ≡ none
    → IsListed p c children
    → IsListed p c (insert parent s children)
insert_fresh parent p c s children miss h = elim (Bool-cases (same parent p)) [
  | inl here ↦
      let same_path : parent ≡ p = (same_iff parent p).0 here in cc (miss, h.listing, same_path)
  | inr other ↦ record {
    siblings = h.siblings;
    listing = lookup-insert_ne parent p s children other ∙ h.listing;
    member = h.member;
  }
]

pub add_child-keeps :
    (parent path p c : Str) (children : BTreeMap Str (BTreeSet Str))
    → IsListed p c children
    → IsListed p c (add_child parent path children)
unfolding add_child
add_child-keeps parent path p c children h = elim (Option-cases (lookup parent children)) [
  | inl miss ↦ rw (miss, add_child) (insert_fresh parent p c (set_insert path []) children miss h)
  | inr (s, hit) ↦ rw (hit, add_child) (insert_larger parent path p c s children hit h)
]

pub entry_or_default-keeps :
    (path p c : Str) (children : BTreeMap Str (BTreeSet Str))
    → IsListed p c children
    → IsListed p c (entry_or_default path children)
unfolding entry_or_default
entry_or_default-keeps path p c children h = elim (Option-cases (lookup path children)) [
  | inl miss ↦ rw (miss, entry_or_default) (insert_fresh path p c [] children miss h)
  | inr (s, hit) ↦ rw (hit, entry_or_default) h
]
