-- ===== src/Builder/Listings.antt =====
-- The listings of the children of a builder, and how `add_node` changes them.
use fuse_promise.Base.{
  ℕ, ◌<◌, ◌≡◌, ap, sym, ◌∙◌, false, Option, none, some, [], ◌∷◌, Str, BTreeMap, BTreeSet, lookup,
  insert, set_insert, str_key, same, same_iff, length, All, lookup-insert, lookup-insert_self,
  lookup-insert_ne, Bool-cases, Option-cases, Ordering-cases, ◌⊎◌, ◌==◌, suc, inl, inr, arith,
  if◌then◌else◌, cmp_str,
}
use fuse_promise.Path.{is_empty, parent_path, rsplit_once, slash}
use fuse_promise.Node.{PromiseNode}
use fuse_promise.Builder.{add_child, entry_or_default}

abbrev pub IsNamed : BTreeMap Str PromiseNode → Str → Type 0
IsNamed nodes path = (node : PromiseNode) × (lookup path nodes ≡ some node)

-- A child of a directory, among the nodes.
abbrev pub IsChild : BTreeMap Str PromiseNode → Str → Str → Type 0
IsChild nodes path child = (length path < length child) × IsNamed nodes child

abbrev pub IsLinkedTo : BTreeMap Str PromiseNode → BTreeMap Str (BTreeSet Str) → Type 0
IsLinkedTo nodes children =
    (path : Str) (listing : BTreeSet Str)
    → lookup path children ≡ some listing
    → All (IsChild nodes path) listing

abbrev pub HasListing : BTreeMap Str (BTreeSet Str) → Str → Type 0
HasListing children path = (listing : BTreeSet Str) × (lookup path children ≡ some listing)

abbrev before_length : Option (Str × Str) → ℕ
before_length none = 0
before_length (some parts) = length parts.0

rsplit_once_shorter :
    (s : Str) {parts : Str × Str} → rsplit_once s ≡ some parts → length parts.0 < length s
unfolding rsplit_once
rsplit_once_shorter [] h = cc
rsplit_once_shorter (c ∷ s) {parts} h = elim (Option-cases (rsplit_once s)) [
  | inr (later, e) ↦
      let shorter = rsplit_once_shorter s e in
      let same_parts : ◌≡◌ {A = Option (Str × Str)} (some (c ∷ later.0, later.1)) (some parts) =
        rw e at h in
      let same_length : suc (length later.0) ≡ length parts.0 =
        ap (λ o. before_length o) same_parts in
      omega arith
  | inl e ↦ elim (Bool-cases (c == slash)) [
    | inl cut ↦
        let same_parts : ◌≡◌ {A = Option (Str × Str)} (some ([], s)) (some parts) =
          rw (e, cut) at h in
        let same_length : 0 ≡ length parts.0 = ap (λ o. before_length o) same_parts in omega arith
    | inr on ↦ let nothing : ◌≡◌ {A = Option (Str × Str)} none (some parts) = rw (e, on) at h in cc
  ]
]

pub parent_shorter : (path : Str) → is_empty path ≡ false → length (parent_path path) < length path
unfolding parent_path
parent_shorter [] h = cc
parent_shorter (c ∷ s) h = elim (Option-cases (rsplit_once (c ∷ s))) [
  | inl e ↦ rw (parent_path, e) (omega arith)
  | inr (parts, e) ↦ rw (parent_path, e) (rsplit_once_shorter (c ∷ s) e)
]

set_insert-All :
    (P : Str → Type 0) (k : Str) (s : BTreeSet Str) → P k → All P s → All P (set_insert k s)
unfolding set_insert
set_insert-All P k [] p h = (p, tt)
set_insert-All P k (j ∷ s) p h = elim (Ordering-cases (cmp_str k j)) [
  | inl lt ↦ rw lt (p, h)
  | inr (inl eq) ↦ rw eq h
  | inr (inr gt) ↦ rw gt (h.0, set_insert-All P k s p h.1)
]

-- What is found after an insertion.
pub insert_cases :
    {V : Type 0} (k j : Str) (v : V) (m : BTreeMap Str V) {w : V}
    → lookup j (insert k v m) ≡ some w
    → ((k ≡ j) × (v ≡ w)) ⊎ (lookup j m ≡ some w)
insert_cases k j v m {w} h = elim (Bool-cases (same k j)) [
  | inl hit ↦
      let equal : some v ≡ some w =
        sym (lookup-insert k j v m ∙ ap (λ b. if b then some v else lookup j m) hit) ∙ h in
      inl ((same_iff k j).0 hit, cc)
  | inr miss ↦ inr (sym (lookup-insert_ne k j v m miss) ∙ h)
]

pub insert_found :
    {V : Type 0} (k j : Str) (v : V) (m : BTreeMap Str V) {w : V}
    → lookup j m ≡ some w
    → (x : V) × (lookup j (insert k v m) ≡ some x)
insert_found k j v m {w} h = elim (Bool-cases (same k j)) [
  | inl hit ↦ (v, lookup-insert k j v m ∙ ap (λ b. if b then some v else lookup j m) hit)
  | inr miss ↦ (w, lookup-insert_ne k j v m miss ∙ h)
]

pub add_child-linked :
    (nodes : BTreeMap Str PromiseNode) (parent path : Str) (children : BTreeMap Str (BTreeSet Str))
    → IsChild nodes parent path
    → IsLinkedTo nodes children
    → IsLinkedTo nodes (add_child parent path children)
unfolding add_child
add_child-linked nodes parent path children child linked p listing h =
    elim (Option-cases (lookup parent children)) [
      | inl miss ↦
          elim (insert_cases parent p (set_insert path []) children (rw (add_child, miss) at h)) [
            | inl (here, equal) ↦
                rw (← here, ← equal) (set_insert-All (IsChild nodes parent) path [] child tt)
            | inr old ↦ linked p listing old
          ]
      | inr (s, hit) ↦
          elim (insert_cases parent p (set_insert path s) children (rw (add_child, hit) at h)) [
            | inl (here, equal) ↦
                rw (← here, ← equal)
                  (set_insert-All (IsChild nodes parent) path s child (linked parent s hit))
            | inr old ↦ linked p listing old
          ]
    ]

pub add_child-listing :
    (parent path p : Str) (children : BTreeMap Str (BTreeSet Str))
    → HasListing children p
    → HasListing (add_child parent path children) p
unfolding add_child
add_child-listing parent path p children (listing, h) =
    elim (Option-cases (lookup parent children)) [
      | inl miss ↦ rw (miss, add_child) (insert_found parent p (set_insert path []) children h)
      | inr (s, hit) ↦ rw (hit, add_child) (insert_found parent p (set_insert path s) children h)
    ]

pub entry-linked :
    (nodes : BTreeMap Str PromiseNode) (path : Str) (children : BTreeMap Str (BTreeSet Str))
    → IsLinkedTo nodes children
    → IsLinkedTo nodes (entry_or_default path children)
unfolding entry_or_default
entry-linked nodes path children linked p listing h = elim (Option-cases (lookup path children)) [
  | inl miss ↦ elim (insert_cases path p [] children (rw (entry_or_default, miss) at h)) [
    | inl (here, equal) ↦ rw (← equal) tt
    | inr old ↦ linked p listing old
  ]
  | inr (s, hit) ↦ linked p listing (rw (entry_or_default, hit) at h)
]

pub entry-listing :
    (path p : Str) (children : BTreeMap Str (BTreeSet Str))
    → HasListing children p
    → HasListing (entry_or_default path children) p
unfolding entry_or_default
entry-listing path p children (listing, h) = elim (Option-cases (lookup path children)) [
  | inl miss ↦ rw (miss, entry_or_default) (insert_found path p [] children h)
  | inr (s, hit) ↦ rw (hit, entry_or_default) (listing, h)
]

pub entry_self :
    (path : Str) (children : BTreeMap Str (BTreeSet Str))
    → HasListing (entry_or_default path children) path
unfolding entry_or_default
entry_self path children = elim (Option-cases (lookup path children)) [
  | inl miss ↦ rw (miss, entry_or_default) ([], lookup-insert_self path [] children)
  | inr (s, hit) ↦ rw (hit, entry_or_default) (s, hit)
]
