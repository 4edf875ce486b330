-- ===== src/Runtime/Commits.antt =====
-- `commit_promise` and the invariant that an available promise has a live provider.
use fuse_promise.Base.{
  ◌≡◌, refl, sym, ◌∙◌, true, [], ◌∷◌, Str, BTreeMap, insert, lookup-insert, lookup-insert_ne, same,
  str_key, ℕ_key, Bool-cases, Option-cases, inl, inr, checked_add,
}
use fuse_promise.Status.{Result, ok, err, Result-cases}
use fuse_promise.Node.{ProviderId, PromiseNode, PromiseTree, is_available}
use fuse_promise.Builder.{PromiseBuilder, finish}
use fuse_promise.Runtime.{
  Runtime, Exec, continue, ◌>>=◌, has_provider, allocate_node_id, allocate_inode, assign_ids,
  assign_runtime_ids, promise_name, take_promise_id, store_promise, commit_promise,
}
use fuse_promise.Runtime.Providers.{IsGuarded}

-- Two states with the same providers and promises.
abbrev pub SameTables : Runtime → Runtime → Type 0
SameTables rt rt' = (rt'.providers ≡ rt.providers) × (rt'.promises ≡ rt.promises)

SameTables-trans : (a b c : Runtime) → SameTables a b → SameTables b c → SameTables a c
SameTables-trans a b c h k = (k.0 ∙ h.0, k.1 ∙ h.1)

pub SameTables-IsGuarded : (rt rt' : Runtime) → SameTables rt rt' → IsGuarded rt → IsGuarded rt'
unfolding IsGuarded has_provider
SameTables-IsGuarded rt rt' same_tables h promise_id tree found available =
    rw (same_tables.0) (h promise_id tree (rw (← same_tables.1) found) available)

allocate_node_id-same : (rt : Runtime) → SameTables rt (allocate_node_id rt).0
unfolding allocate_node_id
allocate_node_id-same rt = elim (Option-cases (checked_add rt.next_node_id 1)) [
  | inl full ↦ rw (full, allocate_node_id) (refl, refl)
  | inr (next, room) ↦ rw (room, allocate_node_id) (refl, refl)
]

allocate_inode-same : (rt : Runtime) → SameTables rt (allocate_inode rt).0
unfolding allocate_inode
allocate_inode-same rt = elim (Option-cases (checked_add rt.next_inode 1)) [
  | inl full ↦ rw (full, allocate_inode) (refl, refl)
  | inr (next, room) ↦ rw (room, allocate_inode) (refl, refl)
]

bind-same :
    {A B : Type 0} (m : Exec A) (f : A → Exec B) (rt : Runtime)
    → SameTables rt (m rt).0
    → ((a : A) (rt' : Runtime) → SameTables rt' (f a rt').0)
    → SameTables rt ((m >>= f) rt).0
bind-same m f rt h k = elim (Result-cases (m rt).1) [
  | inl (a, eq) ↦ rw eq (SameTables-trans rt (m rt).0 (f a (m rt).0).0 h (k a (m rt).0))
  | inr (e, eq) ↦ rw eq h
]

assign_ids-same :
    (nodes : BTreeMap Str PromiseNode) (rt : Runtime) → SameTables rt (assign_ids nodes rt).0
unfolding assign_ids
assign_ids-same [] rt = (refl, refl)
assign_ids-same ((path, node) ∷ nodes) rt =
    bind-same allocate_node_id _ rt (allocate_node_id-same rt) (λ node_id rt1.
      bind-same allocate_inode _ rt1 (allocate_inode-same rt1) (λ inode rt2.
        bind-same (assign_ids nodes) _ rt2 (assign_ids-same nodes rt2)
          (λ nodes' rt3. (refl, refl))))

-- A promise that is stored is no danger if its provider is live.
pub insert_promise-IsGuarded :
    (rt : Runtime) (k : Str) (tree : PromiseTree)
    → IsGuarded rt
    → (is_available tree.state ≡ true → has_provider rt tree.provider_id ≡ true)
    → IsGuarded (record rt { promises = insert k tree rt.promises })
unfolding IsGuarded has_provider
insert_promise-IsGuarded rt k tree h own promise_id found_tree found available =
    elim (Bool-cases (same k promise_id)) [
      | inl here ↦
          let same_tree : tree ≡ found_tree =
            cc (lookup-insert k promise_id tree rt.promises, here, found) in
          rw (← same_tree) (own (rw same_tree available))
      | inr other ↦
          h promise_id found_tree
            (sym (lookup-insert_ne k promise_id tree rt.promises other) ∙ found) available
    ]

assign_runtime_ids-same :
    (tree : PromiseTree) (rt : Runtime) → SameTables rt (assign_runtime_ids tree rt).0
unfolding assign_runtime_ids
assign_runtime_ids-same tree rt =
    bind-same (assign_ids tree.nodes) _ rt (assign_ids-same tree.nodes rt)
      (λ nodes rt'. (refl, refl))

continue-eq-ok :
    {A B : Type 0} (rt : Runtime) (r : Result A) (f : A → Exec B) {b : B}
    → (continue rt r f).1 ≡ ok b
    → (a : A) × (r ≡ ok a) × ((f a rt).1 ≡ ok b)
continue-eq-ok rt (ok a) f h = (a, refl, h)
continue-eq-ok rt (err e) f h = cc

assigned_owner :
    (tree : PromiseTree) (rt : Runtime) (tree' : PromiseTree)
    → (assign_runtime_ids tree rt).1 ≡ ok tree'
    → tree'.provider_id ≡ tree.provider_id
unfolding assign_runtime_ids
assigned_owner tree rt tree' h =
    let (nodes, eq, stored) =
      continue-eq-ok (assign_ids tree.nodes rt).0 (assign_ids tree.nodes rt).1 _ h in
    cc

store_assigned :
    (provider_id : ProviderId) (promise_id : Str) (rt : Runtime) (r : Runtime × Result PromiseTree)
    → SameTables rt r.0
    → ((tree : PromiseTree) → r.1 ≡ ok tree → tree.provider_id ≡ provider_id)
    → IsGuarded rt
    → has_provider rt provider_id ≡ true
    → IsGuarded (continue r.0 r.1 (λ tree. store_promise tree promise_id)).0
unfolding has_provider
store_assigned provider_id promise_id rt (rt1, ok tree) same_tables owner h alive =
    insert_promise-IsGuarded rt1 promise_id tree (SameTables-IsGuarded rt rt1 same_tables h)
      (λ available. rw (owner tree refl, same_tables.0) alive)
store_assigned provider_id promise_id rt (rt1, err e) same_tables owner h alive =
    SameTables-IsGuarded rt rt1 same_tables h

-- A commit, also one that fails, keeps the invariant that every available promise has a live
-- provider.
pub commit_promise-IsGuarded :
    (builder : PromiseBuilder) (rt : Runtime)
    → IsGuarded rt
    → IsGuarded (commit_promise builder rt).0
unfolding commit_promise finish
commit_promise-IsGuarded builder rt h = elim (Bool-cases (has_provider rt builder.provider_id)) [
  | inr gone ↦ rw (gone, commit_promise) h
  | inl alive ↦
      let tree = finish builder (promise_name rt.next_promise_id) in
      let rt' : Runtime = (take_promise_id rt).0 in
      rw (alive, commit_promise)
        (store_assigned builder.provider_id (promise_name rt.next_promise_id) rt
          (assign_runtime_ids tree rt') (assign_runtime_ids-same tree rt') (assigned_owner tree rt')
          h alive)
]
