-- ===== src/Runtime/Reachable.antt =====
-- The states that a runtime reaches by its methods, in any order.
use fuse_promise.Base.{
  ℕ, ◌≡◌, refl, Option, none, some, List, [], ◌∷◌, Str, lookup, str_key, Option-cases, Bool-cases,
  inl, inr,
}
use fuse_promise.Status.{Result, ok, err, Result-cases}
use fuse_promise.Path.{normalize_relative_path}
use fuse_promise.Node.{
  ProviderId, CachePolicy, PromiseNode, PromiseTree, validated, is_no_cache, chunk_size_of,
}
use fuse_promise.Builder.{PromiseBuilder}
use fuse_promise.Cache.Store
use fuse_promise.Runtime.{
  Runtime, new, set_cache_policy, register_provider, unregister_provider, commit_promise,
  mark_node_materialized, keep_tree, set_materialized,
}
use fuse_promise.Runtime.Caching.{check_record, store_checked, record_cached_read}
use fuse_promise.Runtime.Providers.{
  IsGuarded, new-IsGuarded, register_provider-IsGuarded, unregister_provider-IsGuarded,
}
use fuse_promise.Runtime.Commits.{
  SameTables, SameTables-IsGuarded, insert_promise-IsGuarded, commit_promise-IsGuarded,
}

-- A new runtime, and what each method makes of a reachable one.
pub data Reachable : Runtime → Type 0 where
  initial : Reachable new
  registers : (rt : Runtime) → Reachable rt → Reachable (register_provider rt).0
  unregisters :
      (provider_id : ProviderId) (rt : Runtime)
      → Reachable rt
      → Reachable (unregister_provider provider_id rt).0
  commits :
      (builder : PromiseBuilder) (rt : Runtime)
      → Reachable rt
      → Reachable (commit_promise builder rt).0
  marks :
      (promise_id relative_path : Str) (path : Option Str) (rt : Runtime)
      → Reachable rt
      → Reachable (mark_node_materialized promise_id relative_path path rt).0
  sets_policy :
      (policy : CachePolicy) (rt : Runtime)
      → Reachable rt
      → Reachable (set_cache_policy policy rt).0
  records :
      (promise_id relative_path : Str) (offset : ℕ) (bytes : List ℕ) (rt rt' : Runtime)
      (r : Result (Unit {0}))
      → Reachable rt
      → record_cached_read promise_id relative_path offset bytes rt ≡ some (rt', r)
      → Reachable rt'

marked :
    (rt : Runtime) (promise_id : Str) (tree : PromiseTree) (path : Str) (node : PromiseNode)
    (target : Option Str)
    → IsGuarded rt
    → lookup promise_id rt.promises ≡ some tree
    → IsGuarded (keep_tree rt promise_id (set_materialized tree path node target)).0
unfolding IsGuarded
marked rt promise_id tree path node none h hit = h
marked rt promise_id tree path node (some target) h hit =
    insert_promise-IsGuarded rt promise_id _ h (λ available. h promise_id tree hit available)

mark_node_materialized-IsGuarded :
    (promise_id relative_path : Str) (target : Option Str) (rt : Runtime)
    → IsGuarded rt
    → IsGuarded (mark_node_materialized promise_id relative_path target rt).0
unfolding mark_node_materialized
mark_node_materialized-IsGuarded promise_id relative_path target rt h =
    elim (Result-cases (normalize_relative_path relative_path)) [
      | inr (e, refused) ↦ rw (refused, mark_node_materialized) h
      | inl (path, normal) ↦ elim (Option-cases (lookup promise_id rt.promises)) [
        | inl miss ↦ rw (normal, mark_node_materialized, miss) h
        | inr (tree, hit) ↦ elim (Option-cases (lookup path tree.nodes)) [
          | inl absent ↦ rw (normal, mark_node_materialized, hit, absent) h
          | inr (node, present) ↦
              rw (normal, mark_node_materialized, hit, present)
                (marked rt promise_id tree path node target h hit)
        ]
      ]
    ]

set_cache_policy-same :
    (policy : CachePolicy) (rt : Runtime) → SameTables rt (set_cache_policy policy rt).0
unfolding set_cache_policy
set_cache_policy-same policy rt = elim (Result-cases (validated policy)) [
  | inr (e, refused) ↦ rw (refused, set_cache_policy) (refl, refl)
  | inl (policy', valid) ↦ elim (Bool-cases (is_no_cache policy')) [
    | inl off ↦ rw (valid, set_cache_policy, off) (refl, refl)
    | inr on ↦ rw (valid, set_cache_policy, on) (refl, refl)
  ]
]

-- The runtime that comes back, if the method does not panic, has the same tables.
abbrev KeepsTables : Runtime → Option (Runtime × Result (Unit {0})) → Type 0
KeepsTables rt none = Unit {0}
KeepsTables rt (some p) = SameTables rt p.0

stored_same :
    (rt : Runtime) (promise_id : Str) (offset : ℕ) (bytes : List ℕ) (chunk_size : ℕ)
    (path : Result Str)
    → KeepsTables rt (store_checked rt promise_id offset bytes chunk_size path)
unfolding store_checked
stored_same rt promise_id offset bytes chunk_size (err e) = (refl, refl)
stored_same rt promise_id offset bytes chunk_size (ok path) =
    elim (Option-cases (Store.insert rt.read_cache promise_id path offset bytes chunk_size)) [
      | inl panic ↦ rw (panic, store_checked) tt
      | inr (cache, inserted) ↦ rw (inserted, store_checked) (refl, refl)
    ]

record_cached_read-same :
    (promise_id relative_path : Str) (offset : ℕ) (bytes : List ℕ) (rt : Runtime)
    → KeepsTables rt (record_cached_read promise_id relative_path offset bytes rt)
unfolding record_cached_read
record_cached_read-same promise_id relative_path offset bytes rt =
    elim (Option-cases (chunk_size_of rt.cache_policy)) [
      | inl off ↦ rw (off, record_cached_read) (refl, refl)
      | inr (chunk_size, on) ↦ rw (on, record_cached_read) (some_bytes chunk_size bytes)
    ]
  where
    some_bytes :
        (chunk_size : ℕ) (bytes : List ℕ)
        → KeepsTables rt (elim bytes [
          | [] ↦ some (rt, ok tt)
          | b ∷ bs ↦
              store_checked rt promise_id offset
                (b ∷ bs)
                chunk_size
                (check_record rt promise_id relative_path offset (b ∷ bs))
        ])
    some_bytes chunk_size [] = (refl, refl)
    some_bytes chunk_size (b ∷ bs) = stored_same rt promise_id offset (b ∷ bs) chunk_size _

-- In every state that a new runtime reaches by registering and unregistering providers,
-- committing promises, marking nodes materialized, setting the cache policy and recording
-- reads, in any order and with any results, every available promise has a live provider.
pub Reachable-IsGuarded : (rt : Runtime) → Reachable rt → IsGuarded rt
Reachable-IsGuarded _ initial = new-IsGuarded
Reachable-IsGuarded _ (registers rt r) = register_provider-IsGuarded rt (Reachable-IsGuarded rt r)
Reachable-IsGuarded _ (unregisters provider_id rt r) =
    unregister_provider-IsGuarded provider_id rt (Reachable-IsGuarded rt r)
Reachable-IsGuarded _ (commits builder rt r) =
    commit_promise-IsGuarded builder rt (Reachable-IsGuarded rt r)
Reachable-IsGuarded _ (marks promise_id relative_path path rt r) =
    mark_node_materialized-IsGuarded promise_id relative_path path rt (Reachable-IsGuarded rt r)
Reachable-IsGuarded _ (sets_policy policy rt r) =
    SameTables-IsGuarded rt _ (set_cache_policy-same policy rt) (Reachable-IsGuarded rt r)
Reachable-IsGuarded _ (records promise_id relative_path offset bytes rt rt' result r h) =
    SameTables-IsGuarded rt rt'
      (rw h at (record_cached_read-same promise_id relative_path offset bytes rt))
      (Reachable-IsGuarded rt r)
