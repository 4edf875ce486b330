-- ===== src/Runtime.antt =====
-- `Runtime` of crates/fuse-promise-runtime/src/lib.rs: its state, and the operations on
-- providers, promises and the cache policy. A method on `&mut self` returns the new state too.
pub mod Lookup
pub mod Reads
pub mod Caching
pub mod Bounds
pub mod Providers
pub mod Commits
pub mod Cached
pub mod Reachable
use fuse_promise.Base.{
  ℕ, ◌+◌, ◌&&◌, Bool, true, false, not, Option, none, some, List, [], ◌∷◌, ◌++◌, Str, ◌==◌, decimal,
  BTreeMap, lookup, insert, map_values, str_key, ℕ_key, checked_add, wrapping_add, is_some,
  if◌then◌else◌, length,
}
use fuse_promise.Status.{
  Status, Result, ok, err, invalid_argument, not_found, provider_gone, refuse, ok_or,
}
use fuse_promise.Path.{normalize_relative_path}
use fuse_promise.Cache.{ReadCache}
use fuse_promise.Cache.Store
use fuse_promise.Node.{
  ProviderId, NodeId, ProviderSession, ProviderState, live, disconnected, CachePolicy, no_cache,
  is_no_cache, validated, PromiseNode, PromiseTree, PromiseState, provider_gone_state, is_available,
  fuse_root_inode,
}
use fuse_promise.Builder.{PromiseBuilder, finish}

pub record Runtime : Type 0 where
  pub next_provider_id : ℕ
  pub next_promise_id : ℕ
  pub next_node_id : ℕ
  pub next_inode : ℕ
  pub providers : BTreeMap ProviderId ProviderSession
  pub promises : BTreeMap Str PromiseTree
  pub cache_policy : CachePolicy
  pub read_cache : ReadCache

-- A method: the state comes back beside an error too.
abbrev pub Exec : Type 0 → Type 0
Exec A = Runtime → Runtime × Result A

abbrev pub continue : {A B : Type 0} → Runtime → Result A → (A → Exec B) → Runtime × Result B
continue rt (ok a) f = f a rt
continue rt (err e) f = (rt, err e)

infixl 5 ◌>>=◌ ◌>>◌
abbrev pub ◌>>=◌ : {A B : Type 0} → Exec A → (A → Exec B) → Exec B
◌>>=◌ m f rt = continue (m rt).0 (m rt).1 f

abbrev pub ◌>>◌ : {B : Type 0} → Exec (Unit {0}) → Exec B → Exec B
m >> k = m >>= λ _. k

abbrev pub lift : {A : Type 0} → Result A → Exec A
lift r rt = (rt, r)

unfoldable pub new : Runtime
new = record {
  next_provider_id = 1;
  next_promise_id = 1;
  next_node_id = 1;
  next_inode = fuse_root_inode + 1;
  providers = [];
  promises = [];
  cache_policy = no_cache;
  read_cache = record { files = [] };
}

unfoldable pub set_cache_policy : CachePolicy → Exec (Unit {0})
set_cache_policy policy rt = elim (validated policy) [
  | err e ↦ (rt, err e)
  | ok policy' ↦ (
    if is_no_cache policy'
        then record rt { cache_policy = policy'; read_cache = Store.clear rt.read_cache }
        else record rt { cache_policy = policy' },
    ok tt,
  )
]

abbrev keep_state : {A : Type 0} → Runtime × Result A → Result Runtime
keep_state (rt, ok a) = ok rt
keep_state (rt, err e) = err e

unfoldable pub with_cache_policy : CachePolicy → Result Runtime
unfolding new set_cache_policy
with_cache_policy policy = keep_state (set_cache_policy policy new)

unfoldable pub register_provider : Runtime → Runtime × ProviderId
register_provider rt = (
  record rt {
    next_provider_id = wrapping_add rt.next_provider_id 1;
    providers =
        insert rt.next_provider_id (record { id = rt.next_provider_id; state = live }) rt.providers;
  },
  rt.next_provider_id,
)

-- The body of the loop over the promises in `unregister_provider`.
unfoldable pub abandon : ProviderId → PromiseTree → PromiseTree
abandon provider_id tree =
    if tree.provider_id == provider_id && is_available tree.state
    then record tree { state = provider_gone_state }
    else tree

unfoldable pub unregister_provider : ProviderId → Exec (Unit {0})
unregister_provider provider_id rt = elim (lookup provider_id rt.providers) [
  | none ↦ (rt, err not_found)
  | some provider ↦ (
    record rt {
      providers = insert provider_id (record provider { state = disconnected }) rt.providers;
      promises = map_values (abandon provider_id) rt.promises;
    },
    ok tt,
  )
]

abbrev pub is_live : Option ProviderSession → Bool
is_live none = false
is_live (some provider) = elim provider.state [ live ↦ true | disconnected ↦ false ]

unfoldable pub has_provider : Runtime → ProviderId → Bool
has_provider rt provider_id = is_live (lookup provider_id rt.providers)

unfoldable pub provider : Runtime → ProviderId → Option ProviderSession
provider rt provider_id = lookup provider_id rt.providers

unfoldable pub promise : Runtime → Str → Option PromiseTree
promise rt promise_id = lookup promise_id rt.promises

unfoldable pub allocate_node_id : Exec NodeId
allocate_node_id rt = elim (checked_add rt.next_node_id 1) [
  | none ↦ (rt, err invalid_argument)
  | some next ↦ (record rt { next_node_id = next }, ok rt.next_node_id)
]

unfoldable pub allocate_inode : Exec ℕ
allocate_inode rt = elim (checked_add rt.next_inode 1) [
  | none ↦ (rt, err invalid_argument)
  | some next ↦ (record rt { next_inode = next }, ok rt.next_inode)
]

-- The loop over `tree.nodes.values_mut()`.
unfoldable pub assign_ids : BTreeMap Str PromiseNode → Exec (BTreeMap Str PromiseNode)
unfolding allocate_node_id allocate_inode
assign_ids [] = lift (ok [])
assign_ids ((path, node) ∷ nodes) = do
  node_id ← allocate_node_id
  inode ← allocate_inode
  nodes' ← assign_ids nodes
  lift (ok ((path, record node { node_id = node_id; inode = inode }) ∷ nodes'))

unfoldable pub assign_runtime_ids : PromiseTree → Exec PromiseTree
unfolding assign_ids
assign_runtime_ids tree = do
  nodes ← assign_ids tree.nodes
  lift (ok (record tree { nodes = nodes }))

-- `promise-` in bytes, before the number.
abbrev pub promise_prefix : Str
promise_prefix = 112 ∷ 114 ∷ 111 ∷ 109 ∷ 105 ∷ 115 ∷ 101 ∷ 45 ∷ []

-- `format!("promise-{}", id)`.
unfoldable pub promise_name : ℕ → Str
promise_name id = promise_prefix ++ decimal id

abbrev pub take_promise_id : Exec ℕ
take_promise_id rt =
    (record rt { next_promise_id = wrapping_add rt.next_promise_id 1 }, ok rt.next_promise_id)

abbrev pub store_promise : PromiseTree → Str → Exec PromiseTree
store_promise tree promise_id rt =
    (record rt { promises = insert promise_id tree rt.promises }, ok tree)

unfoldable pub commit_promise : PromiseBuilder → Exec PromiseTree
unfolding assign_runtime_ids has_provider promise_name finish
commit_promise builder rt =
    (do
      lift (refuse (not (has_provider rt builder.provider_id)) provider_gone)
      id ← take_promise_id
      let promise_id = promise_name id
      tree ← assign_runtime_ids (finish builder promise_id)
      store_promise tree promise_id)
      rt

abbrev set_materialized : PromiseTree → Str → PromiseNode → Option Str → Result PromiseTree
set_materialized tree path node none = err invalid_argument
set_materialized tree path node (some target) = ok (record tree {
  nodes = insert path (record node { materialized_path = some target }) tree.nodes;
})

abbrev keep_tree : Runtime → Str → Result PromiseTree → Runtime × Result (Unit {0})
keep_tree rt promise_id (ok tree) =
    (record rt { promises = insert promise_id tree rt.promises }, ok tt)
keep_tree rt promise_id (err e) = (rt, err e)

-- The path's text comes as `Path::to_str` gives it: `none` if it is not UTF-8.
unfoldable pub mark_node_materialized : Str → Str → Option Str → Exec (Unit {0})
mark_node_materialized promise_id relative_path materialized_path rt =
    elim (normalize_relative_path relative_path) [
      | err e ↦ (rt, err e)
      | ok path ↦ elim (lookup promise_id rt.promises) [
        | none ↦ (rt, err not_found)
        | some tree ↦ elim (lookup path tree.nodes) [
          | none ↦ (rt, err not_found)
          | some node ↦ keep_tree rt promise_id (set_materialized tree path node materialized_path)
        ]
      ]
    ]

unfoldable pub provider_count : Runtime → ℕ
provider_count rt = length rt.providers

unfoldable pub promise_count : Runtime → ℕ
promise_count rt = length rt.promises
