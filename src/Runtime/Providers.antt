-- ===== src/Runtime/Providers.antt =====
-- Providers and promises of `Runtime`: an available promise has a live provider, through
-- `register_provider`, `unregister_provider`, `commit_promise` and the other operations.
use fuse_promise.Base.{
  ℕ, ◌≡◌, refl, ap, true, false, some, Str, ◌==◌, ==_iff, BTreeMap, lookup, insert, map_values,
  lookup-insert, lookup-nil, lookup-map_values, lookup-insert_self, same, str_key, ℕ_key,
  Bool-cases, Option-cases, inl, inr, arith,
}
use fuse_promise.Status.{ok}
use fuse_promise.Node.{
  ProviderId, ProviderSession, disconnected, PromiseTree, is_available, ProviderReadPlan,
}
use fuse_promise.Runtime.{
  Runtime, new, register_provider, abandon, unregister_provider, has_provider,
}
use fuse_promise.Runtime.Reads.{plan_provider_read}
use fuse_promise.Runtime.Bounds.{plan_provider_read-IsPlanned}

-- Every available promise has a live provider.
unfoldable pub IsGuarded : Runtime → Type 0
unfolding has_provider
IsGuarded rt =
    (promise_id : Str) (tree : PromiseTree)
    → lookup promise_id rt.promises ≡ some tree
    → is_available tree.state ≡ true
    → has_provider rt tree.provider_id ≡ true

pub new-IsGuarded : IsGuarded new
unfolding IsGuarded new
new-IsGuarded promise_id tree h = cc (lookup-nil {V = PromiseTree} promise_id)

-- Registering a provider keeps the invariant that every available promise has a live provider.
pub register_provider-IsGuarded : (rt : Runtime) → IsGuarded rt → IsGuarded (register_provider rt).0
unfolding IsGuarded register_provider
register_provider-IsGuarded rt h promise_id tree found available =
    let kept = h promise_id tree found available in
    elim (Bool-cases (same rt.next_provider_id tree.provider_id)) [
      | inl here ↦ rw (lookup-insert rt.next_provider_id tree.provider_id _ rt.providers, here) refl
      | inr other ↦
          rw (lookup-insert rt.next_provider_id tree.provider_id _ rt.providers, other) kept
    ]

abandon_lem :
    (provider_id : ProviderId) (tree : PromiseTree)
    → is_available (abandon provider_id tree).state ≡ true
    → (is_available tree.state ≡ true)
      × ((tree.provider_id == provider_id) ≡ false)
      × ((abandon provider_id tree).provider_id ≡ tree.provider_id)
unfolding abandon
abandon_lem provider_id tree h = elim (Bool-cases (tree.provider_id == provider_id)) [
  | inl own ↦ ground arith
  | inr other ↦ ground arith
]

map_values-some :
    (f : PromiseTree → PromiseTree) (k : Str) (m : BTreeMap Str PromiseTree) (tree : PromiseTree)
    → lookup k (map_values f m) ≡ some tree
    → (tree' : PromiseTree) × (lookup k m ≡ some tree') × (f tree' ≡ tree)
map_values-some f k m tree h = elim (Option-cases (lookup k m)) [
  | inl miss ↦ cc (lookup-map_values f k m, miss, h)
  | inr (tree', hit) ↦ (tree', hit, cc (lookup-map_values f k m, hit, h))
]

apart : (a b : ℕ) → (b == a) ≡ false → same a b ≡ false
apart a b h = ground (arith, ==_iff b a)

unregistered-IsGuarded :
    (provider_id : ProviderId) (provider : ProviderSession) (rt : Runtime)
    → IsGuarded rt
    → IsGuarded (record rt {
      providers = insert provider_id (record provider { state = disconnected }) rt.providers;
      promises = map_values (abandon provider_id) rt.promises;
    })
unfolding IsGuarded
unregistered-IsGuarded provider_id provider rt h promise_id tree found available =
    let (tree', before, after) =
      map_values-some (abandon provider_id) promise_id rt.promises tree found in
    let (available', other, owner) = abandon_lem provider_id tree' (rw after available) in
    let same_owner : tree.provider_id ≡ tree'.provider_id = cc (after, owner) in
    let differs : same provider_id tree'.provider_id ≡ false =
      apart provider_id tree'.provider_id other in
    rw (same_owner, lookup-insert provider_id tree'.provider_id _ rt.providers, differs)
      (h promise_id tree' before available')

-- Unregistering a provider keeps the invariant that every available promise has a live
-- provider.
pub unregister_provider-IsGuarded :
    (provider_id : ProviderId) (rt : Runtime)
    → IsGuarded rt
    → IsGuarded (unregister_provider provider_id rt).0
unfolding unregister_provider
unregister_provider-IsGuarded provider_id rt h =
    elim (Option-cases (lookup provider_id rt.providers)) [
      | inl miss ↦ rw (miss, unregister_provider) h
      | inr (provider, hit) ↦
          rw (hit, unregister_provider) (unregistered-IsGuarded provider_id provider rt h)
    ]

pub gone_lem :
    (provider_id : ProviderId) (rt : Runtime)
    → has_provider (unregister_provider provider_id rt).0 provider_id ≡ false
unfolding has_provider unregister_provider
gone_lem provider_id rt = elim (Option-cases (lookup provider_id rt.providers)) [
  | inl miss ↦ rw (miss, unregister_provider, miss) refl
  | inr (provider, hit) ↦
      rw
        (
          hit,
          unregister_provider,
          lookup-insert_self provider_id (record provider { state = disconnected }) rt.providers,
        )
        refl
]

-- Unregistering another provider brings none back.
pub gone_stays :
    (provider_id other_id : ProviderId) (rt : Runtime)
    → has_provider rt provider_id ≡ false
    → has_provider (unregister_provider other_id rt).0 provider_id ≡ false
unfolding has_provider unregister_provider
gone_stays provider_id other_id rt h = elim (Option-cases (lookup other_id rt.providers)) [
  | inl miss ↦ rw (miss, unregister_provider) h
  | inr (provider, hit) ↦ elim (Bool-cases (same other_id provider_id)) [
    | inl here ↦
        rw
          (
            hit,
            unregister_provider,
            lookup-insert other_id provider_id (record provider { state = disconnected })
                rt.providers,
            here,
          )
          refl
    | inr other ↦
        rw
          (
            hit,
            unregister_provider,
            lookup-insert other_id provider_id (record provider { state = disconnected })
                rt.providers,
            other,
          )
          h
  ]
]

-- After a provider has been unregistered, no read is planned for it.
pub unregister_provider-unplanned :
    (provider_id : ProviderId) (rt : Runtime) (promise_id relative_path : Str) (offset length : ℕ)
    (plan : ProviderReadPlan)
    → plan_provider_read
        (unregister_provider provider_id rt).0
        promise_id
        relative_path
        offset
        length
      ≡ ok plan
    → ¬ (plan.provider_id ≡ provider_id)
unregister_provider-unplanned provider_id rt promise_id relative_path offset length plan planned
      same_id =
    let p = plan_provider_read-IsPlanned _ promise_id relative_path offset length plan planned in
    cc (
      p.provider_live,
      ap (has_provider (unregister_provider provider_id rt).0) same_id,
      gone_lem provider_id rt,
    )
