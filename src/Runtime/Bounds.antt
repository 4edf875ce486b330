-- ===== src/Runtime/Bounds.antt =====
-- The bounds of the read plans, and who may be asked.
use fuse_promise.Base.{
  ℕ, ◌+◌, ◌-◌, ◌≤◌, ◌<◌, ◌≡◌, refl, ap, min, true, some, Str, ltb, checked_add, try_u32, u32_max,
  u64_max, arith, Bool-cases, Option-cases, inl, inr,
}
use fuse_promise.Status.{ok, >>=-eq-ok}
use fuse_promise.Cache.{chunk_base}
use fuse_promise.Cache.Borders.{chunk_base-le, lt-chunk_base}
use fuse_promise.Node.{
  PromiseNode, PromiseTree, is_available, chunk_size_of, CachePolicy, no_cache, read_through,
  ProviderReadPlan, CoalescedProviderReadPlan,
}
use fuse_promise.Runtime.{Runtime, has_provider}
use fuse_promise.Runtime.Reads.{
  file_node, provider_plan, plan_in_file, plan_provider_read, widen, coalesce, uncoalesced,
  plan_coalesced_provider_read,
}

-- The file that a plan is about, and the plan's place in it.
pub record IsPlanned (rt : Runtime) (promise_id relative_path : Str) (offset length : ℕ)
    (plan : ProviderReadPlan) : Type 0 where
  pub tree : PromiseTree
  pub node : PromiseNode
  pub found : file_node rt promise_id relative_path ≡ ok (tree, node)
  pub offset_kept : plan.offset ≡ offset
  pub nonempty : 0 < plan.length
  pub shortened : plan.length ≤ length
  pub in_file : plan.offset + plan.length ≤ node.attr.size
  pub in_words : plan.offset + plan.length ≤ u64_max
  pub as_long : plan.length ≡ min length (node.attr.size - offset)
  pub path : plan.relative_path ≡ node.relative_path
  pub promise : plan.promise_id ≡ tree.promise_id
  pub provider_node : plan.provider_node_id ≡ node.provider_node_id
  pub owner : plan.provider_id ≡ tree.provider_id
  pub tree_available : is_available tree.state ≡ true
  pub provider_live : has_provider rt plan.provider_id ≡ true

-- The tests of a successful plan, one by one.
plan_in_file_lem :
    (rt : Runtime) (tree : PromiseTree) (node : PromiseNode) (offset length : ℕ)
    (plan : ProviderReadPlan)
    → plan_in_file rt tree node offset length ≡ ok plan
    → (plan ≡ provider_plan tree node offset (min length (node.attr.size - offset)))
      × (0 < length)
      × (offset < node.attr.size)
      × (offset + min length (node.attr.size - offset) ≤ u64_max)
      × (is_available tree.state ≡ true)
      × (has_provider rt tree.provider_id ≡ true)
unfolding plan_in_file
plan_in_file_lem rt tree node offset length plan h =
    (ground arith, ground arith, ground arith, ground arith, ground arith, ground arith)

plan_found :
    (rt : Runtime) (promise_id relative_path : Str) (p : PromiseTree × PromiseNode)
    (offset length : ℕ) (plan : ProviderReadPlan)
    → file_node rt promise_id relative_path ≡ ok p
    → plan_in_file rt p.0 p.1 offset length ≡ ok plan
    → IsPlanned rt promise_id relative_path offset length plan
plan_found rt promise_id relative_path (tree, node) offset length plan found h =
    let (eq, positive, inside, words, available, live) =
      plan_in_file_lem rt tree node offset length plan h in
    let same_offset = ap (λ p. p.offset) eq in
    let same_length = ap (λ p. p.length) eq in
    let same_owner = ap (λ p. p.provider_id) eq in
    record {
      tree = tree;
      node = node;
      found = found;
      offset_kept = same_offset;
      nonempty = grind arith;
      shortened = grind arith;
      in_file = grind arith;
      in_words = grind arith;
      as_long = same_length;
      path = ap (λ p. p.relative_path) eq;
      promise = ap (λ p. p.promise_id) eq;
      provider_node = ap (λ p. p.provider_node_id) eq;
      owner = same_owner;
      tree_available = available;
      provider_live = rw same_owner live;
    }

-- A plan for the provider is about an available promise of a live provider and a file of it,
-- and asks for a nonempty range that lies in the file and in 64 bits and is the range asked
-- for, cut at the end of the file; its promise, provider and node ids and its path are those of
-- the promise and the file.
pub plan_provider_read-IsPlanned :
    (rt : Runtime) (promise_id relative_path : Str) (offset length : ℕ) (plan : ProviderReadPlan)
    → plan_provider_read rt promise_id relative_path offset length ≡ ok plan
    → IsPlanned rt promise_id relative_path offset length plan
unfolding plan_provider_read
plan_provider_read-IsPlanned rt promise_id relative_path offset length plan h =
    let (p, found, planned) =
      >>=-eq-ok (file_node rt promise_id relative_path) (λ p. plan_in_file rt p.0 p.1 offset length)
        h in
    plan_found rt promise_id relative_path p offset length plan found planned

pub positive_chunk :
    (policy : CachePolicy) (chunk_size : ℕ)
    → chunk_size_of policy ≡ some chunk_size
    → 0 < chunk_size
unfolding chunk_size_of
positive_chunk no_cache chunk_size h = cc
positive_chunk (read_through n) chunk_size h = ground arith

-- A widened plan still contains the range that was asked for, and stays within the file.
pub record Covers (plan : ProviderReadPlan) (size : ℕ) (c : CoalescedProviderReadPlan)
    : Type 0 where
  pub starts : c.provider.offset + c.response_offset ≡ plan.offset
  pub same_length : c.response_length ≡ plan.length
  pub contains : c.response_offset + c.response_length ≤ c.provider.length
  pub stays : c.provider.offset + c.provider.length ≤ size
  pub same_provider : c.provider.provider_id ≡ plan.provider_id
  pub same_file : c.provider.relative_path ≡ plan.relative_path

widened :
    (plan : ProviderReadPlan) (node : PromiseNode) (chunk_size start : ℕ)
    → start ≤ plan.offset
    → plan.offset < start + chunk_size
    → plan.offset + plan.length ≤ start + chunk_size
    → plan.offset + plan.length ≤ node.attr.size
    → 0 < plan.length
    → chunk_size ≤ u32_max
    → (c : CoalescedProviderReadPlan) × (widen plan node chunk_size start ≡ ok c)
      × Covers plan node.attr.size c
unfolding widen
widened plan node chunk_size start h1 h2 h3 h4 h5 h6 =
    let length = min chunk_size (node.attr.size - start) in
    let fits1 : try_u32 length ≡ some length = ground arith in
    let fits2 : try_u32 (plan.offset - start) ≡ some (plan.offset - start) = ground arith in
    (
      record {
        provider = record plan { offset = start; length = length };
        response_offset = plan.offset - start;
        response_length = plan.length;
      },
      rw (fits1, fits2),
      record {
        starts = omega arith;
        same_length = refl;
        contains = omega arith;
        stays = omega arith;
        same_provider = refl;
        same_file = refl;
      },
    )

coalesced :
    (rt : Runtime) (plan : ProviderReadPlan) (chunk_size : ℕ) (p : PromiseTree × PromiseNode)
    → file_node rt plan.promise_id plan.relative_path ≡ ok p
    → 0 < plan.length
    → plan.offset + plan.length ≤ p.1.attr.size
    → 0 < chunk_size
    → chunk_size ≤ u32_max
    → p.1.attr.size + u32_max ≤ u64_max
    → (c : CoalescedProviderReadPlan) × (coalesce rt plan chunk_size ≡ ok c)
      × Covers plan p.1.attr.size c
unfolding coalesce
coalesced rt plan chunk_size (tree, node) found nonempty in_file positive small room =
    let start = chunk_base plan.offset chunk_size in
    let le = chunk_base-le plan.offset chunk_size positive in
    let lt = lt-chunk_base plan.offset chunk_size positive in
    let end : checked_add start chunk_size ≡ some (start + chunk_size) = ground arith in
    let request_end : checked_add plan.offset plan.length ≡ some (plan.offset + plan.length) =
      ground arith in
    elim (Bool-cases (ltb (start + chunk_size) (plan.offset + plan.length))) [
      | inl crosses ↦ (
        uncoalesced plan,
        rw (found, end, request_end, crosses),
        record {
          starts = omega arith;
          same_length = refl;
          contains = omega arith;
          stays = in_file;
          same_provider = refl;
          same_file = refl;
        },
      )
      | inr within ↦
          let (c, eq, covers) =
            widened plan node chunk_size start le lt (ground arith) in_file nonempty small in
          (c, rw (found, end, request_end, within, eq), covers)
    ]

-- A nonempty plan within its file is always coalesced, to a request that stays within the file
-- and contains the planned range at the offset that is remembered; chunks have a 32-bit size
-- and the file ends at least 2^32 - 1 bytes short of the last 64-bit position.
pub plan_coalesced_provider_read-Covers :
    (rt : Runtime) (plan : ProviderReadPlan) (p : PromiseTree × PromiseNode)
    → file_node rt plan.promise_id plan.relative_path ≡ ok p
    → 0 < plan.length
    → plan.offset + plan.length ≤ p.1.attr.size
    → ((chunk_size : ℕ) → chunk_size_of rt.cache_policy ≡ some chunk_size → chunk_size ≤ u32_max)
    → p.1.attr.size + u32_max ≤ u64_max
    → (c : CoalescedProviderReadPlan) × (plan_coalesced_provider_read rt plan ≡ ok c)
      × Covers plan p.1.attr.size c
unfolding plan_coalesced_provider_read
plan_coalesced_provider_read-Covers rt plan p found nonempty in_file small room =
    elim (Option-cases (chunk_size_of rt.cache_policy)) [
      | inl off ↦ (
        uncoalesced plan,
        rw (off, plan_coalesced_provider_read) refl,
        record {
          starts = omega arith;
          same_length = refl;
          contains = omega arith;
          stays = in_file;
          same_provider = refl;
          same_file = refl;
        },
      )
      | inr (chunk_size, on) ↦
          let (c, eq, covers) =
            coalesced rt plan chunk_size p found nonempty in_file
              (positive_chunk rt.cache_policy chunk_size on) (small chunk_size on) room in
          (c, rw (on, plan_coalesced_provider_read) eq, covers)
    ]
