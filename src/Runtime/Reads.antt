-- ===== src/Runtime/Reads.antt =====
-- The read plans of `Runtime`: `plan_read`, `plan_provider_read`, `plan_coalesced_provider_read`,
-- `plan_sequential_prefetch`.
use fuse_promise.Base.{
  ℕ, ◌-◌, ◌||◌, not, min, Option, none, some, List, Str, ◌==◌, ltb, leb, checked_add, try_u32,
  is_some, if◌then◌else◌,
}
use fuse_promise.Status.{
  Result, ok, invalid_argument, not_found, provider_gone, ◌>>=◌, ◌>>◌, refuse, ok_or,
}
use fuse_promise.Cache.{chunk_base}
use fuse_promise.Cache.Store
use fuse_promise.Node.{
  PromiseNode, PromiseTree, is_file, is_available, chunk_size_of, get, ProviderReadPlan,
  CoalescedProviderReadPlan, ReadPlan, request, materialized_plan, cached, eof,
}
use fuse_promise.Runtime.{Runtime, promise, has_provider}

-- `self.promise(id)`, `tree.get(path)` and the test for a file, as each plan starts.
unfoldable pub file_node : Runtime → Str → Str → Result (PromiseTree × PromiseNode)
unfolding promise
file_node rt promise_id relative_path = do
  tree ← ok_or (promise rt promise_id) not_found
  node ← ok_or (get tree relative_path) not_found
  refuse (not (is_file node.kind)) invalid_argument
  ok (tree, node)

-- The provider is asked only while the promise is available and the provider live.
unfoldable pub require_provider : Runtime → PromiseTree → Result (Unit {0})
unfolding has_provider
require_provider rt tree = do
  refuse (not (is_available tree.state)) provider_gone
  refuse (not (has_provider rt tree.provider_id)) provider_gone
  ok tt

-- The length cut at the end of the file.
unfoldable pub capped_length : PromiseNode → ℕ → ℕ → Result ℕ
capped_length node offset length = do
  capped ← ok_or (try_u32 (min length (node.attr.size - offset))) invalid_argument
  refuse (not (is_some (checked_add offset capped))) invalid_argument
  ok capped

abbrev pub provider_plan : PromiseTree → PromiseNode → ℕ → ℕ → ProviderReadPlan
provider_plan tree node offset length = record {
  provider_id = tree.provider_id;
  promise_id = tree.promise_id;
  relative_path = node.relative_path;
  provider_node_id = node.provider_node_id;
  offset = offset;
  length = length;
}

-- `plan_provider_read`, once the file is found.
unfoldable pub plan_in_file : Runtime → PromiseTree → PromiseNode → ℕ → ℕ → Result ProviderReadPlan
unfolding require_provider capped_length
plan_in_file rt tree node offset length = do
  refuse (length == 0 || leb node.attr.size offset) invalid_argument
  length' ← capped_length node offset length
  require_provider rt tree
  ok (provider_plan tree node offset length')

unfoldable pub plan_provider_read : Runtime → Str → Str → ℕ → ℕ → Result ProviderReadPlan
unfolding file_node plan_in_file
plan_provider_read rt promise_id relative_path offset length = do
  (tree, node) ← file_node rt promise_id relative_path
  plan_in_file rt tree node offset length

-- The cache's answer, where the policy has one.
unfoldable pub cached_read : Runtime → Str → PromiseNode → ℕ → ℕ → Option (List ℕ)
cached_read rt promise_id node offset length = elim (chunk_size_of rt.cache_policy) [
  | none ↦ none
  | some chunk_size ↦
      Store.read rt.read_cache promise_id node.relative_path offset length chunk_size
]

-- Behind the cache: the provider.
unfoldable pub read_behind_cache :
    Runtime → Str → PromiseNode → ℕ → ℕ → Option (List ℕ) → Result ReadPlan
unfolding plan_provider_read
read_behind_cache rt promise_id node offset length (some bytes) = ok (cached bytes)
read_behind_cache rt promise_id node offset length none = do
  plan ← plan_provider_read rt promise_id node.relative_path offset length
  ok (request plan)

-- A materialized file comes before the cache.
unfoldable pub read_source : Runtime → Str → PromiseNode → ℕ → ℕ → Option Str → Result ReadPlan
unfolding read_behind_cache cached_read
read_source rt promise_id node offset length (some path) =
    ok (materialized_plan (record { path = path; offset = offset; length = length }))
read_source rt promise_id node offset length none =
    read_behind_cache rt promise_id node offset length
      (cached_read rt promise_id node offset length)

unfoldable pub read_range : Runtime → Str → PromiseNode → ℕ → ℕ → Result ReadPlan
unfolding read_source capped_length
read_range rt promise_id node offset length = do
  length' ← capped_length node offset length
  read_source rt promise_id node offset length' node.materialized_path

unfoldable pub plan_read : Runtime → Str → Str → ℕ → ℕ → Result ReadPlan
unfolding read_range file_node
plan_read rt promise_id relative_path offset length = do
  (tree, node) ← file_node rt promise_id relative_path
  if length == 0 || leb node.attr.size offset
      then ok eof
      else read_range rt promise_id node offset length

abbrev pub uncoalesced : ProviderReadPlan → CoalescedProviderReadPlan
uncoalesced plan = record { provider = plan; response_offset = 0; response_length = plan.length }

-- A request within one chunk is widened to the chunk, cut at the end of the file.
unfoldable pub widen : ProviderReadPlan → PromiseNode → ℕ → ℕ → Result CoalescedProviderReadPlan
widen plan node chunk_size chunk_start = do
  length ← ok_or (try_u32 (min chunk_size (node.attr.size - chunk_start))) invalid_argument
  response_offset ← ok_or (try_u32 (plan.offset - chunk_start)) invalid_argument
  ok (record {
    provider = record plan { offset = chunk_start; length = length };
    response_offset = response_offset;
    response_length = plan.length;
  })

unfoldable pub coalesce : Runtime → ProviderReadPlan → ℕ → Result CoalescedProviderReadPlan
unfolding widen file_node
coalesce rt plan chunk_size = do
  (tree, node) ← file_node rt plan.promise_id plan.relative_path
  let chunk_start = chunk_base plan.offset chunk_size
  chunk_end ← ok_or (checked_add chunk_start chunk_size) invalid_argument
  request_end ← ok_or (checked_add plan.offset plan.length) invalid_argument
  if ltb chunk_end request_end
      then ok (uncoalesced plan)
      else widen plan node chunk_size chunk_start

unfoldable pub plan_coalesced_provider_read :
    Runtime → ProviderReadPlan → Result CoalescedProviderReadPlan
unfolding coalesce
plan_coalesced_provider_read rt plan = elim (chunk_size_of rt.cache_policy) [
  | none ↦ ok (uncoalesced plan)
  | some chunk_size ↦ coalesce rt plan chunk_size
]

-- The chunk behind a completed read, unless it is cached.
unfoldable pub prefetch_from :
    Runtime → Str → PromiseTree → PromiseNode → ℕ → ℕ → Result (Option ProviderReadPlan)
prefetch_from rt promise_id tree node chunk_size offset = do
  length ← ok_or (try_u32 (min chunk_size (node.attr.size - offset))) invalid_argument
  ok (
      if is_some (Store.read rt.read_cache promise_id node.relative_path offset length chunk_size)
      then none
      else some (provider_plan tree node offset length))

unfoldable pub prefetch_unmaterialized :
    Runtime → Str → PromiseTree → PromiseNode → ℕ → ℕ → ℕ → Result (Option ProviderReadPlan)
unfolding prefetch_from require_provider
prefetch_unmaterialized rt promise_id tree node chunk_size completed_offset completed_length = do
  require_provider rt tree
  offset ← ok_or (checked_add completed_offset completed_length) invalid_argument
  if leb node.attr.size offset
      then ok none
      else prefetch_from rt promise_id tree node chunk_size offset

unfoldable pub prefetch : Runtime → Str → Str → ℕ → ℕ → ℕ → Result (Option ProviderReadPlan)
unfolding prefetch_unmaterialized file_node
prefetch rt promise_id relative_path chunk_size completed_offset completed_length = do
  (tree, node) ← file_node rt promise_id relative_path
  if is_some node.materialized_path
      then ok none
      else prefetch_unmaterialized rt promise_id tree node chunk_size completed_offset
          completed_length

unfoldable pub plan_sequential_prefetch :
    Runtime → Str → Str → ℕ → ℕ → Result (Option ProviderReadPlan)
unfolding prefetch
plan_sequential_prefetch rt promise_id relative_path completed_offset completed_length =
    elim (chunk_size_of rt.cache_policy) [
      | none ↦ ok none
      | some chunk_size ↦
          if completed_length == 0
          then ok none
          else prefetch rt promise_id relative_path chunk_size completed_offset completed_length
    ]
