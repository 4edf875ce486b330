-- ===== src/Examples/Reads.antt =====
-- The cache, the read plans and the replies.
use fuse_promise.Base.{
  ℕ, zero, suc, lookup-nil, ◌≡◌, refl, ◌+◌, ◌≤◌, some, [], ◌∷◌, bytes_at, lookup, cmp_str, arith,
  u32_max, nth,
}
use fuse_promise.Status.{ok}
use fuse_promise.Path.{
  components, split, body, parse_component, collect_parts, join, normalize_relative_path, has_byte,
}
use fuse_promise.Cache.{ReadCache, CachedFile, cache_key}
use fuse_promise.Cache.Store
use fuse_promise.Cache.Overlay.{Agrees}
use fuse_promise.Cache.RoundTrip.{Contents, IsCoherent, read-insert, read-content}
use fuse_promise.Node.{get, chunk_size_of, CoalescedProviderReadPlan}
use fuse_promise.Runtime.{promise, has_provider}
use fuse_promise.Runtime.Reads.{
  file_node, plan_provider_read, plan_in_file, capped_length, require_provider,
  plan_coalesced_provider_read,
}
use fuse_promise.Runtime.{Runtime}
use fuse_promise.Node.{cached}
use fuse_promise.Runtime.Caching.{record_cached_read}
use fuse_promise.Runtime.Reads.{plan_read}
use fuse_promise.Runtime.Cached.{plan_read-record_cached_read}
use fuse_promise.Runtime.Bounds.{
  IsPlanned, Covers, plan_provider_read-IsPlanned, plan_coalesced_provider_read-Covers,
}
use fuse_promise.Fuse.{provider_reply_bytes, reply}
use fuse_promise.Fuse.Answers.{provider_reply_bytes-Covers, planned-reply}
use fuse_promise.Examples.Data.{name_a, promise_p, node_a, tree_p, runtime, plan}

-- Every file holds its positions.
abbrev contents : Contents
contents key position = position

abbrev empty_cache : ReadCache
empty_cache = record { files = [] }

agreed :
    Agrees (contents (record { promise_id = promise_p; relative_path = name_a })) 3 (3 ∷ 4 ∷ 5 ∷ [])
unfolding nth
agreed zero h = refl
agreed (suc zero) h = refl
agreed (suc (suc zero)) h = refl
agreed (suc (suc (suc i))) h = absurd (omega arith)

empty_cache-IsCoherent : IsCoherent contents empty_cache
empty_cache-IsCoherent key file h = cc (lookup-nil {V = CachedFile} key)

stored :
    (cache : ReadCache) × (Store.insert empty_cache promise_p name_a 3 (3 ∷ 4 ∷ 5 ∷ []) 4
      ≡ some cache)
    × IsCoherent contents cache
    × (Store.read cache promise_p name_a 3 3 4 ≡ some (3 ∷ 4 ∷ 5 ∷ []))
stored =
    read-insert contents empty_cache promise_p name_a empty_cache-IsCoherent 3 (3 ∷ 4 ∷ 5 ∷ []) 4
      (omega arith) agreed (omega arith)

normal_a : normalize_relative_path name_a ≡ ok name_a
unfolding normalize_relative_path components split body parse_component collect_parts join has_byte
    cmp_str
normal_a = refl

found : file_node runtime promise_p name_a ≡ ok (tree_p, node_a)
unfolding file_node promise get normalize_relative_path components split body parse_component
    collect_parts join has_byte cmp_str lookup
found = refl

planned : plan_provider_read runtime promise_p name_a 5 3 ≡ ok plan
unfolding plan_provider_read plan_in_file capped_length require_provider has_provider file_node
    promise get normalize_relative_path components split body parse_component collect_parts join
    has_byte cmp_str lookup
planned = refl

small :
    (chunk_size : ℕ) → chunk_size_of runtime.cache_policy ≡ some chunk_size → chunk_size ≤ u32_max
unfolding chunk_size_of
small chunk_size h = ground arith

plan_provider_read_example : IsPlanned runtime promise_p name_a 5 3 plan
plan_provider_read_example = plan_provider_read-IsPlanned runtime promise_p name_a 5 3 plan planned

plan_coalesced_provider_read_example :
    (c : CoalescedProviderReadPlan) × (plan_coalesced_provider_read runtime plan ≡ ok c)
    × Covers plan 10 c
plan_coalesced_provider_read_example =
    plan_coalesced_provider_read-Covers runtime plan (tree_p, node_a) found (omega arith)
      (omega arith) small (omega arith)

planned-reply_example :
    (c : CoalescedProviderReadPlan) × (plan_coalesced_provider_read runtime plan ≡ ok c)
    × (c.provider.offset + c.provider.length ≤ 10)
    × (provider_reply_bytes
          (bytes_at (λ i. i) c.provider.offset c.provider.length)
          c.response_offset
          c.response_length
        ≡ reply (bytes_at (λ i. i) 5 3))
planned-reply_example =
    planned-reply runtime promise_p name_a 5 3 plan (tree_p, node_a) (λ i. i) planned found found
      small (omega arith)

-- The chunk from 4 on, of four bytes.
abbrev widened : CoalescedProviderReadPlan
widened = record {
  provider = record plan { offset = 4; length = 4 };
  response_offset = 1;
  response_length = 3;
}

widened-Covers : Covers plan 10 widened
widened-Covers = record {
  starts = refl;
  same_length = refl;
  contains = omega arith;
  stays = omega arith;
  same_provider = refl;
  same_file = refl;
}

provider_reply_bytes_example :
    provider_reply_bytes (bytes_at (λ i. i) 4 4) 1 3 ≡ reply (bytes_at (λ i. i) 5 3)
provider_reply_bytes_example = provider_reply_bytes-Covers (λ i. i) plan 10 widened widened-Covers

read-insert_example :
    (cache : ReadCache) × (Store.insert empty_cache promise_p name_a 3 (3 ∷ 4 ∷ 5 ∷ []) 4
      ≡ some cache)
    × IsCoherent contents cache
    × (Store.read cache promise_p name_a 3 3 4 ≡ some (3 ∷ 4 ∷ 5 ∷ []))
read-insert_example =
    read-insert contents empty_cache promise_p name_a empty_cache-IsCoherent 3 (3 ∷ 4 ∷ 5 ∷ []) 4
      (omega arith) agreed (omega arith)

read-content_example : (3 ∷ 4 ∷ 5 ∷ []) ≡ bytes_at (λ i. i) 3 3
read-content_example =
    read-content contents stored.0 promise_p name_a stored.2 3 3 4 (3 ∷ 4 ∷ 5 ∷ []) stored.3

caching : chunk_size_of runtime.cache_policy ≡ some 4
unfolding chunk_size_of
caching = refl

recorded_example :
    (rt : Runtime) × (record_cached_read promise_p name_a 3 (3 ∷ 4 ∷ 5 ∷ []) runtime
      ≡ some (rt, ok tt))
    × IsCoherent contents rt.read_cache
    × (plan_read rt promise_p name_a 3 3 ≡ ok (cached (3 ∷ 4 ∷ 5 ∷ [])))
recorded_example =
    plan_read-record_cached_read contents runtime promise_p name_a 3 4 3 (4 ∷ 5 ∷ []) tree_p node_a
      empty_cache-IsCoherent found refl caching agreed (omega arith) (omega arith) (omega arith)
