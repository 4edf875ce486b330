-- ===== src/Runtime/Cached.antt =====
-- A read that was recorded: `record_cached_read`, then `plan_read` of the same range.
use fuse_promise.Base.{
  ℕ, ◌+◌, ◌-◌, ◌≤◌, ◌<◌, ◌≡◌, refl, min, ◌||◌, false, none, some, List, ◌∷◌, Str, ◌==◌, ltb, leb,
  length, checked_add, try_u32, u32_max, u64_max, arith,
}
use fuse_promise.Status.{ok}
use fuse_promise.Cache.Store
use fuse_promise.Cache.Overlay.{Agrees}
use fuse_promise.Cache.RoundTrip.{Contents, IsCoherent, read-insert}
use fuse_promise.Node.{PromiseNode, PromiseTree, chunk_size_of, cached}
use fuse_promise.Runtime.{Runtime, promise}
use fuse_promise.Runtime.Reads.{
  file_node, capped_length, cached_read, read_behind_cache, read_source, read_range, plan_read,
}
use fuse_promise.Runtime.Caching.{check_record, store_checked, record_cached_read}
use fuse_promise.Runtime.Bounds.{positive_chunk}

-- A range within the file is not cut.
uncut :
    (node : PromiseNode) (offset n : ℕ)
    → n ≤ u32_max
    → offset + n ≤ node.attr.size
    → node.attr.size ≤ u64_max
    → capped_length node offset n ≡ ok n
unfolding capped_length
uncut node offset n small inside words =
    let whole : min n (node.attr.size - offset) ≡ n = omega arith in
    let fits : try_u32 n ≡ some n = ground arith in
    let sum : checked_add offset n ≡ some (offset + n) = ground arith in rw (whole, fits, sum) refl

checked :
    (rt : Runtime) (promise_id relative_path : Str) (offset : ℕ) (bytes : List ℕ)
    (tree : PromiseTree) (node : PromiseNode)
    → file_node rt promise_id relative_path ≡ ok (tree, node)
    → offset + length bytes ≤ node.attr.size
    → node.attr.size ≤ u64_max
    → check_record rt promise_id relative_path offset bytes ≡ ok node.relative_path
unfolding check_record
checked rt promise_id relative_path offset bytes tree node found inside words =
    let sum : checked_add offset (length bytes) ≡ some (offset + length bytes) = ground arith in
    let fits : ltb node.attr.size (offset + length bytes) ≡ false = ground arith in
    rw (found, sum, fits) refl

-- A file's cached range is what a read of it gets.
answered_from_cache :
    (rt : Runtime) (promise_id relative_path : Str) (offset chunk_size : ℕ) (bytes : List ℕ)
    (tree : PromiseTree) (node : PromiseNode)
    → file_node rt promise_id relative_path ≡ ok (tree, node)
    → node.materialized_path ≡ none
    → chunk_size_of rt.cache_policy ≡ some chunk_size
    → 0 < length bytes
    → length bytes ≤ u32_max
    → offset + length bytes ≤ node.attr.size
    → node.attr.size ≤ u64_max
    → Store.read rt.read_cache promise_id node.relative_path offset (length bytes) chunk_size
      ≡ some bytes
    → plan_read rt promise_id relative_path offset (length bytes) ≡ ok (cached bytes)
unfolding plan_read read_range read_source cached_read read_behind_cache
answered_from_cache rt promise_id relative_path offset chunk_size bytes tree node found local policy
      nonempty small inside words hit =
    let ahead : (length bytes == 0 || leb node.attr.size offset) ≡ false = ground arith in
    rw
      (
        found,
        ahead,
        uncut node offset (length bytes) small inside words,
        local,
        read_source,
        cached_read,
        policy,
        hit,
      )
      refl

-- Recording a nonempty answer that agrees with the file content, for a range within a file that
-- is not materialized, under a caching policy and with a coherent cache, succeeds and keeps the
-- cache coherent, and a plan for the same range is then answered from the cache with those
-- bytes; the range has a 32-bit length and the file a 64-bit size.
pub plan_read-record_cached_read :
    (contents : Contents) (rt : Runtime) (promise_id relative_path : Str) (offset chunk_size b : ℕ)
    (bs : List ℕ) (tree : PromiseTree) (node : PromiseNode)
    → IsCoherent contents rt.read_cache
    → file_node rt promise_id relative_path ≡ ok (tree, node)
    → node.materialized_path ≡ none
    → chunk_size_of rt.cache_policy ≡ some chunk_size
    → Agrees
        (contents (record { promise_id = promise_id; relative_path = node.relative_path }))
        offset
        (b ∷ bs)
    → length (b ∷ bs) ≤ u32_max
    → offset + length (b ∷ bs) ≤ node.attr.size
    → node.attr.size ≤ u64_max
    → (rt' : Runtime) × (record_cached_read promise_id relative_path offset (b ∷ bs) rt
        ≡ some (rt', ok tt))
      × IsCoherent contents rt'.read_cache
      × (plan_read rt' promise_id relative_path offset (length (b ∷ bs)) ≡ ok (cached (b ∷ bs)))
unfolding record_cached_read store_checked file_node promise
plan_read-record_cached_read contents rt promise_id relative_path offset chunk_size b bs tree node
      coherent found local policy agree small inside words =
    let (cache, inserted, coherent', hit) =
      read-insert contents rt.read_cache promise_id node.relative_path coherent offset (b ∷ bs)
        chunk_size (positive_chunk rt.cache_policy chunk_size policy) agree (omega arith) in
    let rt' : Runtime = record rt { read_cache = cache } in
    (
      rt',
      rw
          (
            policy,
            record_cached_read,
            checked rt promise_id relative_path offset (b ∷ bs) tree node found inside words,
            inserted,
          )
          refl,
      coherent',
      answered_from_cache rt' promise_id relative_path offset chunk_size (b ∷ bs) tree node found
          local policy (omega arith) small inside words hit,
    )
