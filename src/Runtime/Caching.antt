-- ===== src/Runtime/Caching.antt =====
-- `Runtime::record_cached_read`. An outer `none` is a panic of the cache's insertion.
use fuse_promise.Base.{ℕ, Option, none, some, List, [], ◌∷◌, Str, ltb, length, checked_add}
use fuse_promise.Status.{Result, ok, err, invalid_argument, ◌>>=◌, ◌>>◌, refuse, ok_or}
use fuse_promise.Cache.{ReadCache}
use fuse_promise.Cache.Store
use fuse_promise.Node.{chunk_size_of}
use fuse_promise.Runtime.{Runtime}
use fuse_promise.Runtime.Reads.{file_node}

-- The checks: the range lies in a file of the promise. The result is the normal path.
unfoldable pub check_record : Runtime → Str → Str → ℕ → List ℕ → Result Str
unfolding file_node
check_record rt promise_id relative_path offset bytes = do
  (tree, node) ← file_node rt promise_id relative_path
  end ← ok_or (checked_add offset (length bytes)) invalid_argument
  refuse (ltb node.attr.size end) invalid_argument
  ok node.relative_path

abbrev keep_cache : Runtime → Option ReadCache → Option (Runtime × Result (Unit {0}))
keep_cache rt none = none
keep_cache rt (some cache) = some (record rt { read_cache = cache }, ok tt)

unfoldable pub store_checked :
    Runtime → Str → ℕ → List ℕ → ℕ → Result Str → Option (Runtime × Result (Unit {0}))
store_checked rt promise_id offset bytes chunk_size (err e) = some (rt, err e)
store_checked rt promise_id offset bytes chunk_size (ok path) =
    keep_cache rt (Store.insert rt.read_cache promise_id path offset bytes chunk_size)

unfoldable pub record_cached_read :
    Str → Str → ℕ → List ℕ → Runtime → Option (Runtime × Result (Unit {0}))
unfolding store_checked check_record
record_cached_read promise_id relative_path offset bytes rt = elim (chunk_size_of rt.cache_policy) [
  | none ↦ some (rt, ok tt)
  | some chunk_size ↦ elim bytes [
    | [] ↦ some (rt, ok tt)
    | b ∷ bs ↦
        store_checked rt promise_id offset (b ∷ bs) chunk_size
          (check_record rt promise_id relative_path offset (b ∷ bs))
  ]
]
