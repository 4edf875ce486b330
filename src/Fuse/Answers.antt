-- ===== src/Fuse/Answers.antt =====
-- `provider_reply_bytes` on the answer to a coalesced request.
use fuse_promise.Base.{
  Str, some, u32_max, u64_max, ℕ, ◌+◌, ◌-◌, ◌≤◌, ◌≡◌, ap, sym, ◌∙◌, false, ◌==◌, ◌&&◌, leb, ltb,
  length, slice, bytes_at, nth-bytes_at, length-bytes_at, bytes_ext, length-slice, nth-slice, arith,
  Bool-cases, inl, inr,
}
use fuse_promise.Status.{ok}
use fuse_promise.Node.{
  PromiseTree, PromiseNode, chunk_size_of, ProviderReadPlan, CoalescedProviderReadPlan,
}
use fuse_promise.Runtime.{Runtime}
use fuse_promise.Runtime.Reads.{file_node, plan_provider_read, plan_coalesced_provider_read}
use fuse_promise.Runtime.Bounds.{
  Covers, plan_provider_read-IsPlanned, plan_coalesced_provider_read-Covers,
}
use fuse_promise.Fuse.{reply, provider_reply_bytes}

-- A slice of a file's bytes is the bytes at the slice's place.
pub slice-bytes_at :
    (content : ℕ → ℕ) (offset n start end : ℕ)
    → start ≤ end
    → end ≤ n
    → slice (bytes_at content offset n) start end ≡ bytes_at content (offset + start) (end - start)
slice-bytes_at content offset n start end h k =
    let all = length-bytes_at content offset n in
    let window = length-slice (bytes_at content offset n) start end h (rw all k) in
    let whole = length-bytes_at content (offset + start) (end - start) in
    bytes_ext _ _ (omega arith) (λ i l.
      nth-slice (bytes_at content offset n) start end i (rw (sym window) l)
      ∙ nth-bytes_at content offset n (start + i) (omega arith)
      ∙ ap content (omega arith)
      ∙ sym (nth-bytes_at content (offset + start) (end - start) i (omega arith)))

-- The reply to a full answer of a request that covers a plan is the content of the planned
-- range.
pub provider_reply_bytes-Covers :
    (content : ℕ → ℕ) (plan : ProviderReadPlan) (size : ℕ) (c : CoalescedProviderReadPlan)
    → Covers plan size c
    → provider_reply_bytes
        (bytes_at content c.provider.offset c.provider.length)
        c.response_offset
        c.response_length
      ≡ reply (bytes_at content plan.offset plan.length)
unfolding provider_reply_bytes
provider_reply_bytes-Covers content plan size c covers =
    let bytes = bytes_at content c.provider.offset c.provider.length in
    let all : length bytes ≡ c.provider.length =
      length-bytes_at content c.provider.offset c.provider.length in
    elim (Bool-cases (c.response_offset == 0 && leb (length bytes) c.response_length)) [
      | inl whole ↦
          let same_start : c.provider.offset ≡ plan.offset = ground arith in
          let same_size : c.provider.length ≡ plan.length = ground arith in
          rw (whole, same_start, same_size)
      | inr part ↦
          let fits : ltb (length bytes) (c.response_offset + c.response_length) ≡ false =
            ground arith in
          rw (part, fits)
            (ap reply (
              slice-bytes_at content c.provider.offset c.provider.length c.response_offset
                (c.response_offset + c.response_length) (omega arith) covers.contains
              ∙ ap
                  (λ o.
                    bytes_at content o (c.response_offset + c.response_length - c.response_offset))
                  covers.starts
              ∙ ap (bytes_at content plan.offset) (omega arith)))
    ]

-- A range that was planned is coalesced to a request within the file, and when the provider
-- answers the request in full with the file content, the reply to the reader is the content of
-- the planned range; the plan names the file it was planned for, chunks have a 32-bit size, and
-- the file ends at least 2^32 - 1 bytes short of the last 64-bit position.
pub planned-reply :
    (rt : Runtime) (promise_id relative_path : Str) (offset length : ℕ) (plan : ProviderReadPlan)
    (p : PromiseTree × PromiseNode) (content : ℕ → ℕ)
    → plan_provider_read rt promise_id relative_path offset length ≡ ok plan
    → file_node rt promise_id relative_path ≡ ok p
    → file_node rt plan.promise_id plan.relative_path ≡ ok p
    → ((chunk_size : ℕ) → chunk_size_of rt.cache_policy ≡ some chunk_size → chunk_size ≤ u32_max)
    → p.1.attr.size + u32_max ≤ u64_max
    → (c : CoalescedProviderReadPlan) × (plan_coalesced_provider_read rt plan ≡ ok c)
      × (c.provider.offset + c.provider.length ≤ p.1.attr.size)
      × (provider_reply_bytes
            (bytes_at content c.provider.offset c.provider.length)
            c.response_offset
            c.response_length
          ≡ reply (bytes_at content offset plan.length))
planned-reply rt promise_id relative_path offset length plan p content planned found again small
      room =
    let is_planned =
      plan_provider_read-IsPlanned rt promise_id relative_path offset length plan planned in
    let same_file : is_planned.node ≡ p.1 = cc (is_planned.found, found) in
    let in_file : plan.offset + plan.length ≤ p.1.attr.size = rw (← same_file) is_planned.in_file in
    let (c, eq, covers) =
      plan_coalesced_provider_read-Covers rt plan p again is_planned.nonempty in_file small room in
    (
      c,
      eq,
      covers.stays,
      provider_reply_bytes-Covers content plan p.1.attr.size c covers
          ∙ ap (λ o. reply (bytes_at content o plan.length)) is_planned.offset_kept,
    )
