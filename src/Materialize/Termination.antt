-- ===== src/Materialize/Termination.antt =====
-- The end of the loop of `write_materialized_file`.
use fuse_promise.Base.{
  ℕ, zero, suc, ◌+◌, ◌-◌, ◌≤◌, ◌<◌, ◌≡◌, sym, ◌∙◌, min, false, Option, none, some, List, [], ◌∷◌,
  Str, length, ltb, checked_add, u64_max, Bool-cases, inl, inr, arith,
}
use fuse_promise.Status
use fuse_promise.Status.{Status}
use fuse_promise.Ipc.Message.{max_provider_read_len}
use fuse_promise.Materialize.Files.{Files}
use fuse_promise.Materialize.Data.{Entry, Progress, WriteError}
use fuse_promise.Materialize.Monad.{
  ◌>>=◌, ◌>>◌, World, Either, raise, value, of_result, of_io, Either-cases,
}
use fuse_promise.Materialize.Chunks.{read_materialize_chunk}
use fuse_promise.Materialize.Output.{FileTarget}
use fuse_promise.Materialize.Copy.{next_reply, answer_of, report_progress, copy_chunk, copy_loop}

added_lem :
    (a b c : ℕ)
    → of_result (Status.ok_or (checked_add a b) Status.invalid_argument) ≡ value c
    → (c ≡ a + b) × (c ≤ u64_max)
added_lem a b c h = (ground arith, ground arith)

module _ (F : Files) (promise_id : Str) (entry : Entry) (target : FileTarget F)
    (progress : Progress) where
  -- A round that succeeds has read a nonempty chunk, and counts its bytes.
  pub copy_chunk-value :
      (offset : ℕ) (w : World F) (next : ℕ)
      → (copy_chunk F promise_id entry target progress offset w).1 ≡ value next
      → (bytes : List ℕ) × ((read_materialize_chunk F promise_id entry.relative_path offset
            (min (entry.size - offset) max_provider_read_len)
            w).1
          ≡ value bytes)
        × (0 < length bytes)
        × (next ≡ offset + length bytes)
        × (next ≤ u64_max)
  unfolding copy_chunk report_progress ◌>>=◌ ◌>>◌
  copy_chunk-value offset w next h =
      let read =
        read_materialize_chunk F promise_id entry.relative_path offset
          (min (entry.size - offset) max_provider_read_len) w in
      let written = λ (bytes : List ℕ). F.write_all target.file bytes read.0.files in
      elim (Either-cases read.1) [
        | inl ([], e) ↦ let h1 = rw e at h in cc
        | inl (b ∷ bs, e) ↦
            let h1 = rw e at h in
            elim (Either-cases (of_io (written (b ∷ bs)).1)) [
              | inl (u, e2) ↦
                  let h2 = rw e2 at h1 in
                  elim (Either-cases (
                    of_result (
                      Status.ok_or (checked_add offset (length (b ∷ bs)))
                        Status.invalid_argument))) [
                          | inl (sum, e3) ↦
                              let h3 = rw e3 at h2 in
                              let (added, bounded) = added_lem offset (length (b ∷ bs)) sum e3 in
                              elim (Either-cases (answer_of (next_reply read.0.client).0)) [
                                | inl (x, e4) ↦
                                    let h4 : ◌≡◌ {A = Either WriteError ℕ} (value sum)
                                        (value next) =
                                      rw e4 at h3 in
                                    let same : sum ≡ next = cc in
                                    (b ∷ bs, e, omega arith, sym same ∙ added, rw (← same) bounded)
                                | inr (x, e4) ↦ let h4 = rw e4 at h3 in cc
                              ]
                          | inr (x, e3) ↦ let h3 = rw e3 at h2 in cc
                        ]
              | inr (x, e2) ↦ let h2 = rw e2 at h1 in cc
            ]
        | inr (x, e) ↦ let h1 = rw e at h in cc
      ]

  -- An error, or an offset that is not before the end of the file.
  abbrev pub IsEnded : Either WriteError (Option ℕ) → Type 0
  IsEnded (raise e) = Unit {0}
  IsEnded (value none) = ⊥
  IsEnded (value (some final)) = entry.size ≤ final

  -- With a unit of fuel for each byte that is left of a file, the loop that copies it does not
  -- run out of fuel: it ends with an error, or at an offset that is not before the end of the
  -- file.
  pub copy_loop_ends :
      (fuel offset : ℕ) (w : World F)
      → entry.size ≤ offset + fuel
      → IsEnded (copy_loop F promise_id entry target progress fuel offset w).1
  unfolding copy_loop ◌>>=◌ ◌>>◌
  copy_loop_ends zero offset w h =
      let finished : ltb offset entry.size ≡ false = ground arith in rw finished (omega arith)
  copy_loop_ends (suc fuel) offset w h =
      let round = copy_chunk F promise_id entry target progress offset w in
      elim (Bool-cases (ltb offset entry.size)) [
        | inl more ↦ elim (Either-cases round.1) [
          | inl (next, e) ↦
              let (bytes, _, positive, same, _) = copy_chunk-value offset w next e in
              rw more (rw e (copy_loop_ends fuel next round.0 (omega arith)))
          | inr (x, e) ↦ rw more (rw e tt)
        ]
        | inr finished ↦ rw finished (ground arith)
      ]
