-- ===== src/Materialize/Totals.antt =====
-- The progress at the end of a materialization.
use fuse_promise.Base.{
  ℕ, ◌+◌, ◌≤◌, ◌≡◌, refl, ◌∙◌, List, [], ◌∷◌, Str, length, u64_max, arith, inl, inr,
}
use mathlib.Core.List.{reverse}
use fuse_promise.Ipc.Message.{ConflictPolicy}
use fuse_promise.Materialize.Files.{Files}
use fuse_promise.Materialize.Data.{
  Entry, CreatedTarget, Progress, WriteError, FileOutcome, OperationError, MaterializePlan,
  files_of, directories_of, new_progress,
}
use fuse_promise.Materialize.Monad.{
  World, Either, raise, value, M, ◌>>=◌, ◌>>◌, continue-eq-value, value_injective, Either-cases,
}
use fuse_promise.Materialize.Copy.{write_materialized_file}
use fuse_promise.Materialize.Targets.{create_materialized_directory}
use fuse_promise.Materialize.Run.{
  Work, give_up, or_give_up, report, with_directory, add_directory, create_directories, with_file,
  file_written, write_files, finish_directories, mark_entries, carry_out, start,
}

bind-eq-value :
    {F : Files} {E A B : Type 0} (step : M F E A) (next : A → M F E B) (w : World F) {b : B}
    → ((step >>= next) w).1 ≡ value b
    → (a : A) × ((step w).1 ≡ value a) × ((next a (step w).0).1 ≡ value b)
unfolding ◌>>=◌
bind-eq-value step next w h = continue-eq-value (step w).0 (step w).1 next h

then-eq-value :
    {F : Files} {E B : Type 0} (step : M F E (Unit {0})) (next : M F E B) (w : World F) {b : B}
    → ((step >> next) w).1 ≡ value b
    → (next (step w).0).1 ≡ value b
unfolding ◌>>◌
then-eq-value step next w h = (continue-eq-value (step w).0 (step w).1 (λ passed. next) h).2

-- What is counted: the entries, the files, and what they add up to.
record Advances (p p' : Progress) (entries files : ℕ) : Type 0 where
  entries_done_lem : p.entries_done + entries ≤ u64_max → p'.entries_done ≡ p.entries_done + entries
  files_written_lem : p.files_written + files ≤ u64_max → p'.files_written ≡ p.files_written + files
  entries_total_lem : p'.entries_total ≡ p.entries_total
  files_total_lem : p'.files_total ≡ p.files_total

Advances-nil : (p : Progress) → Advances p p 0 0
Advances-nil p = record {
  entries_done_lem = λ bound. omega arith;
  files_written_lem = λ bound. omega arith;
  entries_total_lem = refl;
  files_total_lem = refl;
}

Advances-trans :
    {p p' p'' : Progress} (n m k l : ℕ) {entries files : ℕ}
    → entries ≡ n + k
    → files ≡ m + l
    → Advances p p' n m
    → Advances p' p'' k l
    → Advances p p'' entries files
Advances-trans n m k l e f a b = record {
  entries_done_lem = λ bound.
      let here = a.entries_done_lem (omega arith) in
      let later = b.entries_done_lem (omega arith) in omega arith;
  files_written_lem = λ bound.
      let here = a.files_written_lem (omega arith) in
      let later = b.files_written_lem (omega arith) in omega arith;
  entries_total_lem = b.entries_total_lem ∙ a.entries_total_lem;
  files_total_lem = b.files_total_lem ∙ a.files_total_lem;
}

module _ (F : Files) where
  directory_counted :
      (work : Work) (target : CreatedTarget)
      → Advances work.progress (with_directory F work target).progress 1 0
  directory_counted work target = record {
    entries_done_lem = λ bound. omega arith;
    files_written_lem = λ bound. omega arith;
    entries_total_lem = refl;
    files_total_lem = refl;
  }

  create_directories_counted :
      (entries : List Entry) (policy : ConflictPolicy) (work : Work) (w : World F) {work' : Work}
      → (create_directories F entries policy work w).1 ≡ value work'
      → Advances work.progress work'.progress (length entries) 0
  unfolding create_directories
  create_directories_counted [] policy work w {work'} h =
      let same : work ≡ work' = value_injective h in rw (← same) (Advances-nil work.progress)
  create_directories_counted (entry ∷ entries) policy work w {work'} h =
      let (next, e, h1) =
        bind-eq-value (add_directory F entry policy work) (create_directories F entries policy) w
          h in
      let (target, e1, h2) =
        bind-eq-value (λ v. or_give_up F work (create_materialized_directory F entry policy v)) _ w
          e in
      let counted : with_directory F work target ≡ next =
        value_injective (then-eq-value (report F (with_directory F work target)) _ _ h2) in
      Advances-trans 1 0 (length entries) 0 (omega arith) (omega arith)
        (rw (← counted) (directory_counted work target))
        (create_directories_counted entries policy next _ h1)

  file_counted :
      (work : Work) (outcome : FileOutcome)
      → Advances work.progress (with_file F work outcome).progress 1 1
  file_counted work outcome = record {
    entries_done_lem = λ bound. omega arith;
    files_written_lem = λ bound. omega arith;
    entries_total_lem = refl;
    files_total_lem = refl;
  }

  file_written_counted :
      (work : Work) (result : World F × Either WriteError FileOutcome) {next : Work}
      → (file_written F work result).1 ≡ value next
      → Advances work.progress next.progress 1 1
  unfolding give_up
  file_written_counted work (w, raise error) h = cc
  file_written_counted work (w, value outcome) {next} h =
      let counted : with_file F work outcome ≡ next =
        value_injective (then-eq-value (report F (with_file F work outcome)) _ w h) in
      rw (← counted) (file_counted work outcome)

  write_files_counted :
      (process_id : ℕ) (promise_id : Str) (entries : List Entry) (policy : ConflictPolicy)
      (work : Work) (w : World F) {work' : Work}
      → (write_files F process_id promise_id entries policy work w).1 ≡ value work'
      → Advances work.progress work'.progress (length entries) (length entries)
  unfolding write_files
  write_files_counted process_id promise_id [] policy work w {work'} h =
      let same : work ≡ work' = value_injective h in rw (← same) (Advances-nil work.progress)
  write_files_counted process_id promise_id (entry ∷ entries) policy work w {work'} h =
      let (next, e, h1) =
        bind-eq-value
          (λ v.
            file_written F work
              (write_materialized_file F process_id promise_id entry policy work.progress v))
          (write_files F process_id promise_id entries policy) w h in
      Advances-trans 1 1 (length entries) (length entries) (omega arith) (omega arith)
        (file_written_counted work
          (write_materialized_file F process_id promise_id entry policy work.progress w) e)
        (write_files_counted process_id promise_id entries policy next _ h1)

  split_lem :
      (entries : List Entry)
      → length (directories_of entries) + length (files_of entries) ≡ length entries
  unfolding directories_of files_of
  split_lem [] = refl
  split_lem (entry ∷ entries) = ground (arith, split_lem entries)

  counted_lem :
      (process_id : ℕ) (plan : MaterializePlan) (w : World F) {work : Work}
      → length plan.entries ≤ u64_max
      → (carry_out F process_id plan (start F plan) w).1 ≡ value work
      → (work.progress.entries_done ≡ length plan.entries)
        × (work.progress.entries_total ≡ length plan.entries)
        × (work.progress.files_written ≡ length (files_of plan.entries))
        × (work.progress.files_total ≡ length (files_of plan.entries))
  unfolding carry_out new_progress
  counted_lem process_id plan w {work} bound h =
      let (made, e, h1) =
        bind-eq-value
          (create_directories F (directories_of plan.entries) plan.conflict_policy (start F plan)) _
          w h in
      let (written, e1, h2) =
        bind-eq-value
          (write_files F process_id plan.promise_id (files_of plan.entries) plan.conflict_policy
            made)
          _ _ h1 in
      let h3 =
        then-eq-value (finish_directories F (directories_of (reverse plan.entries)) written) _ _
          h2 in
      let same : written ≡ work =
        value_injective
          (then-eq-value (mark_entries F plan.promise_id plan.entries written) _ _ h3) in
      let all =
        Advances-trans (length (directories_of plan.entries)) 0 (length (files_of plan.entries))
          (length (files_of plan.entries)) refl refl
          (create_directories_counted (directories_of plan.entries) plan.conflict_policy
            (start F plan) w e)
          (write_files_counted process_id plan.promise_id (files_of plan.entries)
            plan.conflict_policy made _ e1) in
      let split = split_lem plan.entries in
      let entries_done = all.entries_done_lem (omega arith) in
      let files_written = all.files_written_lem (omega arith) in
      rw (← same) (omega arith, all.entries_total_lem, omega arith, all.files_total_lem)

  -- The progress that a work ends with.
  abbrev pub IsCounted : MaterializePlan → Either OperationError Work → Type 0
  IsCounted plan (raise error) = Unit {0}
  IsCounted plan (value work) =
      (work.progress.entries_done ≡ length plan.entries)
      × (work.progress.entries_total ≡ length plan.entries)
      × (work.progress.files_written ≡ length (files_of plan.entries))
      × (work.progress.files_total ≡ length (files_of plan.entries))

  -- When a plan of at most 2^64 - 1 entries is carried out to its end, the progress counts each
  -- of its entries as done and each of its files as written, and its totals are the entries and
  -- the files of the plan; an operation that fails is not spoken of.
  pub carry_out-IsCounted :
      (process_id : ℕ) (plan : MaterializePlan) (w : World F)
      → length plan.entries ≤ u64_max
      → IsCounted plan (carry_out F process_id plan (start F plan) w).1
  carry_out-IsCounted process_id plan w bound =
      elim (Either-cases (carry_out F process_id plan (start F plan) w).1) [
        | inl (work, e) ↦ rw e (counted_lem process_id plan w bound e)
        | inr (x, e) ↦ rw e tt
      ]
