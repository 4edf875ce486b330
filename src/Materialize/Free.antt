-- ===== src/Materialize/Free.antt =====
-- The targets that `unique_materialize_target_path` and `preflight_materialize_targets` accept.
use fuse_promise.Base.{
  ℕ, zero, suc, ◌+◌, ◌≤◌, ◌<◌, ◌≡◌, refl, sym, true, false, List, [], ◌∷◌, ◌==◌, ==_iff, Str,
  if◌then◌else◌, All, inl, inr, ◌⊎◌, arith, Bool-cases,
}
use fuse_promise.Status.{Status}
use fuse_promise.RuntimeDir.{join_path}
use fuse_promise.Node.{NodeKind, file, directory}
use fuse_promise.Ipc.Message.{ConflictPolicy, fail_policy, overwrite, rename}
use fuse_promise.Materialize.Files.{Files, Metadata}
use fuse_promise.Materialize.Data.{Entry}
use fuse_promise.Materialize.Monad.{
  value_injective, ◌>>◌, World, Either, raise, value, of_result, Either-cases,
}
use fuse_promise.Materialize.Names.{rename_candidate_name}
use fuse_promise.Materialize.Targets.{
  Look, there, absent, unclear, look_of, preflight_entry, validate_existing_materialize_target,
  preflight_materialize_targets, unique_from, unique_materialize_target_path,
}

pub Look-cases :
    (l : Look)
    → ((m : Metadata) × (l ≡ there m)) ⊎ ((l ≡ absent) ⊎ ((e : Status) × (l ≡ unclear e)))
Look-cases (there m) = inl (m, refl)
Look-cases absent = inr (inl refl)
Look-cases (unclear e) = inr (inr (e, refl))

-- The path that is tried at an attempt.
abbrev pub candidate : Str → Str → NodeKind → ℕ → Str
candidate target_dir target_name kind attempt =
    join_path target_dir
      (if attempt == 0 then target_name else rename_candidate_name target_name kind attempt)

abbrev pub IsThere : Look → Type 0
IsThere look = (m : Metadata) × (look ≡ there m)

module _ (F : Files) (w : World F) where
  abbrev pub look_at : Str → Look
  look_at path = look_of (F.symlink_metadata path w.files)

  -- The first candidate from the attempt on that is absent.
  pub record IsFirst (tries : ℕ → Str) (attempt left : ℕ) (path : Str) : Type 0 where
    pub index : ℕ
    pub from : attempt ≤ index
    pub bounded : index < attempt + left
    pub same : path ≡ tries index
    pub free : look_at path ≡ absent
    pub taken : (i : ℕ) → attempt ≤ i → i < index → IsThere (look_at (tries i))

  unique_from-IsFirst :
      (left attempt : ℕ) (target_dir target_name : Str) (kind : NodeKind) {path : Str}
      → (unique_from F left attempt target_dir target_name kind w).1 ≡ value path
      → IsFirst (candidate target_dir target_name kind) attempt left path
  unfolding unique_from
  unique_from-IsFirst zero attempt target_dir target_name kind h = cc
  unique_from-IsFirst (suc left) attempt target_dir target_name kind {path} h =
      let tries = candidate target_dir target_name kind in
      elim (Look-cases (look_at (tries attempt))) [
        | inl (m, e) ↦
            let rest =
              unique_from-IsFirst left (attempt + 1) target_dir target_name kind
                (rw (e, unique_from) at h) in
            let later : (i : ℕ)
                → attempt ≤ i
                → i < rest.index
                → (attempt + 1 ≤ i → i < rest.index → IsThere (look_at (tries i)))
                → IsThere (look_at (tries i)) =
              λ i low high further. elim (Bool-cases (i == attempt)) [
                | inl first ↦ rw ((==_iff i attempt).0 first) (m, e)
                | inr further_on ↦ further (ground arith) high
              ] in
            record {
              index = rest.index;
              from = omega (arith, rest.from);
              bounded = omega (arith, rest.bounded);
              same = rest.same;
              free = rest.free;
              taken = λ i low high. later i low high (rest.taken i);
            }
        | inr (inl e) ↦
            let same : ◌≡◌ {A = Either Status Str} (value (tries attempt)) (value path) =
              rw (e, unique_from) at h in
            record {
              index = attempt;
              from = omega arith;
              bounded = omega arith;
              same = sym (value_injective same);
              free = rw (← (value_injective same)) e;
              taken = λ i low high. absurd (omega (arith, low, high));
            }
        | inr (inr (x, e)) ↦ let failed = rw (e, unique_from) at h in cc
      ]

  -- The path that the rename policy finds is the first of the candidates, of which there are
  -- 1024, that names nothing: each candidate before it names something.
  pub unique_materialize_target_path-IsFirst :
      (target_dir target_name : Str) (kind : NodeKind) {path : Str}
      → (unique_materialize_target_path F target_dir target_name kind w).1 ≡ value path
      → IsFirst (candidate target_dir target_name kind) 0 1024 path
  unfolding unique_materialize_target_path
  unique_materialize_target_path-IsFirst target_dir target_name kind h =
      unique_from-IsFirst 1024 0 target_dir target_name kind h

  -- What the policy lets stand at a target: a file or directory of the same kind, when it is told to overwrite.
  abbrev pub IsAcceptable : ConflictPolicy → NodeKind → Look → Type 0
  IsAcceptable policy kind absent = Unit {0}
  IsAcceptable overwrite file (there m) = (m.is_symlink ≡ false) × (m.is_file ≡ true)
  IsAcceptable overwrite directory (there m) = (m.is_symlink ≡ false) × (m.is_dir ≡ true)
  IsAcceptable fail_policy kind (there m) = ⊥
  IsAcceptable rename kind (there m) = ⊥
  IsAcceptable policy kind (unclear code) = ⊥

  acceptable_lem :
      (policy : ConflictPolicy) (kind : NodeKind) (m : Metadata) {u : Unit {0}}
      → of_result (validate_existing_materialize_target kind m policy) ≡ value u
      → IsAcceptable policy kind (there m)
  unfolding validate_existing_materialize_target
  acceptable_lem fail_policy kind m h = ground arith
  acceptable_lem rename kind m h = ground arith
  acceptable_lem overwrite file m h = (ground arith, ground arith)
  acceptable_lem overwrite directory m h = (ground arith, ground arith)

  preflight_cases :
      (entry : Entry) (policy : ConflictPolicy)
      → ((preflight_entry F entry policy w ≡ (w, value tt))
          × IsAcceptable policy entry.kind (look_at entry.target_path))
        ⊎ ((e : Status) × (preflight_entry F entry policy w ≡ (w, raise e)))
  preflight_cases entry policy = elim (Look-cases (look_at entry.target_path)) [
    | inl (m, e) ↦
        elim (Either-cases (of_result (validate_existing_materialize_target entry.kind m policy))) [
          | inl (v, valid) ↦
              inl (
                rw (preflight_entry, e, valid) refl,
                rw e (acceptable_lem policy entry.kind m valid),
              )
          | inr (x, invalid) ↦ inr (x, rw (preflight_entry, e, invalid) refl)
        ]
    | inr (inl e) ↦ inl (rw (preflight_entry, e) refl, rw e tt)
    | inr (inr (x, e)) ↦ inr (x, rw (preflight_entry, e) refl)
  ]

  -- A preflight that passes changes nothing, and each target names nothing, or, under the
  -- policy to overwrite, a file for a file or a directory for a directory, and no symbolic
  -- link.
  pub preflight_materialize_targets-IsAcceptable :
      (entries : List Entry) (policy : ConflictPolicy) {u : Unit {0}}
      → (preflight_materialize_targets F entries policy w).1 ≡ value u
      → ((preflight_materialize_targets F entries policy w).0 ≡ w)
        × All (λ entry. IsAcceptable policy entry.kind (look_at entry.target_path)) entries
  unfolding preflight_materialize_targets ◌>>◌
  preflight_materialize_targets-IsAcceptable [] policy h = (refl, tt)
  preflight_materialize_targets-IsAcceptable (entry ∷ entries) policy h =
      elim (preflight_cases entry policy) [
        | inl (passed, acceptable) ↦
            let (same, rest) =
              preflight_materialize_targets-IsAcceptable entries policy
                (rw (passed, preflight_materialize_targets, ◌>>◌) at h) in
            (rw (passed, preflight_materialize_targets, ◌>>◌) same, (acceptable, rest))
        | inr (x, failed) ↦
            let stopped = rw (failed, preflight_materialize_targets, ◌>>◌) at h in cc
      ]
