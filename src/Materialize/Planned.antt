-- ===== src/Materialize/Planned.antt =====
-- The plan of a materialization, and the files that are there.
use fuse_promise.Base.{ℕ, zero, suc, ◌+◌, List, [], ◌∷◌, Str, inl, inr, Bool-cases}
use fuse_promise.Status.{Status}
use fuse_promise.RuntimeDir.{join_path}
use fuse_promise.Node.{NodeKind}
use fuse_promise.Ipc.Message.{ConflictPolicy, MaterializeBody}
use fuse_promise.Materialize.Files.{FileIdentity, Files, Place}
use fuse_promise.Materialize.Data.{Entry}
use fuse_promise.Materialize.Monad.{World, Either}
use fuse_promise.Materialize.Targets.{
  look_of, is_rename, validate_existing_materialize_target, validate_target_dir, preflight_entry,
  preflight_materialize_targets, unique_from, unique_materialize_target_path,
  materialize_target_path,
}
use fuse_promise.Materialize.Plan.{plan_materialize}
use fuse_promise.Materialize.Free.{Look-cases, candidate}
use fuse_promise.Materialize.Keeping.{
  IsKept, Keeps, Plain, AnyError, bind_lem, then_lem, lift_lem, look_lem, pure_lem,
}
use fuse_promise.Materialize.Kept.{IsCareful}

module _ (F : Files) (q : Place) (i : FileIdentity) where
  -- A step that looks at the files only.
  abbrev Fine : {A : Type 0} → World F × Either Status A → Type 0
  Fine = Keeps F q i (Plain F q i) (AnyError F q i)

  validate_target_dir_lem :
      (target_dir : Str) (w : World F) → IsKept F q i w → Fine (validate_target_dir F target_dir w)
  unfolding validate_target_dir
  validate_target_dir_lem target_dir w kept =
      then_lem F q i _ _ w (lift_lem F q i _ w kept) (λ w1 kept1 p1.
        bind_lem F q i _ _ w1 (look_lem F q i (F.symlink_metadata target_dir) w1 kept1)
          (λ m w2 kept2 p2. lift_lem F q i _ w2 kept2))

  unique_lem :
      (left attempt : ℕ) (target_dir target_name : Str) (kind : NodeKind) (w : World F)
      → IsKept F q i w
      → Fine (unique_from F left attempt target_dir target_name kind w)
  unfolding unique_from
  unique_lem zero attempt target_dir target_name kind w kept = record { kept = kept; good = tt }
  unique_lem (suc left) attempt target_dir target_name kind w kept =
      let tried = candidate target_dir target_name kind attempt in
      elim (Look-cases (look_of (F.symlink_metadata tried w.files))) [
        | inl (m, e) ↦
            rw (unique_from, e) (unique_lem left (attempt + 1) target_dir target_name kind w kept)
        | inr (inl e) ↦ rw (unique_from, e) (record { kept = kept; good = tt })
        | inr (inr (x, e)) ↦ rw (unique_from, e) (record { kept = kept; good = tt })
      ]

  target_path_lem :
      (target_dir target_name : Str) (kind : NodeKind) (policy : ConflictPolicy) (w : World F)
      → IsKept F q i w
      → Fine (materialize_target_path F target_dir target_name kind policy w)
  unfolding materialize_target_path unique_materialize_target_path
  target_path_lem target_dir target_name kind policy w kept = elim (Bool-cases (is_rename policy)) [
    | inl renames ↦
        rw (materialize_target_path, renames) (unique_lem 1024 0 target_dir target_name kind w kept)
    | inr fixed ↦
        rw (materialize_target_path, fixed)
          (pure_lem F q i _ _ (join_path target_dir target_name) w kept tt)
  ]

  preflight_entry_lem :
      (entry : Entry) (policy : ConflictPolicy) (w : World F)
      → IsKept F q i w
      → Fine (preflight_entry F entry policy w)
  preflight_entry_lem entry policy w kept =
      elim (Look-cases (look_of (F.symlink_metadata entry.target_path w.files))) [
        | inl (m, e) ↦
            rw (preflight_entry, e)
              (lift_lem F q i (validate_existing_materialize_target entry.kind m policy) w kept)
        | inr (inl e) ↦ rw (preflight_entry, e) (record { kept = kept; good = tt })
        | inr (inr (x, e)) ↦ rw (preflight_entry, e) (record { kept = kept; good = tt })
      ]

  preflight_lem :
      (entries : List Entry) (policy : ConflictPolicy) (w : World F)
      → IsKept F q i w
      → Fine (preflight_materialize_targets F entries policy w)
  unfolding preflight_materialize_targets
  preflight_lem [] policy w kept = pure_lem F q i _ _ tt w kept tt
  preflight_lem (entry ∷ entries) policy w kept =
      then_lem F q i (preflight_entry F entry policy)
        (preflight_materialize_targets F entries policy) w (preflight_entry_lem entry policy w kept)
        (λ w1 kept1 p. preflight_lem entries policy w1 kept1)

  pub plan_materialize_lem :
      (body : MaterializeBody) (w : World F)
      → IsCareful body.conflict_policy
      → IsKept F q i w
      → Keeps F q i
          (λ plan v. IsCareful plan.conflict_policy)
          (AnyError F q i)
          (plan_materialize F body w)
  unfolding plan_materialize
  plan_materialize_lem body w careful kept =
      then_lem F q i _ _ w (validate_target_dir_lem body.target_dir w kept) (λ w1 kept1 p1.
        bind_lem F q i _ _ w1 (lift_lem F q i _ w1 kept1) (λ resolved w2 kept2 p2.
          bind_lem F q i _ _ w2 (lift_lem F q i _ w2 kept2) (λ nodes w3 kept3 p3.
            bind_lem F q i _ _ w3 (lift_lem F q i _ w3 kept3) (λ root w4 kept4 p4.
              bind_lem F q i _ _ w4 (lift_lem F q i _ w4 kept4) (λ target_name w5 kept5 p5.
                bind_lem F q i _ _ w5
                  (target_path_lem body.target_dir target_name root.kind body.conflict_policy w5
                    kept5)
                  (λ target_path w6 kept6 p6.
                    bind_lem F q i _ _ w6 (lift_lem F q i _ w6 kept6) (λ entries w7 kept7 p7.
                      then_lem F q i _ _ w7 (preflight_lem entries body.conflict_policy w7 kept7)
                        (λ w8 kept8 p8. pure_lem F q i _ _ _ w8 kept8 careful))))))))
