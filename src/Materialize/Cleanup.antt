-- ===== src/Materialize/Cleanup.antt =====
-- What `cleanup_created_targets` leaves alone.
use fuse_promise.Base.{
  ◌≡◌, ◌≢◌, refl, ap, sym, ◌∙◌, ◌&&◌, Bool, true, false, not, some, List, [], ◌∷◌, Str, ==_iff, All,
  Bool-cases, inl, inr, arith,
}
use fuse_promise.Node.{NodeKind, file, directory, is_file}
use fuse_promise.Ipc.Message.{IoResult, done, fail}
use fuse_promise.Materialize.Files.{
  FileIdentity, ◌is◌, Place, Metadata, Files, identity_of, identity_at, IsLawful,
}
use fuse_promise.Materialize.Data.{CreatedTarget}
use fuse_promise.Materialize.Targets.{
  still_there, restore_created_directory_permissions, restore_permissions, remove_kind,
  remove_target, remove_targets, cleanup_created_targets,
}

-- A file is no target that cleaning up may remove.
abbrev pub IsSpared : FileIdentity → CreatedTarget → Type 0
IsSpared i target = target.remove_on_cleanup ≡ true → i ≢ target.identity

some_injective : {a b : FileIdentity} → some a ≡ some b → a ≡ b
some_injective h = cc

is_lem : (a b : FileIdentity) → (a is b) ≡ true → a ≡ b
is_lem a b h = ground (arith, ==_iff a.dev b.dev, ==_iff a.ino b.ino)

module _ (F : Files) (lawful : IsLawful F) (q : Place) (i : FileIdentity) where
  named_lem :
      (r : IoResult Metadata) (identity : FileIdentity)
      → (elim r as (λ x. Bool) [ done m ↦ m.identity is identity | fail e ↦ false ]) ≡ true
      → identity_of r ≡ some identity
  named_lem (done m) identity h = ap some (is_lem m.identity identity h)
  named_lem (fail e) identity h = cc

  remove_kind_lem :
      (kind : NodeKind) (p : Str) (s : F.State)
      → F.entry q s ≡ some i
      → identity_at F p s ≢ some i
      → F.entry q (remove_kind F kind p s) ≡ some i
  remove_kind_lem file p s kept h = lawful.remove_file_entry s p q kept h
  remove_kind_lem directory p s kept h = lawful.remove_dir_entry s p q kept h

  remove_target_lem :
      (target : CreatedTarget) (s : F.State)
      → IsSpared i target
      → F.entry q s ≡ some i
      → F.entry q (remove_target F target s) ≡ some i
  unfolding remove_target
  remove_target_lem target s spared kept =
      elim (Bool-cases (target.remove_on_cleanup && still_there F target s)) [
        | inr stays ↦ rw stays kept
        | inl goes ↦
            let removable : target.remove_on_cleanup ≡ true = ground arith in
            let there : still_there F target s ≡ true = ground arith in
            let named = named_lem (F.symlink_metadata target.path s) target.identity there in
            rw goes (
              remove_kind_lem target.kind target.path s kept
                (λ same. spared removable (some_injective (sym same ∙ named))))
      ]

  remove_targets_lem :
      (targets : List CreatedTarget) (s : F.State)
      → All (IsSpared i) targets
      → F.entry q s ≡ some i
      → F.entry q (remove_targets F targets s) ≡ some i
  unfolding remove_targets
  remove_targets_lem [] s spared kept = kept
  remove_targets_lem (target ∷ targets) s spared kept =
      remove_target_lem target (remove_targets F targets s) spared.0
        (remove_targets_lem targets s spared.1 kept)

  restore_lem :
      (target : CreatedTarget) (s : F.State)
      → F.entry q (restore_created_directory_permissions F target s) ≡ F.entry q s
  unfolding restore_created_directory_permissions
  restore_lem target s = elim (Bool-cases (still_there F target s)) [
    | inl there ↦ rw there (lawful.set_path_permissions_entry s target.path q 448)
    | inr gone ↦ rw gone refl
  ]

  restore_permissions_lem :
      (targets : List CreatedTarget) (s : F.State)
      → F.entry q (restore_permissions F targets s) ≡ F.entry q s
  unfolding restore_permissions
  restore_permissions_lem [] s = refl
  restore_permissions_lem (target ∷ targets) s =
      elim (Bool-cases (not (is_file target.kind) && target.remove_on_cleanup)) [
        | inl restored ↦ rw restored (
            restore_permissions_lem targets (restore_created_directory_permissions F target s)
            ∙ restore_lem target s)
        | inr kept ↦ rw kept (restore_permissions_lem targets s)
      ]

  -- Cleaning up after a failed materialization leaves each directory entry, other than `.` and
  -- `..`, of a file or directory that is no removable target by its identity; of the file
  -- system it takes that removing a path takes away entries of the file at the path only, that
  -- changing permissions changes no entry, and that no other process changes entries meanwhile.
  pub cleanup_created_targets_other :
      (targets : List CreatedTarget) (s : F.State)
      → All (IsSpared i) targets
      → F.entry q s ≡ some i
      → F.entry q (cleanup_created_targets F targets s) ≡ some i
  unfolding cleanup_created_targets
  cleanup_created_targets_other targets s spared kept =
      remove_targets_lem targets (restore_permissions F targets s) spared
        (restore_permissions_lem targets s ∙ kept)
