-- ===== src/RuntimeDir/Prepared.antt =====
-- When `prepare_mount_dir` succeeds.
use fuse_promise.Base.{
  ℕ, ◌%◌, ◌≤◌, ◌≡◌, ◌↔◌, ◌⊎◌, refl, ap, sym, ◌∙◌, arith, true, Str, Bool-cases, inl, inr,
}
use fuse_promise.Status.{Status, Result, ok, err, permission, already_exists, io, unavailable}
use fuse_promise.Path.{is_absolute}
use fuse_promise.RuntimeDir.{
  Metadata, Stat, found, missing, denied, broken, Created, made, permission_denied, exists, other,
  MountFiles, validate_private, validate_mount_dir_path, create_status, ensure, checked,
  prepare_mount_dir,
}

-- A directory of the user, closed to group and others.
pub record IsPrivate (uid : ℕ) (stat : Stat) : Type 0 where
  pub metadata : Metadata
  pub there : stat ≡ found metadata
  pub directory : metadata.is_dir ≡ true
  pub own : metadata.uid ≡ uid
  pub closed : metadata.mode % 64 ≡ 0

-- What `mkdir` does: where it succeeds, the path names a directory of the user who made it, and the
-- umask has only taken permissions of the mode away.
pub record IsLawful (F : MountFiles) (uid : ℕ) : Type 0 where
  pub made_directory :
      (path : Str) (mode : ℕ) (s : F.State)
      → (F.create_dir path mode s).1 ≡ made
      → (m : Metadata) × (F.symlink_metadata path (F.create_dir path mode s).0 ≡ found m)
        × (m.is_dir ≡ true)
        × (m.uid ≡ uid)
        × (m.mode % 64 ≤ mode % 64)

-- The file at the path is private, or none is there and one can be made; and what is left.
abbrev pub IsPrepared : (F : MountFiles) → ℕ → Str → F.State → Type 0
IsPrepared F uid path s =
    (IsPrivate uid (F.symlink_metadata path s) × ((prepare_mount_dir F uid path s).0 ≡ s))
    ⊎ ((F.symlink_metadata path s ≡ missing)
        × ((F.create_dir path 448 s).1 ≡ made)
        × ((prepare_mount_dir F uid path s).0 ≡ (F.create_dir path 448 s).0))

found_injective : {a b : Metadata} → found a ≡ found b → a ≡ b
found_injective h = cc

validate_lem :
    (uid : ℕ) (path : Str) (stat : Stat)
    → is_absolute path ≡ true
    → (validate_private uid path stat ≡ ok tt) ↔ IsPrivate uid stat
unfolding validate_private
validate_lem uid path (found m) absolute = (
  λ h. record {
    metadata = m;
    there = refl;
    directory = ground arith;
    own = ground arith;
    closed = ground arith;
  },
  λ h.
      let same : m ≡ h.metadata = found_injective h.there in
      let dir : m.is_dir ≡ true = ap (λ (x : Metadata). x.is_dir) same ∙ h.directory in
      let own : m.uid ≡ uid = ap (λ (x : Metadata). x.uid) same ∙ h.own in
      let closed : m.mode % 64 ≡ 0 = ap (λ (x : Metadata). x.mode % 64) same ∙ h.closed in
      ground (arith, dir, own, closed, absolute),
)
validate_lem uid path missing absolute =
    (λ h. absurd (ground arith), λ h. let never = h.there in cc)
validate_lem uid path denied absolute = (λ h. absurd (ground arith), λ h. let never = h.there in cc)
validate_lem uid path broken absolute = (λ h. absurd (ground arith), λ h. let never = h.there in cc)

abbrev refusal : Status → Result (Unit {0})
refusal e = err e

-- The outcome of the two steps behind the test of the path.
abbrev Reached : (F : MountFiles) → ℕ → Str → F.State → Stat → F.State × Result (Unit {0}) → Type 0
Reached F uid path s stat result =
    (IsPrivate uid stat × (result.0 ≡ s))
    ⊎ ((stat ≡ missing)
        × ((F.create_dir path 448 s).1 ≡ made)
        × (result.0 ≡ (F.create_dir path 448 s).0))

module _ (F : MountFiles) (uid : ℕ) (lawful : IsLawful F uid) (path : Str) (s : F.State)
    (absolute : is_absolute path ≡ true) where
  -- An error at the first step.
  refused_lem :
      (stat : Stat) (t : F.State) (e : Status)
      → ¬ IsPrivate uid stat
      → ¬ ((stat ≡ missing) × ((F.create_dir path 448 s).1 ≡ made))
      → (refusal e ≡ ok tt) ↔ Reached F uid path s stat (t, err e)
  refused_lem stat t e open_to_others unmade = (
    λ h. cc,
    λ h. elim h [
      | inl (private, same) ↦ absurd (open_to_others private)
      | inr (no_file, new, same) ↦ absurd (unmade (no_file, new))
    ],
  )

  -- What was made passes the second look.
  made_lem :
      (answer : Created)
      → (F.create_dir path 448 s).1 ≡ answer
      → ((checked F uid path ((F.create_dir path 448 s).0, create_status answer)).1 ≡ ok tt) ↔ (
          Reached F uid path s missing
            (checked F uid path ((F.create_dir path 448 s).0, create_status answer)))
  unfolding validate_mount_dir_path
  made_lem made e =
      let (m, there, dir, own, closed) = lawful.made_directory path 448 s e in
      let private : IsPrivate uid (F.symlink_metadata path (F.create_dir path 448 s).0) = record {
        metadata = m;
        there = there;
        directory = dir;
        own = own;
        closed = omega arith;
      } in
      (
        λ h. inr (refl, e, refl),
        λ h.
            (validate_lem uid path (F.symlink_metadata path (F.create_dir path 448 s).0) absolute).1
              private,
      )
  made_lem permission_denied e =
      refused_lem missing (F.create_dir path 448 s).0 permission
        (λ private. let never = private.there in cc)
        (λ h. let never : permission_denied ≡ made = sym e ∙ h.1 in cc)
  made_lem exists e =
      refused_lem missing (F.create_dir path 448 s).0 already_exists
        (λ private. let never = private.there in cc)
        (λ h. let never : exists ≡ made = sym e ∙ h.1 in cc)
  made_lem other e =
      refused_lem missing (F.create_dir path 448 s).0 io
        (λ private. let never = private.there in cc)
        (λ h. let never : other ≡ made = sym e ∙ h.1 in cc)

  step_lem :
      (stat : Stat)
      → F.symlink_metadata path s ≡ stat
      → ((checked F uid path (ensure F path s stat)).1 ≡ ok tt)
        ↔ Reached F uid path s stat (checked F uid path (ensure F path s stat))
  unfolding validate_mount_dir_path
  step_lem (found m) e =
      let test = validate_lem uid path (F.symlink_metadata path s) absolute in
      (
        λ h. inl (rw (← e) (test.0 h), refl),
        λ h. elim h [ inl (private, same) ↦ test.1 (rw e private) | inr (never, new, same) ↦ cc ],
      )
  step_lem missing e = made_lem (F.create_dir path 448 s).1 refl
  step_lem denied e =
      refused_lem denied s permission (λ private. let never = private.there in cc)
        (λ h. let never = h.0 in cc)
  step_lem broken e =
      refused_lem broken s unavailable (λ private. let never = private.there in cc)
        (λ h. let never = h.0 in cc)

-- Preparing the mount directory succeeds exactly for an absolute path where either there is a
-- directory of the user itself, closed to group and others, and no link to one, which is left
-- as it is, or there is nothing and a directory with mode 0o700 can be created, which is then
-- all that is done; of `mkdir` it takes that what it makes is a directory of the user at the
-- path, with no more permissions than the mode has for group and others.
pub prepare_mount_dir-IsPrepared :
    (F : MountFiles) (uid : ℕ) (path : Str) (s : F.State)
    → IsLawful F uid
    → ((prepare_mount_dir F uid path s).1 ≡ ok tt)
      ↔ ((is_absolute path ≡ true) × IsPrepared F uid path s)
unfolding prepare_mount_dir
prepare_mount_dir-IsPrepared F uid path s lawful = elim (Bool-cases (is_absolute path)) [
  | inl absolute ↦
      let step = step_lem F uid lawful path s absolute (F.symlink_metadata path s) refl in
      (
        λ h. (absolute, rw absolute (step.0 (rw absolute at h))),
        λ h. rw absolute (step.1 (rw absolute at h.1)),
      )
  | inr relative ↦ (λ h. absurd (ground arith), λ h. absurd (ground arith))
]
