-- ===== src/RuntimeDir.antt =====
-- The runtime directory and the mount directory: `default_mount_path`,
-- `default_control_socket_path`, `validate_runtime_dir_path`, `prepare_mount_dir`,
-- `validate_mount_dir_path` of crates/fuse-promise-runtime/src/lib.rs. The environment and the
-- file system are arguments.
pub mod Prepared
use fuse_promise.Base.{
  ℕ, ◌%◌, Bool, true, false, not, Option, none, some, [], ◌∷◌, ◌++◌, ◌==◌, Str, if◌then◌else◌,
}
use fuse_promise.Status.{
  Result, ok, err, invalid_argument, unavailable, permission, already_exists, io, ◌>>=◌, ◌>>◌,
  refuse, ok_or,
}
use fuse_promise.Path.{slash, is_absolute}

pub record Metadata : Type 0 where
  pub is_dir : Bool
  pub uid : ℕ
  pub mode : ℕ

-- What `metadata` or `symlink_metadata` answers for a path.
pub data Stat : Type 0 where
  found : Metadata → Stat
  missing denied broken : Stat

-- What creating the directory answers.
pub data Created : Type 0 where
  made permission_denied exists other : Created

pub record Environment : Type 0 where
  pub xdg_runtime_dir : Option Str
  pub stat : Str → Stat
  pub uid : ℕ

-- The calls of the file system that prepare the mount directory, over an unknown state.
pub record MountFiles : Type 1 where
  pub State : Type 0
  -- Looks at a symbolic link itself.
  pub symlink_metadata : Str → State → Stat
  -- Looks at what a symbolic link leads to.
  pub metadata : Str → State → Stat
  -- `DirBuilder::create` with a mode.
  pub create_dir : Str → ℕ → State → State × Created

abbrev pub stat_found : Stat → Option Metadata
stat_found (found m) = some m
stat_found missing = none
stat_found denied = none
stat_found broken = none

-- The tests that both validations make: a directory of this user, closed to group and others
-- (`mode & 0o077` is the low six bits).
unfoldable pub validate_private : ℕ → Str → Stat → Result (Unit {0})
validate_private uid path stat = do
  refuse (not (is_absolute path)) invalid_argument
  metadata ← ok_or (stat_found stat) unavailable
  refuse (not metadata.is_dir) invalid_argument
  refuse (not (metadata.uid == uid)) permission
  refuse (not (metadata.mode % 64 == 0)) permission
  ok tt

unfoldable pub validate_runtime_dir_path : Environment → Str → Result (Unit {0})
unfolding validate_private
validate_runtime_dir_path env path = validate_private env.uid path (env.stat path)

unfoldable pub validate_mount_dir_path : (F : MountFiles) → ℕ → Str → F.State → Result (Unit {0})
unfolding validate_private
validate_mount_dir_path F uid path s = validate_private uid path (F.symlink_metadata path s)

abbrev pub ends_with_slash : Str → Bool
ends_with_slash [] = false
ends_with_slash (c ∷ []) = c == slash
ends_with_slash (c ∷ d ∷ s) = ends_with_slash (d ∷ s)

-- `Path::join` with a relative name.
unfoldable pub join_path : Str → Str → Str
join_path [] name = name
join_path (c ∷ s) name =
    if ends_with_slash (c ∷ s) then (c ∷ s) ++ name else (c ∷ s) ++ (slash ∷ name)

-- `fuse-promise` and `fuse-promise.sock` in bytes.
abbrev pub mount_name : Str
mount_name = 102 ∷ 117 ∷ 115 ∷ 101 ∷ 45 ∷ 112 ∷ 114 ∷ 111 ∷ 109 ∷ 105 ∷ 115 ∷ 101 ∷ []

abbrev pub socket_name : Str
socket_name = mount_name ++ (46 ∷ 115 ∷ 111 ∷ 99 ∷ 107 ∷ [])

unfoldable pub default_mount_path : Environment → Result Str
unfolding validate_runtime_dir_path join_path
default_mount_path env = do
  runtime_dir ← ok_or env.xdg_runtime_dir unavailable
  validate_runtime_dir_path env runtime_dir
  ok (join_path runtime_dir mount_name)

unfoldable pub default_control_socket_path : Environment → Result Str
unfolding validate_runtime_dir_path join_path
default_control_socket_path env = do
  runtime_dir ← ok_or env.xdg_runtime_dir unavailable
  validate_runtime_dir_path env runtime_dir
  ok (join_path runtime_dir socket_name)

abbrev pub create_status : Created → Result (Unit {0})
create_status made = ok tt
create_status permission_denied = err permission
create_status exists = err already_exists
create_status other = err io

abbrev pub created : {S : Type 0} → S × Created → S × Result (Unit {0})
created (s, answer) = (s, create_status answer)

-- A missing directory is created with mode 0o700.
abbrev pub ensure : (F : MountFiles) → Str → F.State → Stat → F.State × Result (Unit {0})
ensure F path s (found m) = (s, ok tt)
ensure F path s missing = created (F.create_dir path 448 s)
ensure F path s denied = (s, err permission)
ensure F path s broken = (s, err unavailable)

-- The second look is at the state that the first step has left.
abbrev pub checked :
    (F : MountFiles) → ℕ → Str → F.State × Result (Unit {0}) → F.State × Result (Unit {0})
checked F uid path (s, ok t) = (s, validate_mount_dir_path F uid path s)
checked F uid path (s, err e) = (s, err e)

unfoldable pub prepare_mount_dir :
    (F : MountFiles) → ℕ → Str → F.State → F.State × Result (Unit {0})
prepare_mount_dir F uid path s =
    if not (is_absolute path)
    then (s, err invalid_argument)
    else checked F uid path (ensure F path s (F.symlink_metadata path s))
