-- ===== src/Examples/Disk.antt =====
-- A small file system in memory, for the examples: directories with entries, found piece by piece
-- from the root, which takes the permission to search each directory on the way. There are no symbolic
-- links and no `..`, `/` itself has no place, and the content of files is left out.
use fuse_promise.Base.{
  ◌==◌, not, arith, ℕ, suc, ◌≡◌, ◌↔◌, max, Bool, true, false, Option, none, some, List, [], ◌∷◌,
  Str, BTreeMap, lookup, insert, remove, Key, str_key, cmp_str, cmp_str_iff, cmp_ℕ_iff, compare,
  Ordering, then_cmp, same, if◌then◌else◌, ◌||◌, ◌&&◌, ◌/◌, ◌%◌,
}
use fuse_promise.Path.{split, is_empty, dot}
use fuse_promise.Ipc.Message.{IoResult, done, fail, ErrorKind}
use fuse_promise.Materialize.Files.{FileIdentity, Place, Files, Metadata}

-- The inode of a directory, and a name.
abbrev pub Link : Type 0
Link = ℕ × Str

abbrev pub cmp_link : Link → Link → Ordering
cmp_link (d, n) (e, m) = then_cmp (compare d e) (cmp_str n m)

pub cmp_link_iff : (a b : Link) → (cmp_link a b ≡ Ordering.eq) ↔ (a ≡ b)
cmp_link_iff (d, n) (e, m) = (
  λ h. ground (arith, cmp_ℕ_iff d e, cmp_str_iff n m),
  λ h. ground (arith, cmp_ℕ_iff d e, cmp_str_iff n m),
)

instance abbrev pub link_key : Key Link
link_key = record { cmp = cmp_link; cmp_iff = cmp_link_iff }

abbrev pub Links : Type 0
Links = BTreeMap Link ℕ

pub record Disk : Type 0 where
  pub links : Links
  pub directories : List ℕ
  -- The files that their owner may not search or execute.
  pub locked : List ℕ

unfoldable pub among : ℕ → List ℕ → Bool
among n [] = false
among n (m ∷ ms) = m == n || among n ms

unfoldable pub without : ℕ → List ℕ → List ℕ
without n [] = []
without n (m ∷ ms) = let rest = without n ms in if m == n then rest else m ∷ rest

unfoldable pub names : List Str → List Str
names [] = []
names (w ∷ ws) = let rest = names ws in if is_empty w || same w dot then rest else w ∷ rest

abbrev pub onward : Option ℕ → (ℕ → Option Link) → Option Link
onward none next = none
onward (some inode) next = next inode

-- The directory that holds the last name, and that name.
unfoldable pub walk : List ℕ → Links → ℕ → List Str → Option Link
walk locked links d [] = none
walk locked links d (n ∷ []) = if among d locked then none else some (d, n)
walk locked links d (n ∷ m ∷ ns) =
    let next = onward (lookup (d, n) links) (λ e. walk locked links e (m ∷ ns)) in
    if among d locked then none else next

unfoldable pub locate : Str → Disk → Option Link
unfolding walk names
locate path disk = walk disk.locked disk.links 0 (names (split path))

-- An inode that no link, directory or permission is of.
unfoldable pub fresh_link : Links → ℕ
fresh_link [] = 1
fresh_link ((link, inode) ∷ links) = max (suc inode) (fresh_link links)

unfoldable pub fresh_above : List ℕ → ℕ
fresh_above [] = 1
fresh_above (inode ∷ inodes) = max (suc inode) (fresh_above inodes)

unfoldable pub fresh_inode : Disk → ℕ
unfolding fresh_link fresh_above
fresh_inode disk =
    max (fresh_link disk.links) (max (fresh_above disk.directories) (fresh_above disk.locked))

abbrev pub metadata_of : Disk → ℕ → Metadata
metadata_of disk inode = record {
  identity = record { dev = 1; ino = inode };
  is_symlink = false;
  is_dir = among inode disk.directories;
  is_file = not (among inode disk.directories);
}

abbrev pub linked : Option Link → Disk → Option ℕ
linked none disk = none
linked (some link) disk = lookup link disk.links

abbrev pub stat_of : Disk → Option ℕ → IoResult Metadata
stat_of disk (some inode) = done (metadata_of disk inode)
stat_of disk none = fail ErrorKind.not_found

abbrev pub stat : Str → Disk → IoResult Metadata
stat path disk = stat_of disk (linked (locate path disk) disk)

abbrev pub with_directory : Bool → ℕ → List ℕ → List ℕ
with_directory true inode inodes = inode ∷ inodes
with_directory false inode inodes = inodes

-- A new file is searchable until a change of permissions, whatever mode it was made with.
abbrev pub create_in : Bool → Disk → Link → Option ℕ → Disk × IoResult ℕ
create_in is_dir disk link (some inode) = (disk, fail ErrorKind.already_exists)
create_in is_dir disk link none = (
  record {
    links = insert link (fresh_inode disk) disk.links;
    directories = with_directory is_dir (fresh_inode disk) disk.directories;
    locked = disk.locked;
  },
  done (fresh_inode disk),
)

abbrev pub create_at : Bool → Disk → Option Link → Disk × IoResult ℕ
create_at is_dir disk none = (disk, fail ErrorKind.not_found)
create_at is_dir disk (some link) = create_in is_dir disk link (lookup link disk.links)

abbrev pub create : Bool → Str → Disk → Disk × IoResult ℕ
create is_dir path disk = create_at is_dir disk (locate path disk)

abbrev pub quietly : Disk × IoResult ℕ → Disk × IoResult (Unit {0})
quietly (disk, done inode) = (disk, done tt)
quietly (disk, fail e) = (disk, fail e)

unfoldable pub has_entries : ℕ → Links → Bool
has_entries d [] = false
has_entries d (((e, n), inode) ∷ links) = e == d || has_entries d links

-- A file is removed with `unlink`, an empty directory with `rmdir`.
abbrev pub may_remove : Bool → ℕ → Disk → Bool
may_remove true inode disk = among inode disk.directories && not (has_entries inode disk.links)
may_remove false inode disk = not (among inode disk.directories)

abbrev pub removed_in : Bool → Link → Option ℕ → Disk → Disk × IoResult (Unit {0})
removed_in is_dir link none disk = (disk, fail ErrorKind.not_found)
removed_in is_dir link (some inode) disk =
    if may_remove is_dir inode disk
    then (record disk { links = remove link disk.links }, done tt)
    else (disk, fail ErrorKind.permission_denied)

abbrev pub removed_at : Bool → Option Link → Disk → Disk × IoResult (Unit {0})
removed_at is_dir none disk = (disk, fail ErrorKind.not_found)
removed_at is_dir (some link) disk = removed_in is_dir link (lookup link disk.links) disk

-- The owner's permission to search is the seventh bit.
abbrev pub permit : ℕ → ℕ → List ℕ → List ℕ
permit inode mode locked = if mode / 64 % 2 == 0 then inode ∷ locked else without inode locked

abbrev pub permit_at : Option ℕ → ℕ → List ℕ → List ℕ
permit_at none mode locked = locked
permit_at (some inode) mode locked = permit inode mode locked

abbrev pub link_of : Place → Link
link_of q = (q.parent.ino, q.name)

abbrev pub entry_of : Bool → Option ℕ → Option FileIdentity
entry_of true (some inode) = some (record { dev = 1; ino = inode })
entry_of true none = none
entry_of false found = none

abbrev pub memory : Files
memory = record {
  State = Disk;
  entry = λ q disk. entry_of (q.parent.dev == 1) (lookup (link_of q) disk.links);
  Handle = ℕ;
  symlink_metadata = stat;
  create_dir = λ path mode disk. quietly (create true path disk);
  open_new = λ path mode disk. create false path disk;
  open_existing = λ path disk. elim (linked (locate path disk) disk) [
    | some inode ↦ done inode
    | none ↦ fail ErrorKind.not_found
  ];
  metadata = λ handle disk. done (metadata_of disk handle);
  write_all = λ handle bytes disk. (disk, done tt);
  read_at = λ handle offset count disk. done [];
  set_permissions =
      λ handle mode disk. (record disk { locked = permit handle mode disk.locked }, done tt);
  futimens = λ handle seconds nanoseconds disk. (disk, done tt);
  set_path_permissions = λ path mode disk. (
    record disk { locked = permit_at (linked (locate path disk) disk) mode disk.locked },
    done tt,
  );
  rename = λ from to disk. (disk, fail ErrorKind.permission_denied);
  remove_file = λ path disk. removed_at false (locate path disk) disk;
  remove_dir = λ path disk. removed_at true (locate path disk) disk;
}
