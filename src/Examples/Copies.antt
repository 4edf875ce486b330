-- ===== src/Examples/Copies.antt =====
-- Materialization, on a disk in memory.
use fuse_promise.Base.{
  replicate, ℕ, ◌≡◌, refl, ap, true, false, some, [], ◌∷◌, lookup, remove, str_key, cmp_str,
  decimal, arith, Str, All,
}
use fuse_promise.Path.{components, split, body, parse_component}
use fuse_promise.RuntimeDir.{join_path}
use fuse_promise.Node.{pos, file, directory}
use fuse_promise.Ipc.Message.{done, read_ok, MaterializeBody, rename, overwrite}
use fuse_promise.Ipc.Route.{Turn, answers}
use fuse_promise.Materialize.Files.{FileIdentity, Place}
use fuse_promise.Materialize.Data.{MaterializePlan, Entry, CreatedTarget, Progress}
use fuse_promise.Materialize.Monad.{◌>>◌, goes_on, World, value}
use fuse_promise.Materialize.Names.{rename_candidate_name, file_name, rsplit_dot, last_component}
use fuse_promise.Materialize.Targets.{
  look_of, cleanup_created_targets, unique_from, unique_materialize_target_path,
  preflight_materialize_targets,
}
use fuse_promise.Materialize.Output.{FileTarget, file_target}
use fuse_promise.Materialize.Copy.{copy_loop}
use fuse_promise.Materialize.Cleanup.{IsSpared, cleanup_created_targets_other}
use fuse_promise.Materialize.Termination.{IsEnded, copy_loop_ends}
use fuse_promise.Materialize.Run.{start, carry_out, handle_materialize}
use fuse_promise.Materialize.Totals.{IsCounted, carry_out-IsCounted}
use fuse_promise.Materialize.Careful.{handle_materialize_careful}
use fuse_promise.Materialize.Free.{
  IsFirst, candidate, look_at, IsAcceptable, unique_materialize_target_path-IsFirst,
  preflight_materialize_targets-IsAcceptable,
}
use fuse_promise.Examples.Data.{name_a, promise_p, state}
use fuse_promise.Examples.Disk.{
  Disk, memory, link_key, among, names, walk, locate, without, has_entries,
}
use fuse_promise.Examples.DiskLaws.{memory-IsLawful}

-- `/t` and `/t/a`
abbrev dir : Str
dir = 47 ∷ 116 ∷ []

abbrev path_a : Str
path_a = 47 ∷ 116 ∷ 47 ∷ 97 ∷ []

-- `/t` with the files `a` and `b` and the directory `c`.
abbrev disk : Disk
disk = record {
  links = ((0, 116 ∷ []), 1) ∷ ((1, 97 ∷ []), 5) ∷ ((1, 98 ∷ []), 6) ∷ ((1, 99 ∷ []), 7) ∷ [];
  directories = 0 ∷ 1 ∷ 7 ∷ [];
  locked = 7 ∷ [];
}

-- `a` in the directory that `/t` is now.
abbrev place_a : Place
place_a = record { parent = record { dev = 1; ino = 1 }; name = 97 ∷ [] }

abbrev place_b : Place
place_b = record { parent = record { dev = 1; ino = 1 }; name = 98 ∷ [] }

abbrev file_b : FileIdentity
file_b = record { dev = 1; ino = 6 }

abbrev target_a : CreatedTarget
target_a = file_target path_a (record { dev = 1; ino = 5 }) true

-- A directory without permissions.
abbrev target_c : CreatedTarget
target_c = record {
  path = 47 ∷ 116 ∷ 47 ∷ 99 ∷ [];
  kind = directory;
  identity = record { dev = 1; ino = 7 };
  remove_on_cleanup = true;
}

spared : All (IsSpared file_b) (target_c ∷ target_a ∷ [])
spared =
    let number = λ (i : FileIdentity). i.ino in
    (
      λ removable same. let equal : ◌≡◌ {A = ℕ} 6 7 = ap number same in omega arith,
      (λ removable same. let equal : ◌≡◌ {A = ℕ} 6 5 = ap number same in omega arith, tt),
    )

b_linked : memory.entry place_b disk ≡ some file_b
unfolding lookup cmp_str
b_linked = refl

cleanup_example :
    memory.entry place_b (cleanup_created_targets memory (target_c ∷ target_a ∷ []) disk)
    ≡ some file_b
cleanup_example =
    cleanup_created_targets_other memory memory-IsLawful place_b file_b (target_c ∷ target_a ∷ [])
      disk spared b_linked

-- Both targets are gone.
cleaned :
    (cleanup_created_targets memory (target_c ∷ target_a ∷ []) disk).links
    ≡ ((0, 116 ∷ []), 1) ∷ ((1, 98 ∷ []), 6) ∷ []
unfolding lookup cmp_str cleanup_created_targets locate split among without remove has_entries
cleaned = refl

-- The provider answers with the whole file.
abbrev turn : Turn
turn = record {
  written = done tt;
  others =
      answers (1 ∷ []) (record { request_id = 8; status = read_ok; bytes = replicate 10 7 }) ∷ [];
}

abbrev world : World memory
world = record {
  ipc = state;
  files = disk;
  temp_counter = 0;
  turns = turn ∷ [];
  client = replicate 4 goes_on;
  reported = [];
}

abbrev entry_a : Entry
entry_a = record {
  relative_path = name_a;
  target_path = path_a;
  kind = file;
  size = 10;
  mode = 420;
  mtime_nsec = pos 0;
}

abbrev progress : Progress
progress = record {
  target_path = path_a;
  entries_done = 0;
  entries_total = 1;
  bytes_written = 0;
  bytes_total = 10;
  files_written = 0;
  files_total = 1;
  directories_created = 0;
  directories_total = 0;
}

abbrev output_a : FileTarget memory
output_a = record {
  file = 5;
  write_target = target_a;
  final_path = path_a;
  final_remove_on_cleanup = true;
  replace_on_success = false;
}

copy_loop_example :
    IsEnded memory promise_p entry_a output_a progress
      (copy_loop memory promise_p entry_a output_a progress 10 0 world).1
copy_loop_example =
    copy_loop_ends memory promise_p entry_a output_a progress 10 0 world (omega arith)

-- `a` is taken, `a (1)` is free.
abbrev free_path : Str
free_path = 47 ∷ 116 ∷ 47 ∷ 97 ∷ 32 ∷ 40 ∷ 49 ∷ 41 ∷ []

free_found : (unique_materialize_target_path memory dir name_a file world).1 ≡ value free_path
unfolding unique_materialize_target_path unique_from look_of lookup cmp_str locate walk names among
    join_path rename_candidate_name file_name last_component components rsplit_dot decimal split
    body parse_component
free_found = refl

unique_example : IsFirst memory world (candidate dir name_a file) 0 1024 free_path
unique_example = unique_materialize_target_path-IsFirst memory world dir name_a file free_found

preflight_passed :
    (preflight_materialize_targets memory (entry_a ∷ []) overwrite world).1 ≡ value tt
unfolding preflight_materialize_targets ◌>>◌ look_of lookup cmp_str locate walk names among split
preflight_passed = refl

preflight_example :
    ((preflight_materialize_targets memory (entry_a ∷ []) overwrite world).0 ≡ world)
    × All
        (λ entry.
          IsAcceptable memory world overwrite entry.kind (look_at memory world entry.target_path))
        (entry_a ∷ [])
preflight_example =
    preflight_materialize_targets-IsAcceptable memory world (entry_a ∷ []) overwrite
      preflight_passed

-- `/p/a`, to be written into `/t` under another name.
abbrev body_a : MaterializeBody
body_a = record {
  source_path = 47 ∷ 112 ∷ 47 ∷ 97 ∷ [];
  target_dir = dir;
  conflict_policy = rename;
}

abbrev file_a : FileIdentity
file_a = record { dev = 1; ino = 5 }

a_linked : memory.entry place_a disk ≡ some file_a
unfolding lookup cmp_str
a_linked = refl

handle_materialize_example :
    memory.entry place_a (handle_materialize memory 7 body_a world).0.files ≡ some file_a
handle_materialize_example =
    handle_materialize_careful memory memory-IsLawful place_a file_a 7 body_a world tt a_linked

abbrev plan_a : MaterializePlan
plan_a = record {
  promise_id = promise_p;
  target_path = free_path;
  conflict_policy = rename;
  entries = record entry_a { target_path = free_path } ∷ [];
}

carry_out_example :
    IsCounted memory plan_a (carry_out memory 7 plan_a (start memory plan_a) world).1
carry_out_example = carry_out-IsCounted memory 7 plan_a world (omega arith)
