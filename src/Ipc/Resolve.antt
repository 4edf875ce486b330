-- ===== src/Ipc/Resolve.antt =====
-- `IpcMountStatus::resolve_visible_path`: the promise and the path in it that a path of the mount
-- names. Texts are UTF-8 in the model, so `to_str` does not fail.
use fuse_promise.Base.{
  Bool, true, false, not, ◌&&◌, Option, none, some, List, [], ◌∷◌, Str, same, str_key,
  if◌then◌else◌,
}
use fuse_promise.Status.{
  Result, ok, err, unavailable, invalid_argument, not_found, ◌>>=◌, ◌>>◌, refuse, ok_or,
}
use fuse_promise.Path.{
  Component, root_dir, cur_dir, parent_dir, normal, components, is_absolute, join,
}
use fuse_promise.Ipc.State.{IpcMountStatus}

abbrev pub same_component : Component → Component → Bool
same_component root_dir root_dir = true
same_component cur_dir cur_dir = true
same_component parent_dir parent_dir = true
same_component (normal v) (normal w) = same v w
same_component _ _ = false

-- Paths are equal when their components are.
unfoldable pub same_components : List Component → List Component → Bool
same_components [] [] = true
same_components [] (c ∷ cs) = false
same_components (b ∷ bs) [] = false
same_components (b ∷ bs) (c ∷ cs) = same_component b c && same_components bs cs

-- `Path::strip_prefix`, by components.
unfoldable pub strip_prefix : List Component → List Component → Option (List Component)
strip_prefix [] cs = some cs
strip_prefix (b ∷ bs) [] = none
strip_prefix (b ∷ bs) (c ∷ cs) =
    let rest = strip_prefix bs cs in if same_component b c then rest else none

-- The loop over the components behind the promise.
unfoldable pub normal_parts : List Component → Result (List Str)
normal_parts [] = ok []
normal_parts (normal part ∷ cs) = do parts ← normal_parts cs; ok (part ∷ parts)
normal_parts (cur_dir ∷ cs) = err invalid_argument
normal_parts (parent_dir ∷ cs) = err invalid_argument
normal_parts (root_dir ∷ cs) = err invalid_argument

abbrev pub resolve_relative : List Component → Result (Str × Str)
resolve_relative (normal promise_id ∷ cs) = do parts ← normal_parts cs; ok (promise_id, join parts)
resolve_relative [] = err not_found
resolve_relative (root_dir ∷ cs) = err not_found
resolve_relative (cur_dir ∷ cs) = err not_found
resolve_relative (parent_dir ∷ cs) = err not_found

unfoldable pub resolve_visible_path : IpcMountStatus → Str → Result (Str × Str)
unfolding strip_prefix normal_parts
resolve_visible_path m source_path = do
  refuse (not m.ready_for_commits) unavailable
  refuse (not (is_absolute source_path)) invalid_argument
  mount_path ← ok_or m.mount_path unavailable
  relative ← ok_or (strip_prefix (components mount_path) (components source_path)) not_found
  resolve_relative relative
