-- ===== src/Materialize/Names.antt =====
-- The names that materialization gives: `materialize_target_name`, `subtree_target_suffix`,
-- `rename_candidate_name`, `materialize_temp_path`, with what they use of `std::path`.
use fuse_promise.Base.{
  ℕ, Option, none, some, List, [], ◌∷◌, ◌++◌, ◌==◌, Str, same, str_key, decimal, if◌then◌else◌,
}
use fuse_promise.Status.{Result, ok, err, invalid_argument, ◌>>=◌, ok_or}
use fuse_promise.Path.{
  Component, root_dir, cur_dir, parent_dir, normal, components, is_empty, slash, dot, dot_dot, join,
}
use fuse_promise.RuntimeDir.{join_path}
use fuse_promise.Node.{PromiseNode, NodeKind, file, directory}

unfoldable pub last_component : List Component → Option Component
last_component [] = none
last_component (c ∷ []) = some c
last_component (c ∷ d ∷ cs) = last_component (d ∷ cs)

abbrev pub normal_name : Option Component → Option Str
normal_name (some (normal name)) = some name
normal_name _ = none

-- `Path::file_name`.
unfoldable pub file_name : Str → Option Str
unfolding last_component components
file_name path = normal_name (last_component (components path))

abbrev pub push_front : ℕ → Option (Str × Str) → Option (Str × Str)
push_front c none = none
push_front c (some (a, b)) = some (c ∷ a, b)

-- The parts of a name before and behind its last dot.
unfoldable pub rsplit_dot : Str → Option (Str × Str)
rsplit_dot [] = none
rsplit_dot (c ∷ s) = elim (rsplit_dot s) [
  | some parts ↦ push_front c (some parts)
  | none ↦ if c == 46 then some ([], s) else none
]

-- `file_stem` and `extension`: a name that starts with its only dot has no extension.
abbrev pub stem_and_extension : Str → Option (Str × Str) → Str × Option Str
stem_and_extension name none = (name, none)
stem_and_extension name (some ([], after)) = (name, none)
stem_and_extension name (some (c ∷ before, after)) = (c ∷ before, some after)

-- ` (attempt)`
abbrev pub counted : ℕ → Str
counted attempt = 32 ∷ 40 ∷ (decimal attempt ++ (41 ∷ []))

abbrev pub counted_name : Str → ℕ → Str × Option Str → Str
counted_name target_name attempt (stem, none) = target_name ++ counted attempt
counted_name target_name attempt (stem, some extension) =
    stem ++ (counted attempt ++ (46 ∷ extension))

abbrev pub candidate_of : Str → ℕ → Option Str → Str
candidate_of target_name attempt none = target_name ++ counted attempt
candidate_of target_name attempt (some name) =
    counted_name target_name attempt (stem_and_extension name (rsplit_dot name))

unfoldable pub rename_candidate_name : Str → NodeKind → ℕ → Str
unfolding file_name rsplit_dot decimal
rename_candidate_name target_name directory attempt = target_name ++ counted attempt
rename_candidate_name target_name file attempt =
    candidate_of target_name attempt (file_name target_name)

unfoldable pub materialize_target_name : Str → PromiseNode → Result Str
materialize_target_name promise_id node =
    if is_empty node.relative_path
    then ok promise_id
    else if is_empty node.name
    then err invalid_argument
    else ok node.name

-- `str::strip_prefix`.
unfoldable pub strip_text : Str → Str → Option Str
strip_text [] s = some s
strip_text (p ∷ ps) [] = none
strip_text (p ∷ ps) (c ∷ s) = let rest = strip_text ps s in if p == c then rest else none

unfoldable pub subtree_target_suffix : Str → Str → Result Str
unfolding strip_text
subtree_target_suffix source_relative_path node_relative_path =
    if same node_relative_path source_relative_path
    then ok []
    else if is_empty source_relative_path
    then ok node_relative_path
    else ok_or (strip_text (source_relative_path ++ (slash ∷ [])) node_relative_path)
        invalid_argument

-- `.fuse-promise-tmp-`
abbrev pub temp_mark : Str
temp_mark =
    46 ∷ 102 ∷ 117 ∷ 115 ∷ 101 ∷ 45 ∷ 112 ∷ 114 ∷ 111 ∷ 109 ∷ 105 ∷ 115 ∷ 101 ∷ 45 ∷ 116 ∷ 109 ∷ 112
    ∷ 45 ∷ []

abbrev pub temp_name : ℕ → Str → ℕ → Str
temp_name process_id name attempt =
    46 ∷ (name ++ (temp_mark ++ (decimal process_id ++ (45 ∷ decimal attempt))))

abbrev pub component_text : Component → Str
component_text root_dir = []
component_text cur_dir = dot
component_text parent_dir = dot_dot
component_text (normal name) = name

-- The text of a path without its last component; repeated slashes are not kept.
unfoldable pub without_last : List Component → List Str
without_last [] = []
without_last (c ∷ []) = []
without_last (c ∷ d ∷ cs) = component_text c ∷ without_last (d ∷ cs)

abbrev pub rooted : List Str → Str
rooted ([] ∷ []) = slash ∷ []
rooted parts = join parts

-- `Path::parent`, of a path with a last component that is a name.
unfoldable pub parent : Str → Option Str
unfolding without_last last_component components join
parent path = elim (normal_name (last_component (components path))) [
  | none ↦ none
  | some name ↦ some (rooted (without_last (components path)))
]

unfoldable pub materialize_temp_path : ℕ → Str → ℕ → Result Str
unfolding parent file_name join_path decimal
materialize_temp_path process_id target_path attempt = do
  above ← ok_or (parent target_path) invalid_argument
  name ← ok_or (file_name target_path) invalid_argument
  ok (join_path above (temp_name process_id name attempt))
