-- ===== src/Path.antt =====
-- Relative paths: `normalize_relative_path` and its helpers in
-- crates/fuse-promise-runtime/src/lib.rs, over the bytes of the text. `components` is
-- `std::path::Path::components` on Unix.
pub mod Pieces
pub mod Normal
pub mod Child
pub mod Accepted
use fuse_promise.Base.{
  ℕ, Bool, true, false, ◌||◌, Option, none, some, List, [], ◌∷◌, ◌++◌, ◌==◌, Str, same, str_key,
  if◌then◌else◌,
}
use fuse_promise.Status.{Result, ok, err, invalid_argument, ◌>>=◌, ◌>>◌, refuse}

abbrev pub slash : ℕ
slash = 47

abbrev pub dot : Str
dot = 46 ∷ []

abbrev pub dot_dot : Str
dot_dot = 46 ∷ 46 ∷ []

abbrev pub is_empty : Str → Bool
is_empty [] = true
is_empty (c ∷ s) = false

unfoldable pub has_byte : ℕ → Str → Bool
has_byte b [] = false
has_byte b (c ∷ s) = c == b || has_byte b s

pub data Component : Type 0 where
  root_dir cur_dir parent_dir : Component
  normal : Str → Component

abbrev pub cons_head : ℕ → List Str → List Str
cons_head c [] = (c ∷ []) ∷ []
cons_head c (w ∷ ws) = (c ∷ w) ∷ ws

-- The pieces between the slashes.
unfoldable pub split : Str → List Str
split [] = [] ∷ []
split (c ∷ s) = let rest = split s in if c == slash then [] ∷ rest else cons_head c rest

abbrev pub is_absolute : Str → Bool
is_absolute [] = false
is_absolute (c ∷ s) = c == slash

-- Empty pieces and `.` give no component; a leading `.` is handled in `components`.
unfoldable pub parse_component : Str → Option Component
parse_component w =
    if is_empty w || same w dot
    then none
    else if same w dot_dot
    then some parent_dir
    else some (normal w)

abbrev pub push_some : Option Component → List Component → List Component
push_some none cs = cs
push_some (some c) cs = c ∷ cs

unfoldable pub body : List Str → List Component
body [] = []
body (w ∷ ws) = push_some (parse_component w) (body ws)

abbrev pub lead : Str → List Str → List Component
lead s [] = []
lead s (w ∷ ws) = if is_absolute s then root_dir ∷ [] else if same w dot then cur_dir ∷ [] else []

unfoldable pub components : Str → List Component
components s = lead s (split s) ++ body (split s)

-- The loop over the components.
unfoldable pub collect_parts : List Component → Result (List Str)
collect_parts [] = ok []
collect_parts (normal part ∷ cs) = do
  refuse (is_empty part) invalid_argument
  parts ← collect_parts cs
  ok (part ∷ parts)
collect_parts (cur_dir ∷ cs) = collect_parts cs
collect_parts (parent_dir ∷ cs) = err invalid_argument
collect_parts (root_dir ∷ cs) = err invalid_argument

-- `parts.join("/")`.
unfoldable pub join : List Str → Str
join [] = []
join (p ∷ []) = p
join (p ∷ q ∷ ps) = p ++ (slash ∷ join (q ∷ ps))

unfoldable pub normalize_relative_path : Str → Result Str
normalize_relative_path input = do
  refuse (has_byte 0 input) invalid_argument
  refuse (is_absolute input) invalid_argument
  parts ← collect_parts (components input)
  ok (join parts)

abbrev pub push_front : ℕ → Str × Str → Option (Str × Str)
push_front c (a, b) = some (c ∷ a, b)

-- `rsplit_once('/')`.
unfoldable pub rsplit_once : Str → Option (Str × Str)
rsplit_once [] = none
rsplit_once (c ∷ s) = elim (rsplit_once s) [
  | some ab ↦ push_front c ab
  | none ↦ if c == slash then some ([], s) else none
]

unfoldable pub parent_path : Str → Str
parent_path path = elim (rsplit_once path) [ none ↦ [] | some (parent, _) ↦ parent ]

unfoldable pub leaf_name : Str → Str
leaf_name path = elim (rsplit_once path) [ none ↦ path | some (_, name) ↦ name ]

unfoldable pub validate_child_name : Str → Result (Unit {0})
validate_child_name name = do
  refuse (is_empty name || same name dot || same name dot_dot) invalid_argument
  refuse (has_byte 0 name || has_byte slash name) invalid_argument
  ok tt

unfoldable pub child_path : Str → Str → Str
child_path parent name = if is_empty parent then name else parent ++ (slash ∷ name)
