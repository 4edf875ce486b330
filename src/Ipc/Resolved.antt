-- ===== src/Ipc/Resolved.antt =====
-- `resolve_visible_path` and the paths that the daemon shows.
use fuse_promise.Base.{
  ◌≡◌, refl, ap, sym, ◌∙◌, true, Option, none, some, List, [], ◌∷◌, ◌++◌, ◌==◌, ==_iff, Str, map,
  All-map, same_refl, str_key, Bool-cases, inl, inr, All,
}
use mathlib.Core.List.{append_assoc, append-nil}
use fuse_promise.Status.{ok}
use fuse_promise.Path.{
  Component, root_dir, cur_dir, parent_dir, normal, slash, is_absolute, split, body, push_some,
  parse_component, components, join,
}
use fuse_promise.Path.Pieces.{NoByte, split-join}
use fuse_promise.Path.Normal.{IsPart}
use fuse_promise.RuntimeDir.{join_path, ends_with_slash}
use fuse_promise.Ipc.State.{commit_ready}
use fuse_promise.Ipc.Resolve.{strip_prefix, normal_parts, resolve_visible_path}

-- The pieces of a text that goes on behind a slash.
split-append_slash :
    (s t : Str)
    → (w : Str) × (ws : List Str) × (split s ≡ w ∷ ws)
      × (split (s ++ (slash ∷ t)) ≡ w ∷ (ws ++ split t))
unfolding split
split-append_slash [] t = ([], [], refl, refl)
split-append_slash (c ∷ s) t =
    let (w, ws, e, f) = split-append_slash s t in
    elim (Bool-cases (c == slash)) [
      | inl cut ↦ ([], w ∷ ws, rw (cut, e) refl, rw (cut, f) refl)
      | inr on ↦ (c ∷ w, ws, rw (on, e) refl, rw (on, f) refl)
    ]

split-slash : (s t : Str) → split (s ++ (slash ∷ t)) ≡ split s ++ split t
split-slash s t = let (w, ws, e, f) = split-append_slash s t in f ∙ ap (λ l. l ++ split t) (sym e)

push_some-append :
    (c : Option Component) (cs ds : List Component) → push_some c (cs ++ ds) ≡ push_some c cs ++ ds
push_some-append none cs ds = refl
push_some-append (some c) cs ds = refl

body-append : (ws vs : List Str) → body (ws ++ vs) ≡ body ws ++ body vs
unfolding body
body-append [] vs = refl
body-append (w ∷ ws) vs =
    ap (push_some (parse_component w)) (body-append ws vs)
    ∙ push_some-append (parse_component w) (body ws) (body vs)

body-slash : (s t : Str) → body (split (s ++ (slash ∷ t))) ≡ body (split s) ++ body (split t)
body-slash s t = ap body (split-slash s t) ∙ body-append (split s) (split t)

absolute_lem : (s : Str) → is_absolute s ≡ true → components s ≡ root_dir ∷ body (split s)
unfolding components
absolute_lem s h = let (w, ws, e, f) = split-append_slash s [] in rw (e, h) refl

-- A text behind an absolute path and a slash.
components-append_slash :
    (s t : Str)
    → is_absolute s ≡ true
    → is_absolute (s ++ (slash ∷ t)) ≡ true
    → components (s ++ (slash ∷ t)) ≡ components s ++ body (split t)
components-append_slash s t h h' =
    absolute_lem (s ++ (slash ∷ t)) h'
    ∙ ap (◌∷◌ root_dir) (body-slash s t)
    ∙ ap (λ l. l ++ body (split t)) (sym (absolute_lem s h))

ends_lem : (s : Str) → ends_with_slash s ≡ true → (r : Str) × (s ≡ r ++ (slash ∷ []))
unfolding ends_with_slash
ends_lem [] h = cc
ends_lem (c ∷ []) h = ([], ap (λ b. b ∷ []) ((==_iff c slash).0 h))
ends_lem (c ∷ d ∷ s) h = let (r, e) = ends_lem (d ∷ s) h in (c ∷ r, ap (◌∷◌ c) e)

body_nil : body (split []) ≡ []
unfolding body split parse_component
body_nil = refl

-- A text behind an absolute path that ends with a slash.
components-append_ended :
    (s t r : Str)
    → s ≡ r ++ (slash ∷ [])
    → is_absolute s ≡ true
    → is_absolute (s ++ t) ≡ true
    → components (s ++ t) ≡ components s ++ body (split t)
components-append_ended s t r e h h' =
    let whole : body (split (s ++ t)) ≡ body (split r) ++ body (split t) =
      ap (λ l. body (split (l ++ t))) e
      ∙ ap (λ l. body (split l)) (append_assoc r (slash ∷ []) t)
      ∙ body-slash r t in
    let mount : body (split s) ≡ body (split r) =
      ap (λ l. body (split l)) e
      ∙ body-slash r []
      ∙ ap (λ l. body (split r) ++ l) body_nil
      ∙ append-nil (body (split r)) in
    absolute_lem (s ++ t) h'
    ∙ ap (◌∷◌ root_dir) whole
    ∙ ap (λ l. root_dir ∷ (l ++ body (split t))) (sym mount)
    ∙ ap (λ l. l ++ body (split t)) (sym (absolute_lem s h))

-- The components of a name below the mount.
components-join_path :
    (mount name : Str)
    → is_absolute mount ≡ true
    → components (join_path mount name) ≡ components mount ++ body (split name)
unfolding join_path
components-join_path [] name h = cc
components-join_path (c ∷ s) name h = elim (Bool-cases (ends_with_slash (c ∷ s))) [
  | inr bare ↦ rw bare (components-append_slash (c ∷ s) name h h)
  | inl ends ↦
      let (r, e) = ends_lem (c ∷ s) ends in rw ends (components-append_ended (c ∷ s) name r e h h)
]

strip_prefix-append : (bs cs : List Component) → strip_prefix bs (bs ++ cs) ≡ some cs
unfolding strip_prefix
strip_prefix-append [] cs = refl
strip_prefix-append (root_dir ∷ bs) cs = strip_prefix-append bs cs
strip_prefix-append (cur_dir ∷ bs) cs = strip_prefix-append bs cs
strip_prefix-append (parent_dir ∷ bs) cs = strip_prefix-append bs cs
strip_prefix-append (normal w ∷ bs) cs = rw (same_refl w) (strip_prefix-append bs cs)

body-parts : (ws : List Str) → All IsPart ws → body ws ≡ map normal ws
unfolding body parse_component
body-parts [] h = refl
body-parts (w ∷ ws) h =
    rw (h.0.nonempty, h.0.not_dot, h.0.not_dot_dot) (ap (◌∷◌ (normal w)) (body-parts ws h.1))

normal_parts-map : (ws : List Str) → normal_parts (map normal ws) ≡ ok ws
unfolding normal_parts
normal_parts-map [] = refl
normal_parts-map (w ∷ ws) = rw (normal_parts-map ws) refl

join_path-absolute :
    (mount name : Str) → is_absolute mount ≡ true → is_absolute (join_path mount name) ≡ true
unfolding join_path
join_path-absolute [] name h = cc
join_path-absolute (c ∷ s) name h = elim (Bool-cases (ends_with_slash (c ∷ s))) [
  | inl ends ↦ rw ends h
  | inr bare ↦ rw bare h
]

no_slashes : (ws : List Str) → All IsPart ws → All (NoByte slash) ws
no_slashes ws h = All-map (λ w part. part.no_slash) ws h

-- The path that a promise, or a file in it, has below an absolute mount resolves to the promise
-- and to the path in it, once commits are accepted; the names are such as a normal path may
-- have, and the mount may end with a slash.
pub resolve-join_path :
    (mount promise_id : Str) (parts : List Str)
    → is_absolute mount ≡ true
    → All IsPart (promise_id ∷ parts)
    → resolve_visible_path (commit_ready mount) (join_path mount (join (promise_id ∷ parts)))
      ≡ ok (promise_id, join parts)
unfolding resolve_visible_path commit_ready
resolve-join_path mount promise_id parts h all =
    let names = promise_id ∷ parts in
    let pieces : body (split (join names)) ≡ map normal names =
      ap body (split-join promise_id parts (no_slashes names all)) ∙ body-parts names all in
    let whole : components (join_path mount (join names)) ≡ components mount ++ map normal names =
      components-join_path mount (join names) h ∙ ap (λ l. components mount ++ l) pieces in
    let found : strip_prefix (components mount) (components (join_path mount (join names)))
        ≡ some (map normal names) =
      ap (strip_prefix (components mount)) whole
      ∙ strip_prefix-append (components mount) (map normal names) in
    rw (join_path-absolute mount (join names) h, found, normal_parts-map parts) refl
