-- ===== src/Node.antt =====
-- The data of crates/fuse-promise-runtime/src/lib.rs: nodes, trees, providers, plans, policies.
pub mod Subtree
pub mod Total
use fuse_promise.Base.{
  ℕ, ◌*◌, ◌/◌, Bool, true, false, ◌&&◌, not, Option, none, some, List, ltb, ◌==◌, Str, BTreeMap,
  BTreeSet, lookup, str_key, if◌then◌else◌,
}
use fuse_promise.Status.{Result, ok, err, invalid_argument, ◌>>◌, refuse}
use fuse_promise.Path.{normalize_relative_path}

-- An `i64`: `negsuc n` is -(n + 1).
pub data ℤ : Type 0 where
  pos : ℕ → ℤ
  negsuc : ℕ → ℤ

abbrev pub is_negative : ℤ → Bool
is_negative (pos n) = false
is_negative (negsuc n) = true

-- `ProviderId` and `NodeId` wrap a `u64`; a raw 0 is no provider.
abbrev pub ProviderId : Type 0
ProviderId = ℕ

abbrev pub NodeId : Type 0
NodeId = ℕ

unfoldable pub from_raw : ℕ → Option ProviderId
from_raw raw = if raw == 0 then none else some raw

pub data ProviderState : Type 0 where
  live disconnected : ProviderState

pub record ProviderSession : Type 0 where
  pub id : ProviderId
  pub state : ProviderState

pub data NodeKind : Type 0 where
  file directory : NodeKind

abbrev pub is_file : NodeKind → Bool
is_file file = true
is_file directory = false

abbrev pub is_directory : NodeKind → Bool
is_directory kind = not (is_file kind)

pub record NodeAttr : Type 0 where
  pub mode : ℕ
  pub size : ℕ
  pub mtime_nsec : ℤ

pub data PromiseState : Type 0 where
  available provider_gone_state materialized : PromiseState

abbrev pub is_available : PromiseState → Bool
is_available available = true
is_available provider_gone_state = false
is_available materialized = false

pub data CachePolicy : Type 0 where
  no_cache : CachePolicy
  read_through : ℕ → CachePolicy

abbrev pub is_no_cache : CachePolicy → Bool
is_no_cache no_cache = true
is_no_cache (read_through chunk_size) = false

unfoldable pub chunk_size_of : CachePolicy → Option ℕ
chunk_size_of no_cache = none
chunk_size_of (read_through chunk_size) = if ltb 0 chunk_size then some chunk_size else none

unfoldable pub validated : CachePolicy → Result CachePolicy
validated no_cache = ok no_cache
validated (read_through chunk_size) =
    if ltb 0 chunk_size then ok (read_through chunk_size) else err invalid_argument

pub record PromiseNode : Type 0 where
  pub node_id : NodeId
  pub inode : ℕ
  pub relative_path : Str
  pub parent_path : Option Str
  pub name : Str
  pub provider_node_id : Str
  pub materialized_path : Option Str
  pub kind : NodeKind
  pub attr : NodeAttr

pub record PromiseTree : Type 0 where
  pub promise_id : Str
  pub provider_id : ProviderId
  pub state : PromiseState
  pub nodes : BTreeMap Str PromiseNode
  pub children : BTreeMap Str (BTreeSet Str)

-- `PromiseTree::get`.
unfoldable pub get : PromiseTree → Str → Option PromiseNode
get tree relative_path = elim (normalize_relative_path relative_path) [
  | ok path ↦ lookup path tree.nodes
  | err e ↦ none
]

pub record ProviderReadPlan : Type 0 where
  pub provider_id : ProviderId
  pub promise_id : Str
  pub relative_path : Str
  pub provider_node_id : Str
  pub offset : ℕ
  pub length : ℕ

pub record CoalescedProviderReadPlan : Type 0 where
  pub provider : ProviderReadPlan
  pub response_offset : ℕ
  pub response_length : ℕ

pub record MaterializedReadPlan : Type 0 where
  pub path : Str
  pub offset : ℕ
  pub length : ℕ

pub data ReadPlan : Type 0 where
  request : ProviderReadPlan → ReadPlan
  materialized_plan : MaterializedReadPlan → ReadPlan
  cached : List ℕ → ReadPlan
  eof : ReadPlan

pub data RuntimeEntry : Type 0 where
  mount_root : RuntimeEntry
  promise_node : Str → PromiseNode → RuntimeEntry

abbrev pub fuse_root_inode : ℕ
fuse_root_inode = 1

unfoldable pub entry_inode : RuntimeEntry → ℕ
entry_inode mount_root = fuse_root_inode
entry_inode (promise_node promise_id node) = node.inode

unfoldable pub entry_kind : RuntimeEntry → NodeKind
entry_kind mount_root = directory
entry_kind (promise_node promise_id node) = node.kind

pub record DirectoryEntry : Type 0 where
  pub name : Str
  pub inode : ℕ
  pub kind : NodeKind

-- `mode & !0o7777`: the bits above the low twelve.
abbrev pub high_bits : ℕ → ℕ
high_bits mode = mode / 4096 * 4096

unfoldable pub validate_attr : NodeKind → NodeAttr → Result (Unit {0})
validate_attr kind attr = do
  refuse (not (high_bits attr.mode == 0)) invalid_argument
  refuse (is_negative attr.mtime_nsec) invalid_argument
  refuse (is_directory kind && not (attr.size == 0)) invalid_argument
  ok tt
