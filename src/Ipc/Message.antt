-- ===== src/Ipc/Message.antt =====
-- The messages of crates/fuse-promise-ipc/src/lib.rs and their validation. The text of an error
-- is left out: an `io::Error` is its kind, an `ErrorBody` its code.
use fuse_promise.Base.{
  ◌≡◌, refl, ◌⊎◌, inl, inr, ℕ, ◌*◌, ◌&&◌, Bool, true, false, not, List, [], ◌∷◌, length, ltb, ◌==◌,
  checked_add, is_some, Str,
}
use fuse_promise.Status.{ok, err}
use fuse_promise.Path.{is_empty, has_byte, normalize_relative_path}
use fuse_promise.Node.{ℤ, NodeKind, from_raw}

pub data ErrorKind : Type 0 where
  not_found permission_denied connection_refused connection_reset broken_pipe : ErrorKind
  already_exists invalid_input invalid_data timed_out interrupted unexpected_eof other : ErrorKind

-- `io::Result`.
pub data IoResult (A : Type 0) : Type 0 where
  done : A → IoResult A
  fail : ErrorKind → IoResult A

infixl 5 ◌>>=◌ ◌>>◌
abbrev pub ◌>>=◌ : {A B : Type 0} → IoResult A → (A → IoResult B) → IoResult B
fail kind >>= rest = fail kind
done value >>= rest = rest value

abbrev pub ◌>>◌ : {B : Type 0} → IoResult (Unit {0}) → IoResult B → IoResult B
check >> rest = check >>= λ passed. rest

abbrev pub reject : Bool → IoResult (Unit {0})
reject true = fail invalid_data
reject false = done tt

abbrev pub max_provider_read_len : ℕ
max_provider_read_len = 256 * 1024

abbrev pub ipc_protocol_version : ℕ
ipc_protocol_version = 1

abbrev pub api_version : ℕ
api_version = 1

pub IoResult-cases :
    {A : Type 0} (r : IoResult A) → ((a : A) × (r ≡ done a)) ⊎ ((e : ErrorKind) × (r ≡ fail e))
IoResult-cases (done a) = inl (a, refl)
IoResult-cases (fail e) = inr (e, refl)

pub data ProviderReadStatus : Type 0 where
  read_ok invalid_argument permission not_found provider_gone io timeout cancelled :
      ProviderReadStatus

abbrev pub is_read_ok : ProviderReadStatus → Bool
is_read_ok read_ok = true
is_read_ok _ = false

pub record ProviderReadRequest : Type 0 where
  pub request_id : ℕ
  pub provider_id : ℕ
  pub promise_id : Str
  pub relative_path : Str
  pub provider_node_id : Str
  pub offset : ℕ
  pub length : ℕ

pub record ProviderReadResponse : Type 0 where
  pub request_id : ℕ
  pub status : ProviderReadStatus
  pub bytes : List ℕ

-- `validate_relative_path`: the normal form, or `InvalidData`.
unfoldable pub validate_relative_path : Str → IoResult Str
validate_relative_path path = elim (normalize_relative_path path) [
  | ok p ↦ done p
  | err e ↦ fail invalid_data
]

unfoldable pub validate_nonzero : ℕ → IoResult (Unit {0})
validate_nonzero value = reject (value == 0)

unfoldable pub validate_provider_id : ℕ → IoResult (Unit {0})
validate_provider_id provider_id = reject (not (is_some (from_raw provider_id)))

unfoldable pub validate_token : Str → IoResult (Unit {0})
validate_token value = do reject (is_empty value); reject (has_byte 0 value)

unfoldable pub validate_read_range : ℕ → ℕ → IoResult (Unit {0})
validate_read_range offset length = do
  reject (length == 0)
  reject (ltb max_provider_read_len length)
  reject (not (is_some (checked_add offset length)))

-- `into_body`: the request with its path in normal form.
unfoldable pub into_body : ProviderReadRequest → IoResult ProviderReadRequest
unfolding validate_relative_path validate_nonzero validate_provider_id validate_token
    validate_read_range
into_body request = do
  path ← validate_relative_path request.relative_path
  validate_nonzero request.request_id
  validate_provider_id request.provider_id
  validate_token request.promise_id
  validate_token request.provider_node_id
  validate_read_range request.offset request.length
  done (record request { relative_path = path })

abbrev pub nonempty : List ℕ → Bool
nonempty [] = false
nonempty (b ∷ bs) = true

-- `ProviderReadResponse::validate`.
unfoldable pub validate : ProviderReadResponse → IoResult (Unit {0})
unfolding validate_nonzero
validate response = do
  validate_nonzero response.request_id
  reject (ltb max_provider_read_len (length response.bytes))
  reject (not (is_read_ok response.status) && nonempty response.bytes)

-- `ProviderReadResponse::from_body`.
unfoldable pub from_body : ProviderReadResponse → IoResult ProviderReadResponse
unfolding validate
from_body response = do validate response; done response

unfoldable pub validate_provider_read_response_for_request :
    ProviderReadRequest → ProviderReadResponse → IoResult (Unit {0})
unfolding validate
validate_provider_read_response_for_request request response = do
  reject (not (response.request_id == request.request_id))
  reject (is_read_ok response.status && ltb request.length (length response.bytes))
  validate response

pub record PromiseNodeBody : Type 0 where
  pub kind : NodeKind
  pub relative_path : Str
  pub provider_node_id : Str
  pub mode : ℕ
  pub size : ℕ
  pub mtime_nsec : ℤ

pub record PromiseCommitBody : Type 0 where
  pub provider_id : ℕ
  pub provider_owner_token : ℕ
  pub nodes : List PromiseNodeBody

pub data ConflictPolicy : Type 0 where
  fail_policy overwrite rename : ConflictPolicy

pub record MaterializeBody : Type 0 where
  pub source_path : Str
  pub target_dir : Str
  pub conflict_policy : ConflictPolicy

pub data Request : Type 0 where
  hello : ℕ → ℕ → Request
  status inspect provider_register : Request
  provider_unregister : ℕ → ℕ → Request
  promise_commit : PromiseCommitBody → Request
  materialize : MaterializeBody → Request
  materialize_continue materialize_cancel : Request
  provider_read_response : ProviderReadResponse → Request

pub data ErrorCode : Type 0 where
  invalid_request version_mismatch unavailable not_found_code already_exists_code : ErrorCode
  provider_gone_code permission_code cancelled_code internal : ErrorCode
