-- ===== src/Ipc/Delivery.antt =====
-- What `complete_provider_read` delivers.
use fuse_promise.Base.{
  ℕ, ◌≡◌, refl, BTreeMap, ap, sym, ◌∙◌, ◌≤◌, true, false, none, some, List, [], ◌∷◌, ◌++◌, lookup,
  remove, ℕ_key, Bool-cases, Option-cases, inl, inr, ◌⊎◌, arith, if◌then◌else◌, lookup-remove,
  same_refl, length,
}
use fuse_promise.Node.{ProviderId}
use fuse_promise.Ipc.Message.{
  IoResult, done, fail, ErrorKind, ProviderReadResponse, is_read_ok, nonempty,
  max_provider_read_len, from_body, validate_nonzero, validate,
  validate_provider_read_response_for_request, permission_denied, invalid_data,
}
use fuse_promise.Ipc.State.{
  IpcState, PendingRead, owns, read_result, answer_pending, complete_provider_read,
}

-- What a response that reaches the reader went through.
pub record IsDelivery (registered : List ProviderId) (pending : PendingRead)
    (response : ProviderReadResponse) : Type 0 where
  pub owner : owns pending.provider_id registered ≡ true
  pub same_id : response.request_id ≡ pending.request.request_id
  pub bounded : length response.bytes ≤ max_provider_read_len
  pub fits :
      ((is_read_ok response.status ≡ true) × (length response.bytes ≤ pending.request.length))
      ⊎ ((is_read_ok response.status ≡ false) × (response.bytes ≡ []))

empty_lem : (bytes : List ℕ) → nonempty bytes ≡ false → bytes ≡ []
empty_lem [] h = refl
empty_lem (b ∷ bs) h = cc

pub valid_cases : (r : IoResult (Unit {0})) → (r ≡ done tt) ⊎ ((e : ErrorKind) × (r ≡ fail e))
valid_cases (done u) = inl refl
valid_cases (fail e) = inr (e, refl)

delivered :
    (registered : List ProviderId) (pending : PendingRead) (body : ProviderReadResponse)
    → owns pending.provider_id registered ≡ true
    → validate_provider_read_response_for_request pending.request body ≡ done tt
    → IsDelivery registered pending body
unfolding validate_provider_read_response_for_request validate validate_nonzero
delivered registered pending body owner h = record {
  owner = owner;
  same_id = ground arith;
  bounded = ground arith;
  fits = elim (Bool-cases (is_read_ok body.status)) [
    | inl good ↦ inl (good, ground arith)
    | inr bad ↦ inr (bad, empty_lem body.bytes (ground arith))
  ];
}

pub delivery_lem :
    (registered : List ProviderId) (pending : PendingRead) (body : ProviderReadResponse)
    → ((read_result registered pending body ≡ done body) × IsDelivery registered pending body)
      ⊎ ((e : ErrorKind) × (read_result registered pending body ≡ fail e))
unfolding read_result
delivery_lem registered pending body = elim (Bool-cases (owns pending.provider_id registered)) [
  | inr stranger ↦ inr (permission_denied, rw stranger refl)
  | inl owner ↦
      elim (valid_cases (validate_provider_read_response_for_request pending.request body)) [
        | inl valid ↦ inl (rw (owner, valid) refl, delivered registered pending body owner valid)
        | inr (e, invalid) ↦ inr (e, rw (owner, invalid) refl)
      ]
]

removed_lem : (id : ℕ) (m : BTreeMap ℕ PendingRead) → lookup id (remove id m) ≡ none
removed_lem id m = lookup-remove id id m ∙ ap (λ b. if b then none else lookup id m) (same_refl id)

-- The state once `body` has answered `pending`.
abbrev answered_state : List ProviderId → PendingRead → ProviderReadResponse → IpcState → IpcState
answered_state registered pending body st = record st {
  pending_reads = remove body.request_id st.pending_reads;
  sent = st.sent ++ ((body.request_id, read_result registered pending body) ∷ []);
}

-- A response that is accepted answers a pending read, which is no longer pending then, by
-- exactly one message: the response itself, where the connection owns the provider of the read
-- and the response has the id of the request and fits it, or an error.
pub complete_provider_read-IsDelivery :
    (registered : List ProviderId) (body : ProviderReadResponse) (st st' : IpcState)
    → complete_provider_read registered body st ≡ (st', done tt)
    → (pending : PendingRead) × (r : IoResult ProviderReadResponse) × (lookup body.request_id
          st.pending_reads
        ≡ some pending)
      × (lookup body.request_id st'.pending_reads ≡ none)
      × (st'.sent ≡ st.sent ++ ((body.request_id, r) ∷ []))
      × (st'.runtime ≡ st.runtime)
      × (((r ≡ done body) × IsDelivery registered pending body) ⊎ ((e : ErrorKind) × (r ≡ fail e)))
unfolding complete_provider_read answer_pending from_body
complete_provider_read-IsDelivery registered body st st' h = elim (valid_cases (validate body)) [
  | inr (e, invalid) ↦
      let failed : (complete_provider_read registered body st).1 ≡ fail e =
        rw (invalid, complete_provider_read) refl in
      cc (failed, ap (λ p. p.1) h)
  | inl valid ↦ elim (Option-cases (lookup body.request_id st.pending_reads)) [
    | inl miss ↦
        let failed : (complete_provider_read registered body st).1 ≡ fail invalid_data =
          rw (valid, complete_provider_read, answer_pending, miss) refl in
        cc (failed, ap (λ p. p.1) h)
    | inr (pending, hit) ↦
        let after : st' ≡ answered_state registered pending body st =
          sym (ap (λ p. p.0) h) ∙ rw (valid, complete_provider_read, answer_pending, hit) refl in
        (
          pending,
          read_result registered pending body,
          hit,
          ap (λ s. lookup body.request_id s.pending_reads) after
              ∙ removed_lem body.request_id st.pending_reads,
          ap (λ s. s.sent) after,
          ap (λ s. s.runtime) after,
          delivery_lem registered pending body,
        )
  ]
]
