-- ===== src/Ipc/Waiting.antt =====
-- The wait of `route_provider_read`: what the steps of other connections leave of the pending read, and
-- which messages they send to the reader.
use fuse_promise.Base.{
  ℕ, ◌≡◌, ◌≢◌, refl, true, none, some, List, [], ◌∷◌, ◌++◌, ◌==◌, ==_iff, lookup, ℕ_key, Bool-cases,
  inl, inr, ◌⊎◌, All, BTreeMap,
}
use fuse_promise.Ipc.Message.{
  IoResult, done, fail, ErrorKind, ProviderReadRequest, ProviderReadResponse, from_body, validate,
}
use fuse_promise.Ipc.State.{IpcState, PendingRead, pending_of_others}
use fuse_promise.Ipc.Route.{Step, answers, disconnects, starts, gives_up, changes}
use fuse_promise.Ipc.Delivery.{IsDelivery, valid_cases}

pub from_body_cases :
    (body : ProviderReadResponse)
    → (from_body body ≡ done body) ⊎ ((e : ErrorKind) × (from_body body ≡ fail e))
unfolding from_body
from_body_cases body = elim (valid_cases (validate body)) [
  | inl valid ↦ inl (rw (valid, from_body) refl)
  | inr (e, invalid) ↦ inr (e, rw (invalid, from_body) refl)
]

module _ (request : ProviderReadRequest) where
  -- A connection that has registered the provider of the request answers with the response, and the
  -- response has the id of the request and fits it.
  abbrev pub IsAnswer : ProviderReadResponse → Step → Type 0
  IsAnswer response (answers registered body) =
      (body ≡ response)
      × IsDelivery registered (record { provider_id = request.provider_id; request = request })
          response
  IsAnswer response (disconnects provider_id) = ⊥
  IsAnswer response (starts other written) = ⊥
  IsAnswer response (gives_up request_id) = ⊥
  IsAnswer response (changes runtime routes) = ⊥

  -- The step starts no read under the same id.
  abbrev pub IsOther : Step → Type 0
  IsOther (starts other written) = other.request_id ≢ request.request_id
  IsOther (answers registered body) = Unit {0}
  IsOther (disconnects provider_id) = Unit {0}
  IsOther (gives_up request_id) = Unit {0}
  IsOther (changes runtime routes) = Unit {0}

  abbrev pub IsOwn : ℕ × PendingRead → Type 0
  IsOwn (id, pending) =
      id ≡ request.request_id
      → pending ≡ record { provider_id = request.provider_id; request = request }

  pub free_lem : (m : BTreeMap ℕ PendingRead) → lookup request.request_id m ≡ none → All IsOwn m
  unfolding lookup
  free_lem [] free = tt
  free_lem ((id, pending) ∷ m) free = elim (Bool-cases (id == request.request_id)) [
    | inl hit ↦ let found : some pending ≡ none = rw hit at free in cc
    | inr miss ↦ (
      (λ same.
          let hit : (id == request.request_id) ≡ true = (==_iff id request.request_id).1 same in
          cc),
      free_lem m (rw miss at free),
    )
  ]

  pub others_lem :
      (provider_id : ℕ) (m : BTreeMap ℕ PendingRead)
      → All IsOwn m
      → All IsOwn (pending_of_others provider_id m)
  unfolding pending_of_others
  others_lem provider_id [] h = tt
  others_lem provider_id ((id, pending) ∷ m) h =
      elim (Bool-cases (pending.provider_id == provider_id)) [
        | inl e ↦ rw e (others_lem provider_id m h.1)
        | inr e ↦ rw e (h.0, others_lem provider_id m h.1)
      ]

  module _ (Q : ProviderReadResponse → Type 0) where
    -- What the step may answer satisfies `Q`.
    abbrev pub IsSource : Step → Type 0
    IsSource step =
        IsOther step × ((response : ProviderReadResponse) → IsAnswer response step → Q response)

    abbrev pub IsGood : IoResult ProviderReadResponse → Type 0
    IsGood (done response) = Q response
    IsGood (fail e) = Unit {0}

    abbrev pub IsMessage : ℕ × IoResult ProviderReadResponse → Type 0
    IsMessage (id, message) = id ≡ request.request_id → IsGood message

    -- The state during the wait: the messages since `earlier` for the reader are good.
    pub record IsWaiting (earlier : List (ℕ × IoResult ProviderReadResponse)) (st : IpcState)
        : Type 0 where
      pub later : List (ℕ × IoResult ProviderReadResponse)
      pub sent_lem : st.sent ≡ earlier ++ later
      pub good : All IsMessage later
      pub own : All IsOwn st.pending_reads
