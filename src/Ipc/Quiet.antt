-- ===== src/Ipc/Quiet.antt =====
-- Steps of other connections that are not about a waiting reader.
use fuse_promise.Base.{
  ℕ, ◌≡◌, ◌≢◌, refl, ap, sym, ◌∙◌, false, none, some, [], ◌∷◌, ◌++◌, ◌==◌, ==_iff, lookup, ℕ_key,
  BTreeMap, All, Bool-cases, inl, inr, arith,
}
use fuse_promise.Ipc.Message.{
  IoResult, done, fail, ProviderReadRequest, ErrorKind, into_body, ◌>>=◌, ◌>>◌, validate_nonzero,
  validate_relative_path, validate_provider_id, validate_token, validate_read_range,
}
use fuse_promise.Ipc.State.{IpcState, PendingRead, failures_of, pending_of_others}
use fuse_promise.Ipc.Route.{Step, answers, disconnects, starts, gives_up, changes, received}
use fuse_promise.Ipc.Growing.{Messages}
use fuse_promise.Ipc.Waiting.{IsOwn}

pub received-append :
    (id : ℕ) (xs ys : Messages) → received id xs ≡ none → received id (xs ++ ys) ≡ received id ys
unfolding received
received-append id [] ys h = refl
received-append id ((i, message) ∷ xs) ys h = elim (Bool-cases (i == id)) [
  | inl hit ↦ let found : some message ≡ none = rw hit at h in cc
  | inr miss ↦ rw miss (received-append id xs ys (rw miss at h))
]

-- A chain of checks that ends well has passed the first one.
checks_lem :
    {A B : Type 0} (r : IoResult A) (r1 r2 r3 r4 r5 : IoResult (Unit {0})) (f : A → B) {b : B}
    → (do a ← r; r1; r2; r3; r4; r5; done (f a)) ≡ done b
    → (a : A) × (r1 ≡ done tt) × (f a ≡ b)
checks_lem (fail e) r1 r2 r3 r4 r5 f h = cc
checks_lem (done a) (fail e) r2 r3 r4 r5 f h = cc
checks_lem (done a) (done u) (fail e) r3 r4 r5 f h = cc
checks_lem (done a) (done u) (done u2) (fail e) r4 r5 f h = cc
checks_lem (done a) (done u) (done u2) (done u3) (fail e) r5 f h = cc
checks_lem (done a) (done u) (done u2) (done u3) (done u4) (fail e) f h = cc
checks_lem (done a) (done u) (done u2) (done u3) (done u4) (done u5) f h = (a, refl, cc)

pub into_body-keeps :
    (request body : ProviderReadRequest)
    → into_body request ≡ done body
    → (body.request_id ≡ request.request_id)
      × (body.provider_id ≡ request.provider_id)
      × (request.request_id ≢ 0)
unfolding into_body validate_nonzero
into_body-keeps request body h =
    let (path, nonzero, same) =
      checks_lem (validate_relative_path request.relative_path)
        (validate_nonzero request.request_id) (validate_provider_id request.provider_id)
        (validate_token request.promise_id) (validate_token request.provider_node_id)
        (validate_read_range request.offset request.length)
        (λ path. record request { relative_path = path }) h in
    (sym (ap (λ r. r.request_id) same), sym (ap (λ r. r.provider_id) same), ground arith)

module _ (request : ProviderReadRequest) where
  abbrev pub own_pending : PendingRead
  own_pending = record { provider_id = request.provider_id; request = request }

  -- The step is about other reads and other providers.
  abbrev pub IsQuiet : Step → Type 0
  IsQuiet (answers registered body) = body.request_id ≢ request.request_id
  IsQuiet (disconnects provider_id) = provider_id ≢ request.provider_id
  IsQuiet (starts other (done u)) = other.request_id ≢ request.request_id
  IsQuiet (starts other (fail e)) =
      (other.request_id ≢ request.request_id) × (other.provider_id ≢ request.provider_id)
  IsQuiet (gives_up request_id) = request_id ≢ request.request_id
  IsQuiet (changes runtime routes) = Unit {0}

  pub record IsUnanswered (earlier : Messages) (st : IpcState) : Type 0 where
    pub later : Messages
    pub sent_lem : st.sent ≡ earlier ++ later
    pub silent : received request.request_id later ≡ none
    pub own : All (IsOwn request) st.pending_reads
    pub pending : lookup request.request_id st.pending_reads ≡ some own_pending

  pub miss_lem : (id : ℕ) → id ≢ request.request_id → (id == request.request_id) ≡ false
  miss_lem id h = ground (arith, ==_iff id request.request_id)

  pub failures_silent :
      (provider_id : ℕ) (kind : ErrorKind) (m : BTreeMap ℕ PendingRead)
      → provider_id ≢ request.provider_id
      → All (IsOwn request) m
      → received request.request_id (failures_of provider_id kind m) ≡ none
  unfolding received failures_of
  failures_silent provider_id kind [] differs h = refl
  failures_silent provider_id kind ((id, pending) ∷ m) differs h =
      elim (Bool-cases (pending.provider_id == provider_id)) [
        | inr other ↦ rw other (failures_silent provider_id kind m differs h.1)
        | inl same ↦
            let elsewhere : id ≢ request.request_id = λ e. differs (
              sym ((==_iff pending.provider_id provider_id).0 same)
              ∙ ap (λ p. p.provider_id) (h.0 e)) in
            rw (same, miss_lem id elsewhere) (failures_silent provider_id kind m differs h.1)
      ]

  pub others_pending :
      (provider_id : ℕ) (m : BTreeMap ℕ PendingRead)
      → provider_id ≢ request.provider_id
      → lookup request.request_id m ≡ some own_pending
      → lookup request.request_id (pending_of_others provider_id m) ≡ some own_pending
  unfolding lookup pending_of_others
  others_pending provider_id [] differs h = cc
  others_pending provider_id ((id, pending) ∷ m) differs h =
      elim (Bool-cases (id == request.request_id)) [
        | inl hit ↦
            let found : some pending ≡ some own_pending = rw hit at h in
            let own : pending ≡ own_pending = cc in
            let other : (pending.provider_id == provider_id) ≡ false =
              ground (arith, ap (λ p. p.provider_id) own) in
            rw (other, hit) found
        | inr miss ↦ elim (Bool-cases (pending.provider_id == provider_id)) [
          | inl same ↦ rw same (others_pending provider_id m differs (rw miss at h))
          | inr other ↦ rw (other, miss) (others_pending provider_id m differs (rw miss at h))
        ]
      ]
