-- ===== src/Ipc/Disconnect.antt =====
-- `disconnect_provider_id` and the end of a connection: what is left of its providers.
use fuse_promise.Base.{
  ℕ, ◌≡◌, ap, ◌∙◌, ◌<◌, true, false, none, some, List, [], ◌∷◌, ◌==◌, ==_iff, All, BTreeMap, lookup,
  remove, ℕ_key, Bool-cases, Option-cases, inl, inr, arith, if◌then◌else◌, lookup-remove, same_refl,
}
use fuse_promise.Node.{ProviderId, from_raw}
use fuse_promise.RuntimeDir.{Environment}
use fuse_promise.Runtime.{has_provider}
use fuse_promise.Ipc.Message.{MaterializeBody}
use fuse_promise.Ipc.State.{
  IpcState, PendingRead, ProviderRoute, owns, pending_of_others, fail_provider_pending_reads,
  disconnect_provider_id,
}
use fuse_promise.Ipc.Session.{
  Outcome, new_session, Event, run, disconnect_registered_providers, handle_client,
}
use fuse_promise.Runtime.Providers.{gone_lem, gone_stays}

-- None of the pending reads is the provider's.
abbrev pub IsNotPending : ℕ → BTreeMap ℕ PendingRead → Type 0
IsNotPending provider_id = All (λ entry. (entry.1.provider_id == provider_id) ≡ false)

-- Nothing of the provider is left: it is not live, has no route, and no read waits for it.
pub record IsGone (provider_id : ℕ) (st : IpcState) : Type 0 where
  pub not_live : has_provider st.runtime provider_id ≡ false
  pub no_route : lookup provider_id st.provider_routes ≡ none
  pub no_read : IsNotPending provider_id st.pending_reads

pending_of_others_lem :
    (provider_id : ℕ) (m : BTreeMap ℕ PendingRead)
    → IsNotPending provider_id (pending_of_others provider_id m)
unfolding pending_of_others
pending_of_others_lem provider_id [] = tt
pending_of_others_lem provider_id ((id, pending) ∷ m) =
    elim (Bool-cases (pending.provider_id == provider_id)) [
      | inl own ↦ rw own (pending_of_others_lem provider_id m)
      | inr other ↦ rw other (other, pending_of_others_lem provider_id m)
    ]

pending_of_others_keeps :
    (provider_id other_id : ℕ) (m : BTreeMap ℕ PendingRead)
    → IsNotPending provider_id m
    → IsNotPending provider_id (pending_of_others other_id m)
unfolding pending_of_others
pending_of_others_keeps provider_id other_id [] h = tt
pending_of_others_keeps provider_id other_id ((id, pending) ∷ m) h =
    elim (Bool-cases (pending.provider_id == other_id)) [
      | inl own ↦ rw own (pending_of_others_keeps provider_id other_id m h.1)
      | inr other ↦ rw other (h.0, pending_of_others_keeps provider_id other_id m h.1)
    ]

from_raw_lem : (raw : ℕ) → 0 < raw → from_raw raw ≡ some raw
unfolding from_raw
from_raw_lem raw h = ground arith

removed_lem :
    (id other_id : ℕ) (m : BTreeMap ℕ ProviderRoute)
    → lookup id m ≡ none
    → lookup id (remove other_id m) ≡ none
removed_lem id other_id m h = lookup-remove other_id id m ∙ ground arith

-- Disconnecting a provider with a nonzero id leaves nothing of it, whatever the state was: it
-- is not live, has no route, and no read waits for it.
pub disconnect_provider_id-IsGone :
    (provider_id : ℕ) (st : IpcState)
    → 0 < provider_id
    → IsGone provider_id (disconnect_provider_id provider_id st)
unfolding disconnect_provider_id fail_provider_pending_reads
disconnect_provider_id-IsGone provider_id st positive =
    rw (from_raw_lem provider_id positive, disconnect_provider_id)
      (record {
        not_live = gone_lem provider_id st.runtime;
        no_route =
            lookup-remove provider_id provider_id st.provider_routes
            ∙ ap (λ b. if b then none else lookup provider_id st.provider_routes)
                (same_refl provider_id);
        no_read = pending_of_others_lem provider_id st.pending_reads;
      })

disconnect_provider_id-keeps :
    (provider_id other_id : ℕ) (st : IpcState)
    → IsGone provider_id st
    → IsGone provider_id (disconnect_provider_id other_id st)
unfolding disconnect_provider_id fail_provider_pending_reads
disconnect_provider_id-keeps provider_id other_id st h = elim (Option-cases (from_raw other_id)) [
  | inl zero_id ↦
      rw (zero_id, disconnect_provider_id)
        (record {
          not_live = h.not_live;
          no_route = removed_lem provider_id other_id st.provider_routes h.no_route;
          no_read = h.no_read;
        })
  | inr (id, nonzero) ↦
      rw (nonzero, disconnect_provider_id)
        (record {
          not_live = gone_stays provider_id id st.runtime h.not_live;
          no_route = removed_lem provider_id other_id st.provider_routes h.no_route;
          no_read = pending_of_others_keeps provider_id other_id st.pending_reads h.no_read;
        })
]

disconnected_stays :
    (ids : List ProviderId) (provider_id : ℕ) (st : IpcState)
    → IsGone provider_id st
    → IsGone provider_id (disconnect_registered_providers ids st)
unfolding disconnect_registered_providers
disconnected_stays [] provider_id st h = h
disconnected_stays (id ∷ ids) provider_id st h =
    disconnected_stays ids provider_id (disconnect_provider_id id st)
      (disconnect_provider_id-keeps provider_id id st h)

all_disconnected :
    (ids : List ProviderId) (provider_id : ℕ) (st : IpcState)
    → 0 < provider_id
    → owns provider_id ids ≡ true
    → IsGone provider_id (disconnect_registered_providers ids st)
unfolding disconnect_registered_providers owns
all_disconnected [] provider_id st positive h = cc
all_disconnected (id ∷ ids) provider_id st positive h = elim (Bool-cases (id == provider_id)) [
  | inl here ↦
      let same_id : id ≡ provider_id = (==_iff id provider_id).0 here in
      disconnected_stays ids provider_id (disconnect_provider_id id st)
        (rw same_id (disconnect_provider_id-IsGone provider_id st positive))
  | inr other ↦
      all_disconnected ids provider_id (disconnect_provider_id id st) positive (ground arith)
]

-- However a connection ends, a nonzero provider id that the connection has registered at its
-- end is no longer live, has no route, and has no pending read.
pub handle_client-IsGone :
    (env : Environment) (handle_materialize : MaterializeBody → IpcState → IpcState × Outcome)
    (events : List Event) (st : IpcState) (provider_id : ℕ)
    → 0 < provider_id
    → owns provider_id (run env handle_materialize events new_session st).1.registered ≡ true
    → IsGone provider_id (handle_client env handle_materialize events st)
unfolding handle_client
handle_client-IsGone env handle_materialize events st provider_id positive h =
    all_disconnected (run env handle_materialize events new_session st).1.registered provider_id
      (run env handle_materialize events new_session st).0 positive h
