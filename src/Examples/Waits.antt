-- ===== src/Examples/Waits.antt =====
-- Frames, and a read that waits for its provider.
use fuse_promise.Base.{
  ℕ, ◌≡◌, refl, some, [], ◌∷◌, ◌++◌, List, length, take, lookup, ℕ_key, inl, arith, Any, cmp_str,
}
use fuse_promise.Path.{
  normalize_relative_path, has_byte, collect_parts, components, split, body, parse_component, join,
}
use fuse_promise.Node.{from_raw}
use fuse_promise.Ipc.Message.{
  done, fail, ErrorKind, into_body, validate_nonzero, validate_provider_id, validate_token,
  validate_read_range, validate_relative_path,
}
use fuse_promise.Ipc.State.{IpcState, start_provider_read, send_read_request, after_write, owns}
use fuse_promise.Ipc.Route.{answers, gives_up, Turn, route_provider_read}
use fuse_promise.Ipc.Frames.{Codec, IsLawful, write_frame, read_frame, to_le_bytes}
use fuse_promise.Ipc.Framing.{read-write_frame, read_frame_truncated}
use fuse_promise.Ipc.Delivery.{IsDelivery}
use fuse_promise.Ipc.Waiting.{IsAnswer}
use fuse_promise.Ipc.Routed.{route_provider_read-IsAnswer}
use fuse_promise.Ipc.Quiet.{own_pending}
use fuse_promise.Ipc.Answered.{route_provider_read_answered}
use fuse_promise.Examples.Data.{read_request, read_response, state}

-- Messages that are their own encoding.
abbrev plain : Codec (List ℕ)
plain = record { encode = λ bytes. done bytes; decode = λ bytes. done (bytes, length bytes) }

plain-IsLawful : IsLawful plain
plain-IsLawful = record { decode-encode = λ a bytes h. decoded a bytes h }
  where
    decoded :
        (a bytes : List ℕ)
        → plain.encode a ≡ done bytes
        → plain.decode bytes ≡ done (a, length bytes)
    decoded a bytes h = cc

abbrev frame : List ℕ
frame = 2 ∷ 0 ∷ 0 ∷ 0 ∷ 7 ∷ 8 ∷ []

frame_written : write_frame plain (7 ∷ 8 ∷ []) ≡ done frame
unfolding write_frame to_le_bytes
frame_written = refl

read-write_frame_example : read_frame plain (frame ++ (9 ∷ [])) ≡ done (some (7 ∷ 8 ∷ []), 9 ∷ [])
read-write_frame_example =
    read-write_frame plain (7 ∷ 8 ∷ []) frame (9 ∷ []) plain-IsLawful frame_written

read_frame_truncated_example : read_frame plain (take 5 frame) ≡ fail ErrorKind.unexpected_eof
read_frame_truncated_example =
    read_frame_truncated plain (7 ∷ 8 ∷ []) frame 5 frame_written (omega arith) (omega arith)

-- No read waits yet.
abbrev idle : IpcState
idle = record state { pending_reads = [] }

-- Another wait is given up before the provider answers.
abbrev turn : Turn
turn = record { written = done tt; others = gives_up 3 ∷ answers (1 ∷ []) read_response ∷ [] }

delivery : IsDelivery (1 ∷ []) (own_pending read_request) read_response
unfolding owns
delivery = record {
  owner = refl;
  same_id = refl;
  bounded = omega arith;
  fits = inl (refl, omega arith);
}

idle_started : (start_provider_read read_request (done tt) idle).1 ≡ done tt
unfolding start_provider_read send_read_request after_write into_body normalize_relative_path
    has_byte collect_parts components split body parse_component join validate_nonzero
    validate_provider_id validate_token validate_read_range validate_relative_path from_raw lookup
    cmp_str
idle_started = refl

route_provider_read_answered_example :
    (route_provider_read read_request turn idle).1 ≡ done read_response
route_provider_read_answered_example =
    route_provider_read_answered read_request (1 ∷ []) read_response (gives_up 3 ∷ []) [] idle
      idle_started (omega arith, tt) delivery

routed_example : Any (IsAnswer read_request read_response) turn.others
routed_example =
    route_provider_read-IsAnswer read_request turn idle (tt, (tt, tt))
      route_provider_read_answered_example
