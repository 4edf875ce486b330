-- ===== src/Ipc/Framing.antt =====
-- What is written as a frame is read back, and what is cut short is not.
use fuse_promise.Base.{
  ℕ, zero, suc, ◌/◌, ◌%◌, ◌≤◌, ◌<◌, ◌≡◌, refl, true, false, some, List, ◌++◌, ◌==◌, length, take,
  length-append, length-take, take-append_self, drop-append_self, ltb, leb, arith, le→leb,
}
use fuse_promise.Ipc.Message.{unexpected_eof, IoResult, done, fail, ◌>>=◌, reject}
use fuse_promise.Ipc.Frames.{
  max_frame_len, Codec, IsLawful, to_le_bytes, from_le_bytes, read_exact, write_frame, read_frame,
}

from-to_le_bytes :
    (n : ℕ)
    → n ≤ max_frame_len
    → from_le_bytes (n % 256) (n / 256 % 256) (n / 65536 % 256) (n / 16777216 % 256) ≡ n
unfolding from_le_bytes
from-to_le_bytes n h = omega arith

bind-eq-done :
    {A B : Type 0} (first : IoResult A) (rest : A → IoResult B) {b : B}
    → (first >>= rest) ≡ done b
    → (a : A) × (first ≡ done a) × (rest a ≡ done b)
bind-eq-done (fail kind) rest h = cc
bind-eq-done (done value) rest h = (value, refl, h)

not_longer : (n : ℕ) {u : Unit {0}} → reject (ltb max_frame_len n) ≡ done u → n ≤ max_frame_len
not_longer n h = ground arith

module _ {A : Type 0} (codec : Codec A) where
  -- The parts of a frame.
  written :
      (message : A) (bytes : List ℕ)
      → write_frame codec message ≡ done bytes
      → (body : List ℕ) × (codec.encode message ≡ done body)
        × (length body ≤ max_frame_len)
        × (bytes ≡ to_le_bytes (length body) ++ body)
  unfolding write_frame
  written message bytes h =
      let (body, encoded, h1) = bind-eq-done (codec.encode message) _ h in
      let (u, short, h2) = bind-eq-done (reject (ltb max_frame_len (length body))) _ h1 in
      (body, encoded, not_longer (length body) short, cc)

  exact : (body rest : List ℕ) → read_exact (length body) (body ++ rest) ≡ done (body, rest)
  unfolding read_exact
  exact body rest =
      let enough : leb (length body) (length (body ++ rest)) ≡ true =
        le→leb _ _ (omega (arith, length-append body rest)) in
      rw (enough, take-append_self body rest, drop-append_self body rest) refl

  -- A frame that was written is read back as its message, and what follows it in the stream is
  -- left; the codec decodes what it has encoded, to the last byte.
  pub read-write_frame :
      (message : A) (bytes rest : List ℕ)
      → IsLawful codec
      → write_frame codec message ≡ done bytes
      → read_frame codec (bytes ++ rest) ≡ done (some message, rest)
  unfolding read_frame to_le_bytes
  read-write_frame message bytes rest lawful h =
      let (body, encoded, small, frame) = written message bytes h in
      let n : ℕ = length body in
      let size = from-to_le_bytes n small in
      let fits : ltb max_frame_len n ≡ false = ground arith in
      let all : (n == n) ≡ true = ground arith in
      rw
        (
          frame,
          to_le_bytes,
          read_frame,
          size,
          fits,
          exact body rest,
          lawful.decode-encode message body encoded,
          all,
        )
        refl

  -- A stream that ends within a frame, behind its first byte, is an unexpected end, and not the
  -- clean end that an empty stream is.
  pub read_frame_truncated :
      (message : A) (bytes : List ℕ) (count : ℕ)
      → write_frame codec message ≡ done bytes
      → 0 < count
      → count < length bytes
      → read_frame codec (take count bytes) ≡ fail unexpected_eof
  unfolding read_frame to_le_bytes read_exact
  read_frame_truncated message bytes zero h positive less = absurd (omega arith)
  read_frame_truncated message bytes (suc zero) h positive less =
      let (body, encoded, small, frame) = written message bytes h in
      rw (frame, to_le_bytes, read_frame) refl
  read_frame_truncated message bytes (suc (suc zero)) h positive less =
      let (body, encoded, small, frame) = written message bytes h in
      rw (frame, to_le_bytes, read_frame) refl
  read_frame_truncated message bytes (suc (suc (suc zero))) h positive less =
      let (body, encoded, small, frame) = written message bytes h in
      rw (frame, to_le_bytes, read_frame) refl
  read_frame_truncated message bytes (suc (suc (suc (suc count)))) h positive less =
      let (body, encoded, small, frame) = written message bytes h in
      let n : ℕ = length body in
      let size = from-to_le_bytes n small in
      let fits : ltb max_frame_len n ≡ false = ground arith in
      let total : length bytes ≡ suc (suc (suc (suc n))) = rw frame refl in
      let short : leb n (length (take count body)) ≡ false =
        ground (arith, length-take count body) in
      rw (frame, to_le_bytes, read_frame, size, fits, read_exact, short) refl
