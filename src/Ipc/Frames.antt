-- ===== src/Ipc/Frames.antt =====
-- `read_frame` and `write_frame`: a length in four bytes, little end first, and a body. The body is
-- encoded by the `bincode` library, which is a parameter.
use fuse_promise.Base.{
  ℕ, ◌+◌, ◌*◌, ◌/◌, ◌%◌, ◌≡◌, not, Option, none, some, List, [], ◌∷◌, ◌++◌, ◌==◌, length, take,
  drop, ltb, leb, if◌then◌else◌,
}
use fuse_promise.Ipc.Message.{unexpected_eof, IoResult, done, fail, ◌>>=◌, ◌>>◌, reject}

abbrev pub max_frame_len : ℕ
max_frame_len = 1024 * 1024

-- The codec of a type of messages. Decoding also tells how many bytes it took.
pub record Codec (A : Type 0) : Type 0 where
  pub encode : A → IoResult (List ℕ)
  pub decode : List ℕ → IoResult (A × ℕ)

-- What the daemon relies on: what is encoded is decoded, to the last byte.
pub record IsLawful {A : Type 0} (codec : Codec A) : Type 0 where
  pub decode-encode :
      (a : A) (bytes : List ℕ)
      → codec.encode a ≡ done bytes
      → codec.decode bytes ≡ done (a, length bytes)

-- `u32::to_le_bytes` and `from_le_bytes`.
unfoldable pub to_le_bytes : ℕ → List ℕ
to_le_bytes n = (n % 256) ∷ (n / 256 % 256) ∷ (n / 65536 % 256) ∷ (n / 16777216 % 256) ∷ []

unfoldable pub from_le_bytes : ℕ → ℕ → ℕ → ℕ → ℕ
from_le_bytes a b c d = a + b * 256 + c * 65536 + d * 16777216

-- `read_exact`: the bytes and the rest of the stream, or the end of the stream.
unfoldable pub read_exact : ℕ → List ℕ → IoResult (List ℕ × List ℕ)
read_exact count stream =
    if leb count (length stream)
    then done (take count stream, drop count stream)
    else fail unexpected_eof

module _ {A : Type 0} (codec : Codec A) where
  -- What is appended to the stream.
  unfoldable pub write_frame : A → IoResult (List ℕ)
  unfolding to_le_bytes
  write_frame message = do
    body ← codec.encode message
    reject (ltb max_frame_len (length body))
    done (to_le_bytes (length body) ++ body)

  abbrev pub decode_body : List ℕ × List ℕ → IoResult (Option A × List ℕ)
  decode_body (body, stream) = do
    (message, bytes_read) ← codec.decode body
    reject (not (bytes_read == length body))
    done (some message, stream)

  -- An empty stream is a clean end.
  unfoldable pub read_frame : List ℕ → IoResult (Option A × List ℕ)
  unfolding read_exact from_le_bytes
  read_frame [] = done (none, [])
  read_frame (a ∷ b ∷ c ∷ d ∷ stream) = do
    reject (ltb max_frame_len (from_le_bytes a b c d))
    parts ← read_exact (from_le_bytes a b c d) stream
    decode_body parts
  read_frame _ = fail unexpected_eof
