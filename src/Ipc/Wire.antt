-- ===== src/Ipc/Wire.antt =====
-- src/ipc/wire.rs: frames on a byte stream. The stream is the list of the bytes that arrive until
-- its end; `serde_json` is the parameter `Json`. I/O errors other than an early end are left out.
pub mod RoundTrip
use postblox.Common.{
  ℕ, zero, suc, ◌+◌, ◌*◌, ◌/◌, ◌%◌, ◌^◌, Bool, true, false, List, [], ◌∷◌, ◌++◌, Option, none, some,
  Result, ok, err, ◌>>=◌, ◌==◌, ltb, length, if◌then◌else◌,
}
use postblox.Common.Text.{Text}

abbrev pub max_frame_bytes : ℕ
max_frame_bytes = 4 * 1024 * 1024

pub data WireError : Type 0 where
  unexpected_eof : WireError
  frame_too_large : (bytes : ℕ) → WireError
  json : Text → WireError
  empty_payload : WireError
  closed : WireError

-- `u32::to_be_bytes` and `u32::from_be_bytes`
abbrev pub to_be_bytes : ℕ → List ℕ
to_be_bytes n = n / 2 ^ 24 % 256 ∷ (n / 2 ^ 16 % 256 ∷ (n / 2 ^ 8 % 256 ∷ (n % 256 ∷ [])))

abbrev pub from_be_bytes : (b3 b2 b1 b0 : ℕ) → ℕ
from_be_bytes b3 b2 b1 b0 = b3 * 2 ^ 24 + b2 * 2 ^ 16 + b1 * 2 ^ 8 + b0

-- `read_exact` for `n` bytes: what it read, and what is left.
unfoldable pub read_exact : ℕ → List ℕ → Option (List ℕ × List ℕ)
read_exact zero stream = some ([], stream)
read_exact (suc n) [] = none
read_exact (suc n) (b ∷ stream) = elim (read_exact n stream) [
  | none ↦ none
  | some (read, rest) ↦ some (b ∷ read, rest)
]

-- What the program takes of `serde_json` for one type of messages.
pub record Json (T : Type 0) : Type 0 where
  pub to_vec : T → Result Text (List ℕ)
  pub from_slice : List ℕ → Result Text T

module _ {T : Type 0} (json_codec : Json T) where
  open json_codec use {to_vec, from_slice}

  abbrev decoded : Result Text T → List ℕ → Result WireError (T × List ℕ)
  decoded (ok value) rest = ok (value, rest)
  decoded (err e) rest = err (json e)

  abbrev payload_read : Option (List ℕ × List ℕ) → Result WireError (T × List ℕ)
  payload_read none = err unexpected_eof
  payload_read (some (payload, rest)) = decoded (from_slice payload) rest

  unfoldable pub read_payload : (len : ℕ) → List ℕ → Result WireError (T × List ℕ)
  read_payload len stream =
      if len == 0
      then err empty_payload
      else if ltb max_frame_bytes len
      then err (frame_too_large len)
      else payload_read (read_exact len stream)

  -- `read_frame` and `read_frame_with_buf`: a stream that ends within the length is closed.
  unfoldable pub read_frame : List ℕ → Result WireError (T × List ℕ)
  read_frame (b3 ∷ (b2 ∷ (b1 ∷ (b0 ∷ stream)))) = read_payload (from_be_bytes b3 b2 b1 b0) stream
  read_frame _ = err closed

  abbrev framed : Result Text (List ℕ) → Result WireError (List ℕ)
  framed (err e) = err (json e)
  framed (ok payload) =
      if ltb max_frame_bytes (length payload)
      then err (frame_too_large (length payload))
      else ok (to_be_bytes (length payload % 2 ^ 32) ++ payload)

  -- The bytes that are written for a value.
  unfoldable pub write_frame : T → Result WireError (List ℕ)
  write_frame value = framed (to_vec value)

  unfoldable pub write_frames : List T → Result WireError (List ℕ)
  write_frames [] = ok []
  write_frames (value ∷ values) = do
    bytes ← write_frame value
    rest ← write_frames values
    ok (bytes ++ rest)

  abbrev frames_from :
      Result WireError (T × List ℕ)
      → (List ℕ → Result WireError (List T))
      → Result WireError (List T)
  frames_from (err e) more = err e
  frames_from (ok (value, rest)) more = do values ← more rest; ok (value ∷ values)

  -- As many frames as asked for, read one after the other from one stream.
  unfoldable pub read_frames : ℕ → List ℕ → Result WireError (List T)
  read_frames zero stream = ok []
  read_frames (suc n) stream = frames_from (read_frame stream) (read_frames n)
