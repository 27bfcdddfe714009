-- ===== src/Nexus/Codec.antt =====
-- civsim_harness/nexus/codec.py: frames on the wire and their incremental decoder. Python's UTF-8
-- codec is a parameter; bytes are numbers below 256.
pub mod Header
pub mod Streams
pub mod Total
mod Tests
use civ_sim_taskify.Prelude.{
  ℕ, zero, suc, ◌+◌, ◌-◌, ◌*◌, ◌/◌, ◌%◌, String, ◌≡◌, Bool, true, false, ◌||◌, Option, none, some,
  List, [], ◌∷◌, ◌++◌, length, get_or, take, drop, leb, ltb, ◌==◌, if◌then◌else◌, ap,
}
use civ_sim_taskify.Prelude.Int.{ℤ, pos, negsuc}
use civ_sim_taskify.Errors.{Error, Result, ok, err, nexus_error, struct_error, ◌>>=◌}

-- `str.encode("utf-8")` and `bytes.decode("utf-8")`.
pub record Utf8 : Type 0 where
  pub encode : String → List ℕ
  pub decode : List ℕ → Result String
  pub decode-encode : (s : String) → decode (encode s) ≡ ok s

pub record NexusFrame : Type 0 where
  pub tag : ℤ
  pub payload : String

abbrev pub header_size : ℕ
header_size = 8

abbrev pub default_max_frame_length : ℕ
default_max_frame_length = 16777216

-- Four bytes, little-endian.
abbrev pub bytes_of : ℕ → List ℕ
bytes_of n = (n % 256) ∷ (n / 256 % 256) ∷ (n / 65536 % 256) ∷ (n / 16777216 % 256) ∷ []

abbrev pub word_at : List ℕ → ℕ → ℕ
word_at buf i =
    get_or buf i 0
    + 256 * get_or buf (suc i) 0
    + 65536 * get_or buf (suc (suc i)) 0
    + 16777216 * get_or buf (suc (suc (suc i))) 0

-- Format `I`: an unsigned number of 32 bits; any other is refused.
unfoldable pub pack_unsigned : ℕ → Result (List ℕ)
pack_unsigned n = if ltb n 4294967296 then ok (bytes_of n) else err struct_error

-- Format `i`: a number of 32 bits in two's complement.
unfoldable pub pack_signed : ℤ → Result (List ℕ)
pack_signed (pos n) = if ltb n 2147483648 then ok (bytes_of n) else err struct_error
pack_signed (negsuc n) =
    if ltb n 2147483648 then ok (bytes_of (4294967295 - n)) else err struct_error

unfoldable pub signed_at : List ℕ → ℕ → ℤ
signed_at buf i =
    if ltb (word_at buf i) 2147483648
    then pos (word_at buf i)
    else negsuc (4294967295 - word_at buf i)

-- `body.endswith(b"\x00")` and `body[:-1]`.
unfoldable pub without_nul : List ℕ → Option (List ℕ)
without_nul [] = none
without_nul (zero ∷ []) = some []
without_nul (suc b ∷ []) = none
without_nul (b ∷ c ∷ bs) = elim (without_nul (c ∷ bs)) [ none ↦ none | some r ↦ some (b ∷ r) ]

-- The result of `_try_take_one`: the buffer is what the call leaves.
pub data Taken : Type 0 where
  short : Taken
  fault : Error → List ℕ → Taken
  took : NexusFrame → List ℕ → Taken

module _ (utf8 : Utf8) where
  unfoldable pub encode_frame : ℤ → String → Result (List ℕ)
  encode_frame tag payload = do
    let body = utf8.encode payload ++ 0 ∷ []
    size ← pack_unsigned (length body)
    kind ← pack_signed tag
    ok ((size ++ kind) ++ body)

  abbrev pub decode_payload : ℤ → List ℕ → Result String → Taken
  decode_payload tag rest (err e) = fault e rest
  decode_payload tag rest (ok payload) = took (record { tag = tag; payload = payload }) rest

  abbrev pub decode_body : ℤ → List ℕ → Option (List ℕ) → Taken
  decode_body tag rest none = fault nexus_error rest
  decode_body tag rest (some bytes) = decode_payload tag rest (utf8.decode bytes)

  -- `_try_take_one`
  unfoldable pub try_take_one : ℕ → List ℕ → Taken
  try_take_one max_frame_length buf =
      if ltb (length buf) header_size
      then short
      else if leb (word_at buf 0) 0
      then fault nexus_error buf
      else if ltb max_frame_length (word_at buf 0)
      then fault nexus_error buf
      else if ltb (length buf) (header_size + word_at buf 0)
      then short
      else decode_body (signed_at buf 4) (drop (header_size + word_at buf 0) buf)
          (without_nul (take (word_at buf 0) (drop header_size buf)))

  -- The `while True` of `feed`: `none` when the fuel runs out. An exception loses the frames that
  -- this call had already taken.
  abbrev pub on_taken :
      (List ℕ → List NexusFrame → Option (Result (List NexusFrame) × List ℕ))
      → List NexusFrame
      → List ℕ
      → Taken
      → Option (Result (List NexusFrame) × List ℕ)
  on_taken again frames buf short = some (ok frames, buf)
  on_taken again frames buf (fault e rest) = some (err e, rest)
  on_taken again frames buf (took f rest) = again rest (frames ++ f ∷ [])

  unfoldable pub drain :
      ℕ → ℕ → List ℕ → List NexusFrame → Option (Result (List NexusFrame) × List ℕ)
  drain max_frame_length zero buf frames = none
  drain max_frame_length (suc fuel) buf frames =
      on_taken (drain max_frame_length fuel) frames buf (try_take_one max_frame_length buf)

  -- Each frame takes at least one byte, so the length of the buffer bounds the rounds.
  unfoldable pub feed : ℕ → List ℕ → List ℕ → Option (Result (List NexusFrame) × List ℕ)
  feed max_frame_length buf new = drain max_frame_length (suc (length (buf ++ new))) (buf ++ new) []
