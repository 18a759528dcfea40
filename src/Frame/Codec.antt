-- ===== src/Frame/Codec.antt =====
-- Encoding and decoding of one frame: `encodeFrame`, `decodeFrameView` and `decodeFrame` of
-- packages/effect-tls-client/src/internal/Frame.ts. A `Uint8Array` is the list of its bytes, and
-- the numbers are the non-negative integers. A string is the list of its code points.
use effect_tls_client.Prelude.{
  ℕ, ◌+◌, ◌-◌, ◌*◌, ◌/◌, ◌%◌, Bool, not, ◌&&◌, Option, or_else, List, [], ◌∷◌, ◌++◌, length, get_or,
  take, drop, ltb, leb, ◌==◌, if◌then◌else◌, Result, ok, err, ◌>>=◌, ◌>>◌, throw_if,
}
use effect_tls_client.Frame.Kind.{is_frame_kind}

abbrev pub max_frame_length : ℕ
max_frame_length = 16 * 1024 * 1024

abbrev pub fixed_header_length : ℕ
fixed_header_length = 1 + 4 + 4

abbrev pub length_prefix : ℕ
length_prefix = 4

pub record Frame : Type 0 where
  pub kind : ℕ
  pub id : ℕ
  pub meta : List ℕ
  pub body : List ℕ

-- What `JSON.stringify` makes of a value: a string, `undefined`, or an exception.
pub data Stringified : Type 0 where
  json : List ℕ → Stringified
  undefined throws : Stringified

-- The cases that `metadataBytes` tells apart.
pub data MetaInput : Type 0 where
  absent : MetaInput
  bytes : List ℕ → MetaInput
  text : List ℕ → MetaInput
  value : Stringified → MetaInput

pub record FrameInput : Type 0 where
  pub kind : ℕ
  pub id : ℕ
  pub meta : MetaInput
  pub body : Option (List ℕ)

-- A constructor for each message of `FrameCodecError`.
pub data FrameCodecError : Type 0 where
  not_serializable encoding_failed missing_prefix incomplete_stream : FrameCodecError
  invalid_kind invalid_id length_exceeds_max length_below_min : ℕ → FrameCodecError
  wrong_byte_count metadata_exceeds_frame : ℕ → ℕ → FrameCodecError

-- `TextEncoder.encode`: UTF-8, with U+FFFD for a lone surrogate.
unfoldable pub utf8_encode_char : ℕ → List ℕ
utf8_encode_char c =
    if ltb c 0x80
    then c ∷ []
    else if ltb c 0x800
    then (0xc0 + c / 64) ∷ (0x80 + c % 64) ∷ []
    else if leb 0xd800 c && ltb c 0xe000
    then 0xef ∷ 0xbf ∷ 0xbd ∷ []
    else if ltb c 0x10000
    then (0xe0 + c / 4096) ∷ (0x80 + c / 64 % 64) ∷ (0x80 + c % 64) ∷ []
    else (0xf0 + c / 262144) ∷ (0x80 + c / 4096 % 64) ∷ (0x80 + c / 64 % 64) ∷ (0x80 + c % 64) ∷ []

unfoldable pub utf8_encode : List ℕ → List ℕ
unfolding utf8_encode_char
utf8_encode [] = []
utf8_encode (c ∷ cs) = utf8_encode_char c ++ utf8_encode cs

abbrev pub is_uint32 : ℕ → Bool
is_uint32 n = leb n 0xffffffff

unfoldable pub metadata_bytes : MetaInput → Result FrameCodecError (List ℕ)
metadata_bytes absent = ok []
metadata_bytes (bytes b) = ok b
metadata_bytes (text s) = ok (utf8_encode s)
metadata_bytes (value (json s)) = ok (utf8_encode s)
metadata_bytes (value undefined) = err not_serializable
metadata_bytes (value throws) = err encoding_failed

-- `DataView.setUint32(offset, value, false)`: four bytes, the highest first.
unfoldable pub uint32_bytes : ℕ → List ℕ
uint32_bytes n = (n / 16777216 % 256) ∷ (n / 65536 % 256) ∷ (n / 256 % 256) ∷ (n % 256) ∷ []

-- `DataView.getUint8(offset)` and `DataView.getUint32(offset, false)`; they are called within the
-- bounds of the view only.
unfoldable pub uint8_at : List ℕ → ℕ → ℕ
uint8_at view offset = get_or view offset 0

unfoldable pub uint32_at : List ℕ → ℕ → ℕ
unfolding uint8_at
uint32_at view offset =
    uint8_at view offset * 16777216
    + uint8_at view (offset + 1) * 65536
    + uint8_at view (offset + 2) * 256
    + uint8_at view (offset + 3)

-- `Uint8Array.subarray(start, end)`.
abbrev pub subarray : List ℕ → ℕ → ℕ → List ℕ
subarray view start end = take (end - start) (drop start view)

-- The buffer that `encodeFrame` fills.
unfoldable pub frame_bytes : ℕ → ℕ → List ℕ → List ℕ → List ℕ
frame_bytes kind id meta body =
    uint32_bytes (fixed_header_length + length meta + length body)
    ++ ((kind % 256) ∷ (uint32_bytes id ++ (uint32_bytes (length meta) ++ (meta ++ body))))

unfoldable pub encode_frame : FrameInput → Result FrameCodecError (List ℕ)
unfolding metadata_bytes
encode_frame input = do
  throw_if (not (is_frame_kind input.kind)) (invalid_kind input.kind)
  throw_if (not (is_uint32 input.id)) (invalid_id input.id)
  meta ← metadata_bytes input.meta
  let body = or_else input.body []
  let length' = fixed_header_length + length meta + length body
  throw_if (ltb max_frame_length length') (length_exceeds_max length')
  ok (frame_bytes input.kind input.id meta body)

unfoldable pub decode_frame_view : List ℕ → Result FrameCodecError Frame
decode_frame_view encoded = do
  throw_if (ltb (length encoded) length_prefix) missing_prefix
  let length' = uint32_at encoded 0
  throw_if (ltb max_frame_length length') (length_exceeds_max length')
  throw_if (ltb length' fixed_header_length) (length_below_min length')
  throw_if (not (length encoded == length_prefix + length'))
      (wrong_byte_count (length encoded - length_prefix) length')
  let kind = uint8_at encoded 4
  throw_if (not (is_frame_kind kind)) (invalid_kind kind)
  let metadata_length = uint32_at encoded 9
  throw_if (ltb (length' - fixed_header_length) metadata_length)
      (metadata_exceeds_frame metadata_length length')
  let meta_start = length_prefix + fixed_header_length
  let meta_end = meta_start + metadata_length
  ok (record {
    kind = kind;
    id = uint32_at encoded 5;
    meta = subarray encoded meta_start meta_end;
    body = drop meta_end encoded;
  })

-- The copies by `slice()` have the same bytes.
unfoldable pub decode_frame : List ℕ → Result FrameCodecError Frame
decode_frame encoded = do frame ← decode_frame_view encoded; ok frame
