-- ===== src/Frame/Runs.antt =====
-- Concrete runs of packages/effect-tls-client/src/internal/Frame.ts, and its theorems at concrete
-- inputs.
use mathlib.Core.List.{flatten}
use effect_tls_client.Prelude.{ℕ, ◌≡◌, ◌↔◌, refl, none, some, List, [], ◌∷◌, ok, err, arith}
use effect_tls_client.Frame.Kind
use effect_tls_client.Frame.Codec.{
  Frame, FrameInput, invalid_id, length_below_min, incomplete_stream, text, value, undefined,
  not_serializable, encode_frame, decode_frame, decode_frame_view, metadata_bytes, utf8_encode,
  utf8_encode_char, uint32_bytes, uint32_at, frame_bytes,
}
use effect_tls_client.Frame.Decoder.{
  new_decoder, push, decode_frames, drain, drain_from, round, finish,
}
use effect_tls_client.Frame.RoundTrip.{
  Encodable, as_input, decode_frame-encode_frame, encode_frame-ok, encode_frame-decode_frame,
}
use effect_tls_client.Frame.Chunks.{
  push_all, Agree, push_all-flatten, push_all-Written, decode_frames-Written,
}

-- A frame with the metadata `{}` and the body `hi`.
abbrev pub chunk_frame : Frame
chunk_frame = record { kind = Kind.chunk; id = 7; meta = 0x7b ∷ 0x7d ∷ []; body = 0x68 ∷ 0x69 ∷ [] }

abbrev chunk_input : FrameInput
chunk_input = record {
  kind = Kind.chunk;
  id = 7;
  meta = text (0x7b ∷ 0x7d ∷ []);
  body = some (0x68 ∷ 0x69 ∷ []);
}

abbrev pub chunk_wire : List ℕ
chunk_wire = 0 ∷ 0 ∷ 0 ∷ 13 ∷ 0x91 ∷ 0 ∷ 0 ∷ 0 ∷ 7 ∷ 0 ∷ 0 ∷ 0 ∷ 2 ∷ 0x7b ∷ 0x7d ∷ 0x68 ∷ 0x69 ∷ []

-- A frame without metadata and body.
abbrev end_frame : Frame
end_frame = record { kind = Kind.body_end; id = 0x01020304; meta = []; body = [] }

abbrev end_wire : List ℕ
end_wire = 0 ∷ 0 ∷ 0 ∷ 9 ∷ 0x22 ∷ 1 ∷ 2 ∷ 3 ∷ 4 ∷ 0 ∷ 0 ∷ 0 ∷ 0 ∷ []

-- The two frames' bytes, cut within the first one's prefix and within the second one.
abbrev cut_stream : List (List ℕ)
cut_stream =
    (0 ∷ 0 ∷ [])
    ∷ []
    ∷ (0 ∷ 13 ∷ 0x91 ∷ 0 ∷ 0 ∷ 0 ∷ 7 ∷ 0 ∷ 0 ∷ 0 ∷ 2 ∷ 0x7b ∷ 0x7d ∷ 0x68 ∷ 0x69 ∷ 0 ∷ [])
    ∷ (0 ∷ 0 ∷ 9 ∷ 0x22 ∷ 1 ∷ 2 ∷ 3 ∷ 4 ∷ 0 ∷ 0 ∷ 0 ∷ 0 ∷ [])
    ∷ []

encode_chunk : encode_frame chunk_input ≡ ok chunk_wire
unfolding encode_frame frame_bytes uint32_bytes utf8_encode utf8_encode_char Kind.is_frame_kind
encode_chunk = refl

encode_end : encode_frame (as_input end_frame) ≡ ok end_wire
unfolding encode_frame frame_bytes uint32_bytes Kind.is_frame_kind
encode_end = refl

encode_chunk_again : encode_frame (as_input chunk_frame) ≡ ok chunk_wire
unfolding encode_frame frame_bytes uint32_bytes Kind.is_frame_kind
encode_chunk_again = refl

encode_undefined :
    encode_frame (record { kind = Kind.ok; id = 1; meta = value undefined; body = none })
    ≡ err not_serializable
unfolding encode_frame Kind.is_frame_kind
encode_undefined = refl

encode_wide_id :
    encode_frame (record { kind = Kind.ok; id = 0x100000000; meta = value undefined; body = none })
    ≡ err (invalid_id 0x100000000)
unfolding encode_frame Kind.is_frame_kind
encode_wide_id = refl

decode_chunk : decode_frame chunk_wire ≡ ok chunk_frame
unfolding decode_frame decode_frame_view uint32_at Kind.is_frame_kind
decode_chunk = refl

decode_cut : decode_frames (0 ∷ 0 ∷ 0 ∷ 13 ∷ 0x91 ∷ []) ≡ err incomplete_stream
unfolding decode_frames push drain round uint32_at finish drain_from
decode_cut = refl

-- A prefix that is too short is refused before the rest has come.
push_short : (push new_decoder (0 ∷ 0 ∷ 0 ∷ 8 ∷ [])).1 ≡ err (length_below_min 8)
unfolding push drain round uint32_at drain_from
push_short = refl

decode_frame-encode_frame_example :
    (meta : List ℕ) × (metadata_bytes chunk_input.meta ≡ ok meta)
    × (decode_frame chunk_wire
        ≡ ok (record { kind = Kind.chunk; id = 7; meta = meta; body = 0x68 ∷ 0x69 ∷ [] }))
decode_frame-encode_frame_example = decode_frame-encode_frame chunk_input chunk_wire encode_chunk

encode_frame-decode_frame_example : encode_frame (as_input chunk_frame) ≡ ok chunk_wire
encode_frame-decode_frame_example =
    encode_frame-decode_frame chunk_wire chunk_frame (ground arith) decode_chunk

encode_frame-ok_example :
    ((encoded : List ℕ) × (encode_frame (as_input end_frame) ≡ ok encoded))
    ↔ Encodable Kind.body_end 0x01020304 [] []
unfolding metadata_bytes
encode_frame-ok_example = encode_frame-ok (as_input end_frame) [] refl

push_all-flatten_example :
    Agree (push_all new_decoder cut_stream) (push new_decoder (flatten cut_stream))
push_all-flatten_example = push_all-flatten new_decoder cut_stream

push_all-Written_example :
    push_all new_decoder cut_stream ≡ (new_decoder, ok (chunk_frame ∷ end_frame ∷ []))
unfolding flatten
push_all-Written_example =
    push_all-Written (chunk_frame ∷ end_frame ∷ []) (chunk_wire ∷ end_wire ∷ []) cut_stream
      (encode_chunk_again, (encode_end, tt)) refl

decode_frames-Written_example :
    decode_frames (flatten (chunk_wire ∷ end_wire ∷ [])) ≡ ok (chunk_frame ∷ end_frame ∷ [])
decode_frames-Written_example =
    decode_frames-Written (chunk_frame ∷ end_frame ∷ []) (chunk_wire ∷ end_wire ∷ [])
      (encode_chunk_again, (encode_end, tt))
