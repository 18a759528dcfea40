-- ===== src/Frame/Decoder.antt =====
-- The incremental decoder: `FrameDecoder` and `decodeFrames` of
-- packages/effect-tls-client/src/internal/Frame.ts. The loop's `offset` into `merged` is kept as
-- the bytes from there on.
use effect_tls_client.Prelude.{
  ℕ, zero, suc, ◌+◌, List, [], ◌∷◌, ◌++◌, length, drop, ltb, if◌then◌else◌, Result, ok, err, ◌>>=◌,
  ◌>>◌, throw_if, map_ok,
}
use effect_tls_client.Frame.Codec.{
  Frame, FrameCodecError, length_exceeds_max, length_below_min, incomplete_stream, max_frame_length,
  fixed_header_length, length_prefix, uint32_at, decode_frame_view, subarray,
}

pub record FrameDecoder : Type 0 where
  pub buffer : List ℕ

abbrev pub new_decoder : FrameDecoder
new_decoder = record { buffer = [] }

-- One round of the loop of `push`: either the loop ends, or a frame is cut off.
pub data Round : Type 0 where
  stop : Round
  frame : Frame → List ℕ → Round

cut : List ℕ → ℕ → Result FrameCodecError Round
cut rest total = do f ← decode_frame_view (subarray rest 0 total); ok (frame f (drop total rest))

measured : List ℕ → ℕ → Result FrameCodecError Round
measured rest length' = do
  throw_if (ltb max_frame_length length') (length_exceeds_max length')
  throw_if (ltb length' fixed_header_length) (length_below_min length')
  (if ltb (length rest) (length_prefix + length')
      then ok stop
      else cut rest (length_prefix + length'))

unfoldable pub round : List ℕ → Result FrameCodecError Round
unfolding cut measured
round rest = if ltb (length rest) length_prefix then ok stop else measured rest (uint32_at rest 0)

-- `frames.push(f)`, with the frames in the order of the rounds.
abbrev pub prepend : List Frame → List Frame × List ℕ → List Frame × List ℕ
prepend fs (gs, left) = (fs ++ gs, left)

-- The loop, with fuel for the rounds; `Stream.drain_loop` shows that the fuel `length rest` is enough.
-- The frames come first, then the bytes that no round took.
unfoldable pub drain_from : ℕ → List ℕ → Result FrameCodecError (List Frame × List ℕ)
drain_from zero rest = ok ([], rest)
drain_from (suc fuel) rest = round rest >>= λ r. elim r [
  | stop ↦ ok ([], rest)
  | frame f rest' ↦ map_ok (prepend (f ∷ [])) (drain_from fuel rest')
]

unfoldable pub drain : List ℕ → Result FrameCodecError (List Frame × List ℕ)
drain rest = drain_from (length rest) rest

-- `push` returns the decoder and the frames; where it throws, the buffer keeps its old bytes.
abbrev pub pushed :
    FrameDecoder
    → Result FrameCodecError (List Frame × List ℕ)
    → FrameDecoder × Result FrameCodecError (List Frame)
pushed d (ok (frames, left)) = (record { buffer = left }, ok frames)
pushed d (err e) = (d, err e)

unfoldable pub push : FrameDecoder → List ℕ → FrameDecoder × Result FrameCodecError (List Frame)
push d [] = (d, ok [])
push d (b ∷ bs) = pushed d (drain (d.buffer ++ (b ∷ bs)))

unfoldable pub finish : FrameDecoder → Result FrameCodecError (Unit {0})
finish d = elim d.buffer [ [] ↦ ok tt | b ∷ bs ↦ err incomplete_stream ]

unfoldable pub decode_frames : List ℕ → Result FrameCodecError (List Frame)
decode_frames encoded =
    let (d, pushed) = push new_decoder encoded in pushed >>= λ frames. finish d >>= λ _. ok frames
