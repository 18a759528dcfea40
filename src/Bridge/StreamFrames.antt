-- ===== src/Bridge/StreamFrames.antt =====
-- Frames for a stream: `handleStreamFrame` of
-- packages/effect-tls-client/src/internal/Bridge.ts. `accepts log r` is what
-- `Queue.offerUnsafe` answers for the operation at `r` after the actions in `log`.
use effect_tls_client.Prelude.{
  ℕ, ◌+◌, ◌-◌, Bool, true, not, ◌&&◌, ◌||◌, Option, none, some, List, [], ◌∷◌, ◌==◌, ltb, length,
  if◌then◌else◌, Result, ok, err, ◌>>=◌, ◌>>◌, throw_if,
}
use effect_tls_client.Frame.Kind
use effect_tls_client.Frame.Codec.{Frame}
use effect_tls_client.Protocol.Metadata.{AckMeta, ResponseHeadersMeta}
use effect_tls_client.Protocol.Schema.{
  JsonCodec, decode_meta, decode_empty_meta, ack, response_headers, end,
}
use effect_tls_client.Errors.{BridgeError, chunk_length_exceeds, protocol_error}
use effect_tls_client.Bridge.World.{
  World, stream, PendingStream, Upload, Action, emit, set_operation, settle_headers, settle_wake,
  offer_chunk,
}
use effect_tls_client.Bridge.Settle.{stop_upload, complete_stream}
use effect_tls_client.Bridge.ErrorFrames.{fail_protocol, decoded, caught, handle_error_frame}

module _ (codec : JsonCodec) (accepts : List Action → ℕ → Bool) where
  -- A `body.ack`.
  unfoldable pub acknowledge : ℕ → PendingStream → Upload → ℕ → World → Result BridgeError World
  acknowledge r operation upload bytes w = do
    throw_if (ltb (upload.sent - upload.acked) bytes)
        (fail_protocol "body acknowledgement exceeds sent bytes")
    (if ltb 0 bytes
        then ok (
            emit (settle_wake r ∷ []) (
              set_operation r
                (stream (record operation {
                  upload = some (record upload { acked = upload.acked + bytes });
                }))
                w))
        else ok w)

  unfoldable pub on_body_ack : Frame → ℕ → PendingStream → World → Result BridgeError World
  unfolding acknowledge
  on_body_ack frame r operation w = elim operation.upload [
    | none ↦ err (fail_protocol "unexpected body acknowledgement")
    | some upload ↦ (do
      throw_if (not (length frame.body == 0)) (fail_protocol "unexpected body acknowledgement")
      meta ← decoded "invalid stream response metadata" (decode_meta codec ack frame.meta)
      acknowledge r operation upload (AckMeta.bytes meta) w)
  ]

  -- The stream's headers, after which the upload stops.
  unfoldable pub see_headers : ℕ → PendingStream → ResponseHeadersMeta → World → World
  see_headers r operation headers w =
      let seen = record operation { headers_seen = true } in
      emit (settle_headers r (ok headers) ∷ [])
        (stop_upload r seen (set_operation r (stream seen) w))

  unfoldable pub on_headers : Frame → ℕ → PendingStream → World → Result BridgeError World
  unfolding see_headers
  on_headers frame r operation w = do
    throw_if (not (frame.kind == Kind.headers) || not (length frame.body == 0))
        (fail_protocol "expected response headers before body chunks")
    headers ←
        decoded "invalid stream response metadata" (decode_meta codec response_headers frame.meta)
    ok (see_headers r operation headers w)

  unfoldable pub on_chunk : Frame → ℕ → World → Result BridgeError World
  on_chunk frame r w = do
    throw_if (length frame.body == 0) (fail_protocol "chunk frame cannot be empty")
    _ ← decoded "invalid stream response metadata" (decode_empty_meta codec frame.meta)
    throw_if (ltb w.chunk_size (length frame.body))
        (protocol_error (chunk_length_exceeds (length frame.body) w.chunk_size))
    throw_if (not (accepts w.log r)) (fail_protocol "stream chunk queue is closed")
    ok (emit (offer_chunk r frame.body ∷ []) w)

  unfoldable pub on_end : Frame → World → Result BridgeError World
  on_end frame w = do
    throw_if (not (length frame.body == 0)) (fail_protocol "end frame cannot contain a body")
    end' ← decoded "invalid stream response metadata" (decode_meta codec end frame.meta)
    ok (complete_stream frame.id (ok end') w)

  -- The `try` block of `handleStreamFrame`.
  unfoldable pub stream_frame : Frame → ℕ → PendingStream → World → Result BridgeError World
  unfolding on_body_ack on_headers on_chunk on_end
  stream_frame frame r operation w =
      if frame.kind == Kind.body_ack
      then on_body_ack frame r operation w
      else if operation.expects_headers && not operation.headers_seen
      then on_headers frame r operation w
      else if not operation.expects_headers && frame.kind == Kind.headers
      then err (fail_protocol "unexpected response headers for Bridge stream")
      else if frame.kind == Kind.chunk
      then on_chunk frame r w
      else if frame.kind == Kind.end
      then on_end frame w
      else err (fail_protocol "expected headers, chunk, end, or error for Bridge stream")

  unfoldable pub handle_stream_frame :
      Frame → ℕ → PendingStream → World → World × Option BridgeError
  unfolding stream_frame
  handle_stream_frame frame r operation w =
      if frame.kind == Kind.error
      then handle_error_frame codec frame r w
      else caught w (stream_frame frame r operation w)
