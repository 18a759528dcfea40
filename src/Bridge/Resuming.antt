-- ===== src/Bridge/Resuming.antt =====
-- An upload that waits for credit: `sendUploadChunk` and the acknowledgements that
-- `handleStreamFrame` of packages/effect-tls-client/src/internal/Bridge.ts takes.
use effect_tls_client.Prelude.{
  ok, ap, ◌∙◌, ==_refl, ℕ, ◌+◌, ◌-◌, ◌≤◌, ◌<◌, ◌≡◌, Bool, true, false, none, some, List, [], ◌∷◌,
  ◌==◌, leb, ltb, length, refl, arith,
}
use effect_tls_client.Protocol.Schema.{JsonCodec, encode_meta, decode_meta, ack, empty}
use effect_tls_client.Frame.Kind
use effect_tls_client.Frame.Codec.{Frame, decode_frame}
use effect_tls_client.Bridge.StreamFrames.{
  handle_stream_frame, stream_frame, on_body_ack, acknowledge,
}
use effect_tls_client.Protocol.Metadata.{empty_meta}
use effect_tls_client.Bridge.Writing.{write_frame, frame_input}
use effect_tls_client.Bridge.World.{
  World, Operation, stream, PendingStream, Upload, Action, emit, write, settle_wake, set_operation,
}
use effect_tls_client.Bridge.Calls.{Ticket}
use effect_tls_client.Bridge.Uploads.{
  attempted, must_wait, attempted_of, credit_for, send_slice, send_upload_chunk,
}
use effect_tls_client.Frame.RoundTrip.{Encodable}
use effect_tls_client.Bridge.Written.{write_frame-frame_input}

-- The stream once its upload has sent and acknowledged so many bytes.
abbrev pub moved : PendingStream → Upload → ℕ → ℕ → Operation
moved operation upload sent acked =
    stream (record operation { upload = some (record upload { sent = sent; acked = acked }) })

-- A slice that does not fit into the window waits.
send_upload_chunk-waits :
    (codec : JsonCodec) (stdin_ok : Bool) (t : Ticket) (body : List ℕ) (operation : PendingStream)
    (upload : Upload) (w : World)
    → w.operations t.operation ≡ stream operation
    → operation.upload ≡ some upload
    → upload.stopped ≡ false
    → w.window - (upload.sent - upload.acked) < length body
    → send_upload_chunk codec stdin_ok t body w ≡ must_wait
unfolding send_upload_chunk send_slice credit_for
send_upload_chunk-waits codec stdin_ok t body operation upload w h u s big =
    let filled : (length body == 0) ≡ false = ground (arith, big) in
    let no_room : leb (length body) (w.window - (upload.sent - upload.acked)) ≡ false =
      ground (arith, big) in
    rw (h, filled, u, s, no_room, send_upload_chunk, send_slice) refl

-- A slice that fits is written and counted.
send_upload_chunk-fits :
    (codec : JsonCodec) (t : Ticket) (body : List ℕ) (operation : PendingStream) (upload : Upload)
    (w : World)
    → w.operations t.operation ≡ stream operation
    → operation.upload ≡ some upload
    → upload.stopped ≡ false
    → 1 ≤ length body
    → length body ≤ w.window - (upload.sent - upload.acked)
    → send_upload_chunk codec true t body w
      ≡ attempted_of (
          write_frame true
            (frame_input Kind.body_chunk t.id (encode_meta codec empty empty_meta) (some body))
            (set_operation t.operation
              (moved operation upload (upload.sent + length body) upload.acked)
              w))
unfolding send_upload_chunk send_slice credit_for
send_upload_chunk-fits codec t body operation upload w h u s filled room =
    let not_empty : (length body == 0) ≡ false = ground (arith, filled) in
    let enough : leb (length body) (w.window - (upload.sent - upload.acked)) ≡ true =
      ground (arith, room) in
    rw (h, not_empty, u, s, enough, send_upload_chunk, send_slice) refl

on_body_ack_lem :
    (codec : JsonCodec) (accepts : List Action → ℕ → Bool) (frame : Frame) (r n : ℕ)
    (operation : PendingStream) (upload : Upload) (w : World)
    → operation.upload ≡ some upload
    → frame.body ≡ []
    → decode_meta codec ack frame.meta ≡ some (record { bytes = n })
    → on_body_ack codec accepts frame r operation w
      ≡ acknowledge codec accepts r operation upload n w
unfolding on_body_ack
on_body_ack_lem codec accepts frame r n operation upload w u b m = rw (u, b, m, on_body_ack) refl

-- An acknowledgement of bytes that are in flight is counted, and wakes the upload.
handle_stream_frame-acknowledges :
    (codec : JsonCodec) (accepts : List Action → ℕ → Bool) (frame : Frame) (r n : ℕ)
    (operation : PendingStream) (upload : Upload) (w : World)
    → operation.upload ≡ some upload
    → frame.kind ≡ Kind.body_ack
    → frame.body ≡ []
    → decode_meta codec ack frame.meta ≡ some (record { bytes = n })
    → 1 ≤ n
    → n ≤ upload.sent - upload.acked
    → handle_stream_frame codec accepts frame r operation w ≡ (
      emit
          (settle_wake r ∷ [])
          (set_operation r (moved operation upload upload.sent (upload.acked + n)) w),
      none,
    )
unfolding handle_stream_frame stream_frame on_body_ack acknowledge
handle_stream_frame-acknowledges codec accepts frame r n operation upload w u k b m positive owed =
    let known : ltb (upload.sent - upload.acked) n ≡ false = ground (arith, owed) in
    let some_bytes : ltb 0 n ≡ true = ground (arith, positive) in
    rw
      (
        k,
        handle_stream_frame,
        stream_frame,
        on_body_ack_lem codec accepts frame r n operation upload w u b m,
        known,
        some_bytes,
        acknowledge,
      )
      refl

-- The world after an acknowledgement of `n` bytes, and after a slice that is then sent.
abbrev pub acknowledged : Ticket → PendingStream → Upload → ℕ → World → World
acknowledged t operation upload n w =
    emit (settle_wake t.operation ∷ [])
      (set_operation t.operation (moved operation upload upload.sent (upload.acked + n)) w)

abbrev pub counted : Ticket → PendingStream → Upload → ℕ → ℕ → World → World
counted t operation upload n size w =
    set_operation t.operation (moved operation upload (upload.sent + size) (upload.acked + n))
      (acknowledged t operation upload n w)

-- Where the ticket leads to a stream whose upload is not stopped, and a slice does not fit beside the
-- bytes in flight: the slice waits. Where a frame then acknowledges at least one of the bytes in
-- flight, and no more than these, and the slice fits beside the others, the handler of the frame
-- counts the bytes and wakes the upload without an error; and where the process takes bytes and the
-- frame has a 32-bit id and fits the limit, the next attempt succeeds: the slice is counted as sent,
-- one write is logged, and its bytes decode as a body chunk of this id with the slice as body.
pub send_upload_chunk-resumes :
    (codec : JsonCodec) (accepts : List Action → ℕ → Bool) (t : Ticket) (frame : Frame) (n : ℕ)
    (body : List ℕ) (operation : PendingStream) (upload : Upload) (w : World)
    → w.operations t.operation ≡ stream operation
    → operation.upload ≡ some upload
    → upload.stopped ≡ false
    → w.window - (upload.sent - upload.acked) < length body
    → frame.kind ≡ Kind.body_ack
    → frame.body ≡ []
    → decode_meta codec ack frame.meta ≡ some (record { bytes = n })
    → 1 ≤ n
    → n ≤ upload.sent - upload.acked
    → length body ≤ w.window - (upload.sent - (upload.acked + n))
    → Encodable Kind.body_chunk t.id (encode_meta codec empty empty_meta) body
    → (send_upload_chunk codec true t body w ≡ must_wait)
      × (handle_stream_frame codec accepts frame t.operation operation w
          ≡ (acknowledged t operation upload n w, none))
      × (encoded : List ℕ) × (send_upload_chunk codec true t body
            (acknowledged t operation upload n w)
          ≡ attempted
              (emit (write encoded ∷ []) (counted t operation upload n (length body) w))
              (ok tt))
      × (decode_frame encoded
          ≡ ok (record {
            kind = Kind.body_chunk;
            id = t.id;
            meta = encode_meta codec empty empty_meta;
            body = body;
          }))
unfolding attempted_of
send_upload_chunk-resumes codec accepts t frame n body operation upload w h u s big k b m positive
      owed room fits =
    let w' = acknowledged t operation upload n w in
    let upload' : Upload = record upload { acked = upload.acked + n } in
    let operation' : PendingStream = record operation { upload = some upload' } in
    let here : w'.operations t.operation ≡ stream operation' = rw (==_refl t.operation) refl in
    let (encoded, written, read) =
      write_frame-frame_input Kind.body_chunk t.id (encode_meta codec empty empty_meta) (some body)
        (counted t operation upload n (length body) w) fits in
    (
      send_upload_chunk-waits codec true t body operation upload w h u s big,
      handle_stream_frame-acknowledges codec accepts frame t.operation n operation upload w u k b m
          positive owed,
      encoded,
      send_upload_chunk-fits codec t body operation' upload' w' here refl s (omega (arith, big))
            room
          ∙ ap attempted_of written,
      read,
    )
