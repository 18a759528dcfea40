-- ===== src/Bridge/FlightStream.antt =====
-- Error frames and frames for a stream keep the bytes in flight of each upload within the window:
-- `handleErrorFrame` and `handleStreamFrame` of
-- packages/effect-tls-client/src/internal/Bridge.ts.
use effect_tls_client.Prelude.{
  ℕ, ◌+◌, ◌-◌, ◌≤◌, ◌≡◌, refl, ap, Bool, true, not, Option, none, some, List, ◌==◌, ==_refl, ltb,
  length, Result, ok, err, arith, Bool-cases, inl, inr,
}
use effect_tls_client.Frame.Kind
use effect_tls_client.Frame.Codec.{Frame}
use effect_tls_client.Protocol.Metadata.{ResponseHeadersMeta, AckMeta}
use effect_tls_client.Protocol.Schema.{
  JsonCodec, decode_meta, decode_empty_meta, error, ack, response_headers, end,
}
use effect_tls_client.Errors.{BridgeError, protocol_error, chunk_length_exceeds}
use effect_tls_client.Bridge.World.{
  World, Operation, deferred, stream, websocket, PendingStream, Upload, Action, set_operation,
}
use effect_tls_client.Bridge.ErrorFrames.{
  caught, complete_with_error, handle_error_frame, fail_protocol,
}
use effect_tls_client.Bridge.StreamFrames.{
  acknowledge, on_body_ack, see_headers, on_headers, on_chunk, on_end, stream_frame,
  handle_stream_frame,
}
use effect_tls_client.Bridge.Returns.{
  OnReturn, returns, throws, OnReturn-throw, OnReturn-decoded, OnReturn-if,
}
use effect_tls_client.Bridge.Flight.{
  SameFlight, Flows, SameFlight-Flows, SameFlight-refl, SameFlight-trans, SameFlight-set,
  stop_upload-SameFlight, mark_dead-SameFlight, complete_pending-SameFlight,
  complete_websocket-SameFlight, complete_stream-SameFlight, sent_of, acked_of,
}

pub Flows-refl : (w : World) → Flows w w
Flows-refl w = SameFlight-Flows (SameFlight-refl w)

-- A step that changes the log, the map or the decoder only.
pub Flows-quiet : (w w' : World) → w'.window ≡ w.window → w'.operations ≡ w.operations → Flows w w'
Flows-quiet w w' e f = SameFlight-Flows (record {
  window_same = e;
  alike = λ r. (ap (λ o. sent_of (o r)) f, ap (λ o. acked_of (o r)) f);
})

pub caught-Flows :
    (w : World) (r : Result BridgeError World) → OnReturn Flows w r → Flows w (caught w r).0
caught-Flows w r (returns h) = h
caught-Flows w r (throws {e = e}) = SameFlight-Flows (mark_dead-SameFlight e w)

complete_with_error-Flows :
    (id : ℕ) (operation : Operation) (e : BridgeError) (w : World)
    → Flows w (complete_with_error id operation e w)
unfolding complete_with_error
complete_with_error-Flows id (deferred operation) e w =
    SameFlight-Flows (complete_pending-SameFlight id (err e) w)
complete_with_error-Flows id (stream operation) e w =
    SameFlight-Flows (complete_stream-SameFlight id (err e) w)
complete_with_error-Flows id (websocket operation) e w =
    SameFlight-Flows (complete_websocket-SameFlight id e w)

abbrev acked_more : PendingStream → Upload → ℕ → Operation
acked_more operation upload bytes =
    stream (record operation { upload = some (record upload { acked = upload.acked + bytes }) })

-- An acknowledgement of no more bytes than are in flight.
Flows-ack :
    (r : ℕ) (operation : PendingStream) (upload : Upload) (bytes : ℕ) (w : World)
    → (upload.sent ≡ sent_of (w.operations r)) × (upload.acked ≡ acked_of (w.operations r))
    → bytes ≤ upload.sent - upload.acked
    → Flows w (set_operation r (acked_more operation upload bytes) w)
Flows-ack r operation upload bytes w e b = record {
  window_kept = refl;
  in_window = λ h s. elim (Bool-cases (s == r)) [
    | inl k ↦ rw k (omega (arith, h r, e, b), omega (arith, h r, e, b))
    | inr k ↦ rw k (h s)
  ];
}

module _ (codec : JsonCodec) (accepts : List Action → ℕ → Bool) where
  pub handle_error_frame-Flows :
      (frame : Frame) (r : ℕ) (w : World) → Flows w (handle_error_frame codec frame r w).0
  unfolding handle_error_frame
  handle_error_frame-Flows frame r w = elim (Bool-cases (not (length frame.body == 0))) [
    | inl e ↦ rw e (SameFlight-Flows (mark_dead-SameFlight _ w))
    | inr e ↦ rw e (
        caught-Flows w _ (
          OnReturn-decoded w _ (decode_meta codec error frame.meta) _
            (λ meta. returns (complete_with_error-Flows frame.id (w.operations r) _ w))))
  ]

  acknowledge-OnReturn :
      (r : ℕ) (operation : PendingStream) (upload : Upload) (bytes : ℕ) (w : World)
      → (upload.sent ≡ sent_of (w.operations r)) × (upload.acked ≡ acked_of (w.operations r))
      → OnReturn Flows w (acknowledge codec accepts r operation upload bytes w)
  unfolding acknowledge
  acknowledge-OnReturn r operation upload bytes w e =
      elim (Bool-cases (ltb (upload.sent - upload.acked) bytes)) [
        | inl k ↦ rw (k, acknowledge) throws
        | inr k ↦
            let f = Flows-ack r operation upload bytes w e (ground (arith, k)) in
            rw (k, acknowledge)
              (OnReturn-if w _ _ _
                (returns (record { window_kept = refl; in_window = f.in_window }))
                (returns (Flows-refl w)))
      ]

  on_body_ack-Flows :
      (frame : Frame) (r : ℕ) (operation : PendingStream) (o : Option Upload) (w : World)
      → w.operations r ≡ stream operation
      → operation.upload ≡ o
      → OnReturn Flows w (on_body_ack codec accepts frame r operation w)
  unfolding on_body_ack
  on_body_ack-Flows frame r operation none w h e = rw (e, on_body_ack) throws
  on_body_ack-Flows frame r operation (some upload) w h e =
      rw (e, on_body_ack)
        (OnReturn-throw w _ _ _ (
          OnReturn-decoded w _ (decode_meta codec ack frame.meta) _ (λ meta.
            acknowledge-OnReturn r operation upload (AckMeta.bytes meta) w
              (rw (h, e) (refl, refl)))))

  see_headers-SameFlight :
      (r : ℕ) (operation : PendingStream) (headers : ResponseHeadersMeta) (w : World)
      → w.operations r ≡ stream operation
      → SameFlight w (see_headers codec accepts r operation headers w)
  unfolding see_headers
  see_headers-SameFlight r operation headers w h =
      let seen : PendingStream = record operation { headers_seen = true } in
      let set = SameFlight-set r (stream seen) w (rw h (refl, refl)) in
      let stopped =
        stop_upload-SameFlight r seen (set_operation r (stream seen) w)
          (rw (==_refl r) (refl, refl)) in
      let both = SameFlight-trans set stopped in
      record { window_same = both.window_same; alike = both.alike }

  on_headers-Flows :
      (frame : Frame) (r : ℕ) (operation : PendingStream) (w : World)
      → w.operations r ≡ stream operation
      → OnReturn Flows w (on_headers codec accepts frame r operation w)
  unfolding on_headers
  on_headers-Flows frame r operation w h = OnReturn-throw w _ _ _ (
      OnReturn-decoded w _ (decode_meta codec response_headers frame.meta) _
        (λ headers. returns (SameFlight-Flows (see_headers-SameFlight r operation headers w h))))

  on_chunk-Flows :
      (frame : Frame) (r : ℕ) (w : World) → OnReturn Flows w (on_chunk codec accepts frame r w)
  unfolding on_chunk
  on_chunk-Flows frame r w = OnReturn-throw w _ _ _ (
      OnReturn-decoded w _ (decode_empty_meta codec frame.meta) _ (λ meta.
        OnReturn-throw w (ltb w.chunk_size (length frame.body))
          (protocol_error (chunk_length_exceeds (length frame.body) w.chunk_size)) _
          (OnReturn-throw w (not (accepts w.log r)) (fail_protocol "stream chunk queue is closed") _
            (returns (Flows-quiet w _ refl refl)))))

  on_end-Flows : (frame : Frame) (w : World) → OnReturn Flows w (on_end codec accepts frame w)
  unfolding on_end
  on_end-Flows frame w = OnReturn-throw w _ _ _ (
      OnReturn-decoded w _ (decode_meta codec end frame.meta) _
        (λ meta. returns (SameFlight-Flows (complete_stream-SameFlight frame.id (ok meta) w))))

  pub handle_stream_frame-Flows :
      (frame : Frame) (r : ℕ) (operation : PendingStream) (w : World)
      → w.operations r ≡ stream operation
      → Flows w (handle_stream_frame codec accepts frame r operation w).0
  unfolding handle_stream_frame stream_frame
  handle_stream_frame-Flows frame r operation w h = elim (Bool-cases (frame.kind == Kind.error)) [
    | inl e ↦ rw e (handle_error_frame-Flows frame r w)
    | inr e ↦ rw e (
        caught-Flows w _ (
          OnReturn-if w _ _ _ (on_body_ack-Flows frame r operation operation.upload w h refl) (
            OnReturn-if w _ _ _ (on_headers-Flows frame r operation w h) (
              OnReturn-if w _ _ _ throws (
                OnReturn-if w _ _ _ (on_chunk-Flows frame r w)
                  (OnReturn-if w _ _ _ (on_end-Flows frame w) throws))))))
  ]
