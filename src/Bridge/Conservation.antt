-- ===== src/Bridge/Conservation.antt =====
-- The handlers of packages/effect-tls-client/src/internal/Bridge.ts end each operation that they
-- take out of the map, and no other: no frame, chunk or exit loses an operation or ends one twice.
use effect_tls_client.Prelude.{
  ℕ, ◌≡◌, refl, Bool, true, not, Option, none, some, List, [], ◌∷◌, ◌==◌, ltb, length, Result, ok,
  err, ◌>>=◌, ◌>>◌, Option-cases, Bool-cases, inl, inr,
}
use effect_tls_client.Prelude.Assoc.{lookup}
use effect_tls_client.Frame.Kind
use effect_tls_client.Frame.Codec.{Frame, FrameCodecError}
use effect_tls_client.Frame.Decoder.{FrameDecoder, push}
use effect_tls_client.Protocol.Metadata.{WsFrameMeta}
use effect_tls_client.Protocol.Schema.{
  JsonCodec, decode_meta, decode_empty_meta, error, ack, response_headers, end, ws_open, ws_frame,
  ws_closed,
}
use effect_tls_client.Errors.{BridgeError, protocol_error, chunk_length_exceeds}
use effect_tls_client.Bridge.World.{
  World, Operation, deferred, stream, websocket, PendingStream, PendingWebSocket, PendingDeferred,
  Upload, Action, settle_headers, settle_open, settle_wake, offer_chunk, offer_frame, kill,
  set_operation,
}
use effect_tls_client.Bridge.Settle.{complete_pending}
use effect_tls_client.Bridge.ErrorFrames.{decoded, handle_error_frame, fail_protocol}
use effect_tls_client.Bridge.StreamFrames.{
  acknowledge, on_body_ack, see_headers, on_headers, on_chunk, on_end, stream_frame,
  handle_stream_frame,
}
use effect_tls_client.Bridge.SocketFrames.{
  on_ws_open, on_ws_frame, on_ws_closed, websocket_frame, handle_websocket_frame,
}
use effect_tls_client.Bridge.Dispatch.{
  check_answer, deferred_frame, handle_operation_frame, handle_frame, handle_frames, process_pushed,
  process_chunk, on_stdout, unless_failed, kill_if_failed,
}
use effect_tls_client.Bridge.Ledger.{ends, Settles, Settles-quiet, Settles-refl, Settles-trans}
use effect_tls_client.Bridge.Ending.{
  mark_dead-Settles, complete_pending-Settles, complete_websocket-Settles, complete_stream-Settles,
}
use effect_tls_client.Bridge.Returns.{
  OnReturn, returns, throws, OnReturn-throw, OnReturn-decoded, OnReturn-if, caught-Settles,
  Settles-emit, Settles-set, stop_upload-Settles, complete_with_error-Settles,
}

module _ (codec : JsonCodec) (accepts : List Action → ℕ → Bool) where
  handle_error_frame-Settles :
      (frame : Frame) (r : ℕ) (w : World) → Settles w (handle_error_frame codec frame r w).0
  unfolding handle_error_frame
  handle_error_frame-Settles frame r w = elim (Bool-cases (not (length frame.body == 0))) [
    | inl e ↦ rw e (mark_dead-Settles _ w)
    | inr e ↦ rw e (
        caught-Settles w _ (
          OnReturn-decoded w _ (decode_meta codec error frame.meta) _
            (λ meta. returns (complete_with_error-Settles frame.id (w.operations r) _ w))))
  ]

  on_body_ack-OnReturn :
      (frame : Frame) (r : ℕ) (operation : PendingStream) (o : Option Upload) (w : World)
      → operation.upload ≡ o
      → OnReturn Settles w (on_body_ack codec accepts frame r operation w)
  unfolding on_body_ack acknowledge ends
  on_body_ack-OnReturn frame r operation none w e = rw (e, on_body_ack) throws
  on_body_ack-OnReturn frame r operation (some upload) w e =
      rw (e, on_body_ack)
        (OnReturn-throw w _ _ _ (
          OnReturn-decoded w _ (decode_meta codec ack frame.meta) _ (λ meta.
            OnReturn-throw w _ _ _ (
              OnReturn-if w _ _ _
                (returns
                  (Settles-trans (Settles-set r _ w) (Settles-emit (settle_wake r) _ (λ s. refl))))
                (returns (Settles-refl w))))))

  on_headers-OnReturn :
      (frame : Frame) (r : ℕ) (operation : PendingStream) (w : World)
      → OnReturn Settles w (on_headers codec accepts frame r operation w)
  unfolding on_headers see_headers ends
  on_headers-OnReturn frame r operation w = OnReturn-throw w _ _ _ (
      OnReturn-decoded w _ (decode_meta codec response_headers frame.meta) _ (λ headers.
        let seen : PendingStream = record operation { headers_seen = true } in
        returns (
          Settles-trans (Settles-set r (stream seen) w) (
            Settles-trans (stop_upload-Settles r seen (set_operation r (stream seen) w))
              (Settles-emit (settle_headers r (ok headers)) _ (λ s. refl))))))

  on_chunk-OnReturn :
      (frame : Frame) (r : ℕ) (w : World) → OnReturn Settles w (on_chunk codec accepts frame r w)
  unfolding on_chunk ends
  on_chunk-OnReturn frame r w = OnReturn-throw w _ _ _ (
      OnReturn-decoded w _ (decode_empty_meta codec frame.meta) _ (λ meta.
        OnReturn-throw w (ltb w.chunk_size (length frame.body))
          (protocol_error (chunk_length_exceeds (length frame.body) w.chunk_size)) _
          (OnReturn-throw w (not (accepts w.log r)) (fail_protocol "stream chunk queue is closed") _
            (returns (Settles-emit (offer_chunk r frame.body) w (λ s. refl))))))

  on_end-OnReturn : (frame : Frame) (w : World) → OnReturn Settles w (on_end codec accepts frame w)
  unfolding on_end
  on_end-OnReturn frame w = OnReturn-throw w _ _ _ (
      OnReturn-decoded w _ (decode_meta codec end frame.meta) _
        (λ meta. returns (complete_stream-Settles frame.id (ok meta) w)))

  handle_stream_frame-Settles :
      (frame : Frame) (r : ℕ) (operation : PendingStream) (w : World)
      → Settles w (handle_stream_frame codec accepts frame r operation w).0
  unfolding handle_stream_frame stream_frame
  handle_stream_frame-Settles frame r operation w = elim (Bool-cases (frame.kind == Kind.error)) [
    | inl e ↦ rw e (handle_error_frame-Settles frame r w)
    | inr e ↦ rw e (
        caught-Settles w _ (
          OnReturn-if w _ _ _ (on_body_ack-OnReturn frame r operation operation.upload w refl) (
            OnReturn-if w _ _ _ (on_headers-OnReturn frame r operation w) (
              OnReturn-if w _ _ _ throws (
                OnReturn-if w _ _ _ (on_chunk-OnReturn frame r w)
                  (OnReturn-if w _ _ _ (on_end-OnReturn frame w) throws))))))
  ]

  on_ws_open-OnReturn :
      (frame : Frame) (r : ℕ) (operation : PendingWebSocket) (w : World)
      → OnReturn Settles w (on_ws_open codec accepts frame r operation w)
  unfolding on_ws_open ends
  on_ws_open-OnReturn frame r operation w = OnReturn-throw w _ _ _ (
      OnReturn-decoded w _ (decode_meta codec ws_open frame.meta) _ (λ meta.
        returns (
          Settles-trans (Settles-set r _ w)
            (Settles-emit (settle_open r (ok meta)) _ (λ s. refl)))))

  on_ws_frame-OnReturn :
      (frame : Frame) (r : ℕ) (operation : PendingWebSocket) (w : World)
      → OnReturn Settles w (on_ws_frame codec accepts frame r operation w)
  unfolding on_ws_frame ends
  on_ws_frame-OnReturn frame r operation w = OnReturn-throw w _ _ _ (
      OnReturn-decoded w _ (decode_meta codec ws_frame frame.meta) _ (λ meta.
        OnReturn-if w (accepts w.log r) _ _
          (returns
            (Settles-emit (offer_frame r (WsFrameMeta.opcode meta) frame.body) w (λ s. refl)))
          (returns (complete_websocket-Settles frame.id _ w))))

  on_ws_closed-OnReturn :
      (frame : Frame) (w : World) → OnReturn Settles w (on_ws_closed codec accepts frame w)
  unfolding on_ws_closed
  on_ws_closed-OnReturn frame w = OnReturn-throw w _ _ _ (
      OnReturn-decoded w _ (decode_meta codec ws_closed frame.meta) _
        (λ meta. returns (complete_websocket-Settles frame.id _ w)))

  handle_websocket_frame-Settles :
      (frame : Frame) (r : ℕ) (operation : PendingWebSocket) (w : World)
      → Settles w (handle_websocket_frame codec accepts frame r operation w).0
  unfolding handle_websocket_frame websocket_frame
  handle_websocket_frame-Settles frame r operation w =
      elim (Bool-cases (frame.kind == Kind.error)) [
        | inl e ↦ rw e (handle_error_frame-Settles frame r w)
        | inr e ↦ rw e (
            caught-Settles w _ (
              OnReturn-if w _ _ _ (on_ws_open-OnReturn frame r operation w) (
                OnReturn-if w _ _ _ (on_ws_frame-OnReturn frame r operation w)
                  (OnReturn-if w _ _ _ (on_ws_closed-OnReturn frame w) throws))))
      ]

  answered-OnReturn :
      (frame : Frame) (operation : PendingDeferred) (w : World)
      → (answer : Result BridgeError (Unit {0}))
      → OnReturn Settles w (
          answer
          >> (decoded "invalid response metadata" (decode_meta codec operation.response frame.meta)
              >>= λ _. ok (complete_pending frame.id (ok frame) w)))
  answered-OnReturn frame operation w (err e) = throws
  answered-OnReturn frame operation w (ok _) =
      OnReturn-decoded w _ (decode_meta codec operation.response frame.meta) _
        (λ meta. returns (complete_pending-Settles frame.id (ok frame) w))

  handle_operation_frame-Settles :
      (frame : Frame) (r : ℕ) (operation : Operation) (w : World)
      → Settles w (handle_operation_frame codec accepts frame r operation w).0
  unfolding handle_operation_frame deferred_frame
  handle_operation_frame-Settles frame r (stream operation) w =
      handle_stream_frame-Settles frame r operation w
  handle_operation_frame-Settles frame r (websocket operation) w =
      handle_websocket_frame-Settles frame r operation w
  handle_operation_frame-Settles frame r (deferred operation) w =
      elim (Bool-cases (frame.kind == Kind.error)) [
        | inl e ↦ rw e (handle_error_frame-Settles frame r w)
        | inr e ↦ rw e (
            caught-Settles w _ (
              answered-OnReturn frame operation w
                (check_answer codec accepts frame operation.expected)))
      ]

  handle_frame-Settles :
      (frame : Frame) (w : World) → Settles w (handle_frame codec accepts frame w).0
  unfolding handle_frame
  handle_frame-Settles frame w = elim (Option-cases (lookup frame.id w.pending)) [
    | inl e ↦ rw (e, handle_frame) (Settles-refl w)
    | inr (r, e) ↦ rw (e, handle_frame) (handle_operation_frame-Settles frame r (w.operations r) w)
  ]

  unless_failed-Settles :
      (rest : World → World × Option BridgeError) (w : World) (p : World × Option BridgeError)
      → ((v : World) → Settles v (rest v).0)
      → Settles w p.0
      → Settles w (unless_failed rest p).0
  unless_failed-Settles rest w (v, none) h s = Settles-trans s (h v)
  unless_failed-Settles rest w (v, some failure) h s = s

  handle_frames-Settles :
      (frames : List Frame) (w : World) → Settles w (handle_frames codec accepts frames w).0
  unfolding handle_frames
  handle_frames-Settles [] w = Settles-refl w
  handle_frames-Settles (f ∷ fs) w =
      unless_failed-Settles (handle_frames codec accepts fs) w (handle_frame codec accepts f w)
        (λ v. handle_frames-Settles fs v) (handle_frame-Settles f w)

  process_pushed-Settles :
      (w : World) (p : FrameDecoder × Result FrameCodecError (List Frame))
      → Settles w (process_pushed codec accepts w p).0
  unfolding process_pushed
  process_pushed-Settles w (decoder, ok frames) =
      Settles-trans (Settles-quiet w _ refl refl refl (λ r. refl)) (handle_frames-Settles frames _)
  process_pushed-Settles w (decoder, err e) = Settles-quiet w _ refl refl refl (λ r. refl)

  -- Whatever bytes a chunk of the Bridge's stdout holds: where the ids in the map are distinct, each
  -- operation stays pending or is ended, as often as it was pending, the ids stay distinct, and the
  -- error that the connection died of stays; and no new reference comes into use.
  pub on_stdout-Settles : (chunk : List ℕ) (w : World) → Settles w (on_stdout codec accepts chunk w)
  unfolding on_stdout process_chunk ends
  on_stdout-Settles chunk w =
      killed (process_chunk codec accepts chunk w) (process_pushed-Settles w (push w.decoder chunk))
    where
      killed : (p : World × Option BridgeError) → Settles w p.0 → Settles w (kill_if_failed p)
      killed (v, none) s = s
      killed (v, some failure) s =
          Settles-trans s
            (Settles-trans (mark_dead-Settles failure v) (Settles-emit kill _ (λ r. refl)))
