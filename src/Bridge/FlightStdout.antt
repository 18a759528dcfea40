-- ===== src/Bridge/FlightStdout.antt =====
-- A chunk of stdout keeps the bytes in flight of each upload within the window: `handleFrame` and
-- `processChunk` of packages/effect-tls-client/src/internal/Bridge.ts.
use effect_tls_client.Prelude.{
  ℕ, ◌≡◌, refl, Bool, true, Option, none, some, List, [], ◌∷◌, ◌==◌, Result, ok, err, ◌>>=◌, ◌>>◌,
  Option-cases, Bool-cases, inl, inr,
}
use effect_tls_client.Prelude.Assoc.{lookup}
use effect_tls_client.Frame.Kind
use effect_tls_client.Frame.Codec.{Frame, FrameCodecError}
use effect_tls_client.Frame.Decoder.{FrameDecoder, push}
use effect_tls_client.Protocol.Schema.{JsonCodec, decode_meta, ws_open, ws_frame, ws_closed}
use effect_tls_client.Errors.{BridgeError}
use effect_tls_client.Bridge.World.{
  World, Operation, deferred, stream, websocket, PendingWebSocket, PendingDeferred, Action, emit,
  kill,
}
use effect_tls_client.Bridge.Settle.{mark_dead, complete_pending}
use effect_tls_client.Bridge.ErrorFrames.{decoded}
use effect_tls_client.Bridge.SocketFrames.{
  on_ws_open, on_ws_frame, on_ws_closed, websocket_frame, handle_websocket_frame,
}
use effect_tls_client.Bridge.Dispatch.{
  check_answer, deferred_frame, handle_operation_frame, handle_frame, handle_frames, process_pushed,
  process_chunk, on_stdout, unless_failed, kill_if_failed,
}
use effect_tls_client.Bridge.Returns.{
  OnReturn, returns, throws, OnReturn-throw, OnReturn-decoded, OnReturn-if,
}
use effect_tls_client.Bridge.Flight.{
  Flows, SameFlight-Flows, Flows-trans, SameFlight-set, mark_dead-SameFlight,
  complete_pending-SameFlight, complete_websocket-SameFlight,
}
use effect_tls_client.Bridge.FlightStream.{
  Flows-refl, Flows-quiet, caught-Flows, handle_error_frame-Flows, handle_stream_frame-Flows,
}

module _ (codec : JsonCodec) (accepts : List Action → ℕ → Bool) where
  on_ws_open-Flows :
      (frame : Frame) (r : ℕ) (operation : PendingWebSocket) (w : World)
      → w.operations r ≡ websocket operation
      → OnReturn Flows w (on_ws_open codec accepts frame r operation w)
  unfolding on_ws_open
  on_ws_open-Flows frame r operation w h = OnReturn-throw w _ _ _ (
      OnReturn-decoded w _ (decode_meta codec ws_open frame.meta) _ (λ meta.
        let set =
          SameFlight-set r (websocket (record operation { opened = true })) w (rw h (refl, refl)) in
        returns (SameFlight-Flows (record { window_same = refl; alike = set.alike }))))

  on_ws_frame-Flows :
      (frame : Frame) (r : ℕ) (operation : PendingWebSocket) (w : World)
      → OnReturn Flows w (on_ws_frame codec accepts frame r operation w)
  unfolding on_ws_frame
  on_ws_frame-Flows frame r operation w = OnReturn-throw w _ _ _ (
      OnReturn-decoded w _ (decode_meta codec ws_frame frame.meta) _ (λ meta.
        OnReturn-if w (accepts w.log r) _ _ (returns (Flows-quiet w _ refl refl))
          (returns (SameFlight-Flows (complete_websocket-SameFlight frame.id _ w)))))

  on_ws_closed-Flows :
      (frame : Frame) (w : World) → OnReturn Flows w (on_ws_closed codec accepts frame w)
  unfolding on_ws_closed
  on_ws_closed-Flows frame w = OnReturn-throw w _ _ _ (
      OnReturn-decoded w _ (decode_meta codec ws_closed frame.meta) _
        (λ meta. returns (SameFlight-Flows (complete_websocket-SameFlight frame.id _ w))))

  handle_websocket_frame-Flows :
      (frame : Frame) (r : ℕ) (operation : PendingWebSocket) (w : World)
      → w.operations r ≡ websocket operation
      → Flows w (handle_websocket_frame codec accepts frame r operation w).0
  unfolding handle_websocket_frame websocket_frame
  handle_websocket_frame-Flows frame r operation w h =
      elim (Bool-cases (frame.kind == Kind.error)) [
        | inl e ↦ rw e (handle_error_frame-Flows codec accepts frame r w)
        | inr e ↦ rw e (
            caught-Flows w _ (
              OnReturn-if w _ _ _ (on_ws_open-Flows frame r operation w h) (
                OnReturn-if w _ _ _ (on_ws_frame-Flows frame r operation w)
                  (OnReturn-if w _ _ _ (on_ws_closed-Flows frame w) throws))))
      ]

  answered-Flows :
      (frame : Frame) (operation : PendingDeferred) (w : World)
      → (answer : Result BridgeError (Unit {0}))
      → OnReturn Flows w (
          answer
          >> (decoded "invalid response metadata" (decode_meta codec operation.response frame.meta)
              >>= λ _. ok (complete_pending frame.id (ok frame) w)))
  answered-Flows frame operation w (err e) = throws
  answered-Flows frame operation w (ok _) =
      OnReturn-decoded w _ (decode_meta codec operation.response frame.meta) _
        (λ meta. returns (SameFlight-Flows (complete_pending-SameFlight frame.id (ok frame) w)))

  handle_operation_frame-Flows :
      (frame : Frame) (r : ℕ) (operation : Operation) (w : World)
      → w.operations r ≡ operation
      → Flows w (handle_operation_frame codec accepts frame r operation w).0
  unfolding handle_operation_frame deferred_frame
  handle_operation_frame-Flows frame r (stream operation) w h =
      handle_stream_frame-Flows codec accepts frame r operation w h
  handle_operation_frame-Flows frame r (websocket operation) w h =
      handle_websocket_frame-Flows frame r operation w h
  handle_operation_frame-Flows frame r (deferred operation) w h =
      elim (Bool-cases (frame.kind == Kind.error)) [
        | inl e ↦ rw e (handle_error_frame-Flows codec accepts frame r w)
        | inr e ↦ rw e (
            caught-Flows w _ (
              answered-Flows frame operation w
                (check_answer codec accepts frame operation.expected)))
      ]

  handle_frame-Flows : (frame : Frame) (w : World) → Flows w (handle_frame codec accepts frame w).0
  unfolding handle_frame
  handle_frame-Flows frame w = elim (Option-cases (lookup frame.id w.pending)) [
    | inl e ↦ rw (e, handle_frame) (Flows-refl w)
    | inr (r, e) ↦
        rw (e, handle_frame) (handle_operation_frame-Flows frame r (w.operations r) w refl)
  ]

  unless_failed-Flows :
      (rest : World → World × Option BridgeError) (w : World) (p : World × Option BridgeError)
      → ((v : World) → Flows v (rest v).0)
      → Flows w p.0
      → Flows w (unless_failed rest p).0
  unless_failed-Flows rest w (v, none) h s = Flows-trans s (h v)
  unless_failed-Flows rest w (v, some failure) h s = s

  handle_frames-Flows :
      (frames : List Frame) (w : World) → Flows w (handle_frames codec accepts frames w).0
  unfolding handle_frames
  handle_frames-Flows [] w = Flows-refl w
  handle_frames-Flows (f ∷ fs) w =
      unless_failed-Flows (handle_frames codec accepts fs) w (handle_frame codec accepts f w)
        (λ v. handle_frames-Flows fs v) (handle_frame-Flows f w)

  process_pushed-Flows :
      (w : World) (p : FrameDecoder × Result FrameCodecError (List Frame))
      → Flows w (process_pushed codec accepts w p).0
  unfolding process_pushed
  process_pushed-Flows w (decoder, ok frames) =
      Flows-trans (Flows-quiet w (record w { decoder = decoder }) refl refl)
        (handle_frames-Flows frames _)
  process_pushed-Flows w (decoder, err e) = Flows-quiet w _ refl refl

  pub on_stdout-Flows : (chunk : List ℕ) (w : World) → Flows w (on_stdout codec accepts chunk w)
  unfolding on_stdout process_chunk
  on_stdout-Flows chunk w =
      killed (process_chunk codec accepts chunk w) (process_pushed-Flows w (push w.decoder chunk))
    where
      killed : (p : World × Option BridgeError) → Flows w p.0 → Flows w (kill_if_failed p)
      killed (v, none) s = s
      killed (v, some failure) s = Flows-trans s (
          Flows-trans (SameFlight-Flows (mark_dead-SameFlight failure v))
            (Flows-quiet (mark_dead failure v) (emit (kill ∷ []) (mark_dead failure v)) refl refl))
