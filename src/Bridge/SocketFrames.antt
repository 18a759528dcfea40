-- ===== src/Bridge/SocketFrames.antt =====
-- Frames for a WebSocket: `handleWebSocketFrame` of
-- packages/effect-tls-client/src/internal/Bridge.ts. `accepts` is as in StreamFrames.
use text.Mathlib.Text.{◌==◌ as str_eq}
use effect_tls_client.Prelude.{
  ℕ, Bool, true, not, ◌||◌, Option, some, List, [], ◌∷◌, ◌==◌, length, if◌then◌else◌, Result, ok,
  err, ◌>>=◌, ◌>>◌, throw_if,
}
use effect_tls_client.Frame.Kind
use effect_tls_client.Frame.Codec.{Frame}
use effect_tls_client.Protocol.Metadata.{WsFrameMeta, WsClosedMeta}
use effect_tls_client.Protocol.Schema.{JsonCodec, decode_meta, ws_open, ws_frame, ws_closed}
use effect_tls_client.Errors.{BridgeError, plain, closed_with_code, websocket_error, read, closed}
use effect_tls_client.Bridge.World.{
  World, websocket, PendingWebSocket, Action, emit, set_operation, settle_open, offer_frame,
}
use effect_tls_client.Bridge.Settle.{complete_websocket}
use effect_tls_client.Bridge.ErrorFrames.{
  fail_protocol, websocket_failure, decoded, caught, handle_error_frame,
}

module _ (codec : JsonCodec) (accepts : List Action → ℕ → Bool) where
  unfoldable pub on_ws_open : Frame → ℕ → PendingWebSocket → World → Result BridgeError World
  on_ws_open frame r operation w = do
    throw_if (operation.opened || not (length frame.body == 0))
        (fail_protocol "invalid or duplicate ws.open frame")
    open' ← decoded "invalid WebSocket response metadata" (decode_meta codec ws_open frame.meta)
    ok (
        emit (settle_open r (ok open') ∷ [])
          (set_operation r (websocket (record operation { opened = true })) w))

  unfoldable pub on_ws_frame : Frame → ℕ → PendingWebSocket → World → Result BridgeError World
  on_ws_frame frame r operation w = do
    throw_if (not operation.opened) (fail_protocol "ws.frame received before ws.open")
    meta ← decoded "invalid WebSocket response metadata" (decode_meta codec ws_frame frame.meta)
    (if accepts w.log r
        then ok (emit (offer_frame r (WsFrameMeta.opcode meta) frame.body ∷ []) w)
        else ok (
            complete_websocket frame.id
              (websocket_failure (plain "WebSocket frame queue capacity exceeded") read) w))

  unfoldable pub closed_error : WsClosedMeta → BridgeError
  closed_error meta = websocket_error (record {
    kind = closed;
    message = if str_eq meta.reason "" then closed_with_code meta.code else plain meta.reason;
    code = some meta.code;
    reason = some meta.reason;
    initiator = some meta.initiator;
  })

  unfoldable pub on_ws_closed : Frame → World → Result BridgeError World
  unfolding closed_error
  on_ws_closed frame w = do
    throw_if (not (length frame.body == 0)) (fail_protocol "ws.closed frame cannot contain a body")
    meta ← decoded "invalid WebSocket response metadata" (decode_meta codec ws_closed frame.meta)
    ok (complete_websocket frame.id (closed_error meta) w)

  -- The `try` block of `handleWebSocketFrame`.
  unfoldable pub websocket_frame : Frame → ℕ → PendingWebSocket → World → Result BridgeError World
  unfolding on_ws_open on_ws_frame on_ws_closed
  websocket_frame frame r operation w =
      if frame.kind == Kind.ws_open
      then on_ws_open frame r operation w
      else if frame.kind == Kind.ws_frame
      then on_ws_frame frame r operation w
      else if frame.kind == Kind.ws_closed
      then on_ws_closed frame w
      else err (fail_protocol "expected ws.open, ws.frame, ws.closed, or error")

  unfoldable pub handle_websocket_frame :
      Frame → ℕ → PendingWebSocket → World → World × Option BridgeError
  unfolding websocket_frame
  handle_websocket_frame frame r operation w =
      if frame.kind == Kind.error
      then handle_error_frame codec frame r w
      else caught w (websocket_frame frame r operation w)
