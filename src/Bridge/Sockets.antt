-- ===== src/Bridge/Sockets.antt =====
-- `webSocket` of packages/effect-tls-client/src/internal/Bridge.ts: connecting, and the `pull`,
-- `write` and `close` of an open connection.
use Prim.Native.String.{String}
use text.Mathlib.Text.{◌==◌ as str_eq}
use effect_tls_client.Prelude.{
  ℕ, ◌+◌, ◌-◌, ◌/◌, Bool, true, false, not, ◌||◌, Option, none, some, or_else, List, [], ◌∷◌,
  length, max, if◌then◌else◌, Result, ok, err,
}
use effect_tls_client.Prelude.Int.{ℤ, pos}
use effect_tls_client.Frame.Kind
use effect_tls_client.Protocol.Metadata.{WsConnectMeta, Opcode, locally}
use effect_tls_client.Protocol.Schema.{
  JsonCodec, encode_meta, ws_connect, ws_write, ws_close, ack, is_some,
}
use effect_tls_client.Errors.{
  BridgeError, Message, plain, closed_with_code, websocket_error, closed,
}
use effect_tls_client.Bridge.World.{
  World, Operation, websocket, get_dead, emit, set_operation, fail_queue,
}
use effect_tls_client.Bridge.ErrorFrames.{fail_protocol}
use effect_tls_client.Bridge.Writing.{write_frame, frame_input, register}
use effect_tls_client.Bridge.Calls.{Ticket, is_pending, open_checked}

abbrev pub ws_queue_capacity : ℕ
ws_queue_capacity = 16384

-- `Math.ceil(window / WS_QUEUE_CAPACITY)` is the last part.
unfoldable pub web_socket_credit : ℕ → ℕ → ℕ
web_socket_credit window body_bytes =
    max 1 (max body_bytes ((window + (ws_queue_capacity - 1)) / ws_queue_capacity))

unfoldable pub register_socket : List ℕ → ℕ × World → World × Result BridgeError Ticket
register_socket meta (id, w) = (
  register id (websocket (record { opened = false; close_sent = false; failure = none })) w,
  ok (record { id = id; operation = w.fresh; input = frame_input Kind.ws_connect id meta none }),
)

-- `meta` is `none` where `decodeUnknownSync` throws.
unfoldable pub check_socket : JsonCodec → Option WsConnectMeta → World → Result BridgeError (List ℕ)
check_socket codec meta w = elim (get_dead w) [
  | some error ↦ err error
  | none ↦ elim meta [
    | none ↦ err (fail_protocol "invalid WebSocket metadata")
    | some meta' ↦ ok (encode_meta codec ws_connect meta')
  ]
]

unfoldable pub begin_web_socket :
    JsonCodec → Option WsConnectMeta → World → Option (World × Result BridgeError Ticket)
begin_web_socket codec meta w = open_checked w (check_socket codec meta w) register_socket

-- `pull`, with the frame that it takes off the queue.
unfoldable pub pull :
    JsonCodec → Bool → Ticket → List ℕ → World → World × Result BridgeError (Unit {0})
pull codec stdin_ok t body w =
    write_frame stdin_ok
      (frame_input Kind.ack t.id
        (encode_meta codec ack (record { bytes = web_socket_credit w.window (length body) })) none)
      w

unfoldable pub closed_error : Message → Option ℤ → Option String → BridgeError
closed_error message code reason = websocket_error (record {
  kind = closed;
  message = message;
  code = code;
  reason = reason;
  initiator = some locally;
})

unfoldable pub failure_of : Operation → Option BridgeError
failure_of (websocket operation) = operation.failure
failure_of _ = none

unfoldable pub write_socket :
    JsonCodec → Bool → Ticket → Opcode → List ℕ → World → World × Result BridgeError (Unit {0})
unfolding failure_of closed_error
write_socket codec stdin_ok t opcode body w =
    if not (is_pending t.id t.operation w)
    then (
      w,
      err (
          or_else (failure_of (w.operations t.operation))
            (closed_error (plain "WebSocket is closed") (some (pos 1000)) (some ""))),
    )
    else write_frame stdin_ok
        (frame_input Kind.ws_write t.id (encode_meta codec ws_write (record { opcode = opcode }))
          (some body))
        w

unfoldable pub close_once : JsonCodec → Bool → Ticket → ℤ → String → Operation → World → World
unfolding closed_error
close_once codec stdin_ok t code reason (websocket operation) w =
    if operation.close_sent
    then w
    else (let message = if str_eq reason "" then closed_with_code code else plain reason in
        let failing =
          emit (fail_queue t.operation (closed_error message (some code) (some reason)) ∷ [])
            (set_operation t.operation (websocket (record operation { close_sent = true })) w) in
        (write_frame stdin_ok
          (frame_input Kind.ws_close t.id
            (encode_meta codec ws_close (record { code = some code; reason = some reason })) none)
          failing).0)
close_once codec stdin_ok t code reason _ w = w

-- `close`; a failing write is ignored.
unfoldable pub close_socket : JsonCodec → Bool → Ticket → ℤ → String → World → World
unfolding close_once
close_socket codec stdin_ok t code reason w =
    if is_some w.dead || (w.closing || not (is_pending t.id t.operation w))
    then w
    else close_once codec stdin_ok t code reason (w.operations t.operation) w
