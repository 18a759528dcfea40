-- ===== src/Bridge/ErrorFrames.antt =====
-- Error frames: `errorFromMeta` and `handleErrorFrame` of
-- packages/effect-tls-client/src/internal/Bridge.ts.
use Prim.Native.String.{String}
use text.Mathlib.Text.{◌==◌ as str_eq}
use effect_tls_client.Prelude.{
  ℕ, Bool, true, false, not, Option, none, some, List, [], ◌∷◌, ◌==◌, length, if◌then◌else◌, Result,
  ok, err, ◌>>=◌,
}
use effect_tls_client.Prelude.Int.{pos}
use effect_tls_client.Frame.Codec.{Frame}
use effect_tls_client.Protocol.Metadata.{
  ErrorMeta, ErrorKind, Unknown, not_text, locally, protocol, session_config, session_not_found,
  internal, ws_handshake, ws_read, ws_write, cancelled,
}
use effect_tls_client.Protocol.Schema.{JsonCodec, decode_meta, error}
use effect_tls_client.Errors.{
  BridgeError, Message, WebSocketErrorKind, plain, unsupported_kind, protocol_error,
  session_config_error, session_not_found_error, request_error, websocket_error, handshake, read,
  write, closed, is_request_error_kind, is_transient_request_kind,
}
use effect_tls_client.Bridge.World.{World, Operation, deferred, stream, websocket, PendingStream}
use effect_tls_client.Bridge.Settle.{
  mark_dead, complete_pending, complete_websocket, complete_stream,
}

abbrev pub fail_protocol : String → BridgeError
fail_protocol message = protocol_error (plain message)

-- `meta.detail["sessionId"]`, where it is a string.
unfoldable pub detail_session_id : List (String × Unknown) → String
detail_session_id [] = ""
detail_session_id ((key, value) ∷ detail) =
    if str_eq key "sessionId"
    then elim value [ Unknown.text s ↦ s | not_text ↦ "" ]
    else detail_session_id detail

unfoldable pub session_id_of : Option (List (String × Unknown)) → String
session_id_of none = ""
session_id_of (some detail) = detail_session_id detail

abbrev pub websocket_failure : Message → WebSocketErrorKind → BridgeError
websocket_failure message kind =
    websocket_error
      (record { kind = kind; message = message; code = none; reason = none; initiator = none })

unfoldable pub request_error_of : ErrorMeta → BridgeError
request_error_of meta =
    if not (is_request_error_kind meta.kind)
    then protocol_error (unsupported_kind meta.kind)
    else request_error (record {
      kind = meta.kind;
      message = plain meta.message;
      is_transient = is_transient_request_kind meta.kind;
      detail = meta.detail;
    })

unfoldable pub error_of_kind : ErrorKind → ErrorMeta → BridgeError
error_of_kind protocol meta = protocol_error (plain meta.message)
error_of_kind session_config meta = session_config_error (plain meta.message)
error_of_kind session_not_found meta =
    session_not_found_error (session_id_of meta.detail) (plain meta.message)
error_of_kind internal meta = protocol_error (plain meta.message)
error_of_kind ws_handshake meta = websocket_failure (plain meta.message) handshake
error_of_kind ws_read meta = websocket_failure (plain meta.message) read
error_of_kind ws_write meta = websocket_failure (plain meta.message) write
error_of_kind _ meta = request_error_of meta

unfoldable pub error_from_meta : ErrorMeta → BridgeError
unfolding error_of_kind request_error_of session_id_of detail_session_id
error_from_meta meta = error_of_kind meta.kind meta

-- A handler that has caught what its `try` block threw, with `markDead`; else its new state.
abbrev pub caught : World → Result BridgeError World → World × Option BridgeError
caught w (ok w') = (w', none)
caught w (err e) = (mark_dead e w, some e)

-- `decodeMeta` in a `try` block whose handler makes `message` of any other exception.
abbrev pub decoded {ℓ} : {A : Type ℓ} → String → Option A → Result BridgeError A
decoded message none = err (fail_protocol message)
decoded message (some a) = ok a

unfoldable pub is_cancelled : ErrorKind → Bool
is_cancelled cancelled = true
is_cancelled _ = false

-- The upload's own failure, while no headers have come.
unfoldable pub upload_failure : PendingStream → Option BridgeError
upload_failure operation =
    if operation.headers_seen
    then none
    else elim operation.upload [ none ↦ none | some upload ↦ upload.failure ]

-- The error that an operation ends with.
unfoldable pub adjust_error : Operation → ErrorMeta → BridgeError → BridgeError
unfolding upload_failure is_cancelled
adjust_error (deferred operation) meta e = e
adjust_error (websocket operation) meta e =
    if is_cancelled meta.kind
    then websocket_error (record {
      kind = closed;
      message = plain meta.message;
      code = some (pos 1000);
      reason = some meta.message;
      initiator = some locally;
    })
    else e
adjust_error (stream operation) meta e = elim (upload_failure operation) [
  | none ↦ e
  | some failure ↦ failure
]

unfoldable pub complete_with_error : ℕ → Operation → BridgeError → World → World
complete_with_error id (stream operation) e w = complete_stream id (err e) w
complete_with_error id (websocket operation) e w = complete_websocket id e w
complete_with_error id (deferred operation) e w = complete_pending id (err e) w

module _ (codec : JsonCodec) where
  unfoldable pub handle_error_frame : Frame → ℕ → World → World × Option BridgeError
  handle_error_frame frame r w =
      if not (length frame.body == 0)
      then caught w (err (fail_protocol "error frame cannot contain a body"))
      else caught w (do
        meta ← decoded "invalid error metadata" (decode_meta codec error frame.meta)
        let operation = w.operations r
        let e = adjust_error operation meta (error_from_meta meta)
        ok (complete_with_error frame.id operation e w))
