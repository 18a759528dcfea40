-- ===== src/Bridge/Requests.antt =====
-- `stream` and `request` of packages/effect-tls-client/src/internal/Bridge.ts: how a response
-- stream is opened, acknowledged and closed.
use effect_tls_client.Prelude.{
  ℕ, Bool, true, false, not, ◌&&◌, Option, none, some, List, length, if◌then◌else◌, Result, ok, err,
}
use effect_tls_client.Frame.Kind
use effect_tls_client.Protocol.Metadata.{RequestMeta, DebugStreamMeta}
use effect_tls_client.Protocol.Schema.{JsonCodec, checked, encode_meta, request, ack, debug_stream}
use effect_tls_client.Errors.{BridgeError}
use effect_tls_client.Bridge.World.{World, Operation, stream, Upload, PendingStream, get_dead}
use effect_tls_client.Bridge.Settle.{stop_upload}
use effect_tls_client.Bridge.ErrorFrames.{fail_protocol}
use effect_tls_client.Bridge.Writing.{write_frame, frame_input, register}
use effect_tls_client.Bridge.Calls.{Ticket, open_checked}

abbrev pub new_upload : Upload
new_upload = record { sent = 0; acked = 0; stopped = false; body_end_sent = false; failure = none }

-- `pending.set(id, operation)` of a stream, and its first frame.
unfoldable pub register_stream :
    ℕ → List ℕ × PendingStream → ℕ × World → World × Result BridgeError Ticket
register_stream kind (meta, operation) (id, w) = (
  register id (stream operation) w,
  ok (record { id = id; operation = w.fresh; input = frame_input kind id meta none }),
)

-- `meta` is `none` where `decodeUnknownSync` throws.
unfoldable pub check_stream :
    JsonCodec → Option DebugStreamMeta → World → Result BridgeError (List ℕ × PendingStream)
check_stream codec meta w = elim (get_dead w) [
  | some error ↦ err error
  | none ↦ elim meta [
    | none ↦ err (fail_protocol "invalid stream metadata")
    | some meta' ↦ ok (
      encode_meta codec debug_stream meta',
      record { expects_headers = false; headers_seen = true; upload = none },
    )
  ]
]

unfoldable pub begin_stream :
    JsonCodec → Option DebugStreamMeta → World → Option (World × Result BridgeError Ticket)
begin_stream codec meta w =
    open_checked w (check_stream codec meta w) (register_stream Kind.debug_stream)

abbrev pub upload_for : Bool → Option Upload
upload_for true = some new_upload
upload_for false = none

-- `meta` holds the fields of the metadata, before the filters, or `none` where they do not fit the
-- schema.
unfoldable pub check_request :
    JsonCodec → Option RequestMeta → Bool → World → Result BridgeError (List ℕ × PendingStream)
check_request codec meta has_body w = elim (get_dead w) [
  | some error ↦ err error
  | none ↦ elim (checked request meta) [
    | none ↦ err (fail_protocol "invalid request metadata")
    | some meta' ↦
        if has_body && not (RequestMeta.has_body meta')
        then err (fail_protocol "request body supplied with hasBody=false")
        else ok (
          encode_meta codec request meta',
          record {
            expects_headers = true;
            headers_seen = false;
            upload = upload_for (RequestMeta.has_body meta');
          },
        )
  ]
]

unfoldable pub begin_request :
    JsonCodec → Option RequestMeta → Bool → World → Option (World × Result BridgeError Ticket)
begin_request codec meta has_body w =
    open_checked w (check_request codec meta has_body w) (register_stream Kind.request)

-- The consumer takes a chunk off the queue: the acknowledgement gives the Bridge its bytes back.
unfoldable pub acknowledge_chunk :
    JsonCodec → Bool → Ticket → List ℕ → World → World × Result BridgeError (Unit {0})
acknowledge_chunk codec stdin_ok t chunk w =
    write_frame stdin_ok
      (frame_input Kind.ack t.id (encode_meta codec ack (record { bytes = length chunk })) none) w

abbrev pub stop_own : ℕ → Operation → World → World
stop_own r (stream operation) w = stop_upload r operation w
stop_own r _ w = w

-- `cleanup` of `request` stops the upload; when its fiber has ended, the rest is `Calls.clean_up`.
unfoldable pub stop_request : Bool → Ticket → World → World
stop_request request_sent t w =
    if request_sent then stop_own t.operation (w.operations t.operation) w else w
