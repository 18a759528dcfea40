-- ===== src/Bridge/Uploads.antt =====
-- The upload of a request's body: `sendUploadChunk`, `sendUploadEnd` and `runUpload` of
-- packages/effect-tls-client/src/internal/Bridge.ts. The stream of the body is effect's: its chunks
-- and its end are the steps.
use effect_tls_client.Prelude.{
  ℕ, zero, suc, ◌+◌, ◌-◌, Bool, true, not, ◌&&◌, ◌||◌, Option, none, some, List, [], ◌∷◌, ◌==◌, leb,
  length, take, drop, min, if◌then◌else◌, Result, ok,
}
use effect_tls_client.Frame.Kind
use effect_tls_client.Protocol.Metadata.{empty_meta, body_error}
use effect_tls_client.Protocol.Schema.{JsonCodec, encode_meta, empty, is_some}
use effect_tls_client.Errors.{BridgeError, request_error}
use effect_tls_client.Bridge.World.{World, Operation, stream, Upload, PendingStream, set_operation}
use effect_tls_client.Bridge.Settle.{stop_upload}
use effect_tls_client.Bridge.Writing.{write_frame, frame_input, send_cancel}
use effect_tls_client.Bridge.Calls.{Ticket, is_pending}

-- `runUpload` cuts each chunk of the body to this size.
abbrev pub max_chunk : World → ℕ
max_chunk w = min w.chunk_size w.window

-- The loop of `sendChunk`, with fuel; each slice goes to `sendUploadChunk`.
unfoldable pub slices_from : ℕ → ℕ → List ℕ → List (List ℕ)
slices_from zero size chunk = []
slices_from (suc fuel) size [] = []
slices_from (suc fuel) size (b ∷ bs) =
    take size (b ∷ bs) ∷ slices_from fuel size (drop size (b ∷ bs))

unfoldable pub slices : ℕ → List ℕ → List (List ℕ)
slices size chunk = slices_from (length chunk) size chunk

-- What an attempt of `waitForCredit` comes to.
pub data Attempt : Type 0 where
  upload_stopped must_wait : Attempt
  attempted : World → Result BridgeError (Unit {0}) → Attempt

unfoldable pub attempted_of : World × Result BridgeError (Unit {0}) → Attempt
attempted_of (w, result) = attempted w result

unfoldable pub credit_for :
    JsonCodec → Bool → Ticket → List ℕ → PendingStream → Upload → World → Attempt
unfolding attempted_of
credit_for codec stdin_ok t body operation upload w =
    if upload.stopped
    then upload_stopped
    else if leb (length body) (w.window - (upload.sent - upload.acked))
    then attempted_of (
        write_frame stdin_ok
          (frame_input Kind.body_chunk t.id (encode_meta codec empty empty_meta) (some body))
          (set_operation t.operation
            (stream (record operation {
              upload = some (record upload { sent = upload.sent + length body });
            }))
            w))
    else must_wait

unfoldable pub send_slice : JsonCodec → Bool → Ticket → List ℕ → Operation → World → Attempt
unfolding credit_for
send_slice codec stdin_ok t body (stream operation) w =
    if length body == 0 then attempted w (ok tt) else elim operation.upload [
      | none ↦ attempted w (ok tt)
      | some upload ↦ credit_for codec stdin_ok t body operation upload w
    ]
send_slice codec stdin_ok t body _ w = attempted w (ok tt)

-- One attempt of `sendUploadChunk`; after `must_wait` it is made again when the upload is woken.
unfoldable pub send_upload_chunk : JsonCodec → Bool → Ticket → List ℕ → World → Attempt
unfolding send_slice
send_upload_chunk codec stdin_ok t body w =
    send_slice codec stdin_ok t body (w.operations t.operation) w

unfoldable pub end_of :
    JsonCodec
    → Bool
    → Ticket
    → PendingStream
    → Upload
    → World
    → World × Result BridgeError (Unit {0})
end_of codec stdin_ok t operation upload w =
    if upload.body_end_sent || (not (is_pending t.id t.operation w) || is_some w.dead)
    then (w, ok tt)
    else write_frame stdin_ok
        (frame_input Kind.body_end t.id (encode_meta codec empty empty_meta) none)
        (set_operation t.operation
          (stream (record operation { upload = some (record upload { body_end_sent = true }) })) w)

-- The upload that the closures of `request` share with its operation.
unfoldable pub upload_of : Operation → Option (PendingStream × Upload)
upload_of (stream operation) = elim operation.upload [
  | none ↦ none
  | some upload ↦ some (operation, upload)
]
upload_of _ = none

unfoldable pub send_upload_end :
    JsonCodec → Bool → Ticket → World → World × Result BridgeError (Unit {0})
unfolding end_of upload_of
send_upload_end codec stdin_ok t w = elim (upload_of (w.operations t.operation)) [
  | none ↦ (w, ok tt)
  | some (operation, upload) ↦ end_of codec stdin_ok t operation upload w
]

-- How the race of the pump with `upload.stop` ends: without a failure, where the body has ended or
-- the upload was stopped, or with one.
pub data PumpEnd : Type 0 where
  ended : PumpEnd
  failed : BridgeError → PumpEnd

-- `upload.failure` after a failure: one of kind `Body` is the upload's own.
unfoldable pub failure_after : BridgeError → Option BridgeError → Option BridgeError
failure_after (request_error e) old = elim e.kind [ body_error ↦ some (request_error e) | _ ↦ old ]
failure_after _ old = old

unfoldable pub finish_pump :
    JsonCodec → Bool → Ticket → PendingStream → Upload → PumpEnd → World → World
unfolding failure_after
finish_pump codec stdin_ok t operation upload ended w =
    if not upload.stopped && not (is_some upload.failure)
    then (send_upload_end codec stdin_ok t w).0
    else w
finish_pump codec stdin_ok t operation upload (failed e) w =
    let failing = record operation {
      upload = some (record upload { failure = failure_after e upload.failure });
    } in
    (send_cancel codec stdin_ok t.id
      (stop_upload t.operation failing (set_operation t.operation (stream failing) w))).0

-- What `runUpload` does after its race.
unfoldable pub finish_upload : JsonCodec → Bool → Ticket → PumpEnd → World → World
unfolding finish_pump upload_of
finish_upload codec stdin_ok t ending w = elim (upload_of (w.operations t.operation)) [
  | none ↦ w
  | some (operation, upload) ↦ finish_pump codec stdin_ok t operation upload ending w
]
