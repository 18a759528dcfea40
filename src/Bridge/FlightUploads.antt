-- ===== src/Bridge/FlightUploads.antt =====
-- Uploads keep within their credit: `sendUploadChunk`, `sendUploadEnd` and `runUpload` of
-- packages/effect-tls-client/src/internal/Bridge.ts, and the operations that begin with nothing in
-- flight.
use effect_tls_client.Prelude.{
  ℕ, ◌+◌, ◌-◌, ◌≤◌, ◌≡◌, refl, Bool, true, false, not, ◌&&◌, ◌||◌, some, List, ◌==◌, ==_refl, leb,
  length, if◌then◌else◌, Result, arith, Option-cases, Bool-cases, inl, inr,
}
use effect_tls_client.Frame.Kind
use effect_tls_client.Protocol.Metadata.{empty_meta}
use effect_tls_client.Protocol.Schema.{encode_meta, empty, JsonCodec, is_some}
use effect_tls_client.Errors.{BridgeError}
use effect_tls_client.Bridge.World.{
  World, Operation, deferred, stream, websocket, PendingStream, Upload, set_operation,
}
use effect_tls_client.Bridge.Writing.{frame_input, write_frame}
use effect_tls_client.Bridge.Calls.{Ticket, is_pending}
use effect_tls_client.Bridge.Uploads.{
  Attempt, attempted, upload_stopped, must_wait, attempted_of, credit_for, send_slice,
  send_upload_chunk, end_of, upload_of, send_upload_end, PumpEnd, ended, failed, finish_pump,
  finish_upload,
}
use effect_tls_client.Bridge.Flight.{
  SameFlight, Flows, SameFlight-Flows, SameFlight-refl, SameFlight-trans, Flows-trans,
  SameFlight-set, stop_upload-SameFlight, sent_of, acked_of,
}
use effect_tls_client.Bridge.FlightStream.{Flows-refl}
use effect_tls_client.Bridge.FlightWriting.{write_frame-SameFlight, send_cancel-SameFlight}

abbrev pub AttemptFlows : World → Attempt → Type 0
AttemptFlows w (attempted w' result) = Flows w w'
AttemptFlows w upload_stopped = Unit {0}
AttemptFlows w must_wait = Unit {0}

attempted_of-Flows :
    (w : World) (p : World × Result BridgeError (Unit {0}))
    → Flows w p.0
    → AttemptFlows w (attempted_of p)
unfolding attempted_of
attempted_of-Flows w (v, result) h = h

abbrev sent_more : PendingStream → Upload → ℕ → Operation
sent_more operation upload size =
    stream (record operation { upload = some (record upload { sent = upload.sent + size }) })

-- A slice that fits into what the window leaves.
Flows-send :
    (r : ℕ) (operation : PendingStream) (upload : Upload) (size : ℕ) (w : World)
    → (upload.sent ≡ sent_of (w.operations r)) × (upload.acked ≡ acked_of (w.operations r))
    → size ≤ w.window - (upload.sent - upload.acked)
    → Flows w (set_operation r (sent_more operation upload size) w)
Flows-send r operation upload size w e b = record {
  window_kept = refl;
  in_window = λ h s. elim (Bool-cases (s == r)) [
    | inl k ↦ rw k (omega (arith, h r, e, b), omega (arith, h r, e, b))
    | inr k ↦ rw k (h s)
  ];
}

attempt-choice :
    (w : World) (stopped fits : Bool) (p : World × Result BridgeError (Unit {0}))
    → (fits ≡ true → Flows w p.0)
    → AttemptFlows w
        (if stopped then upload_stopped else if fits then attempted_of p else must_wait)
attempt-choice w true fits p k = tt
attempt-choice w false true p k = attempted_of-Flows w p (k refl)
attempt-choice w false false p k = tt

credit_for-Flows :
    (codec : JsonCodec) (stdin_ok : Bool) (t : Ticket) (body : List ℕ) (operation : PendingStream)
    (upload : Upload) (w : World)
    → w.operations t.operation ≡ stream operation
    → operation.upload ≡ some upload
    → AttemptFlows w (credit_for codec stdin_ok t body operation upload w)
unfolding credit_for
credit_for-Flows codec stdin_ok t body operation upload w h u =
    let sent = set_operation t.operation (sent_more operation upload (length body)) w in
    let input = frame_input Kind.body_chunk t.id (encode_meta codec empty empty_meta) (some body) in
    attempt-choice w upload.stopped (leb (length body) (w.window - (upload.sent - upload.acked)))
      (write_frame stdin_ok input sent)
      (λ fits.
        Flows-trans
          (Flows-send t.operation operation upload (length body) w (rw (h, u) (refl, refl))
            (ground (arith, fits)))
          (SameFlight-Flows (write_frame-SameFlight stdin_ok input sent)))

send_slice-Flows :
    (codec : JsonCodec) (stdin_ok : Bool) (t : Ticket) (body : List ℕ) (operation : Operation)
    (w : World)
    → w.operations t.operation ≡ operation
    → AttemptFlows w (send_slice codec stdin_ok t body operation w)
unfolding send_slice
send_slice-Flows codec stdin_ok t body (stream operation) w h =
    elim (Bool-cases (length body == 0)) [
      | inl e ↦ rw (e, send_slice) (Flows-refl w)
      | inr e ↦ elim (Option-cases operation.upload) [
        | inl u ↦ rw (e, u, send_slice) (Flows-refl w)
        | inr (upload, u) ↦
            rw (e, u, send_slice) (credit_for-Flows codec stdin_ok t body operation upload w h u)
      ]
    ]
send_slice-Flows codec stdin_ok t body (websocket operation) w h = Flows-refl w
send_slice-Flows codec stdin_ok t body (deferred operation) w h = Flows-refl w

pub send_upload_chunk-Flows :
    (codec : JsonCodec) (stdin_ok : Bool) (t : Ticket) (body : List ℕ) (w : World)
    → AttemptFlows w (send_upload_chunk codec stdin_ok t body w)
unfolding send_upload_chunk
send_upload_chunk-Flows codec stdin_ok t body w =
    send_slice-Flows codec stdin_ok t body (w.operations t.operation) w refl

-- What `upload_of` finds is the upload whose bytes are counted.
upload_of-Alike :
    (o : Operation) (operation : PendingStream) (upload : Upload)
    → upload_of o ≡ some (operation, upload)
    → (upload.sent ≡ sent_of o) × (upload.acked ≡ acked_of o)
unfolding upload_of
upload_of-Alike (stream p) operation upload e = elim (Option-cases p.upload) [
  | inl n ↦ absurd (ground (arith, n, e))
  | inr (u, n) ↦ (ground (arith, n, e), ground (arith, n, e))
]
upload_of-Alike (deferred p) operation upload e = absurd (ground (arith, e))
upload_of-Alike (websocket p) operation upload e = absurd (ground (arith, e))

end_of-SameFlight :
    (codec : JsonCodec) (stdin_ok : Bool) (t : Ticket) (operation : PendingStream) (upload : Upload)
    (w : World)
    → (upload.sent ≡ sent_of (w.operations t.operation))
      × (upload.acked ≡ acked_of (w.operations t.operation))
    → SameFlight w (end_of codec stdin_ok t operation upload w).0
unfolding end_of
end_of-SameFlight codec stdin_ok t operation upload w h =
    elim (Bool-cases
      (upload.body_end_sent || (not (is_pending t.id t.operation w) || is_some w.dead))) [
        | inl e ↦ rw e (SameFlight-refl w)
        | inr e ↦ rw e (
            SameFlight-trans (SameFlight-set t.operation _ w h)
              (write_frame-SameFlight stdin_ok _ _))
      ]

send_upload_end-SameFlight :
    (codec : JsonCodec) (stdin_ok : Bool) (t : Ticket) (w : World)
    → SameFlight w (send_upload_end codec stdin_ok t w).0
unfolding send_upload_end
send_upload_end-SameFlight codec stdin_ok t w =
    elim (Option-cases (upload_of (w.operations t.operation))) [
      | inl e ↦ rw (e, send_upload_end) (SameFlight-refl w)
      | inr ((operation, upload), e) ↦
          rw (e, send_upload_end)
            (end_of-SameFlight codec stdin_ok t operation upload w
              (upload_of-Alike (w.operations t.operation) operation upload e))
    ]

finish_pump-SameFlight :
    (codec : JsonCodec) (stdin_ok : Bool) (t : Ticket) (operation : PendingStream) (upload : Upload)
    (ending : PumpEnd) (w : World)
    → (upload.sent ≡ sent_of (w.operations t.operation))
      × (upload.acked ≡ acked_of (w.operations t.operation))
    → SameFlight w (finish_pump codec stdin_ok t operation upload ending w)
unfolding finish_pump
finish_pump-SameFlight codec stdin_ok t operation upload ended w h =
    elim (Bool-cases (not upload.stopped && not (is_some upload.failure))) [
      | inl e ↦ rw e (send_upload_end-SameFlight codec stdin_ok t w)
      | inr e ↦ rw e (SameFlight-refl w)
    ]
finish_pump-SameFlight codec stdin_ok t operation upload (failed e) w h =
    SameFlight-trans (SameFlight-set t.operation _ w h) (
      SameFlight-trans
        (stop_upload-SameFlight t.operation _ _ (rw (==_refl t.operation) (refl, refl)))
        (send_cancel-SameFlight codec stdin_ok t.id _))

pub finish_upload-SameFlight :
    (codec : JsonCodec) (stdin_ok : Bool) (t : Ticket) (ending : PumpEnd) (w : World)
    → SameFlight w (finish_upload codec stdin_ok t ending w)
unfolding finish_upload
finish_upload-SameFlight codec stdin_ok t ending w =
    elim (Option-cases (upload_of (w.operations t.operation))) [
      | inl e ↦ rw (e, finish_upload) (SameFlight-refl w)
      | inr ((operation, upload), e) ↦
          rw (e, finish_upload)
            (finish_pump-SameFlight codec stdin_ok t operation upload ending w
              (upload_of-Alike (w.operations t.operation) operation upload e))
    ]
