-- ===== src/Bridge/Moves.antt =====
-- The rest of the operations of packages/effect-tls-client/src/internal/Bridge.ts keep the
-- invariant: uploads, acknowledgements, closing, the hello exchange and the finaliser.
use Prim.Native.String.{String}
use effect_tls_client.Prelude.{
  ℕ, ◌-◌, ◌≡◌, refl, Bool, true, false, not, ◌||◌, List, leb, length, if◌then◌else◌, Result, ◌==◌,
  Bool-cases, Option-cases, Result-cases, inl, inr,
}
use effect_tls_client.Prelude.Int.{ℤ}
use effect_tls_client.Frame.Decoder.{finish}
use effect_tls_client.Protocol.Metadata.{Opcode}
use effect_tls_client.Protocol.Schema.{JsonCodec, is_some}
use effect_tls_client.Errors.{BridgeError}
use effect_tls_client.Bridge.World.{
  World, State, with_state, Operation, PendingStream, Upload, append_stderr, fail_queue, deferred,
  stream, websocket, set_operation,
}
use effect_tls_client.Bridge.Dispatch.{on_stdout_end}
use effect_tls_client.Bridge.Ledger.{ends, Settles, Settles-quiet, Settles-refl, Settles-trans}
use effect_tls_client.Bridge.Ending.{mark_dead-Settles}
use effect_tls_client.Bridge.Returns.{Settles-set, Settles-emit, stop_upload-Settles}
use effect_tls_client.Bridge.Writing.{write_frame}
use effect_tls_client.Bridge.Calls.{Ticket, is_pending}
use effect_tls_client.Bridge.Uploads.{
  Attempt, attempted_of, credit_for, send_slice, send_upload_chunk, end_of, upload_of,
  send_upload_end, PumpEnd, ended, failed, finish_pump, finish_upload, upload_stopped, must_wait,
  attempted,
}
use effect_tls_client.Bridge.Sockets.{close_once, close_socket, write_socket}
use effect_tls_client.Bridge.Orderly.{write_frame-Settles, send_cancel-Settles}

Settles-if : (b : Bool) (w x y : World) → Settles w x → Settles w y → Settles w (if b then x else y)
Settles-if true w x y h k = h
Settles-if false w x y h k = k

with_state-Settles : (s : State) (w : World) → s.dead ≡ w.dead → Settles w (with_state s w)
with_state-Settles s w d = Settles-quiet w _ refl d refl (λ r. refl)

pub on_stdout_end-Settles : (w : World) → Settles w (on_stdout_end w)
unfolding on_stdout_end
on_stdout_end-Settles w = elim (Result-cases (finish w.decoder)) [
  | inl (u, h) ↦ rw (h, on_stdout_end) (Settles-refl w)
  | inr (e, h) ↦ rw (h, on_stdout_end) (mark_dead-Settles _ w)
]

pub append_stderr-Settles : (chunk : List ℕ) (w : World) → Settles w (append_stderr chunk w)
unfolding append_stderr
append_stderr-Settles chunk w = with_state-Settles _ w refl

close_once-Settles :
    (codec : JsonCodec) (stdin_ok : Bool) (t : Ticket) (code : ℤ) (reason : String)
    (operation : Operation) (w : World)
    → Settles w (close_once codec stdin_ok t code reason operation w)
unfolding close_once ends
close_once-Settles codec stdin_ok t code reason (websocket operation) w =
    Settles-if operation.close_sent w w _ (Settles-refl w) (
      Settles-trans
        (Settles-trans (Settles-set t.operation _ w)
          (Settles-emit (fail_queue t.operation _) _ (λ r. refl)))
        (write_frame-Settles stdin_ok _ _))
close_once-Settles codec stdin_ok t code reason (stream operation) w = Settles-refl w
close_once-Settles codec stdin_ok t code reason (deferred operation) w = Settles-refl w

pub close_socket-Settles :
    (codec : JsonCodec) (stdin_ok : Bool) (t : Ticket) (code : ℤ) (reason : String) (w : World)
    → Settles w (close_socket codec stdin_ok t code reason w)
unfolding close_socket
close_socket-Settles codec stdin_ok t code reason w =
    Settles-if _ w w _ (Settles-refl w)
      (close_once-Settles codec stdin_ok t code reason (w.operations t.operation) w)

pub write_socket-Settles :
    (codec : JsonCodec) (stdin_ok : Bool) (t : Ticket) (opcode : Opcode) (body : List ℕ) (w : World)
    → Settles w (write_socket codec stdin_ok t opcode body w).0
unfolding write_socket
write_socket-Settles codec stdin_ok t opcode body w =
    elim (Bool-cases (not (is_pending t.id t.operation w))) [
      | inl e ↦ rw (e, write_socket) (Settles-refl w)
      | inr e ↦ rw (e, write_socket) (write_frame-Settles stdin_ok _ w)
    ]

-- What an attempt leaves, where it leaves anything.
abbrev pub AttemptSettles : World → Attempt → Type 0
AttemptSettles w (attempted w' result) = Settles w w'
AttemptSettles w upload_stopped = Unit {0}
AttemptSettles w must_wait = Unit {0}

attempted_of-Settles :
    (w : World) (p : World × Result BridgeError (Unit {0}))
    → Settles w p.0
    → AttemptSettles w (attempted_of p)
unfolding attempted_of
attempted_of-Settles w (v, result) h = h

credit_for-Settles :
    (codec : JsonCodec) (stdin_ok : Bool) (t : Ticket) (body : List ℕ) (operation : PendingStream)
    (upload : Upload) (w : World)
    → AttemptSettles w (credit_for codec stdin_ok t body operation upload w)
unfolding credit_for
credit_for-Settles codec stdin_ok t body operation upload w = elim (Bool-cases upload.stopped) [
  | inl e ↦ rw (e, credit_for) tt
  | inr e ↦ elim (Bool-cases (leb (length body) (w.window - (upload.sent - upload.acked)))) [
    | inl f ↦
        rw (e, f, credit_for)
          (attempted_of-Settles w (write_frame stdin_ok _ (set_operation t.operation _ w))
            (Settles-trans (Settles-set t.operation _ w) (write_frame-Settles stdin_ok _ _)))
    | inr f ↦ rw (e, f, credit_for) tt
  ]
]

send_slice-Settles :
    (codec : JsonCodec) (stdin_ok : Bool) (t : Ticket) (body : List ℕ) (operation : Operation)
    (w : World)
    → AttemptSettles w (send_slice codec stdin_ok t body operation w)
unfolding send_slice
send_slice-Settles codec stdin_ok t body (stream operation) w =
    elim (Bool-cases (length body == 0)) [
      | inl e ↦ rw (e, send_slice) (Settles-refl w)
      | inr e ↦ elim (Option-cases operation.upload) [
        | inl u ↦ rw (e, u, send_slice) (Settles-refl w)
        | inr (upload, u) ↦
            rw (e, u, send_slice) (credit_for-Settles codec stdin_ok t body operation upload w)
      ]
    ]
send_slice-Settles codec stdin_ok t body (websocket operation) w = Settles-refl w
send_slice-Settles codec stdin_ok t body (deferred operation) w = Settles-refl w

pub send_upload_chunk-Settles :
    (codec : JsonCodec) (stdin_ok : Bool) (t : Ticket) (body : List ℕ) (w : World)
    → AttemptSettles w (send_upload_chunk codec stdin_ok t body w)
unfolding send_upload_chunk
send_upload_chunk-Settles codec stdin_ok t body w =
    send_slice-Settles codec stdin_ok t body (w.operations t.operation) w

end_of-Settles :
    (codec : JsonCodec) (stdin_ok : Bool) (t : Ticket) (operation : PendingStream) (upload : Upload)
    (w : World)
    → Settles w (end_of codec stdin_ok t operation upload w).0
unfolding end_of
end_of-Settles codec stdin_ok t operation upload w =
    elim (Bool-cases
      (upload.body_end_sent || (not (is_pending t.id t.operation w) || is_some w.dead))) [
        | inl e ↦ rw e (Settles-refl w)
        | inr e ↦
            rw e (Settles-trans (Settles-set t.operation _ w) (write_frame-Settles stdin_ok _ _))
      ]

pub send_upload_end-Settles :
    (codec : JsonCodec) (stdin_ok : Bool) (t : Ticket) (w : World)
    → Settles w (send_upload_end codec stdin_ok t w).0
unfolding send_upload_end
send_upload_end-Settles codec stdin_ok t w =
    elim (Option-cases (upload_of (w.operations t.operation))) [
      | inl e ↦ rw (e, send_upload_end) (Settles-refl w)
      | inr ((operation, upload), e) ↦
          rw (e, send_upload_end) (end_of-Settles codec stdin_ok t operation upload w)
    ]

finish_pump-Settles :
    (codec : JsonCodec) (stdin_ok : Bool) (t : Ticket) (operation : PendingStream) (upload : Upload)
    (ending : PumpEnd) (w : World)
    → Settles w (finish_pump codec stdin_ok t operation upload ending w)
unfolding finish_pump
finish_pump-Settles codec stdin_ok t operation upload ended w =
    Settles-if _ w _ w (send_upload_end-Settles codec stdin_ok t w) (Settles-refl w)
finish_pump-Settles codec stdin_ok t operation upload (failed e) w =
    Settles-trans (Settles-set t.operation _ w) (
      Settles-trans (stop_upload-Settles t.operation _ _)
        (send_cancel-Settles codec stdin_ok t.id _))

pub finish_upload-Settles :
    (codec : JsonCodec) (stdin_ok : Bool) (t : Ticket) (ending : PumpEnd) (w : World)
    → Settles w (finish_upload codec stdin_ok t ending w)
unfolding finish_upload
finish_upload-Settles codec stdin_ok t ending w =
    elim (Option-cases (upload_of (w.operations t.operation))) [
      | inl e ↦ rw (e, finish_upload) (Settles-refl w)
      | inr ((operation, upload), e) ↦
          rw (e, finish_upload) (finish_pump-Settles codec stdin_ok t operation upload ending w)
    ]
