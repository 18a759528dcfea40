-- ===== src/Bridge/FlightWriting.antt =====
-- Writing, closing and cleaning up send no bytes of an upload: `writeFrame`, `sendCancel` and what
-- `call`, `stream`, `request` and `webSocket` of packages/effect-tls-client/src/internal/Bridge.ts do
-- after they have begun.
use Prim.Native.String.{String}
use effect_tls_client.Prelude.{
  ℕ, ◌≡◌, refl, Bool, true, false, not, List, ◌==◌, if◌then◌else◌, Result, ok, err, arith,
  Bool-cases, inl, inr,
}
use effect_tls_client.Prelude.Int.{ℤ}
use effect_tls_client.Prelude.Assoc.{has}
use effect_tls_client.Frame.Codec.{FrameInput, FrameCodecError, encode_frame}
use effect_tls_client.Protocol.Metadata.{Opcode}
use effect_tls_client.Protocol.Schema.{JsonCodec, is_some}
use effect_tls_client.Errors.{BridgeError}
use effect_tls_client.Bridge.World.{World, Operation, deferred, stream, websocket}
use effect_tls_client.Bridge.Settle.{delete}
use effect_tls_client.Bridge.Writing.{
  register, write_frame, write_encoded, write_bytes, send_cancel,
}
use effect_tls_client.Bridge.Calls.{
  Ticket, after_write, write_call, write_first, delete_own, is_pending, clean_up,
}
use effect_tls_client.Bridge.Requests.{stop_own, stop_request}
use effect_tls_client.Bridge.Sockets.{write_socket, close_once, close_socket}
use effect_tls_client.Bridge.Flight.{
  Alike, SameFlight, Flows, SameFlight-refl, SameFlight-trans, SameFlight-set,
  stop_upload-SameFlight, mark_dead-SameFlight, sent_of, acked_of,
}

-- A new operation has nothing in flight.
pub register-Flows :
    (id : ℕ) (operation : Operation) (w : World)
    → (sent_of operation ≡ 0) × (acked_of operation ≡ 0)
    → Flows w (register id operation w)
unfolding register
register-Flows id operation w e = record {
  window_kept = refl;
  in_window = λ h s. elim (Bool-cases (s == w.fresh)) [
    | inl k ↦ rw k (omega (arith, e), omega (arith, e))
    | inr k ↦ rw k (h s)
  ];
}

write_bytes-SameFlight :
    (stdin_ok : Bool) (encoded : List ℕ) (w : World)
    → SameFlight w (write_bytes stdin_ok encoded w).0
unfolding write_bytes
write_bytes-SameFlight true encoded w = record { window_same = refl; alike = λ r. (refl, refl) }
write_bytes-SameFlight false encoded w = mark_dead-SameFlight _ w

write_encoded-SameFlight :
    (stdin_ok : Bool) (encoded : Result FrameCodecError (List ℕ)) (w : World)
    → SameFlight w (write_encoded stdin_ok encoded w).0
write_encoded-SameFlight stdin_ok (err e) w = SameFlight-refl w
write_encoded-SameFlight stdin_ok (ok encoded) w = write_bytes-SameFlight stdin_ok encoded w

pub write_frame-SameFlight :
    (stdin_ok : Bool) (input : FrameInput) (w : World)
    → SameFlight w (write_frame stdin_ok input w).0
unfolding write_frame
write_frame-SameFlight stdin_ok input w = write_encoded-SameFlight stdin_ok (encode_frame input) w

SameFlight-if :
    {A : Type 0} (w : World) (b : Bool) (x y : World × A)
    → SameFlight w x.0
    → SameFlight w y.0
    → SameFlight w (if b then x else y).0
SameFlight-if w true x y h k = h
SameFlight-if w false x y h k = k

SameFlight-choice :
    (w : World) (b : Bool) (x y : World)
    → SameFlight w x
    → SameFlight w y
    → SameFlight w (if b then x else y)
SameFlight-choice w true x y h k = h
SameFlight-choice w false x y h k = k

pub send_cancel-SameFlight :
    (codec : JsonCodec) (stdin_ok : Bool) (id : ℕ) (w : World)
    → SameFlight w (send_cancel codec stdin_ok id w).0
unfolding send_cancel
send_cancel-SameFlight codec stdin_ok id w =
    SameFlight-if w (is_some w.dead) _ _ (SameFlight-refl w) (
      SameFlight-if w (not (has id w.pending)) _ _ (SameFlight-refl w)
        (write_frame-SameFlight stdin_ok _ w))

delete-SameFlight : (id : ℕ) (w : World) → SameFlight w (delete id w)
delete-SameFlight id w = record { window_same = refl; alike = λ r. (refl, refl) }

after_write-SameFlight :
    (w : World) (undo : World → World) (p : World × Result BridgeError (Unit {0}))
    → ((v : World) → SameFlight v (undo v))
    → SameFlight w p.0
    → SameFlight w (after_write undo p).0
after_write-SameFlight w undo (v, ok _) h p = p
after_write-SameFlight w undo (v, err error) h p = SameFlight-trans p (h v)

pub write_call-SameFlight :
    (stdin_ok : Bool) (t : Ticket) (w : World) → SameFlight w (write_call stdin_ok t w).0
unfolding write_call
write_call-SameFlight stdin_ok t w =
    after_write-SameFlight w (delete t.id) (write_frame stdin_ok t.input w) (delete-SameFlight t.id)
      (write_frame-SameFlight stdin_ok t.input w)

delete_own-SameFlight : (t : Ticket) (w : World) → SameFlight w (delete_own t w)
delete_own-SameFlight t w =
    SameFlight-choice w (is_pending t.id t.operation w) _ w (delete-SameFlight t.id w)
      (SameFlight-refl w)

pub write_first-SameFlight :
    (stdin_ok : Bool) (t : Ticket) (w : World) → SameFlight w (write_first stdin_ok t w).0
unfolding write_first
write_first-SameFlight stdin_ok t w =
    after_write-SameFlight w (delete_own t) (write_frame stdin_ok t.input w)
      (delete_own-SameFlight t) (write_frame-SameFlight stdin_ok t.input w)

pub clean_up-SameFlight :
    (codec : JsonCodec) (stdin_ok request_sent : Bool) (t : Ticket) (w : World)
    → SameFlight w (clean_up codec stdin_ok request_sent t w).0
unfolding clean_up
clean_up-SameFlight codec stdin_ok true t w = send_cancel-SameFlight codec stdin_ok t.id w
clean_up-SameFlight codec stdin_ok false t w = delete_own-SameFlight t w

stop_own-SameFlight :
    (r : ℕ) (operation : Operation) (w : World)
    → Alike operation (w.operations r)
    → SameFlight w (stop_own r operation w)
stop_own-SameFlight r (stream operation) w h = stop_upload-SameFlight r operation w h
stop_own-SameFlight r (deferred operation) w h = SameFlight-refl w
stop_own-SameFlight r (websocket operation) w h = SameFlight-refl w

pub stop_request-SameFlight :
    (request_sent : Bool) (t : Ticket) (w : World) → SameFlight w (stop_request request_sent t w)
unfolding stop_request
stop_request-SameFlight true t w =
    stop_own-SameFlight t.operation (w.operations t.operation) w (refl, refl)
stop_request-SameFlight false t w = SameFlight-refl w

pub write_socket-SameFlight :
    (codec : JsonCodec) (stdin_ok : Bool) (t : Ticket) (opcode : Opcode) (body : List ℕ) (w : World)
    → SameFlight w (write_socket codec stdin_ok t opcode body w).0
unfolding write_socket
write_socket-SameFlight codec stdin_ok t opcode body w =
    SameFlight-if w (not (is_pending t.id t.operation w)) _ _ (SameFlight-refl w)
      (write_frame-SameFlight stdin_ok _ w)

close_once-SameFlight :
    (codec : JsonCodec) (stdin_ok : Bool) (t : Ticket) (code : ℤ) (reason : String)
    (operation : Operation) (w : World)
    → Alike operation (w.operations t.operation)
    → SameFlight w (close_once codec stdin_ok t code reason operation w)
unfolding close_once
close_once-SameFlight codec stdin_ok t code reason (websocket operation) w h =
    let set = SameFlight-set t.operation (websocket (record operation { close_sent = true })) w h in
    SameFlight-choice w operation.close_sent w _ (SameFlight-refl w) (
      SameFlight-trans (record { window_same = refl; alike = set.alike })
        (write_frame-SameFlight stdin_ok _ _))
close_once-SameFlight codec stdin_ok t code reason (stream operation) w h = SameFlight-refl w
close_once-SameFlight codec stdin_ok t code reason (deferred operation) w h = SameFlight-refl w

pub close_socket-SameFlight :
    (codec : JsonCodec) (stdin_ok : Bool) (t : Ticket) (code : ℤ) (reason : String) (w : World)
    → SameFlight w (close_socket codec stdin_ok t code reason w)
unfolding close_socket
close_socket-SameFlight codec stdin_ok t code reason w =
    SameFlight-choice w _ w _ (SameFlight-refl w)
      (close_once-SameFlight codec stdin_ok t code reason (w.operations t.operation) w (refl, refl))
