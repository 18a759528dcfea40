-- ===== src/Bridge/FlightSteps.antt =====
-- Along the steps of packages/effect-tls-client/src/internal/Bridge.ts no upload has more bytes in
-- flight than the window: `sendUploadChunk` waits for credit, and nothing else sends.
use effect_tls_client.Prelude.{
  ℕ, ◌≡◌, refl, subst, Bool, true, false, Option, some, List, if◌then◌else◌, Result, arith,
  Option-cases, Bool-cases, Result-cases, inl, inr, ◌⊎◌,
}
use effect_tls_client.Frame.Codec.{Frame}
use effect_tls_client.Frame.Decoder.{finish}
use effect_tls_client.Protocol.Metadata.{HelloAckMeta}
use effect_tls_client.Protocol.Schema.{JsonCodec, is_some, decode_meta, hello_ack}
use effect_tls_client.Errors.{BridgeError}
use effect_tls_client.Bridge.World.{World, with_state, Action, append_stderr, initial_world}
use effect_tls_client.Bridge.Dispatch.{on_stdout_end}
use effect_tls_client.Bridge.Requests.{acknowledge_chunk}
use effect_tls_client.Bridge.Uploads.{Attempt, attempted}
use effect_tls_client.Bridge.Sockets.{pull}
use effect_tls_client.Bridge.Hello.{
  send_hello, hello_timed_out, accept_hello, accept_hello_meta, versions_agree, release_start,
  release_end,
}
use effect_tls_client.Bridge.FlightOpening.{
  ReturnFlows, begin_call-Flows, begin_stream-Flows, begin_request-Flows, begin_web_socket-Flows,
}
use effect_tls_client.Bridge.Flight.{
  InWindow, SameFlight, Flows, SameFlight-Flows, SameFlight-refl, Flows-trans, mark_dead-SameFlight,
  mark_exited-SameFlight, sent_of, acked_of, Alike,
}
use effect_tls_client.Bridge.FlightStream.{Flows-refl, Flows-quiet}
use effect_tls_client.Bridge.FlightStdout.{on_stdout-Flows}
use effect_tls_client.Bridge.FlightWriting.{
  register-Flows, write_frame-SameFlight, write_call-SameFlight, write_first-SameFlight,
  clean_up-SameFlight, stop_request-SameFlight, write_socket-SameFlight, close_socket-SameFlight,
}
use effect_tls_client.Bridge.FlightUploads.{
  AttemptFlows, send_upload_chunk-Flows, finish_upload-SameFlight,
}
use effect_tls_client.Bridge.Steps.{
  Step, stdout_chunk, stdout_ends, stderr_chunk, process_exits, hello_sent, hello_late,
  hello_answered, call_begins, stream_begins, request_begins, web_socket_begins, call_written,
  first_written, interrupted, request_stopped, chunk_taken, slice_attempted, pump_ends, frame_taken,
  socket_written, socket_closed, release_begins, release_ends,
}

accept_hello_meta-Alike :
    (meta : HelloAckMeta) (w : World) (r : ℕ)
    → Alike ((accept_hello_meta meta w).0.operations r) (w.operations r)
unfolding accept_hello_meta
accept_hello_meta-Alike meta w r = elim (Bool-cases (versions_agree meta)) [
  | inl e ↦ rw (e, accept_hello_meta) (refl, refl)
  | inr e ↦ rw (e, accept_hello_meta) (SameFlight.alike (mark_dead-SameFlight _ w) r)
]

accept_hello-Alike :
    (codec : JsonCodec) (frame : Frame) (w : World) (r : ℕ)
    → Alike ((accept_hello codec frame w).0.operations r) (w.operations r)
unfolding accept_hello
accept_hello-Alike codec frame w r = elim (Option-cases (decode_meta codec hello_ack frame.meta)) [
  | inl e ↦ rw (e, accept_hello) (SameFlight.alike (mark_dead-SameFlight _ w) r)
  | inr (meta, e) ↦ rw (e, accept_hello) (accept_hello_meta-Alike meta w r)
]

send_hello-Flows :
    (codec : JsonCodec) (stdin_ok : Bool) (w : World) → Flows w (send_hello codec stdin_ok w).0
unfolding send_hello
send_hello-Flows codec stdin_ok w =
    Flows-trans (register-Flows 0 _ w (refl, refl))
      (SameFlight-Flows (write_frame-SameFlight stdin_ok _ _))

on_stdout_end-SameFlight : (w : World) → SameFlight w (on_stdout_end w)
unfolding on_stdout_end
on_stdout_end-SameFlight w = elim (Result-cases (finish w.decoder)) [
  | inl (u, h) ↦ rw (h, on_stdout_end) (SameFlight-refl w)
  | inr (e, h) ↦ rw (h, on_stdout_end) (mark_dead-SameFlight _ w)
]

Flows-if :
    {A : Type 0} (w : World) (b : Bool) (x y : World × A)
    → Flows w x.0
    → Flows w y.0
    → Flows w (if b then x else y).0
Flows-if w true x y h k = h
Flows-if w false x y h k = k

release_start-Flows :
    (codec : JsonCodec) (stdin_ok : Bool) (w : World) → Flows w (release_start codec stdin_ok w).0
unfolding release_start
release_start-Flows codec stdin_ok w =
    let closing = with_state (record w.state { closing = true }) w in
    let closes : Flows w closing = Flows-quiet w closing refl refl in
    Flows-if w w.closing _ _ (Flows-refl w) (
      Flows-if w (is_some w.dead) _ _ (Flows-quiet w _ refl refl) (
        Flows-trans closes (
          Flows-trans (register-Flows 0 _ _ (refl, refl))
            (SameFlight-Flows (write_frame-SameFlight stdin_ok _ _)))))

returned :
    {A : Type 0} (w : World) (o : Option (World × A)) {w' : World} {a : A}
    → ReturnFlows w o
    → o ≡ some (w', a)
    → Flows w w'
returned w o h e = subst (ReturnFlows w) e h

attempt :
    (w : World) (o : Attempt) {w' : World} {result : Result BridgeError (Unit {0})}
    → AttemptFlows w o
    → o ≡ attempted w' result
    → Flows w w'
attempt w o h e = subst (AttemptFlows w) e h

-- Nothing is in flight.
abbrev pub Idle : World → Type 0
Idle w = (r : ℕ) → sent_of (w.operations r) ≡ acked_of (w.operations r)

-- Where the window stays, or nothing is in flight, what is in flight can be compared.
answered :
    (w w' : World)
    → ((r : ℕ) → Alike (w'.operations r) (w.operations r))
    → (w'.window ≡ w.window) ⊎ Idle w
    → InWindow w
    → InWindow w'
answered w w' a (inl e) h r = (omega (arith, a r, h r), omega (arith, a r, h r, e))
answered w w' a (inr e) h r = (omega (arith, a r, h r), omega (arith, a r, e r))

module _ {codec : JsonCodec} {accepts : List Action → ℕ → Bool} where
  -- Only the answer to `hello` changes the window.
  Step-InWindow :
      (w : World) {w' : World}
      → Step codec accepts w w'
      → (w'.window ≡ w.window) ⊎ Idle w
      → InWindow w
      → InWindow w'
  unfolding acknowledge_chunk pull hello_timed_out release_end append_stderr
  Step-InWindow w (hello_answered frame) e h =
      answered w (accept_hello codec frame w).0 (accept_hello-Alike codec frame w) e h
  Step-InWindow w (stdout_chunk chunk) e h =
      Flows.in_window (on_stdout-Flows codec accepts chunk _) h
  Step-InWindow w stdout_ends e h =
      Flows.in_window (SameFlight-Flows (on_stdout_end-SameFlight _)) h
  Step-InWindow w (stderr_chunk chunk) e h = h
  Step-InWindow w (process_exits code signal) e h =
      Flows.in_window (SameFlight-Flows (mark_exited-SameFlight code signal _)) h
  Step-InWindow w (hello_sent stdin_ok) e h = Flows.in_window (send_hello-Flows codec stdin_ok _) h
  Step-InWindow w hello_late e h = Flows.in_window (SameFlight-Flows (mark_dead-SameFlight _ _)) h
  Step-InWindow w (call_begins kind given body response q) e h =
      Flows.in_window (returned _ _ (begin_call-Flows codec kind given body response _) q) h
  Step-InWindow w (stream_begins meta q) e h =
      Flows.in_window (returned _ _ (begin_stream-Flows codec meta _) q) h
  Step-InWindow w (request_begins meta has_body q) e h =
      Flows.in_window (returned _ _ (begin_request-Flows codec meta has_body _) q) h
  Step-InWindow w (web_socket_begins meta q) e h =
      Flows.in_window (returned _ _ (begin_web_socket-Flows codec meta _) q) h
  Step-InWindow w (call_written stdin_ok t) e h =
      Flows.in_window (SameFlight-Flows (write_call-SameFlight stdin_ok t _)) h
  Step-InWindow w (first_written stdin_ok t) e h =
      Flows.in_window (SameFlight-Flows (write_first-SameFlight stdin_ok t _)) h
  Step-InWindow w (interrupted stdin_ok sent t) e h =
      Flows.in_window (SameFlight-Flows (clean_up-SameFlight codec stdin_ok sent t _)) h
  Step-InWindow w (request_stopped sent t) e h =
      Flows.in_window (SameFlight-Flows (stop_request-SameFlight sent t _)) h
  Step-InWindow w (chunk_taken stdin_ok t chunk) e h =
      Flows.in_window (SameFlight-Flows (write_frame-SameFlight stdin_ok _ _)) h
  Step-InWindow w (slice_attempted stdin_ok t body q) e h =
      Flows.in_window (attempt _ _ (send_upload_chunk-Flows codec stdin_ok t body _) q) h
  Step-InWindow w (pump_ends stdin_ok t ending) e h =
      Flows.in_window (SameFlight-Flows (finish_upload-SameFlight codec stdin_ok t ending _)) h
  Step-InWindow w (frame_taken stdin_ok t body) e h =
      Flows.in_window (SameFlight-Flows (write_frame-SameFlight stdin_ok _ _)) h
  Step-InWindow w (socket_written stdin_ok t opcode body) e h =
      Flows.in_window (SameFlight-Flows (write_socket-SameFlight codec stdin_ok t opcode body _)) h
  Step-InWindow w (socket_closed stdin_ok t code reason) e h =
      Flows.in_window (SameFlight-Flows (close_socket-SameFlight codec stdin_ok t code reason _)) h
  Step-InWindow w (release_begins stdin_ok) e h =
      Flows.in_window (release_start-Flows codec stdin_ok _) h
  Step-InWindow w release_ends e h = h

-- Steps in any order of which those that change the window find nothing in flight: `hello` is
-- answered before the first request begins.
pub data Serves (codec : JsonCodec) (accepts : List Action → ℕ → Bool) (v : World)
    : World → Type 0 where
  here : Serves codec accepts v v
  next :
      {w w' : World}
      → Serves codec accepts v w
      → Step codec accepts w w'
      → (w'.window ≡ w.window) ⊎ Idle w
      → Serves codec accepts v w'

module _ {codec : JsonCodec} {accepts : List Action → ℕ → Bool} where
  -- In every state that such steps lead to from the start of a connection, no upload has more bytes
  -- sent and not acknowledged than the window, nor more acknowledged than sent.
  pub Serves-InWindow : {w : World} → Serves codec accepts initial_world w → InWindow w
  Serves-InWindow here r = (omega arith, omega arith)
  Serves-InWindow (next s step e) r = Step-InWindow _ step e (λ k. Serves-InWindow s k) r
