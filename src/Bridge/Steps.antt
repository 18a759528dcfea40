-- ===== src/Bridge/Steps.antt =====
-- The connection of packages/effect-tls-client/src/internal/Bridge.ts as a state machine: the steps
-- that its fibers take, in any order, and the states that they reach.
use Prim.Native.String.{String}
use effect_tls_client.Prelude.{ℕ, ◌≡◌, refl, subst, Bool, Option, some, List, Result, arith}
use effect_tls_client.Prelude.Int.{ℤ}
use effect_tls_client.Frame.Codec.{Frame}
use effect_tls_client.Protocol.Metadata.{DebugStreamMeta, RequestMeta, WsConnectMeta, Opcode}
use effect_tls_client.Protocol.Schema.{JsonCodec, MetaSchema, Meta}
use effect_tls_client.Errors.{BridgeError}
use effect_tls_client.Bridge.World.{World, Action, append_stderr, initial_world}
use effect_tls_client.Bridge.Settle.{mark_exited}
use effect_tls_client.Bridge.Dispatch.{on_stdout, on_stdout_end}
use effect_tls_client.Bridge.Ledger.{live, ended}
use effect_tls_client.Bridge.Ending.{mark_exited-Settles}
use effect_tls_client.Bridge.Conservation.{on_stdout-Settles}
use effect_tls_client.Bridge.Hello.{
  send_hello, hello_timed_out, accept_hello, release_start, release_end,
}
use effect_tls_client.Bridge.Calls.{Ticket, begin_call, write_call, write_first, clean_up}
use effect_tls_client.Bridge.Requests.{begin_stream, begin_request, acknowledge_chunk, stop_request}
use effect_tls_client.Bridge.Uploads.{Attempt, attempted, send_upload_chunk, PumpEnd, finish_upload}
use effect_tls_client.Bridge.Sockets.{begin_web_socket, pull, write_socket, close_socket}
use effect_tls_client.Bridge.Orderly.{
  Orderly, Progress, Progress_refl, Progress_trans, Settles-Progress, write_frame-Settles,
}
use effect_tls_client.Bridge.Opening.{
  Advances, begin_call-Advances, begin_stream-Advances, begin_request-Advances,
  begin_web_socket-Advances, write_call-Progress, write_first-Progress, clean_up-Progress,
  stop_request-Settles,
}
use effect_tls_client.Bridge.Moves.{
  on_stdout_end-Settles, append_stderr-Settles, close_socket-Settles, write_socket-Settles,
  AttemptSettles, send_upload_chunk-Settles, finish_upload-Settles,
}
use effect_tls_client.Bridge.Closing.{
  send_hello-Progress, hello_timed_out-Settles, accept_hello-Settles, release_start-Progress,
  release_end-Settles,
}

-- A step of one of the fibers. The bytes of stdout and stderr, the metadata, the moments at which
-- the fibers go on, and whether the process takes what is written are open.
pub data Step (codec : JsonCodec) (accepts : List Action → ℕ → Bool) (w : World)
    : World → Type 0 where
  stdout_chunk : (chunk : List ℕ) → Step codec accepts w (on_stdout codec accepts chunk w)
  stdout_ends : Step codec accepts w (on_stdout_end w)
  stderr_chunk : (chunk : List ℕ) → Step codec accepts w (append_stderr chunk w)
  process_exits :
      (exit_code : Option ℤ) (signal : Option String)
      → Step codec accepts w (mark_exited exit_code signal w)
  hello_sent : (stdin_ok : Bool) → Step codec accepts w (send_hello codec stdin_ok w).0
  hello_late : Step codec accepts w (hello_timed_out w).0
  hello_answered : (frame : Frame) → Step codec accepts w (accept_hello codec frame w).0
  call_begins :
      (kind : ℕ) (given : (s : MetaSchema) → Option (Meta s)) (body : Option (List ℕ))
      (response : MetaSchema) {w' : World} {result : Result BridgeError Ticket}
      → begin_call codec kind given body response w ≡ some (w', result)
      → Step codec accepts w w'
  stream_begins :
      (meta : Option DebugStreamMeta) {w' : World} {result : Result BridgeError Ticket}
      → begin_stream codec meta w ≡ some (w', result)
      → Step codec accepts w w'
  request_begins :
      (meta : Option RequestMeta) (has_body : Bool) {w' : World}
      {result : Result BridgeError Ticket}
      → begin_request codec meta has_body w ≡ some (w', result)
      → Step codec accepts w w'
  web_socket_begins :
      (meta : Option WsConnectMeta) {w' : World} {result : Result BridgeError Ticket}
      → begin_web_socket codec meta w ≡ some (w', result)
      → Step codec accepts w w'
  call_written : (stdin_ok : Bool) (t : Ticket) → Step codec accepts w (write_call stdin_ok t w).0
  first_written : (stdin_ok : Bool) (t : Ticket) → Step codec accepts w (write_first stdin_ok t w).0
  interrupted :
      (stdin_ok request_sent : Bool) (t : Ticket)
      → Step codec accepts w (clean_up codec stdin_ok request_sent t w).0
  request_stopped :
      (request_sent : Bool) (t : Ticket) → Step codec accepts w (stop_request request_sent t w)
  chunk_taken :
      (stdin_ok : Bool) (t : Ticket) (chunk : List ℕ)
      → Step codec accepts w (acknowledge_chunk codec stdin_ok t chunk w).0
  slice_attempted :
      (stdin_ok : Bool) (t : Ticket) (body : List ℕ) {w' : World}
      {result : Result BridgeError (Unit {0})}
      → send_upload_chunk codec stdin_ok t body w ≡ attempted w' result
      → Step codec accepts w w'
  pump_ends :
      (stdin_ok : Bool) (t : Ticket) (ending : PumpEnd)
      → Step codec accepts w (finish_upload codec stdin_ok t ending w)
  frame_taken :
      (stdin_ok : Bool) (t : Ticket) (body : List ℕ)
      → Step codec accepts w (pull codec stdin_ok t body w).0
  socket_written :
      (stdin_ok : Bool) (t : Ticket) (opcode : Opcode) (body : List ℕ)
      → Step codec accepts w (write_socket codec stdin_ok t opcode body w).0
  socket_closed :
      (stdin_ok : Bool) (t : Ticket) (code : ℤ) (reason : String)
      → Step codec accepts w (close_socket codec stdin_ok t code reason w)
  release_begins : (stdin_ok : Bool) → Step codec accepts w (release_start codec stdin_ok w).0
  release_ends : Step codec accepts w (release_end w)

-- What the steps lead to from `v`, in any number and order.
pub data Reach (codec : JsonCodec) (accepts : List Action → ℕ → Bool) (v : World)
    : World → Type 0 where
  here : Reach codec accepts v v
  next :
      {w w' : World} → Reach codec accepts v w → Step codec accepts w w' → Reach codec accepts v w'

advanced :
    {A : Type 0} (w : World) (o : Option (World × A)) {w' : World} {a : A}
    → Advances w o
    → o ≡ some (w', a)
    → Progress w w'
advanced w o h e = subst (Advances w) e h

attempt :
    (w : World) (o : Attempt) {w' : World} {result : Result BridgeError (Unit {0})}
    → AttemptSettles w o
    → o ≡ attempted w' result
    → Progress w w'
attempt w o h e = Settles-Progress (subst (AttemptSettles w) e h)

initial-Orderly : Orderly initial_world
unfolding live ended
initial-Orderly = record { unique = tt; once = λ r. omega arith; unused = λ r h. refl }

module _ {codec : JsonCodec} {accepts : List Action → ℕ → Bool} where
  -- Each step keeps the invariant, and the error that the connection died of.
  pub Step-Progress : {w w' : World} → Step codec accepts w w' → Progress w w'
  unfolding acknowledge_chunk pull
  Step-Progress (stdout_chunk chunk) = Settles-Progress (on_stdout-Settles codec accepts chunk _)
  Step-Progress stdout_ends = Settles-Progress (on_stdout_end-Settles _)
  Step-Progress (stderr_chunk chunk) = Settles-Progress (append_stderr-Settles chunk _)
  Step-Progress (process_exits code signal) = Settles-Progress (mark_exited-Settles code signal _)
  Step-Progress (hello_sent stdin_ok) = send_hello-Progress codec stdin_ok _
  Step-Progress hello_late = Settles-Progress (hello_timed_out-Settles _)
  Step-Progress (hello_answered frame) = Settles-Progress (accept_hello-Settles codec frame _)
  Step-Progress (call_begins kind given body response e) =
      advanced _ _ (begin_call-Advances codec kind given body response _) e
  Step-Progress (stream_begins meta e) = advanced _ _ (begin_stream-Advances codec meta _) e
  Step-Progress (request_begins meta has_body e) =
      advanced _ _ (begin_request-Advances codec meta has_body _) e
  Step-Progress (web_socket_begins meta e) = advanced _ _ (begin_web_socket-Advances codec meta _) e
  Step-Progress (call_written stdin_ok t) = write_call-Progress stdin_ok t _
  Step-Progress (first_written stdin_ok t) = write_first-Progress stdin_ok t _
  Step-Progress (interrupted stdin_ok sent t) = clean_up-Progress codec stdin_ok sent t _
  Step-Progress (request_stopped sent t) = Settles-Progress (stop_request-Settles sent t _)
  Step-Progress (chunk_taken stdin_ok t chunk) = Settles-Progress (write_frame-Settles stdin_ok _ _)
  Step-Progress (slice_attempted stdin_ok t body e) =
      attempt _ _ (send_upload_chunk-Settles codec stdin_ok t body _) e
  Step-Progress (pump_ends stdin_ok t ending) =
      Settles-Progress (finish_upload-Settles codec stdin_ok t ending _)
  Step-Progress (frame_taken stdin_ok t body) = Settles-Progress (write_frame-Settles stdin_ok _ _)
  Step-Progress (socket_written stdin_ok t opcode body) =
      Settles-Progress (write_socket-Settles codec stdin_ok t opcode body _)
  Step-Progress (socket_closed stdin_ok t code reason) =
      Settles-Progress (close_socket-Settles codec stdin_ok t code reason _)
  Step-Progress (release_begins stdin_ok) = release_start-Progress codec stdin_ok _
  Step-Progress release_ends = Settles-Progress (release_end-Settles _)

  Reach-Progress : {v w : World} → Reach codec accepts v w → Progress v w
  Reach-Progress here = Progress_refl _
  Reach-Progress (next r s) = Progress_trans (Reach-Progress r) (Step-Progress s)

  -- A death is final: in every state that the steps lead to, the connection is dead of the same
  -- error.
  pub Reach-dead :
      {v w : World} (error : BridgeError)
      → Reach codec accepts v w
      → v.dead ≡ some error
      → w.dead ≡ some error
  Reach-dead error r h = (Reach-Progress r).dead_kept error h

  -- In every state that the steps lead to from the start of a connection, in any order, the ids in
  -- the map are distinct, an operation is pending or has been ended, once in all at most, and
  -- references that are not in use are neither.
  pub Reach-Orderly : {w : World} → Reach codec accepts initial_world w → Orderly w
  Reach-Orderly r = (Reach-Progress r).orderly initial-Orderly
