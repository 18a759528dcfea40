-- ===== src/Bridge/Dispatch.antt =====
-- `handleFrame`, `processChunk` and the bodies of `stdoutLoop` of
-- packages/effect-tls-client/src/internal/Bridge.ts. `accepts` is as in StreamFrames.
use effect_tls_client.Prelude.{
  ℕ, Bool, not, ◌||◌, Option, none, some, List, [], ◌∷◌, ◌==◌, length, if◌then◌else◌, Result, ok,
  err, ◌>>=◌, ◌>>◌, throw_if,
}
use effect_tls_client.Prelude.Assoc.{lookup}
use effect_tls_client.Frame.Kind
use effect_tls_client.Frame.Codec.{Frame, FrameCodecError}
use effect_tls_client.Frame.Decoder.{FrameDecoder, push, finish}
use effect_tls_client.Protocol.Schema.{JsonCodec, decode_meta}
use effect_tls_client.Errors.{BridgeError}
use effect_tls_client.Bridge.World.{
  World, Operation, deferred, stream, websocket, PendingDeferred, Action, emit, hello, kill,
  Expected,
}
use effect_tls_client.Bridge.Settle.{mark_dead, complete_pending}
use effect_tls_client.Bridge.ErrorFrames.{fail_protocol, decoded, caught, handle_error_frame}
use effect_tls_client.Bridge.StreamFrames.{handle_stream_frame}
use effect_tls_client.Bridge.SocketFrames.{handle_websocket_frame}

abbrev pub unless_failed :
    (World → World × Option BridgeError) → World × Option BridgeError → World × Option BridgeError
unless_failed rest (w, none) = rest w
unless_failed rest (w, some failure) = (w, some failure)

abbrev pub kill_if_failed : World × Option BridgeError → World
kill_if_failed (w, none) = w
kill_if_failed (w, some failure) = emit (kill ∷ []) (mark_dead failure w)

module _ (codec : JsonCodec) (accepts : List Action → ℕ → Bool) where
  -- Whether the answer is the one that `operation.expected` names.
  unfoldable pub check_answer : Frame → Expected → Result BridgeError (Unit {0})
  check_answer frame hello =
      throw_if
        (not (frame.kind == Kind.hello_ack)
          || (not (frame.id == 0) || not (length frame.body == 0)))
        (fail_protocol "expected helloAck for hello")
  check_answer frame _ =
      throw_if (not (frame.kind == Kind.ok) || not (length frame.body == 0))
        (fail_protocol "expected ok for Bridge operation")

  unfoldable pub deferred_frame : Frame → PendingDeferred → World → Result BridgeError World
  unfolding check_answer
  deferred_frame frame operation w = do
    check_answer frame operation.expected
    _ ← decoded "invalid response metadata" (decode_meta codec operation.response frame.meta)
    ok (complete_pending frame.id (ok frame) w)

  unfoldable pub handle_operation_frame : Frame → ℕ → Operation → World → World × Option BridgeError
  unfolding deferred_frame
  handle_operation_frame frame r (stream operation) w =
      handle_stream_frame codec accepts frame r operation w
  handle_operation_frame frame r (websocket operation) w =
      handle_websocket_frame codec accepts frame r operation w
  handle_operation_frame frame r (deferred operation) w =
      if frame.kind == Kind.error
      then handle_error_frame codec frame r w
      else caught w (deferred_frame frame operation w)

  -- Frames for operations that are no longer pending are dropped.
  unfoldable pub handle_frame : Frame → World → World × Option BridgeError
  handle_frame frame w = elim (lookup frame.id w.pending) [
    | none ↦ (w, none)
    | some r ↦ handle_operation_frame frame r (w.operations r) w
  ]

  -- The loop of `processChunk`, up to the first failure.
  unfoldable pub handle_frames : List Frame → World → World × Option BridgeError
  handle_frames [] w = (w, none)
  handle_frames (f ∷ fs) w = unless_failed (handle_frames fs) (handle_frame f w)

  unfoldable pub process_pushed :
      World → FrameDecoder × Result FrameCodecError (List Frame) → World × Option BridgeError
  process_pushed w (decoder, ok frames) = handle_frames frames (record w { decoder = decoder })
  process_pushed w (decoder, err e) =
      (record w { decoder = decoder }, some (fail_protocol "malformed Bridge frame"))

  unfoldable pub process_chunk : List ℕ → World → World × Option BridgeError
  process_chunk chunk w = process_pushed w (push w.decoder chunk)

  -- One chunk of stdout: a failure kills the process.
  unfoldable pub on_stdout : List ℕ → World → World
  on_stdout chunk w = kill_if_failed (process_chunk chunk w)

-- The end of stdout.
unfoldable pub on_stdout_end : World → World
on_stdout_end w = elim (finish w.decoder) [
  | ok _ ↦ w
  | err e ↦ mark_dead (fail_protocol "Bridge stdout ended with a malformed frame") w
]
