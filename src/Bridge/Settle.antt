-- ===== src/Bridge/Settle.antt =====
-- How operations end: `stopUpload`, `markDead`, `completePending`, `completeStream` and
-- `completeWebSocket` of packages/effect-tls-client/src/internal/Bridge.ts.
use Prim.Native.String.{String}
use effect_tls_client.Prelude.{
  ℕ, true, Option, none, some, List, [], ◌∷◌, if◌then◌else◌, Result, ok, err,
}
use effect_tls_client.Prelude.Assoc.{lookup, remove}
use effect_tls_client.Prelude.Int.{ℤ}
use effect_tls_client.Frame.Codec.{Frame}
use effect_tls_client.Protocol.Metadata.{EndMeta}
use effect_tls_client.Errors.{BridgeError}
use effect_tls_client.Bridge.World.{
  World, Operation, deferred, stream, websocket, PendingStream, Upload, Action, emit, set_operation,
  settle_call, settle_headers, settle_end, settle_open, settle_done, settle_stop, end_queue,
  fail_queue, make_bridge_exited,
}

unfoldable pub stop_upload_of : ℕ → PendingStream → Option Upload → World → World
stop_upload_of r operation none w = w
stop_upload_of r operation (some upload) w =
    if upload.stopped
    then w
    else emit (settle_stop r ∷ []) (
        set_operation r
          (stream (record operation { upload = some (record upload { stopped = true }) })) w)

unfoldable pub stop_upload : ℕ → PendingStream → World → World
unfolding stop_upload_of
stop_upload r operation w = stop_upload_of r operation operation.upload w

-- The body of the loop of `markDead`.
unfoldable pub fail_operation : BridgeError → ℕ → Operation → World → World
fail_operation error r (stream operation) w =
    emit
      (fail_queue r error
        ∷ settle_headers r (err error)
        ∷ settle_end r (err error)
        ∷ settle_done r
        ∷ [])
      (stop_upload r operation w)
fail_operation error r (websocket operation) w =
    emit (fail_queue r error ∷ settle_open r (err error) ∷ settle_done r ∷ [])
      (set_operation r (websocket (record operation { failure = some error })) w)
fail_operation error r (deferred operation) w = emit (settle_call r (err error) ∷ []) w

unfoldable pub fail_all : BridgeError → List (ℕ × ℕ) → World → World
fail_all error [] w = w
fail_all error ((id, r) ∷ rest) w = fail_all error rest (fail_operation error r (w.operations r) w)

unfoldable pub mark_dead : BridgeError → World → World
mark_dead error w = elim w.dead [
  | some old ↦ w
  | none ↦
      fail_all error w.pending
        (record w { state = record w.state { dead = some error }; pending = [] })
]

unfoldable pub mark_exited : Option ℤ → Option String → World → World
mark_exited exit_code signal w = mark_dead (make_bridge_exited w.state exit_code signal) w

abbrev pub delete : ℕ → World → World
delete id w = record w { pending = remove id w.pending }

unfoldable pub complete_deferred : ℕ → ℕ → Operation → Result BridgeError Frame → World → World
complete_deferred id r (deferred operation) result w =
    emit (settle_call r result ∷ []) (delete id w)
complete_deferred id r (stream operation) result w = w
complete_deferred id r (websocket operation) result w = w

unfoldable pub complete_pending : ℕ → Result BridgeError Frame → World → World
unfolding complete_deferred
complete_pending id result w = elim (lookup id w.pending) [
  | none ↦ w
  | some r ↦ complete_deferred id r (w.operations r) result w
]

unfoldable pub complete_socket : ℕ → ℕ → Operation → BridgeError → World → World
complete_socket id r (deferred operation) error w = w
complete_socket id r (stream operation) error w = w
complete_socket id r (websocket operation) error w =
    emit (fail_queue r error ∷ settle_open r (err error) ∷ settle_done r ∷ [])
      (set_operation r (websocket (record operation { failure = some error })) (delete id w))

unfoldable pub complete_websocket : ℕ → BridgeError → World → World
unfolding complete_socket
complete_websocket id error w = elim (lookup id w.pending) [
  | none ↦ w
  | some r ↦ complete_socket id r (w.operations r) error w
]

-- The actions of `completeStream`, by its test `"_tag" in result`.
unfoldable pub stream_actions : ℕ → Result BridgeError EndMeta → List Action
stream_actions r (err error) =
    fail_queue r error
    ∷ settle_headers r (err error)
    ∷ settle_end r (err error)
    ∷ settle_done r
    ∷ []
stream_actions r (ok end) = end_queue r ∷ settle_end r (ok end) ∷ settle_done r ∷ []

unfoldable pub complete_transfer : ℕ → ℕ → Operation → Result BridgeError EndMeta → World → World
complete_transfer id r (deferred operation) result w = w
complete_transfer id r (websocket operation) result w = w
complete_transfer id r (stream operation) result w =
    emit (stream_actions r result) (delete id (stop_upload r operation w))

unfoldable pub complete_stream : ℕ → Result BridgeError EndMeta → World → World
unfolding complete_transfer
complete_stream id result w = elim (lookup id w.pending) [
  | none ↦ w
  | some r ↦ complete_transfer id r (w.operations r) result w
]
