-- ===== src/Bridge/Writing.antt =====
-- Writing frames and choosing ids: `writeBytes`, `writeFrame`, `sendCancel` and `allocateId` of
-- packages/effect-tls-client/src/internal/Bridge.ts. The semaphore lets one frame be written at a
-- time, so a write is one step; `stdin_ok` is whether the process takes the bytes.
use effect_tls_client.Prelude.{
  ℕ, zero, suc, ◌+◌, Bool, true, false, not, ◌&&◌, Option, none, some, or_else, List, [], ◌∷◌, ◌==◌,
  length, if◌then◌else◌, Result, ok, err,
}
use effect_tls_client.Prelude.Assoc.{has, insert}
use effect_tls_client.Frame.Kind
use effect_tls_client.Frame.Codec.{FrameInput, FrameCodecError, encode_frame, bytes}
use effect_tls_client.Protocol.Metadata.{empty_meta}
use effect_tls_client.Protocol.Schema.{JsonCodec, encode_meta, empty, is_some}
use effect_tls_client.Errors.{BridgeError, protocol_error, codec_failure}
use effect_tls_client.Bridge.World.{
  World, Operation, emit, write, with_state, make_bridge_exited, update,
}
use effect_tls_client.Bridge.Settle.{mark_dead}

-- A frame with metadata and perhaps a body.
abbrev pub frame_input : ℕ → ℕ → List ℕ → Option (List ℕ) → FrameInput
frame_input kind id meta body = record { kind = kind; id = id; meta = bytes meta; body = body }

abbrev pub write_error : World → BridgeError
write_error w = or_else w.dead (make_bridge_exited w.state none none)

unfoldable pub write_bytes : Bool → List ℕ → World → World × Result BridgeError (Unit {0})
write_bytes true encoded w = (emit (write encoded ∷ []) w, ok tt)
write_bytes false encoded w = (mark_dead (write_error w) w, err (write_error w))

abbrev pub write_encoded :
    Bool → Result FrameCodecError (List ℕ) → World → World × Result BridgeError (Unit {0})
write_encoded stdin_ok (err e) w = (w, err (protocol_error (codec_failure e)))
write_encoded stdin_ok (ok encoded) w = write_bytes stdin_ok encoded w

unfoldable pub write_frame : Bool → FrameInput → World → World × Result BridgeError (Unit {0})
write_frame stdin_ok input w = write_encoded stdin_ok (encode_frame input) w

unfoldable pub send_cancel : JsonCodec → Bool → ℕ → World → World × Result BridgeError (Unit {0})
send_cancel codec stdin_ok id w =
    if is_some w.dead
    then (w, ok tt)
    else if not (has id w.pending)
    then (w, ok tt)
    else write_frame stdin_ok (frame_input Kind.cancel id (encode_meta codec empty empty_meta) none)
        w

abbrev pub max_id : ℕ
max_id = 0xffffffff

abbrev pub id_after : ℕ → ℕ
id_after id = if id == max_id then 1 else id + 1

-- The endless loop of `allocateId` with fuel; `none` is a loop that is still running.
unfoldable pub allocate_from : ℕ → World → Option (ℕ × World)
allocate_from zero w = none
allocate_from (suc fuel) w =
    let id = w.next_id in
    let w' = with_state (record w.state { next_id = id_after id }) w in
    let rest = allocate_from fuel w' in
    if not (id == 0) && not (has id w.pending) then some (id, w') else rest

-- Each round tries another id, so one round more than there are entries is enough.
unfoldable pub allocate_id : World → Option (ℕ × World)
allocate_id w = allocate_from (suc (length w.pending)) w

-- `pending.set(id, operation)` of a new operation.
unfoldable pub register : ℕ → Operation → World → World
register id operation w = record w {
  pending = insert id w.fresh w.pending;
  operations = update w.operations w.fresh operation;
  fresh = suc w.fresh;
}
