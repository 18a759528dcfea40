-- ===== src/Bridge/Calls.antt =====
-- `call` of packages/effect-tls-client/src/internal/Bridge.ts, cut at the points where its fiber
-- waits: up to the write, the write, and the cleanup of an interrupted call.
use effect_tls_client.Prelude.{
  ℕ, Bool, false, not, ◌&&◌, Option, none, some, List, ◌==◌, if◌then◌else◌, Result, ok, err,
}
use effect_tls_client.Prelude.Assoc.{lookup}
use effect_tls_client.Frame.Kind
use effect_tls_client.Frame.Codec.{FrameInput}
use effect_tls_client.Protocol.Schema.{
  JsonCodec, MetaSchema, Meta, checked, is_some, encode_meta, empty, debug_sleep,
  session_config_wire, session_id, session_proxy, cookies_get, cookies_set, cookies_export,
  cookies_import, bandwidth,
}
use effect_tls_client.Errors.{BridgeError}
use effect_tls_client.Bridge.World.{World, deferred, call, get_dead}
use effect_tls_client.Bridge.Settle.{delete}
use effect_tls_client.Bridge.ErrorFrames.{fail_protocol}
use effect_tls_client.Bridge.Writing.{write_frame, frame_input, register, allocate_id, send_cancel}

-- A fiber that has registered an operation: its id, the reference of the object, the frame to write.
pub record Ticket : Type 0 where
  pub id : ℕ
  pub operation : ℕ
  pub input : FrameInput

-- What follows the checks: an id, and what is registered under it. `none` is an `allocateId` that
-- does not return.
abbrev pub with_id {ℓ} :
    {A : Type ℓ} → Option (ℕ × World) → (ℕ × World → World × A) → Option (World × A)
with_id none enter = none
with_id (some allocated) enter = some (enter allocated)

abbrev pub open_checked {ℓ} :
    {B : Type ℓ}
    → World
    → Result BridgeError B
    → (B → ℕ × World → World × Result BridgeError Ticket)
    → Option (World × Result BridgeError Ticket)
open_checked w (err error) enter = some (w, err error)
open_checked w (ok b) enter = with_id (allocate_id w) (enter b)

-- The schema of a call's metadata.
unfoldable pub call_schema : ℕ → MetaSchema
call_schema kind =
    if kind == Kind.debug_ping
    then empty
    else if kind == Kind.debug_sleep
    then debug_sleep
    else if kind == Kind.session_create
    then session_config_wire
    else if kind == Kind.session_destroy
    then session_id
    else if kind == Kind.session_proxy
    then session_proxy
    else if kind == Kind.cookies_get
    then cookies_get
    else if kind == Kind.cookies_set
    then cookies_set
    else if kind == Kind.cookies_export
    then cookies_export
    else if kind == Kind.cookies_import
    then cookies_import
    else bandwidth

-- `given` holds the fields that a schema reads from the caller's `meta`, before the filters, or
-- `none` where they do not fit; the result is `none` where `decodeUnknownSync` throws.
unfoldable pub encode_call_meta :
    JsonCodec → ℕ → ((s : MetaSchema) → Option (Meta s)) → Option (List ℕ)
encode_call_meta codec kind given = elim (checked (call_schema kind) (given (call_schema kind))) [
  | none ↦ none
  | some meta ↦ some (encode_meta codec (call_schema kind) meta)
]

-- The checks before `allocateId`.
unfoldable pub check_call :
    JsonCodec
    → ℕ
    → ((s : MetaSchema) → Option (Meta s))
    → Option (List ℕ)
    → World
    → Result BridgeError (List ℕ)
check_call codec kind given body w = elim (get_dead w) [
  | some error ↦ err error
  | none ↦
      if (kind == Kind.debug_sleep) && is_some body
      then err (fail_protocol "debug.sleep does not accept a body")
      else elim (encode_call_meta codec kind given) [
        | none ↦ err (fail_protocol "invalid request metadata")
        | some encoded ↦ ok encoded
      ]
]

-- The second `getDead`: the operation is taken out again if the Bridge has died.
abbrev pub unless_dead : Ticket → World → Option BridgeError → World × Result BridgeError Ticket
unless_dead t w (some error) = (delete t.id w, err error)
unless_dead t w none = (w, ok t)

unfoldable pub register_call :
    ℕ → Option (List ℕ) → MetaSchema → List ℕ → ℕ × World → World × Result BridgeError Ticket
register_call kind body response meta (id, w) =
    let registered = register id (deferred (record { expected = call; response = response })) w in
    let ticket : Ticket = record {
      id = id;
      operation = w.fresh;
      input = frame_input kind id meta body;
    } in
    unless_dead ticket registered (get_dead registered)

unfoldable pub begin_call :
    JsonCodec
    → ℕ
    → ((s : MetaSchema) → Option (Meta s))
    → Option (List ℕ)
    → MetaSchema
    → World
    → Option (World × Result BridgeError Ticket)
begin_call codec kind given body response w =
    open_checked w (check_call codec kind given body w) (register_call kind body response)

abbrev pub after_write :
    (World → World) → World × Result BridgeError (Unit {0}) → World × Result BridgeError (Unit {0})
after_write undo (w, ok _) = (w, ok tt)
after_write undo (w, err error) = (undo w, err error)

-- The write of the call's frame: where it fails the id is deleted.
unfoldable pub write_call : Bool → Ticket → World → World × Result BridgeError (Unit {0})
write_call stdin_ok t w = after_write (delete t.id) (write_frame stdin_ok t.input w)

-- `pending.get(id) === operation`.
unfoldable pub is_pending : ℕ → ℕ → World → Bool
is_pending id r w = elim (lookup id w.pending) [ none ↦ false | some s ↦ s == r ]

abbrev pub delete_own : Ticket → World → World
delete_own t w = if is_pending t.id t.operation w then delete t.id w else w

-- The write of a stream's, a request's or a WebSocket's first frame.
unfoldable pub write_first : Bool → Ticket → World → World × Result BridgeError (Unit {0})
write_first stdin_ok t w = after_write (delete_own t) (write_frame stdin_ok t.input w)

-- The cleanup of an interrupted fiber. The flag is whether it goes on to wait for the end of the
-- operation, which the answer to the cancel brings.
unfoldable pub clean_up : JsonCodec → Bool → Bool → Ticket → World → World × Bool
clean_up codec stdin_ok request_sent t w =
    if not request_sent
    then (delete_own t w, false)
    else (let cancelled = (send_cancel codec stdin_ok t.id w).0 in
        (cancelled, is_pending t.id t.operation cancelled))
