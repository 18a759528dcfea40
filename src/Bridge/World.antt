-- ===== src/Bridge/World.antt =====
-- The state that `makeBridge` of packages/effect-tls-client/src/internal/Bridge.ts closes over. The
-- objects in the `pending` map are mutable and shared with the fibers that registered them, so the
-- map holds references into `operations`. Deferreds and queues are effect's: what is done to them
-- is recorded in `log`, in order.
use Prim.Native.String.{String}
use effect_tls_client.Prelude.{
  ℕ, ◌-◌, Bool, false, Option, none, some, List, [], ◌++◌, ◌==◌, if◌then◌else◌, Result, min, length,
  drop,
}
use effect_tls_client.Prelude.Int.{ℤ}
use effect_tls_client.Frame.Codec.{Frame}
use effect_tls_client.Frame.Decoder.{FrameDecoder, new_decoder}
use effect_tls_client.Protocol.Metadata.{
  ResponseHeadersMeta, EndMeta, WsOpenMeta, Opcode, default_window, default_chunk_size,
}
use effect_tls_client.Protocol.Schema.{MetaSchema, empty}
use effect_tls_client.Errors.{BridgeError, exited}

pub data Expected : Type 0 where
  hello call shutdown : Expected

-- `UploadState`, without its deferreds and the stream of the body.
pub record Upload : Type 0 where
  pub sent : ℕ
  pub acked : ℕ
  pub stopped : Bool
  pub body_end_sent : Bool
  pub failure : Option BridgeError

pub record PendingDeferred : Type 0 where
  pub expected : Expected
  pub response : MetaSchema

pub record PendingStream : Type 0 where
  pub expects_headers : Bool
  pub headers_seen : Bool
  pub upload : Option Upload

pub record PendingWebSocket : Type 0 where
  pub opened : Bool
  pub close_sent : Bool
  pub failure : Option BridgeError

pub data Operation : Type 0 where
  deferred : PendingDeferred → Operation
  stream : PendingStream → Operation
  websocket : PendingWebSocket → Operation

-- What is done to the deferreds and the queue of the operation at a reference, and to the process.
pub data Action : Type 0 where
  settle_call : ℕ → Result BridgeError Frame → Action
  settle_headers : ℕ → Result BridgeError ResponseHeadersMeta → Action
  settle_end : ℕ → Result BridgeError EndMeta → Action
  settle_open : ℕ → Result BridgeError WsOpenMeta → Action
  settle_done settle_stop settle_wake end_queue : ℕ → Action
  offer_chunk : ℕ → List ℕ → Action
  offer_frame : ℕ → Opcode → List ℕ → Action
  fail_queue : ℕ → BridgeError → Action
  write : List ℕ → Action
  kill : Action

pub record State : Type 0 where
  pub dead : Option BridgeError
  pub closing : Bool
  pub next_id : ℕ
  pub stderr_tail : List ℕ
  pub chunk_size : ℕ
  pub window : ℕ

pub record World : Type 0 where
  pub state : State
  pub open state use *
  pub decoder : FrameDecoder
  pub pending : List (ℕ × ℕ)
  pub operations : ℕ → Operation
  pub fresh : ℕ
  pub log : List Action

abbrev pub initial_state : State
initial_state = record {
  dead = none;
  closing = false;
  next_id = 1;
  stderr_tail = [];
  chunk_size = default_chunk_size;
  window = default_window;
}

-- References from `fresh` on are not in use.
abbrev pub initial_world : World
initial_world = record {
  state = initial_state;
  decoder = new_decoder;
  pending = [];
  operations = λ _. deferred (record { expected = call; response = empty });
  fresh = 0;
  log = [];
}

abbrev pub emit : List Action → World → World
emit actions w = record w { log = w.log ++ actions }

abbrev pub update : (ℕ → Operation) → ℕ → Operation → ℕ → Operation
update operations r operation s = if s == r then operation else operations s

abbrev pub set_operation : ℕ → Operation → World → World
set_operation r operation w = record w { operations = update w.operations r operation }

abbrev pub with_state : State → World → World
with_state s w = record w { state = s }

abbrev pub make_bridge_exited : State → Option ℤ → Option String → BridgeError
make_bridge_exited state exit_code signal = exited exit_code signal state.stderr_tail

-- `state.dead ?? (state.closing ? makeBridgeExited(state, null, null) : undefined)`.
unfoldable pub get_dead : World → Option BridgeError
get_dead w = elim w.dead [
  | some error ↦ some error
  | none ↦ if w.closing then some (make_bridge_exited w.state none none) else none
]

abbrev pub stderr_tail_bytes : ℕ
stderr_tail_bytes = 4096

unfoldable pub append_stderr : List ℕ → World → World
append_stderr chunk w =
    let chunk_start = length chunk - stderr_tail_bytes in
    let retained_chunk = drop chunk_start chunk in
    let retained_old = min (length w.stderr_tail) (stderr_tail_bytes - length retained_chunk) in
    let next = drop (length w.stderr_tail - retained_old) w.stderr_tail ++ retained_chunk in
    with_state (record w.state { stderr_tail = next }) w
