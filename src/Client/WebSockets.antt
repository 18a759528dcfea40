-- ===== src/Client/WebSockets.antt =====
-- `normalizeWebSocket` and `makeWebSocketSocket` of packages/effect-tls-client/src/TlsClient.ts. A
-- `BridgeWebSocket` is the number of its `bridge.webSocket` call, since each call makes a new object.
-- The fibers are cut into the steps between their waits; the calls of `close` and of the metric
-- `webSocketConnectionsActive` are a log.
use Prim.Native.String.{String}
use effect_tls_client.Prelude.{
  ℕ, suc, Bool, true, false, Option, none, some, List, [], ◌∷◌, ◌++◌, ◌==◌, if◌then◌else◌, or_else,
  contains, Result, ok, err, ◌>>=◌,
}
use effect_tls_client.Prelude.Members.{add_id, delete_id}
use effect_tls_client.Prelude.Int.{ℤ, pos}
use effect_tls_client.Protocol.Metadata.{Pair, WsConnectMeta, Opcode, text_frame, binary_frame}
use effect_tls_client.Errors.{BridgeError, Message, WebSocketError, handshake, plain}
use effect_tls_client.Frame.Codec.{utf8_encode}
use effect_tls_client.Client.Platform.{JsNumber}
use effect_tls_client.Client.Cookies.{unless_empty}
use effect_tls_client.Client.Failures.{
  SocketError, socket_close, socket_error, opening, reading, writing,
}
use effect_tls_client.Client.Requests.{parse_timeout}

pub record WebSocketOptions : Type 0 where
  pub headers : Option (List Pair)
  pub header_order : Option (List String)
  pub subprotocols : Option (List String)
  pub handshake_timeout_ms : Option JsNumber
  pub read_buffer_size : Option JsNumber
  pub write_buffer_size : Option JsNumber

abbrev pub no_web_socket_options : WebSocketOptions
no_web_socket_options = record {
  headers = none;
  header_order = none;
  subprotocols = none;
  handshake_timeout_ms = none;
  read_buffer_size = none;
  write_buffer_size = none;
}

abbrev pub invalid_options : WebSocketError
invalid_options = record {
  kind = handshake;
  message = plain "invalid WebSocket options";
  code = none;
  reason = none;
  initiator = none;
}

abbrev pub checked_option : Option JsNumber → Result WebSocketError (Option ℕ)
checked_option given = elim (parse_timeout given) [
  | none ↦ err invalid_options
  | some value ↦ ok value
]

unfoldable pub normalize_options : String → WebSocketOptions → Result WebSocketError WsConnectMeta
normalize_options url options = checked_option options.handshake_timeout_ms >>= λ timeout.
    checked_option options.read_buffer_size >>= λ read_size.
    checked_option options.write_buffer_size >>= λ write_size. ok (record {
      session_id = "";
      url = url;
      headers = or_else options.headers [];
      header_order = options.header_order;
      subprotocols = options.subprotocols;
      handshake_timeout_ms = timeout;
      read_buffer_size = read_size;
      write_buffer_size = write_size;
    })

unfoldable pub normalize_web_socket :
    String → Option WebSocketOptions → Result WebSocketError WsConnectMeta
unfolding normalize_options
normalize_web_socket url options = normalize_options url (or_else options no_web_socket_options)

-- `{ ...meta, sessionId }`.
abbrev pub connect_meta : String → WsConnectMeta → WsConnectMeta
connect_meta session_id meta = record meta { session_id = session_id }

pub data SocketAction : Type 0 where
  close_call : (connection : ℕ) (code : ℤ) (reason : String) → SocketAction
  connections_up : ℕ → SocketAction
  connections_down : ℕ → SocketAction

pub record Socket : Type 0 where
  pub connection : Option ℕ
  pub failure : Option SocketError
  pub latch_open : Bool
  pub counted_connections : List ℕ
  pub fresh : ℕ
  pub log : List SocketAction

abbrev pub new_socket : Socket
new_socket = record {
  connection = none;
  failure = none;
  latch_open = false;
  counted_connections = [];
  fresh = 0;
  log = [];
}

abbrev pub local_close_error : ℤ → String → SocketError
local_close_error code reason = socket_close code (unless_empty reason)

abbrev pub closed_normally : SocketError
closed_normally = local_close_error (pos 1000) ""

unfoldable pub set_failure : SocketError → Socket → Socket
set_failure error s = record s {
  failure = some (or_else s.failure error);
  connection = none;
  latch_open = true;
}

-- `closeConnection` up to its wait for the Bridge.
unfoldable pub close_connection : ℕ → ℤ → String → Socket → Socket
unfolding set_failure
close_connection active code reason s =
    let failed = set_failure (local_close_error code reason) s in
    record failed { log = failed.log ++ (close_call active code reason ∷ []) }

-- Its `decrement`, however the close has ended.
unfoldable pub decrement : ℕ → Socket → Socket
decrement active s =
    if contains active s.counted_connections
    then record s {
      counted_connections = delete_id active s.counted_connections;
      log = s.log ++ (connections_down active ∷ []);
    }
    else s

-- `reader` up to its wait for the Bridge.
unfoldable pub begin_reader : Socket → Socket
begin_reader s = record s { failure = none; connection = none; latch_open = false }

-- The Bridge has opened a connection, or has not.
unfoldable pub reader_opened : Socket → Socket
reader_opened s = record s {
  connection = some s.fresh;
  counted_connections = add_id s.fresh s.counted_connections;
  latch_open = true;
  fresh = suc s.fresh;
  log = s.log ++ (connections_up s.fresh ∷ []);
}

unfoldable pub reader_failed : (Message → Bool) → BridgeError → SocketError
reader_failed is_timeout error = socket_error is_timeout opening error

-- `connection === active`.
abbrev pub is_active : ℕ → Option ℕ → Bool
is_active active none = false
is_active active (some connection) = connection == active

-- `read` up to its wait for a frame.
unfoldable pub begin_read : ℕ → Socket → Result SocketError (Unit {0})
begin_read active s =
    if is_active active s.connection then ok tt else err (or_else s.failure closed_normally)

-- An error of the Bridge while a frame is read or written.
unfoldable pub set_failure_of : ℕ → SocketError → Socket → Socket × SocketError
unfolding set_failure
set_failure_of active mapped s =
    (if is_active active s.connection then set_failure mapped s else s, mapped)

-- A text is what `TextDecoder` makes of the bytes.
pub data Received : Type 0 where
  decoded_text : List ℕ → Received
  binary_data : List ℕ → Received

abbrev pub received : Opcode → List ℕ → Received
received text_frame body = decoded_text body
received binary_frame body = binary_data body

unfoldable pub end_read :
    (Message → Bool)
    → ℕ
    → Result BridgeError (Opcode × List ℕ)
    → Socket
    → Socket × Result SocketError Received
unfolding set_failure_of
end_read is_timeout active (ok (opcode, body)) s = (s, ok (received opcode body))
end_read is_timeout active (err error) s =
    let (failed, mapped) = set_failure_of active (socket_error is_timeout reading error) s in
    (failed, err mapped)

-- What is written: bytes, a text, or a `Socket.CloseEvent`.
pub data Chunk : Type 0 where
  byte_chunk : List ℕ → Chunk
  text_chunk : List ℕ → Chunk
  close_event : (code : ℤ) (reason : String) → Chunk

pub data Write : Type 0 where
  -- It fails, or waits at the latch.
  refused : SocketError → Write
  waits_open : Write
  -- It closes, or sends.
  closing : (active : ℕ) (code : ℤ) (reason : String) → Write
  sending : (active : ℕ) (opcode : Opcode) (bytes : List ℕ) → Write

abbrev pub write_to : ℕ → Chunk → Write
write_to active (close_event code reason) = closing active code reason
write_to active (byte_chunk bytes) = sending active binary_frame bytes
write_to active (text_chunk codes) = sending active text_frame (utf8_encode codes)

abbrev pub refused_or : Option SocketError → Write → Write
refused_or none other = other
refused_or (some failure) other = refused failure

unfoldable pub write : Chunk → Socket → Write
write chunk s = elim s.connection [
  | some active ↦ write_to active chunk
  | none ↦ refused_or s.failure waits_open
]

-- A write that goes on after the latch has been opened.
unfoldable pub write_on : Chunk → Socket → Write
unfolding write
write_on chunk s = elim s.connection [
  | some active ↦ write chunk s
  | none ↦ refused (or_else s.failure closed_normally)
]

-- The Bridge has taken what was sent, or has not.
unfoldable pub end_write :
    (Message → Bool)
    → ℕ
    → Result BridgeError (Unit {0})
    → Socket
    → Socket × Result SocketError (Unit {0})
unfolding set_failure_of
end_write is_timeout active (ok _) s = (s, ok tt)
end_write is_timeout active (err error) s =
    let (failed, mapped) = set_failure_of active (socket_error is_timeout writing error) s in
    (failed, err mapped)

-- `close` of the `ManagedWebSocket`.
unfoldable pub close_managed : Socket → Socket
unfolding close_connection
close_managed s = elim s.connection [
  | none ↦ s
  | some active ↦ close_connection active (pos 1000) "" s
]
