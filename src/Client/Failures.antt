-- ===== src/Client/Failures.antt =====
-- The errors that packages/effect-tls-client/src/TlsClient.ts makes itself: `requestError`,
-- `requestConfigError`, `socketError` and `requestErrorKind`.
use Prim.Native.String.{String}
use effect_tls_client.Prelude.{Bool, false, Option, none, if◌then◌else◌, or_else}
use effect_tls_client.Prelude.Int.{ℤ, pos}
use effect_tls_client.Protocol.Metadata.{ErrorKind, body_error, invalid_config}
use effect_tls_client.Errors.{
  BridgeError, Message, RequestError, request_error, websocket_error, WebSocketError, handshake,
  read, write, closed, spawn_error, version_mismatch_error, protocol_error, exited,
  session_config_error, session_not_found_error,
}

abbrev pub body_failure : Message → RequestError
body_failure message = record {
  kind = body_error;
  message = message;
  is_transient = false;
  detail = none;
}

abbrev pub config_failure : Message → RequestError
config_failure message = record {
  kind = invalid_config;
  message = message;
  is_transient = false;
  detail = none;
}

pub data OpenErrorKind : Type 0 where
  open_timeout open_unknown : OpenErrorKind

-- effect's `Socket.SocketError`, by its reason.
pub data SocketError : Type 0 where
  socket_close : (code : ℤ) (close_reason : Option String) → SocketError
  socket_read : (cause : BridgeError) → SocketError
  socket_write : (cause : BridgeError) → SocketError
  socket_open : OpenErrorKind → (cause : BridgeError) → SocketError

pub data Phase : Type 0 where
  opening reading writing : Phase

-- `is_timeout` is the test /timeout|deadline/i of a message.
unfoldable pub web_socket_error : (Message → Bool) → WebSocketError → SocketError
web_socket_error is_timeout error = elim error.kind [
  | closed ↦ socket_close (or_else error.code (pos 1000)) error.reason
  | read ↦ socket_read (websocket_error error)
  | write ↦ socket_write (websocket_error error)
  | handshake ↦
      socket_open (if is_timeout error.message then open_timeout else open_unknown)
        (websocket_error error)
]

abbrev pub error_of_phase : Phase → BridgeError → SocketError
error_of_phase opening error = socket_open open_unknown error
error_of_phase reading error = socket_read error
error_of_phase writing error = socket_write error

unfoldable pub socket_error : (Message → Bool) → Phase → BridgeError → SocketError
unfolding web_socket_error
socket_error is_timeout phase (websocket_error error) = web_socket_error is_timeout error
socket_error is_timeout phase error = error_of_phase phase error

-- The label of a failure in the metric of requests: the kind of a request error, else its tag.
pub data ErrorLabel : Type 0 where
  no_error : ErrorLabel
  kind_label : ErrorKind → ErrorLabel
  tag_label : String → ErrorLabel

unfoldable pub request_error_kind : BridgeError → ErrorLabel
request_error_kind (request_error error) = kind_label error.kind
request_error_kind (spawn_error message) = tag_label "BridgeSpawnError"
request_error_kind (version_mismatch_error m e a) = tag_label "BridgeVersionMismatch"
request_error_kind (protocol_error message) = tag_label "BridgeProtocolError"
request_error_kind (exited code signal tail) = tag_label "BridgeExited"
request_error_kind (session_config_error message) = tag_label "SessionConfigError"
request_error_kind (session_not_found_error id message) = tag_label "SessionNotFound"
request_error_kind (websocket_error error) = tag_label "TlsWebSocketError"
