-- ===== src/Errors.antt =====
-- packages/effect-tls-client/src/internal/Errors.ts, with `isRequestErrorKind` of Protocol.ts. What
-- caused an error (`cause`) is only passed on, and left out.
use Prim.Native.String.{String}
use effect_tls_client.Prelude.{ℕ, Bool, true, false, Option, List}
use effect_tls_client.Prelude.Int.{ℤ}
use effect_tls_client.Frame.Codec.{FrameCodecError}
use effect_tls_client.Protocol.Metadata.{
  ErrorKind, body_error, cancelled, connect, dns, http, invalid_config, invalid_url, pinning, proxy,
  timeout, tls, unknown, Initiator, Unknown,
}

-- The texts of the messages, those built from numbers or names as constructors; `schema_failure` is
-- a text of effect's Schema.
pub data Message : Type 0 where
  plain : String → Message
  codec_failure : FrameCodecError → Message
  chunk_length_exceeds : ℕ → ℕ → Message
  closed_with_code : ℤ → Message
  unsupported_kind : ErrorKind → Message
  version_mismatch : ℕ → ℤ → Message
  schema_failure : Message
  length_mismatch : ℕ → ℕ → Message

pub data WebSocketErrorKind : Type 0 where
  handshake read write closed : WebSocketErrorKind

pub record WebSocketError : Type 0 where
  pub kind : WebSocketErrorKind
  pub message : Message
  pub code : Option ℤ
  pub reason : Option String
  pub initiator : Option Initiator

pub record RequestError : Type 0 where
  pub kind : ErrorKind
  pub message : Message
  pub is_transient : Bool
  pub detail : Option (List (String × Unknown))

pub data BridgeError : Type 0 where
  spawn_error : Message → BridgeError
  version_mismatch_error : (message expected actual : Message) → BridgeError
  protocol_error : Message → BridgeError
  exited : (exit_code : Option ℤ) (signal : Option String) (stderr_tail : List ℕ) → BridgeError
  session_config_error : Message → BridgeError
  session_not_found_error : (session_id : String) (message : Message) → BridgeError
  request_error : RequestError → BridgeError
  websocket_error : WebSocketError → BridgeError

unfoldable pub is_request_error_kind : ErrorKind → Bool
is_request_error_kind invalid_config = true
is_request_error_kind invalid_url = true
is_request_error_kind dns = true
is_request_error_kind connect = true
is_request_error_kind tls = true
is_request_error_kind proxy = true
is_request_error_kind timeout = true
is_request_error_kind cancelled = true
is_request_error_kind http = true
is_request_error_kind body_error = true
is_request_error_kind pinning = true
is_request_error_kind unknown = true
is_request_error_kind _ = false

unfoldable pub is_transient_request_kind : ErrorKind → Bool
is_transient_request_kind dns = true
is_transient_request_kind connect = true
is_transient_request_kind timeout = true
is_transient_request_kind proxy = true
is_transient_request_kind _ = false
