-- ===== src/Protocol/Metadata.antt =====
-- The types of the metadata, a record for each schema of
-- packages/effect-tls-client/src/internal/Protocol.ts. A `NonNegativeInt` is an ℕ, an `Int` an ℤ,
-- an `optionalKey` an `Option`. A profile is its name.
use Prim.Native.String.{String}
use effect_tls_client.Prelude.{ℕ, ◌*◌, Bool, Option, List}
use effect_tls_client.Prelude.Int.{ℤ}

abbrev pub protocol_version : ℕ
protocol_version = 1

abbrev pub default_window : ℕ
default_window = 1024 * 1024

abbrev pub default_chunk_size : ℕ
default_chunk_size = 64 * 1024

abbrev pub Pair : Type 0
Pair = String × String

pub data SameSite : Type 0 where
  strict lax anywhere : SameSite

pub record Cookie : Type 0 where
  pub name : String
  pub value : String
  pub domain : String
  pub path : String
  pub origin : Option String
  pub expires : Option ℤ
  pub secure : Bool
  pub http_only : Bool
  pub same_site : Option SameSite

pub record Identity : Type 0 where
  pub headers : List Pair
  pub header_order : Option (List String)

pub record TransportOptions : Type 0 where
  pub idle_conn_timeout_ms : Option ℕ
  pub max_idle_conns : Option ℕ
  pub max_idle_conns_per_host : Option ℕ
  pub max_conns_per_host : Option ℕ
  pub max_response_header_bytes : Option ℕ
  pub write_buffer_size : Option ℕ
  pub read_buffer_size : Option ℕ
  pub disable_keep_alives : Option Bool
  pub disable_compression : Option Bool

pub data CookieJar : Type 0 where
  default_jar strict_jar no_jar : CookieJar

-- `CustomProfile` is generated and only passed on: its JSON text.
pub record SessionConfig : Type 0 where
  pub profile : Option String
  pub custom_profile : Option String
  pub identity : Option Identity
  pub timeout_ms : Option ℕ
  pub follow_redirects : Option Bool
  pub proxy_url : Option String
  pub insecure_skip_verify : Option Bool
  pub random_tls_extension_order : Option Bool
  pub disable_session_tickets : Option Bool
  pub force_http1 : Option Bool
  pub disable_http3 : Option Bool
  pub protocol_racing : Option Bool
  pub disable_ipv4 : Option Bool
  pub disable_ipv6 : Option Bool
  pub local_address : Option String
  pub server_name : Option String
  pub certificate_pins : Option (List (String × List String))
  pub cookie_jar : Option CookieJar
  pub transport : Option TransportOptions

pub record SessionConfigWire : Type 0 where
  pub session_id : String
  pub config : SessionConfig

pub record SessionIdMeta : Type 0 where
  pub session_id : String

pub record SessionProxyMeta : Type 0 where
  pub session_id : String
  pub proxy_url : Option String

pub record CookiesGetMeta : Type 0 where
  pub session_id : String
  pub url : String

pub record CookiesSetMeta : Type 0 where
  pub session_id : String
  pub url : String
  pub cookies : List Cookie

pub record CookiesExportMeta : Type 0 where
  pub session_id : String

pub record CookiesImportMeta : Type 0 where
  pub session_id : String
  pub cookies : List Cookie

pub record CookiesResultMeta : Type 0 where
  pub cookies : List Cookie

pub record BandwidthMeta : Type 0 where
  pub session_id : Option String

pub record BandwidthResultMeta : Type 0 where
  pub read : ℕ
  pub written : ℕ

pub record RequestMeta : Type 0 where
  pub session_id : Option String
  pub config : Option SessionConfig
  pub url : String
  pub method : String
  pub headers : List Pair
  pub header_order : Option (List String)
  pub has_body : Bool
  pub content_length : Option ℕ
  pub timeout_ms : Option ℕ
  pub follow_redirects : Option Bool
  pub host_override : Option String
  pub cookies : Option (List Cookie)

pub record WsConnectMeta : Type 0 where
  pub session_id : String
  pub url : String
  pub headers : List Pair
  pub header_order : Option (List String)
  pub subprotocols : Option (List String)
  pub handshake_timeout_ms : Option ℕ
  pub read_buffer_size : Option ℕ
  pub write_buffer_size : Option ℕ

-- `Schema.Literals([1, 2])`: text and binary.
pub data Opcode : Type 0 where
  text_frame binary_frame : Opcode

pub record WsWriteMeta : Type 0 where
  pub opcode : Opcode

pub record WsCloseMeta : Type 0 where
  pub code : Option ℤ
  pub reason : Option String

pub record WsOpenMeta : Type 0 where
  pub status : ℤ
  pub headers : List Pair

pub record WsFrameMeta : Type 0 where
  pub opcode : Opcode

pub data Initiator : Type 0 where
  locally remotely : Initiator

pub record WsClosedMeta : Type 0 where
  pub code : ℤ
  pub reason : String
  pub initiator : Initiator

pub data ResponseProtocol : Type 0 where
  http_1_1 http_2_0 http_3_0 : ResponseProtocol

pub record ResponseHeadersMeta : Type 0 where
  pub status : ℤ
  pub url : String
  pub headers : List Pair
  pub protocol : ResponseProtocol

pub record HelloMeta : Type 0 where
  pub protocol_version : ℤ
  pub client_version : String
  pub window : Option ℕ
  pub chunk_size : Option ℕ

pub record HelloAckMeta : Type 0 where
  pub protocol_version : ℤ
  pub bridge_version : String
  pub tls_client_version : String
  pub go_version : String
  pub window : Option ℕ
  pub chunk_size : Option ℕ

-- `EmptyMeta`, `BodyChunkMeta`, `BodyEndMeta`, `CancelMeta` and `ChunkMeta` have no field.
pub data EmptyMeta : Type 0 where
  empty_meta : EmptyMeta

pub record AckMeta : Type 0 where
  pub bytes : ℕ

pub record DebugSleepMeta : Type 0 where
  pub ms : ℕ

pub record DebugStreamMeta : Type 0 where
  pub chunks : ℕ
  pub size : ℕ

pub record EndMeta : Type 0 where
  pub protocol : Option ResponseProtocol
  pub bytes_read : ℕ
  pub bytes_written : ℕ

pub data ErrorKind : Type 0 where
  body_error cancelled connect dns http internal invalid_config invalid_url pinning : ErrorKind
  protocol proxy session_config session_not_found timeout tls unknown : ErrorKind
  ws_handshake ws_read ws_write : ErrorKind

-- What the code tells apart of a value of type `unknown`.
pub data Unknown : Type 0 where
  text : String → Unknown
  not_text : Unknown

pub record ErrorMeta : Type 0 where
  pub kind : ErrorKind
  pub message : String
  pub detail : Option (List (String × Unknown))
