-- ===== src/Protocol/Schema.antt =====
-- Decoding and encoding of metadata: the checks and `decodeMeta`, `encodeMeta`, `decodeEmptyMeta` of
-- packages/effect-tls-client/src/internal/Protocol.ts. The JSON codec of a schema is effect's
-- (`Schema.fromJsonString`), and a parameter: it reads the fields, and the filters are applied here.
use effect_tls_client.Prelude.{
  ℕ, Bool, true, false, ◌&&◌, ◌||◌, Option, none, some, List, ◌==◌, if◌then◌else◌, length, get_or,
}
use effect_tls_client.Protocol.Metadata.{
  SessionConfig, SessionConfigWire, SessionIdMeta, SessionProxyMeta, CookiesGetMeta, CookiesSetMeta,
  CookiesExportMeta, CookiesImportMeta, CookiesResultMeta, BandwidthMeta, BandwidthResultMeta,
  RequestMeta, WsConnectMeta, WsWriteMeta, WsCloseMeta, WsOpenMeta, WsFrameMeta, WsClosedMeta,
  ResponseHeadersMeta, HelloMeta, HelloAckMeta, EmptyMeta, empty_meta, AckMeta, DebugSleepMeta,
  DebugStreamMeta, EndMeta, ErrorMeta,
}

-- The schemas that `decodeMeta` and `encodeMeta` are called with.
pub data MetaSchema : Type 0 where
  session_config_wire session_id session_proxy cookies_get cookies_set cookies_export : MetaSchema
  cookies_import cookies_result bandwidth bandwidth_result request ws_connect ws_write : MetaSchema
  ws_close ws_open ws_frame ws_closed response_headers hello hello_ack empty ack : MetaSchema
  debug_sleep debug_stream end error : MetaSchema

abbrev pub Meta : MetaSchema → Type 0
Meta session_config_wire = SessionConfigWire
Meta session_id = SessionIdMeta
Meta session_proxy = SessionProxyMeta
Meta cookies_get = CookiesGetMeta
Meta cookies_set = CookiesSetMeta
Meta cookies_export = CookiesExportMeta
Meta cookies_import = CookiesImportMeta
Meta cookies_result = CookiesResultMeta
Meta bandwidth = BandwidthMeta
Meta bandwidth_result = BandwidthResultMeta
Meta request = RequestMeta
Meta ws_connect = WsConnectMeta
Meta ws_write = WsWriteMeta
Meta ws_close = WsCloseMeta
Meta ws_open = WsOpenMeta
Meta ws_frame = WsFrameMeta
Meta ws_closed = WsClosedMeta
Meta response_headers = ResponseHeadersMeta
Meta hello = HelloMeta
Meta hello_ack = HelloAckMeta
Meta empty = EmptyMeta
Meta ack = AckMeta
Meta debug_sleep = DebugSleepMeta
Meta debug_stream = DebugStreamMeta
Meta end = EndMeta
Meta error = ErrorMeta

-- `Schema.fromJsonString` before the filters: `none` where the bytes are no UTF-8, no JSON, or do not
-- have the fields.
pub record JsonCodec : Type 0 where
  pub decode : (s : MetaSchema) → List ℕ → Option (Meta s)
  pub encode : (s : MetaSchema) → Meta s → List ℕ

abbrev pub is_some {ℓ} : {A : Type ℓ} → Option A → Bool
is_some none = false
is_some (some a) = true

-- `hasA !== hasB`.
abbrev pub exactly_one {ℓ κ} : {A : Type ℓ} {B : Type κ} → Option A → Option B → Bool
exactly_one none none = false
exactly_one none (some b) = true
exactly_one (some a) none = true
exactly_one (some a) (some b) = false

unfoldable pub check_session_config : SessionConfig → Bool
check_session_config config = exactly_one config.profile config.custom_profile

unfoldable pub check_nested_config : Option SessionConfig → Bool
unfolding check_session_config
check_nested_config none = true
check_nested_config (some config) = check_session_config config

unfoldable pub check_request : RequestMeta → Bool
check_request meta = check_nested_config meta.config && exactly_one meta.session_id meta.config

-- The filters of a schema.
unfoldable pub check_meta : (s : MetaSchema) → Meta s → Bool
check_meta session_config_wire meta = check_session_config meta.config
check_meta request meta = check_request meta
check_meta _ meta = true

abbrev pub checked : (s : MetaSchema) → Option (Meta s) → Option (Meta s)
checked s none = none
checked s (some meta) = if check_meta s meta then some meta else none

-- `none` where `decodeMeta` throws.
unfoldable pub decode_meta : JsonCodec → (s : MetaSchema) → List ℕ → Option (Meta s)
decode_meta codec s bytes = checked s (codec.decode s bytes)

abbrev pub encode_meta : JsonCodec → (s : MetaSchema) → Meta s → List ℕ
encode_meta codec s meta = codec.encode s meta

unfoldable pub decode_empty_meta : JsonCodec → List ℕ → Option EmptyMeta
decode_empty_meta codec bytes =
    if length bytes == 0
      || (length bytes == 2 && (get_or bytes 0 0 == 0x7b && get_or bytes 1 0 == 0x7d))
    then some empty_meta
    else decode_meta codec empty bytes
