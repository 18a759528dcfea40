-- ===== src/Client/Calls.antt =====
-- The calls that a client and its sessions make of the Bridge, and what they make of the answers:
-- `makeSession`, the calls of the layer, `decodeCookieResult`, `decodeBandwidthResult` and
-- `normalizeProxy` of packages/effect-tls-client/src/TlsClient.ts.
use Prim.Native.String.{String}
use effect_tls_client.Prelude.{ℕ, Option, none, some, List, [], or_else, Result, ok, err, ◌>>=◌}
use effect_tls_client.Frame.Kind
use effect_tls_client.Frame.Codec.{Frame}
use effect_tls_client.Protocol.Metadata.{
  Cookie, SessionConfig, BandwidthResultMeta, CookiesResultMeta,
}
use effect_tls_client.Protocol.Schema.{
  JsonCodec, MetaSchema, Meta, session_config_wire, session_id, session_proxy, cookies_get,
  cookies_set, cookies_export, cookies_import, cookies_result, bandwidth, bandwidth_result, empty,
  decode_meta,
}
use effect_tls_client.Errors.{BridgeError, RequestError, request_error, protocol_error, plain}
use effect_tls_client.Bridge.World.{World}
use effect_tls_client.Bridge.Calls.{Ticket, begin_call}
use effect_tls_client.Client.Platform.{Platform}
use effect_tls_client.Client.Failures.{config_failure}
use effect_tls_client.Client.Cookies.{collection, normalize_cookies, cookies_from_wire}

-- `ProxyInput`: missing or null, a text, or an `Option` of effect.
pub data ProxyInput : Type 0 where
  no_proxy : ProxyInput
  proxy_text : String → ProxyInput
  proxy_option : Option String → ProxyInput

unfoldable pub normalize_proxy : ProxyInput → Option String
normalize_proxy no_proxy = none
normalize_proxy (proxy_text url) = some url
normalize_proxy (proxy_option option) = option

-- A call with its metadata; the two of bandwidth are the whole client's without a session.
pub data ClientCall : Type 0 where
  create : (id : String) (config : SessionConfig) → ClientCall
  destroy : (id : String) → ClientCall
  get_cookies : (id url : String) → ClientCall
  set_cookies : (id url : String) (cookies : List Cookie) → ClientCall
  export_cookies : (id : String) → ClientCall
  import_cookies : (id : String) (cookies : List Cookie) → ClientCall
  get_bandwidth : (id : Option String) → ClientCall
  reset_bandwidth : (id : Option String) → ClientCall
  set_proxy : (id : String) (proxy : ProxyInput) → ClientCall

unfoldable pub kind_of : ClientCall → ℕ
kind_of (create id config) = Kind.session_create
kind_of (destroy id) = Kind.session_destroy
kind_of (get_cookies id url) = Kind.cookies_get
kind_of (set_cookies id url cookies) = Kind.cookies_set
kind_of (export_cookies id) = Kind.cookies_export
kind_of (import_cookies id cookies) = Kind.cookies_import
kind_of (get_bandwidth id) = Kind.bandwidth_get
kind_of (reset_bandwidth id) = Kind.bandwidth_reset
kind_of (set_proxy id proxy) = Kind.session_proxy

-- The fields of the call's object, for the schema that they are written for.
unfoldable pub given_of : ClientCall → (s : MetaSchema) → Option (Meta s)
unfolding normalize_proxy
given_of (create id config) session_config_wire = some (record { session_id = id; config = config })
given_of (destroy id) session_id = some (record { session_id = id })
given_of (get_cookies id url) cookies_get = some (record { session_id = id; url = url })
given_of (set_cookies id url cookies) cookies_set =
    some (record { session_id = id; url = url; cookies = cookies })
given_of (export_cookies id) cookies_export = some (record { session_id = id })
given_of (import_cookies id cookies) cookies_import =
    some (record { session_id = id; cookies = cookies })
given_of (get_bandwidth id) bandwidth = some (record { session_id = id })
given_of (reset_bandwidth id) bandwidth = some (record { session_id = id })
given_of (set_proxy id proxy) session_proxy =
    some (record { session_id = id; proxy_url = normalize_proxy proxy })
given_of call s = none

-- The schema that the answer is checked against.
unfoldable pub response_of : ClientCall → MetaSchema
response_of (get_cookies id url) = cookies_result
response_of (export_cookies id) = cookies_result
response_of (get_bandwidth id) = bandwidth_result
response_of call = empty

unfoldable pub begin_client_call :
    JsonCodec → ClientCall → World → Option (World × Result BridgeError Ticket)
unfolding given_of response_of kind_of
begin_client_call codec call w =
    begin_call codec (kind_of call) (given_of call) none (response_of call) w

abbrev pub or_protocol_error {ℓ} : {A : Type ℓ} → String → Option A → Result BridgeError A
or_protocol_error message none = err (protocol_error (plain message))
or_protocol_error message (some a) = ok a

unfoldable pub decode_cookie_result : JsonCodec → Frame → Result BridgeError (List Cookie)
decode_cookie_result codec frame =
    or_protocol_error "invalid cookie response metadata"
      (decode_meta codec cookies_result frame.meta)
    >>= λ meta. ok (CookiesResultMeta.cookies meta)

unfoldable pub decode_bandwidth_result : JsonCodec → Frame → Result BridgeError BandwidthResultMeta
decode_bandwidth_result codec frame =
    or_protocol_error "invalid bandwidth response metadata"
      (decode_meta codec bandwidth_result frame.meta)

abbrev pub from_request {ℓ} : {A : Type ℓ} → Result RequestError A → Result BridgeError A
from_request (ok a) = ok a
from_request (err error) = err (request_error error)

-- `CookiesJson`, effect's JSON codec of an array of cookies: `none` where it throws.
pub record CookiesJson : Type 0 where
  pub print : List Cookie → Option String
  pub parse : String → Option (List Cookie)

module _ (p : Platform) (codec : JsonCodec) where
  -- `cookies`, from the Bridge's answer on.
  unfoldable pub end_cookies : Result BridgeError Frame → Result BridgeError p.Cookies
  unfolding decode_cookie_result
  end_cookies answer = answer >>= λ frame.
      decode_cookie_result codec frame >>= λ values. from_request (cookies_from_wire p values)

  -- `setCookies`, up to the call.
  unfoldable pub begin_set_cookies :
      String → String → p.Cookies → World → Option (World × Result BridgeError Ticket)
  begin_set_cookies id url value w = elim (normalize_cookies p (some (collection value))) [
    | err error ↦ some (w, err (request_error error))
    | ok cookies ↦ begin_client_call codec (set_cookies id url (or_else cookies [])) w
  ]

  -- `bandwidth`, from the Bridge's answer on.
  unfoldable pub end_bandwidth : Result BridgeError Frame → Result BridgeError BandwidthResultMeta
  end_bandwidth answer = answer >>= λ frame. decode_bandwidth_result codec frame

  module _ (json : CookiesJson) where
    unfoldable pub end_export : Result BridgeError Frame → Result BridgeError String
    unfolding decode_cookie_result
    end_export answer = answer >>= λ frame. decode_cookie_result codec frame >>= λ values.
        or_protocol_error "failed to encode exported cookies" (json.print values)

    unfoldable pub begin_import :
        String → String → World → Option (World × Result BridgeError Ticket)
    begin_import id text w = elim (json.parse text) [
      | none ↦ some (w, err (request_error (config_failure (plain "invalid cookie export"))))
      | some values ↦ begin_client_call codec (import_cookies id values) w
    ]
