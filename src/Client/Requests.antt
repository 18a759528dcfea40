-- ===== src/Client/Requests.antt =====
-- `normalizeRequest`, `normalizeConfig` and the first half of `requestWith` of
-- packages/effect-tls-client/src/TlsClient.ts: the caller's options as metadata of a request.
use Prim.Native.String.{String}
use text.Mathlib.Text.{◌==◌ as str_eq}
use effect_tls_client.Prelude.{
  ℕ, Bool, Option, none, some, List, [], ◌∷◌, ◌++◌, ◌==◌, if◌then◌else◌, or_else, Result, ok, err,
  ◌>>=◌,
}
use effect_tls_client.Prelude.Int.{pos}
use effect_tls_client.Protocol.Metadata.{Pair, Cookie, SessionConfig, RequestMeta}
use effect_tls_client.Protocol.Schema.{JsonCodec, check_session_config, is_some}
use effect_tls_client.Errors.{
  BridgeError, RequestError, request_error, session_config_error, plain, schema_failure,
  length_mismatch,
}
use effect_tls_client.Bridge.World.{World}
use effect_tls_client.Bridge.Calls.{Ticket}
use effect_tls_client.Bridge.Requests.{begin_request}
use effect_tls_client.Client.Platform.{Platform, JsNumber, integer}
use effect_tls_client.Client.Failures.{config_failure}
use effect_tls_client.Client.Bodies.{
  header_value, RequestBody, BodyStream, EncodedBody, encode_body,
}
use effect_tls_client.Client.Cookies.{CookieSource, normalize_cookies}

pub data RequestTarget : Type 0 where
  by_session : (session_id profile : String) → RequestTarget
  by_config : (config : SessionConfig) (profile : String) → RequestTarget

abbrev pub session_of : RequestTarget → Option String
session_of (by_session session_id profile) = some session_id
session_of (by_config config profile) = none

abbrev pub config_of : RequestTarget → Option SessionConfig
config_of (by_session session_id profile) = none
config_of (by_config config profile) = some config

-- `Schema.optionalKey(Schema.Int.check(>= 0))`: `none` where it fails.
unfoldable pub parse_timeout : Option JsNumber → Option (Option ℕ)
parse_timeout none = some none
parse_timeout (some (integer (pos n))) = some (some n)
parse_timeout (some _) = none

abbrev pub parsed_timeout : Option (Option ℕ) → Result RequestError (Option ℕ)
parsed_timeout none = err (config_failure schema_failure)
parsed_timeout (some timeout) = ok timeout

module _ (p : Platform) where
  pub record RequestOptions : Type 0 where
    pub headers : Option (List Pair)
    pub header_order : Option (List String)
    pub timeout_ms : Option JsNumber
    pub follow_redirects : Option Bool
    pub host_override : Option String
    pub method : Option String
    pub body : Option (RequestBody p)
    pub cookies : Option (CookieSource p)

  -- `urlOrInput` with `options`.
  pub data RequestInput : Type 0 where
    by_url : (url : String) (options : Option RequestOptions) → RequestInput
    by_input : (url : String) (options : RequestOptions) → RequestInput

  pub record NormalizedRequest : Type 0 where
    pub url : String
    pub method : String
    pub headers : List Pair
    pub header_order : Option (List String)
    pub has_body : Bool
    pub content_length : Option ℕ
    pub timeout_ms : Option ℕ
    pub follow_redirects : Option Bool
    pub host_override : Option String
    pub cookies : Option (List Cookie)
    pub body : Option (BodyStream p)

  abbrev pub no_options : RequestOptions
  no_options = record {
    headers = none;
    header_order = none;
    timeout_ms = none;
    follow_redirects = none;
    host_override = none;
    method = none;
    body = none;
    cookies = none;
  }

  abbrev pub url_of : RequestInput → String
  url_of (by_url url options) = url
  url_of (by_input url options) = url

  abbrev pub options_of_input : RequestInput → RequestOptions
  options_of_input (by_url url options) = or_else options no_options
  options_of_input (by_input url options) = options

  abbrev pub body_type : Option (EncodedBody p) → Option String
  body_type none = none
  body_type (some encoded) = encoded.content_type

  abbrev pub body_length : Option (EncodedBody p) → Option ℕ
  body_length none = none
  body_length (some encoded) = encoded.length

  abbrev pub body_stream : Option (EncodedBody p) → Option (BodyStream p)
  body_stream none = none
  body_stream (some encoded) = some encoded.stream

  -- `headers.push(["Content-Type", …])`, unless the caller gives one.
  unfoldable pub with_content_type : List Pair → Option String → List Pair
  with_content_type headers none = headers
  with_content_type headers (some content_type) = elim (header_value p headers "content-type") [
    | some given ↦ headers
    | none ↦ headers ++ (("Content-Type", content_type) ∷ [])
  ]

  unfoldable pub agreed_length : ℕ → Option (EncodedBody p) → Result RequestError (Option ℕ)
  agreed_length parsed none =
      if parsed == 0
      then ok (some parsed)
      else err (config_failure (plain "content-length requires a request body"))
  agreed_length parsed (some encoded) = elim encoded.length [
    | none ↦ ok (some parsed)
    | some actual ↦
        if parsed == actual
        then ok (some parsed)
        else err (config_failure (length_mismatch parsed actual))
  ]

  abbrev pub parsed_length : JsNumber → Option (EncodedBody p) → Result RequestError (Option ℕ)
  parsed_length (integer (pos parsed)) encoded = agreed_length parsed encoded
  parsed_length _ encoded =
      err (config_failure (plain "content-length must be a non-negative integer"))

  unfoldable pub content_length_of :
      Option String → Option (EncodedBody p) → Result RequestError (Option ℕ)
  unfolding agreed_length
  content_length_of none encoded = ok (body_length encoded)
  content_length_of (some declared) encoded = parsed_length (p.number declared) encoded

  abbrev pub default_method : Option (EncodedBody p) → String
  default_method none = "GET"
  default_method (some encoded) = "POST"

  unfoldable pub method_of : Option String → Option (EncodedBody p) → String
  method_of none encoded = default_method encoded
  method_of (some method) encoded = if str_eq method "" then default_method encoded else method

  -- What is returned when nothing has failed.
  abbrev pub normalized :
      String
      → RequestOptions
      → Option ℕ
      → List Pair
      → Option (EncodedBody p)
      → Option ℕ
      → Option (List Cookie)
      → NormalizedRequest
  normalized url options timeout headers encoded content_length cookies = record {
    url = url;
    method = method_of options.method encoded;
    headers = headers;
    header_order = options.header_order;
    has_body = is_some encoded;
    content_length = content_length;
    timeout_ms = timeout;
    follow_redirects = options.follow_redirects;
    host_override = options.host_override;
    cookies = cookies;
    body = body_stream encoded;
  }

  unfoldable pub normalize_options : String → RequestOptions → Result RequestError NormalizedRequest
  unfolding method_of
  normalize_options url options = parsed_timeout (parse_timeout options.timeout_ms) >>= λ timeout.
      encode_body p options.body >>= λ encoded.
      let headers = with_content_type (or_else options.headers []) (body_type encoded) in
      content_length_of (header_value p headers "content-length") encoded >>= λ content_length.
      normalize_cookies p options.cookies >>= λ cookies.
      ok (normalized url options timeout headers encoded content_length cookies)

  unfoldable pub normalize_request : RequestInput → Result RequestError NormalizedRequest
  normalize_request input = normalize_options (url_of input) (options_of_input input)

  -- `{ ...requestTarget, ...normalized.meta }`.
  abbrev pub request_meta : RequestTarget → NormalizedRequest → RequestMeta
  request_meta target n = record {
    session_id = session_of target;
    config = config_of target;
    url = n.url;
    method = n.method;
    headers = n.headers;
    header_order = n.header_order;
    has_body = n.has_body;
    content_length = n.content_length;
    timeout_ms = n.timeout_ms;
    follow_redirects = n.follow_redirects;
    host_override = n.host_override;
    cookies = n.cookies;
  }

  -- `requestWith` up to the Bridge's first step.
  unfoldable pub begin_request_with :
      JsonCodec → RequestTarget → RequestInput → World → Option (World × Result BridgeError Ticket)
  begin_request_with codec target input w = elim (normalize_request input) [
    | err error ↦ some (w, err (request_error error))
    | ok n ↦ begin_request codec (some (request_meta target n)) (is_some n.body) w
  ]

unfoldable pub normalize_config : SessionConfig → Result BridgeError SessionConfig
normalize_config config =
    if check_session_config config then ok config else err (session_config_error schema_failure)

-- `config.profile ?? "custom"`.
abbrev pub profile_of : SessionConfig → String
profile_of config = or_else config.profile "custom"

-- `TlsClient.request`, which has a configuration of its own.
unfoldable pub request_once :
    (p : Platform)
    → JsonCodec
    → SessionConfig
    → RequestInput p
    → World
    → Option (World × Result BridgeError Ticket)
request_once p codec config input w = elim (normalize_config config) [
  | err error ↦ some (w, err error)
  | ok checked ↦ begin_request_with p codec (by_config checked (profile_of checked)) input w
]
