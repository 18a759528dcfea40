-- ===== src/Http/Adapter.antt =====
-- `makeClient` and `TlsHttpResponse` of packages/effect-tls-client/src/TlsHttpClient.ts: a request of
-- effect's HttpClient as a request of a session, and the response as effect's. Spans and the abort
-- signal, which interrupts the fiber, are effect's.
use Prim.Native.String.{String, slice}
use text.Mathlib.Text.{◌==◌ as str_eq, find?}
use mathlib.Core.List.{map}
use effect_tls_client.Prelude.{
  ℕ, Bool, true, false, ◌||◌, Option, none, some, List, [], ◌∷◌, ◌==◌, length, or_else,
  if◌then◌else◌, Result, ok, err, ◌>>=◌,
}
use effect_tls_client.Prelude.Int.{ℤ, pos, negsuc}
use effect_tls_client.Protocol.Metadata.{Pair, body_error}
use effect_tls_client.Errors.{BridgeError, request_error}
use effect_tls_client.Client.Platform.{Platform, JsNumber, integer}
use effect_tls_client.Client.Bodies.{RequestBody, concatenate}
use effect_tls_client.Client.Requests.{RequestOptions, RequestInput, by_url, parse_timeout}
use effect_tls_client.Client.Responses.{TlsResponse}
use effect_tls_client.Http.Headers.{combine_header_pairs}
use effect_tls_client.Http.Bodies.{
  client_cause, text_cause, platform_cause, HttpError, transport_error, encode_error, decode_error,
  empty_body_error, HttpBody, with_body_headers, body_from_http_body,
}

pub data ResponseMode : Type 0 where
  stream_mode bytes_mode text_mode json_mode form_data_mode url_params_mode : ResponseMode

-- `RequestOptions` of this module.
pub record TransportControls : Type 0 where
  pub timeout_ms : Option JsNumber
  pub header_order : Option (List String)
  pub host_override : Option String
  pub response_mode : Option ResponseMode

abbrev pub pair_name : Pair → String
pair_name (name, value) = name

-- `url.split("#")[0]`.
unfoldable pub before_hash : String → String
before_hash url = elim (find? url "#") [ none ↦ url | some i ↦ slice url 0 i ]

-- Whether the cause is a failure to encode the body.
unfoldable pub is_body_failure : BridgeError → Bool
is_body_failure (request_error error) = elim error.kind [ body_error ↦ true | _ ↦ false ]
is_body_failure _ = false

unfoldable pub map_error : BridgeError → HttpError
map_error cause =
    if is_body_failure cause
    then encode_error (client_cause cause)
    else transport_error (client_cause cause)

abbrev pub is_status : ℤ → ℕ → Bool
is_status (pos n) m = n == m
is_status (negsuc n) m = false

-- The responses that have no body to read.
unfoldable pub has_no_body : String → ℤ → Bool
has_no_body method status =
    str_eq method "HEAD" || (is_status status 204 || (is_status status 205 || is_status status 304))

abbrev pub decoded_control : Option (Option ℕ) → Result HttpError (Option ℕ)
decoded_control none = err (transport_error platform_cause)
decoded_control (some timeout) = ok timeout

-- `Stream.filter((chunk) => chunk.byteLength > 0)`.
unfoldable pub filled : List (List ℕ) → List (List ℕ)
filled [] = []
filled (chunk ∷ chunks) =
    let rest = filled chunks in if length chunk == 0 then rest else chunk ∷ rest

abbrev pub mapped_chunks : Result BridgeError (List (List ℕ)) → Result HttpError (List (List ℕ))
mapped_chunks (ok chunks) = ok (filled chunks)
mapped_chunks (err cause) = err (decode_error (client_cause cause))

-- `stream`, run to its end: `source` is what the stream of the response comes to.
unfoldable pub read_stream :
    String → ℤ → Result BridgeError (List (List ℕ)) → Result HttpError (List (List ℕ))
unfolding filled
read_stream method status source =
    if has_no_body method status then err empty_body_error else mapped_chunks source

-- `new Uint8Array(result).set(bytes)`, or nothing where the body is empty by its status. `none` is a
-- defect of `concatenate`.
abbrev pub buffered : Result HttpError (List (List ℕ)) → Option (Result HttpError (List ℕ))
buffered (ok chunks) = elim (concatenate chunks) [ none ↦ none | some bytes ↦ some (ok bytes) ]
buffered (err empty_body_error) = some (ok [])
buffered (err error) = some (err error)

unfoldable pub array_buffer :
    String → ℤ → Result BridgeError (List (List ℕ)) → Option (Result HttpError (List ℕ))
unfolding read_stream
array_buffer method status source = buffered (read_stream method status source)

-- `json` of a text: `null` where it is empty; `parse` is effect's JSON codec.
unfoldable pub json_body :
    {J : Type 0} → J → (List ℕ → Option J) → Result HttpError (List ℕ) → Result HttpError J
json_body null parse text = text >>= λ value.
    if length value == 0
    then ok null
    else elim (parse value) [ none ↦ err (decode_error platform_cause) | some json ↦ ok json ]

-- `urlParamsBody` and `formData`, whose decoders are the platform's.
unfoldable pub decoded_body :
    {F : Type 0} → (List ℕ → Option F) → Result HttpError (List ℕ) → Result HttpError F
decoded_body decode value = value >>= λ bytes. elim (decode bytes) [
  | none ↦ err (decode_error platform_cause)
  | some decoded ↦ ok decoded
]

-- Whether `makeClient` reads the body before it returns the response.
unfoldable pub is_buffered_mode : Option ResponseMode → Bool
is_buffered_mode none = false
is_buffered_mode (some stream_mode) = false
is_buffered_mode (some _) = true

module _ (p : Platform) where
  -- effect's `HttpClientRequest`, with the entries of its headers.
  pub record HttpRequest : Type 0 where
    pub method : String
    pub url : String
    pub headers : List Pair
    pub body : HttpBody p

  abbrev pub transport_options :
      HttpRequest → TransportControls → Option ℕ → Option (RequestBody p) → RequestOptions p
  transport_options request configured timeout body =
      let headers = with_body_headers p request.headers request.body in
      record {
        headers = some headers;
        header_order = some (or_else configured.header_order (map pair_name headers));
        timeout_ms = elim timeout [ none ↦ none | some n ↦ some (integer (pos n)) ];
        follow_redirects = some false;
        host_override = configured.host_override;
        method = some request.method;
        body = body;
        cookies = none;
      }

  -- `makeClient` up to the request of the session. `has_scope` is whether the fiber has a Scope.
  unfoldable pub session_request :
      Bool → HttpRequest → TransportControls → Result HttpError (RequestInput p)
  session_request has_scope request configured =
      decoded_control (parse_timeout configured.timeout_ms) >>= λ timeout.
      body_from_http_body p request.body >>= λ body.
      if has_scope
      then ok (by_url request.url (some (transport_options request configured timeout body)))
      else err (transport_error (text_cause "TlsHttpClient requests require an active Scope"))

  -- `TlsHttpResponse`, but for its body.
  pub record HttpResponse : Type 0 where
    pub status : ℤ
    pub url : String
    pub headers : p.Headers
    pub cookies : p.Cookies

  unfoldable pub http_response : TlsResponse p → HttpResponse
  unfolding before_hash
  http_response source = record {
    status = source.status;
    url = before_hash source.url;
    headers = p.headers_from_input (combine_header_pairs p.lower source.headers);
    cookies = source.cookies;
  }

  abbrev pub body_failed : Option (Result HttpError (List ℕ)) → Option HttpError
  body_failed (some (err error)) = some error
  body_failed _ = none

  -- What follows the session's response: a mode that buffers reads the body, and fails with it.
  unfoldable pub end_request :
      HttpRequest
      → TransportControls
      → Result BridgeError (TlsResponse p)
      → Result BridgeError (List (List ℕ))
      → Result HttpError HttpResponse
  unfolding http_response is_buffered_mode
  end_request request configured (err cause) source = err (map_error cause)
  end_request request configured (ok response) source =
      if is_buffered_mode configured.response_mode
      then elim (body_failed (array_buffer request.method (TlsResponse.status response) source)) [
        | none ↦ ok (http_response response)
        | some error ↦ err error
      ]
      else ok (http_response response)
