-- ===== src/Http/Bodies.antt =====
-- The bodies of packages/effect-tls-client/src/TlsHttpClient.ts: `withBodyHeaders`, `bodyFromRaw` and
-- `bodyFromHttpBody`.
use Prim.Native.String.{String}
use effect_tls_client.Prelude.{
  ℕ, Option, none, some, List, [], ◌∷◌, ◌++◌, if◌then◌else◌, take, drop, Result, ok, err, ◌>>=◌,
}
use effect_tls_client.Protocol.Metadata.{Pair}
use effect_tls_client.Errors.{BridgeError}
use effect_tls_client.Client.Platform.{Platform}
use effect_tls_client.Client.Bodies.{RequestBody, byte_body, text_body, form_body, stream_body}
use effect_tls_client.Http.Headers.{has_header}

-- What an error of effect's HttpClient was caused by: an error of the client, one made here, or one
-- of the platform.
pub data Cause : Type 0 where
  client_cause : BridgeError → Cause
  text_cause : String → Cause
  platform_cause : Cause

-- `HttpClientError`, by its reason.
pub data HttpError : Type 0 where
  transport_error : Cause → HttpError
  encode_error : Cause → HttpError
  decode_error : Cause → HttpError
  empty_body_error : HttpError

module _ (p : Platform) where
  -- The body of a `Raw`, by what the code tells apart.
  pub data RawBody : Type 0 where
    raw_bytes : List ℕ → RawBody
    raw_text : List ℕ → RawBody
    raw_form : p.FormData → RawBody
    raw_params : p.UrlParams → RawBody
    raw_buffer : List ℕ → RawBody
    raw_view : (buffer : List ℕ) (byte_offset byte_length : ℕ) → RawBody
    raw_stream : p.Readable → RawBody
    raw_blob : p.Blob → RawBody
    raw_other : RawBody

  -- effect's `HttpBody`.
  pub data HttpBody : Type 0 where
    empty_body : HttpBody
    uint8_array : (body : List ℕ) (content_type : String) (content_length : ℕ) → HttpBody
    raw : (body : RawBody) (content_type : Option String) (content_length : Option ℕ) → HttpBody
    form_data : p.FormData → HttpBody
    stream_of :
        (stream : p.ByteStream) (content_type : String) (content_length : Option ℕ) → HttpBody

  abbrev pub content_type_of : HttpBody → Option String
  content_type_of empty_body = none
  content_type_of (uint8_array body content_type content_length) = some content_type
  content_type_of (raw body content_type content_length) = content_type
  content_type_of (form_data form) = none
  content_type_of (stream_of stream content_type content_length) = some content_type

  abbrev pub length_of : HttpBody → Option ℕ
  length_of empty_body = none
  length_of (uint8_array body content_type content_length) = some content_length
  length_of (raw body content_type content_length) = content_length
  length_of (form_data form) = none
  length_of (stream_of stream content_type content_length) = content_length

  -- `headers.push([name, value])`, unless there is no value or the header is there.
  unfoldable pub push_header : String → Option String → List Pair → List Pair
  push_header name none headers = headers
  push_header name (some value) headers =
      if has_header p.lower headers name then headers else headers ++ ((name, value) ∷ [])

  abbrev pub decimal_of : Option ℕ → Option String
  decimal_of none = none
  decimal_of (some n) = some (p.decimal n)

  abbrev pub push_both : List Pair → HttpBody → List Pair
  push_both headers body =
      push_header "content-length" (decimal_of (length_of body))
        (push_header "content-type" (content_type_of body) headers)

  unfoldable pub with_body_headers : List Pair → HttpBody → List Pair
  unfolding push_header
  with_body_headers headers empty_body = headers
  with_body_headers headers (form_data form) = headers
  with_body_headers headers body = push_both headers body

  abbrev pub blob_body : Option (List ℕ) → Result HttpError (RequestBody p)
  blob_body none = err (encode_error platform_cause)
  blob_body (some bytes) = ok (byte_body bytes)

  unfoldable pub body_from_raw : RawBody → Result HttpError (RequestBody p)
  body_from_raw (raw_bytes bytes) = ok (byte_body bytes)
  body_from_raw (raw_text codes) = ok (text_body codes)
  body_from_raw (raw_form form) = ok (form_body form)
  body_from_raw (raw_params params) = ok (text_body (p.params_text params))
  body_from_raw (raw_buffer bytes) = ok (byte_body bytes)
  body_from_raw (raw_view buffer byte_offset byte_length) =
      ok (byte_body (take byte_length (drop byte_offset buffer)))
  body_from_raw (raw_stream readable) = ok (stream_body (p.from_readable readable))
  body_from_raw (raw_blob blob) = blob_body (p.blob_bytes blob)
  body_from_raw raw_other = err (encode_error (text_cause "unsupported Raw HTTP body"))

  unfoldable pub body_from_http_body : HttpBody → Result HttpError (Option (RequestBody p))
  unfolding body_from_raw
  body_from_http_body empty_body = ok none
  body_from_http_body (uint8_array body content_type content_length) = ok (some (byte_body body))
  body_from_http_body (raw body content_type content_length) =
      body_from_raw body >>= λ encoded. ok (some encoded)
  body_from_http_body (form_data form) = ok (some (form_body form))
  body_from_http_body (stream_of stream content_type content_length) =
      ok (some (stream_body stream))
