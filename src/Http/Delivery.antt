-- ===== src/Http/Delivery.antt =====
-- What the adapter of packages/effect-tls-client/src/TlsHttpClient.ts delivers: bodies of responses, and
-- requests that the client of TlsClient.ts takes.
use Prim.Native.String.{String}
use text.Mathlib.Text.{◌==◌ as str_eq}
use text.Mathlib.TextEquality.{eq_iff}
use mathlib.Core.List.{flatten}
use effect_tls_client.Prelude.{
  ℕ, ◌≡◌, refl, Bool, true, false, ◌||◌, Option, none, some, List, [], ◌∷◌, ◌++◌, ◌==◌, length,
  if◌then◌else◌, Result, ok, err, arith, Bool-cases, ==_refl, inl, inr,
}
use effect_tls_client.Prelude.Int.{ℤ, pos}
use effect_tls_client.Protocol.Metadata.{Pair}
use effect_tls_client.Errors.{BridgeError}
use effect_tls_client.Client.Platform.{Platform, integer}
use effect_tls_client.Client.Bodies.{byte_body, succeed, header_value, EncodedBody, encode_body}
use effect_tls_client.Client.Joining.{concatenate-flatten}
use effect_tls_client.Client.Cookies.{normalize_cookies}
use effect_tls_client.Client.Requests.{
  RequestInput, by_url, NormalizedRequest, normalize_request, normalize_options, content_length_of,
  agreed_length, with_content_type, parse_timeout, normalized,
}
use effect_tls_client.Client.Normal.{header_value-last}
use effect_tls_client.Http.Headers.{has_header}
use effect_tls_client.Http.Bodies.{
  HttpError, decode_error, client_cause, uint8_array, push_header, with_body_headers,
  body_from_http_body,
}
use effect_tls_client.Http.Adapter.{
  filled, mapped_chunks, buffered, has_no_body, read_stream, array_buffer, HttpRequest,
  TransportControls, transport_options, session_request,
}

flatten-filled : (chunks : List (List ℕ)) → flatten (filled chunks) ≡ flatten chunks
unfolding flatten filled
flatten-filled [] = refl
flatten-filled ([] ∷ chunks) = flatten-filled chunks
flatten-filled ((b ∷ chunk) ∷ chunks) =
    let more : (length (b ∷ chunk) == 0) ≡ false = ground arith in
    rw (more, flatten-filled chunks) refl

-- All bytes of the stream, or its error as a failure to decode.
abbrev pub whole_body : Result BridgeError (List (List ℕ)) → Result HttpError (List ℕ)
whole_body (ok chunks) = ok (flatten chunks)
whole_body (err cause) = err (decode_error (client_cause cause))

buffered-whole :
    (source : Result BridgeError (List (List ℕ)))
    → buffered (mapped_chunks source) ≡ some (whole_body source)
buffered-whole (ok chunks) =
    rw (concatenate-flatten (filled chunks), buffered, flatten-filled chunks) refl
buffered-whole (err cause) = refl

-- The buffered body of a response never ends in a defect: it is empty for a HEAD request and for the
-- statuses 204, 205 and 304, and else all bytes of the response's stream in their order, or the
-- stream's error as a failure to decode.
pub array_buffer-whole_body :
    (method : String) (status : ℤ) (source : Result BridgeError (List (List ℕ)))
    → array_buffer method status source
      ≡ some (if has_no_body method status then ok [] else whole_body source)
unfolding array_buffer read_stream
array_buffer-whole_body method status source = elim (Bool-cases (has_no_body method status)) [
  | inl e ↦ rw e refl
  | inr e ↦ rw e (buffered-whole source)
]

module _ (p : Platform) where
  or_false : (a b : Bool) → (a || b) ≡ false → (a ≡ false) × (b ≡ false)
  or_false a b h = ground arith

  has_header-none :
      (headers : List Pair) (name : String)
      → has_header p.lower headers name ≡ false
      → header_value p headers name ≡ none
  unfolding has_header header_value
  has_header-none [] name h = refl
  has_header-none ((n, v) ∷ headers) name h =
      let (here, later) = or_false (str_eq (p.lower n) name) (has_header p.lower headers name) h in
      rw here (has_header-none headers name later)

  has_header-append :
      (headers : List Pair) (header_name value name : String)
      → has_header p.lower headers name ≡ false
      → str_eq (p.lower header_name) name ≡ false
      → has_header p.lower (headers ++ ((header_name, value) ∷ [])) name ≡ false
  unfolding has_header
  has_header-append [] header_name value name h e = rw e refl
  has_header-append ((n, v) ∷ headers) header_name value name h e =
      let (here, later) = or_false (str_eq (p.lower n) name) (has_header p.lower headers name) h in
      rw here (has_header-append headers header_name value name later e)

  push_header-other :
      (header_name name : String) (value : String) (headers : List Pair)
      → has_header p.lower headers name ≡ false
      → str_eq (p.lower header_name) name ≡ false
      → has_header p.lower (push_header p header_name (some value) headers) name ≡ false
  unfolding push_header
  push_header-other header_name name value headers h e =
      elim (Bool-cases (has_header p.lower headers header_name)) [
        | inl there ↦ rw there h
        | inr new ↦ rw new (has_header-append headers header_name value name h e)
      ]

  push_header-new :
      (name value : String) (headers : List Pair)
      → p.lower name ≡ name
      → has_header p.lower headers name ≡ false
      → header_value p (push_header p name (some value) headers) name ≡ some value
  unfolding push_header
  push_header-new name value headers lowered h = rw h (
      header_value-last p headers name value name (has_header-none headers name h)
        ((eq_iff (p.lower name) name).1 lowered))

  timeout_again :
      (timeout : Option ℕ)
      → parse_timeout (elim timeout [ none ↦ none | some n ↦ some (integer (pos n)) ])
        ≡ some timeout
  unfolding parse_timeout
  timeout_again none = refl
  timeout_again (some n) = refl

  content_length_of-whole :
      (text : String) (encoded : EncodedBody p) (bytes : List ℕ)
      → p.number text ≡ integer (pos (length bytes))
      → encoded
        ≡ record { stream = succeed bytes; length = some (length bytes); content_type = none }
      → content_length_of p (some text) (some encoded) ≡ ok (some (length bytes))
  unfolding content_length_of agreed_length
  content_length_of-whole text encoded bytes reads e =
      rw (e, reads) (rw (==_refl (length bytes)) refl)

  -- Where the platform lower-cases the two header names to themselves and reads back the numbers that
  -- it prints, the caller gives no content-length and a timeout that fits: a request with the bytes of
  -- a body becomes one that the client takes, with these bytes, their number as its content length,
  -- and the headers of `withBodyHeaders`.
  pub session_request-normalize_request :
      (method url content_type : String) (headers : List Pair) (bytes : List ℕ)
      (configured : TransportControls) (timeout : Option ℕ)
      → p.lower "content-type" ≡ "content-type"
      → p.lower "content-length" ≡ "content-length"
      → p.number (p.decimal (length bytes)) ≡ integer (pos (length bytes))
      → has_header p.lower headers "content-length" ≡ false
      → parse_timeout configured.timeout_ms ≡ some timeout
      → (input : RequestInput p) × (n : NormalizedRequest p) × (session_request p true
            (record {
              method = method;
              url = url;
              headers = headers;
              body = uint8_array bytes content_type (length bytes);
            })
            configured
          ≡ ok input)
        × (normalize_request p input ≡ ok n)
        × (n.body ≡ some (succeed bytes))
        × (n.content_length ≡ some (length bytes))
        × (n.headers ≡ with_body_headers p headers (uint8_array bytes content_type (length bytes)))
  unfolding session_request normalize_request normalize_options body_from_http_body encode_body
      with_content_type normalize_cookies with_body_headers
  session_request-normalize_request method url content_type headers bytes configured timeout types
        lengths reads new fits =
      let request : HttpRequest p = record {
        method = method;
        url = url;
        headers = headers;
        body = uint8_array bytes content_type (length bytes);
      } in
      let all = with_body_headers p headers (uint8_array bytes content_type (length bytes)) in
      let apart : str_eq (p.lower "content-type") "content-length" ≡ false = rw types refl in
      let absent =
        push_header-other "content-type" "content-length" content_type headers new apart in
      let declared : header_value p all "content-length" ≡ some (p.decimal (length bytes)) =
        push_header-new "content-length" (p.decimal (length bytes))
          (push_header p "content-type" (some content_type) headers) lengths absent in
      let options = transport_options p request configured timeout (some (byte_body bytes)) in
      let encoded : EncodedBody p = record {
        stream = succeed bytes;
        length = some (length bytes);
        content_type = none;
      } in
      let agreed : content_length_of p (header_value p all "content-length") (some encoded)
          ≡ ok (some (length bytes)) =
        rw declared (content_length_of-whole (p.decimal (length bytes)) encoded bytes reads refl) in
      (
        by_url url (some options),
        normalized p url options timeout all (some encoded) (some (length bytes)) none,
        rw fits refl,
        rw (timeout_again timeout, agreed) refl,
        refl,
        refl,
        refl,
      )
