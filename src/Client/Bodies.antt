-- ===== src/Client/Bodies.antt =====
-- The bodies of requests and responses in packages/effect-tls-client/src/TlsClient.ts: `concatenate`,
-- `headerValue` and `encodeBody`. A byte array is a list of numbers, a text a list of code points.
use Prim.Native.String.{String}
use text.Mathlib.Text.{◌==◌ as str_eq}
use effect_tls_client.Prelude.{
  ℕ, zero, suc, ◌+◌, Option, none, some, List, [], ◌∷◌, ◌++◌, length, take, drop, leb,
  if◌then◌else◌, Result, ok, err,
}
use effect_tls_client.Frame.Codec.{utf8_encode}
use effect_tls_client.Protocol.Metadata.{Pair}
use effect_tls_client.Errors.{RequestError, plain}
use effect_tls_client.Client.Platform.{Platform}
use effect_tls_client.Client.Failures.{body_failure}

-- `new Uint8Array(length)`.
abbrev pub zeros : ℕ → List ℕ
zeros zero = []
zeros (suc n) = 0 ∷ zeros n

-- `result.set(chunk, offset)`: `none` where it throws a RangeError.
unfoldable pub set_bytes : List ℕ → List ℕ → ℕ → Option (List ℕ)
set_bytes result chunk offset =
    if leb (offset + length chunk) (length result)
    then some (take offset result ++ (chunk ++ drop (offset + length chunk) result))
    else none

unfoldable pub total_length : List (List ℕ) → ℕ
total_length [] = 0
total_length (chunk ∷ chunks) = length chunk + total_length chunks

-- The loop that writes the chunks one after the other.
unfoldable pub fill : List (List ℕ) → ℕ → List ℕ → Option (List ℕ)
fill [] offset result = some result
fill (chunk ∷ chunks) offset result = elim (set_bytes result chunk offset) [
  | none ↦ none
  | some written ↦ fill chunks (offset + length chunk) written
]

unfoldable pub concatenate : List (List ℕ) → Option (List ℕ)
concatenate (only ∷ []) = some only
concatenate chunks = fill chunks 0 (zeros (total_length chunks))

module _ (p : Platform) where
  unfoldable pub header_value : List Pair → String → Option String
  header_value [] name = none
  header_value ((header_name, value) ∷ headers) name =
      let rest = header_value headers name in
      if str_eq (p.lower header_name) name then some value else rest

  -- `other_body` is a value outside the declared type.
  pub data RequestBody : Type 0 where
    byte_body : List ℕ → RequestBody
    text_body : List ℕ → RequestBody
    form_body : p.FormData → RequestBody
    stream_body : p.ByteStream → RequestBody
    other_body : RequestBody

  -- A stream of one chunk, or the caller's.
  pub data BodyStream : Type 0 where
    succeed : List ℕ → BodyStream
    chunks : p.ByteStream → BodyStream

  pub record EncodedBody : Type 0 where
    pub stream : BodyStream
    pub length : Option ℕ
    pub content_type : Option String

  abbrev pub whole_body : List ℕ → Option String → Result RequestError (Option EncodedBody)
  whole_body bytes content_type = ok (
      some (record {
        stream = succeed bytes;
        length = some (length bytes);
        content_type = content_type;
      }))

  abbrev pub encoded_form :
      Option (List ℕ × Option String) → Result RequestError (Option EncodedBody)
  encoded_form none = err (body_failure (plain "failed to encode FormData"))
  encoded_form (some (bytes, content_type)) = whole_body bytes content_type

  unfoldable pub encode_body : Option RequestBody → Result RequestError (Option EncodedBody)
  encode_body none = ok none
  encode_body (some (byte_body bytes)) = whole_body bytes none
  encode_body (some (text_body codes)) =
      whole_body (utf8_encode codes) (some "text/plain;charset=UTF-8")
  encode_body (some (form_body form)) = encoded_form (p.encode_form form)
  encode_body (some (stream_body stream)) =
      ok (some (record { stream = chunks stream; length = none; content_type = none }))
  encode_body (some other_body) =
      err (body_failure (plain "request body must be bytes, string, FormData, or Stream"))
