-- ===== src/Client/Normal.antt =====
-- What `normalizeRequest` of packages/effect-tls-client/src/TlsClient.ts promises of the requests
-- that it returns.
use Prim.Native.String.{String}
use text.Mathlib.Text.{◌==◌ as str_eq}
use text.Mathlib.TextEquality.{eq_iff}
use effect_tls_client.Prelude.{
  ℕ, ◌≡◌, refl, sym, subst, Bool, true, false, Option, none, some, List, [], ◌∷◌, ◌++◌,
  if◌then◌else◌, or_else, ok, >>=-ok, OnOk, OnOk-ok, arith, inl, inr, Bool-cases, Option-cases,
  append-nil,
}
use effect_tls_client.Protocol.Metadata.{Pair}
use effect_tls_client.Protocol.Schema.{is_some}
use effect_tls_client.Client.Platform.{Platform}
use effect_tls_client.Client.Bodies.{
  header_value, RequestBody, byte_body, text_body, form_body, stream_body, other_body, EncodedBody,
  encoded_form, encode_body,
}
use effect_tls_client.Client.Cookies.{normalize_cookies}
use effect_tls_client.Client.Lengths.{
  IsMeasured, SentLength, HeaderLength, encode_body-IsMeasured, content_length_of-agrees,
}
use effect_tls_client.Client.Requests.{
  RequestOptions, RequestInput, NormalizedRequest, options_of_input, url_of, body_type, body_stream,
  with_content_type, content_length_of, default_method, method_of, parse_timeout, parsed_timeout,
  normalized, normalize_options, normalize_request,
}

module _ (p : Platform) where
  -- A text has a content type.
  unfoldable pub TextType : Option (RequestBody p) → List Pair → Type 0
  TextType (some (text_body codes)) headers = is_some (header_value p headers "content-type") ≡ true
  TextType _ headers = Unit {0}

  pub record IsNormal (options : RequestOptions p) (n : NormalizedRequest p) : Type 0 where
    pub body_announced : n.has_body ≡ is_some n.body
    pub method_named : str_eq n.method "" ≡ false
    pub headers_kept : (added : List Pair) × (n.headers ≡ or_else options.headers [] ++ added)
    pub length_sent : SentLength p n.body n.content_length
    pub length_declared :
        HeaderLength p (header_value p n.headers "content-length") n.content_length
    pub text_typed : TextType options.body n.headers

  method_of-named :
      (method : Option String) (encoded : Option (EncodedBody p))
      → str_eq (method_of p method encoded) "" ≡ false
  unfolding method_of
  method_of-named none none = refl
  method_of-named none (some encoded) = refl
  method_of-named (some method) encoded = elim (Bool-cases (str_eq method "")) [
    | inl e ↦ rw e (default_named encoded)
    | inr e ↦ rw e e
  ]
    where
      default_named :
          (encoded : Option (EncodedBody p)) → str_eq (default_method p encoded) "" ≡ false
      default_named none = refl
      default_named (some encoded) = refl

  with_content_type-kept :
      (headers : List Pair) (content_type : Option String)
      → (added : List Pair) × (with_content_type p headers content_type ≡ headers ++ added)
  unfolding with_content_type
  with_content_type-kept headers none = ([], sym (append-nil headers))
  with_content_type-kept headers (some content_type) =
      elim (Option-cases (header_value p headers "content-type")) [
        | inl e ↦ (("Content-Type", content_type) ∷ [], rw (e, with_content_type) refl)
        | inr (given, e) ↦ ([], rw (e, with_content_type) (sym (append-nil headers)))
      ]

  none_first :
      (b : Bool) (value : String) (rest : Option String)
      → (if b then some value else rest) ≡ none
      → (b ≡ false) × (rest ≡ none)
  none_first true value rest h = absurd (ground arith)
  none_first false value rest h = (refl, h)

  pub header_value-last :
      (headers : List Pair) (header_name value name : String)
      → header_value p headers name ≡ none
      → str_eq (p.lower header_name) name ≡ true
      → header_value p (headers ++ ((header_name, value) ∷ [])) name ≡ some value
  unfolding header_value
  header_value-last [] header_name value name h e = rw e refl
  header_value-last ((n, v) ∷ headers) header_name value name h e =
      let (apart, later) = none_first (str_eq (p.lower n) name) v (header_value p headers name) h in
      rw apart (header_value-last headers header_name value name later e)

  with_content_type-typed :
      (headers : List Pair) (content_type : String)
      → p.lower "Content-Type" ≡ "content-type"
      → is_some (header_value p (with_content_type p headers (some content_type)) "content-type")
        ≡ true
  unfolding with_content_type
  with_content_type-typed headers content_type lowered =
      elim (Option-cases (header_value p headers "content-type")) [
        | inl e ↦
            rw
              (
                e,
                with_content_type,
                header_value-last headers "Content-Type" content_type "content-type" e
                    ((eq_iff (p.lower "Content-Type") "content-type").1 lowered),
              )
              refl
        | inr (given, e) ↦ rw (e, with_content_type, e) refl
      ]

  -- The type that `encodeBody` gives a text is pushed.
  text_typed_of :
      (body : Option (RequestBody p)) (headers : List Pair)
      → p.lower "Content-Type" ≡ "content-type"
      → OnOk
          (λ encoded. TextType body (with_content_type p headers (body_type p encoded)))
          (encode_body p body)
  unfolding encode_body TextType
  text_typed_of none headers lowered = tt
  text_typed_of (some (byte_body bytes)) headers lowered = tt
  text_typed_of (some (text_body codes)) headers lowered =
      with_content_type-typed headers "text/plain;charset=UTF-8" lowered
  text_typed_of (some (form_body form)) headers lowered = form_case (p.encode_form form)
    where
      form_case :
          (encoded : Option (List ℕ × Option String))
          → OnOk (λ encoded. Unit {0}) (encoded_form p encoded)
      form_case none = tt
      form_case (some (bytes, content_type)) = tt
  text_typed_of (some (stream_body stream)) headers lowered = tt
  text_typed_of (some other_body) headers lowered = tt

  body_announced_of :
      (encoded : Option (EncodedBody p)) → is_some encoded ≡ is_some (body_stream p encoded)
  body_announced_of none = refl
  body_announced_of (some encoded) = refl

  -- Where lower-casing "Content-Type" gives "content-type": a request that `normalizeRequest` returns
  -- announces a body exactly if it has one, has a method, keeps the caller's headers in front, sends
  -- the number of its bytes as length where they are at hand and 0 at most without a body, agrees with
  -- any content-length header, and gives a text a content type.
  pub normalize_request-IsNormal :
      (input : RequestInput p) (n : NormalizedRequest p)
      → p.lower "Content-Type" ≡ "content-type"
      → normalize_request p input ≡ ok n
      → IsNormal (options_of_input p input) n
  unfolding normalize_request normalize_options
  normalize_request-IsNormal input n lowered h =
      let options = options_of_input p input in
      let (timeout, _, after_timeout) =
        >>=-ok (parsed_timeout (parse_timeout options.timeout_ms)) _ n h in
      let (encoded, encodes, after_body) = >>=-ok (encode_body p options.body) _ n after_timeout in
      let headers = with_content_type p (or_else options.headers []) (body_type p encoded) in
      let declared = header_value p headers "content-length" in
      let (l, lengths, after_length) =
        >>=-ok (content_length_of p declared encoded) _ n after_body in
      let (cookies, _, whole) = >>=-ok (normalize_cookies p options.cookies) _ n after_length in
      let result : n ≡ normalized p (url_of p input) options timeout headers encoded l cookies =
        cc in
      let measured =
        OnOk-ok (IsMeasured p) (encode_body p options.body) encoded
          (encode_body-IsMeasured p options.body) encodes in
      let agrees =
        OnOk-ok (λ l. SentLength p (body_stream p encoded) l × HeaderLength p declared l)
          (content_length_of p declared encoded) l
          (content_length_of-agrees p declared encoded measured) lengths in
      let typed =
        OnOk-ok
          (λ e.
            TextType options.body
              (with_content_type p (or_else options.headers []) (body_type p e)))
          (encode_body p options.body) encoded
          (text_typed_of options.body (or_else options.headers []) lowered) encodes in
      subst (IsNormal options) (sym result) (record {
        body_announced = body_announced_of encoded;
        method_named = method_of-named options.method encoded;
        headers_kept = with_content_type-kept (or_else options.headers []) (body_type p encoded);
        length_sent = agrees.0;
        length_declared = agrees.1;
        text_typed = typed;
      })
