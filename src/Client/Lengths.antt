-- ===== src/Client/Lengths.antt =====
-- The content length that `normalizeRequest` of packages/effect-tls-client/src/TlsClient.ts sends,
-- against the body and the caller's header.
use Prim.Native.String.{String}
use effect_tls_client.Prelude.{
  ℕ, ◌≡◌, refl, sym, Option, none, some, List, ◌==◌, length, OnOk, arith, ◌⊎◌, inl, inr, Bool-cases,
  ==_iff,
}
use effect_tls_client.Prelude.Int.{pos, negsuc}
use effect_tls_client.Client.Platform.{Platform, JsNumber, integer, not_integer}
use effect_tls_client.Client.Bodies.{
  RequestBody, byte_body, text_body, form_body, stream_body, other_body, BodyStream, succeed,
  chunks, EncodedBody, encoded_form, encode_body,
}
use effect_tls_client.Client.Requests.{body_stream, agreed_length, content_length_of, parsed_length}

module _ (p : Platform) where
  -- The length of a body: what is known of it, or what the caller declares.
  unfoldable pub StreamLength : BodyStream p → Option ℕ → Type 0
  StreamLength (succeed bytes) l = l ≡ some (length bytes)
  StreamLength (chunks stream) l = l ≡ none

  unfoldable pub IsMeasured : Option (EncodedBody p) → Type 0
  unfolding StreamLength
  IsMeasured none = Unit {0}
  IsMeasured (some encoded) = StreamLength encoded.stream encoded.length

  -- The length that is sent with a body: 0 at most without one, the number of its bytes where they
  -- are at hand, open where they are streamed.
  unfoldable pub SentLength : Option (BodyStream p) → Option ℕ → Type 0
  SentLength none l = (l ≡ none) ⊎ (l ≡ some 0)
  SentLength (some (succeed bytes)) l = l ≡ some (length bytes)
  SentLength (some (chunks stream)) l = Unit {0}

  -- A content-length header says what is sent.
  unfoldable pub HeaderLength : Option String → Option ℕ → Type 0
  HeaderLength none l = Unit {0}
  HeaderLength (some declared) l = (k : ℕ) × (p.number declared ≡ integer (pos k)) × (l ≡ some k)

  encoded_form-IsMeasured :
      (form : Option (List ℕ × Option String)) → OnOk IsMeasured (encoded_form p form)
  unfolding IsMeasured StreamLength
  encoded_form-IsMeasured none = tt
  encoded_form-IsMeasured (some (bytes, content_type)) = refl

  pub encode_body-IsMeasured :
      (body : Option (RequestBody p)) → OnOk IsMeasured (encode_body p body)
  unfolding encode_body IsMeasured StreamLength
  encode_body-IsMeasured none = tt
  encode_body-IsMeasured (some (byte_body bytes)) = refl
  encode_body-IsMeasured (some (text_body codes)) = refl
  encode_body-IsMeasured (some (form_body form)) = encoded_form-IsMeasured (p.encode_form form)
  encode_body-IsMeasured (some (stream_body stream)) = refl
  encode_body-IsMeasured (some other_body) = tt

  -- The two facts about lengths.
  abbrev LengthsAgree : Option (EncodedBody p) → JsNumber → Option ℕ → Type 0
  LengthsAgree encoded number l =
      SentLength (body_stream p encoded) l × ((k : ℕ) × (number ≡ integer (pos k)) × (l ≡ some k))

  known_length :
      (stream : BodyStream p) (known : Option ℕ)
      → StreamLength stream known
      → SentLength (some stream) known
  unfolding StreamLength SentLength
  known_length (succeed bytes) known h = h
  known_length (chunks stream) known h = tt

  streamed_length :
      (stream : BodyStream p) (l : Option ℕ) → StreamLength stream none → SentLength (some stream) l
  unfolding StreamLength SentLength
  streamed_length (succeed bytes) l h = absurd (ground arith)
  streamed_length (chunks stream) l h = tt

  agreed_some :
      (parsed : ℕ) (encoded : EncodedBody p) (known : Option ℕ)
      → known ≡ encoded.length
      → StreamLength encoded.stream known
      → OnOk
          (LengthsAgree (some encoded) (integer (pos parsed)))
          (agreed_length p parsed (some encoded))
  unfolding agreed_length
  agreed_some parsed encoded none e h =
      rw (sym e, agreed_length)
        (streamed_length encoded.stream (some parsed) h, (parsed, refl, refl))
  agreed_some parsed encoded (some actual) e h = elim (Bool-cases (parsed == actual)) [
    | inl same ↦
        let equal : parsed ≡ actual = (==_iff parsed actual).0 same in
        rw (sym e, same, agreed_length, equal)
          (known_length encoded.stream (some actual) h, (actual, refl, refl))
    | inr other ↦ rw (sym e, other, agreed_length) tt
  ]

  agreed_length-LengthsAgree :
      (parsed : ℕ) (encoded : Option (EncodedBody p))
      → IsMeasured encoded
      → OnOk (LengthsAgree encoded (integer (pos parsed))) (agreed_length p parsed encoded)
  unfolding agreed_length IsMeasured SentLength
  agreed_length-LengthsAgree parsed none m = elim (Bool-cases (parsed == 0)) [
    | inl e ↦
        let zero_length : parsed ≡ 0 = (==_iff parsed 0).0 e in
        rw (e, zero_length) (inr refl, (0, refl, refl))
    | inr e ↦ rw e tt
  ]
  agreed_length-LengthsAgree parsed (some encoded) m =
      agreed_some parsed encoded encoded.length refl m

  parsed_length-LengthsAgree :
      (number : JsNumber) (encoded : Option (EncodedBody p))
      → IsMeasured encoded
      → OnOk (LengthsAgree encoded number) (parsed_length p number encoded)
  parsed_length-LengthsAgree (integer (pos parsed)) encoded m =
      agreed_length-LengthsAgree parsed encoded m
  parsed_length-LengthsAgree (integer (negsuc n)) encoded m = tt
  parsed_length-LengthsAgree not_integer encoded m = tt

  pub content_length_of-agrees :
      (declared : Option String) (encoded : Option (EncodedBody p))
      → IsMeasured encoded
      → OnOk
          (λ l. SentLength (body_stream p encoded) l × HeaderLength declared l)
          (content_length_of p declared encoded)
  unfolding content_length_of IsMeasured SentLength HeaderLength
  content_length_of-agrees none none m = (inl refl, tt)
  content_length_of-agrees none (some encoded) m =
      (known_length encoded.stream encoded.length m, tt)
  content_length_of-agrees (some declared) encoded m =
      parsed_length-LengthsAgree (p.number declared) encoded m
