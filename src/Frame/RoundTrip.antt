-- ===== src/Frame/RoundTrip.antt =====
-- Encoding and decoding of one frame are inverse to one another
-- (packages/effect-tls-client/src/internal/Frame.ts).
use effect_tls_client.Prelude.{
  ℕ, zero, suc, ◌+◌, ◌*◌, ◌/◌, ◌%◌, ◌≤◌, ◌<◌, ◌≡◌, refl, ap, ◌∙◌, ◌↔◌, inl, inr, true, some,
  or_else, List, [], ◌∷◌, length, take, drop, ok, All, arith, drop-drop, add-sub_left,
  length-append, take-append, drop-append, get_or, take-append-drop, Result-cases, length-take,
  length-drop,
}
use effect_tls_client.Frame.Kind.{is_frame_kind}
use effect_tls_client.Frame.Codec.{
  subarray, Frame, FrameInput, bytes, max_frame_length, metadata_bytes, uint32_bytes, uint8_at,
  uint32_at, frame_bytes, encode_frame, decode_frame_view, decode_frame,
}

abbrev pub IsByte : ℕ → Type 0
IsByte b = b < 256

pub is_frame_kind-lt : (k : ℕ) → is_frame_kind k ≡ true → k < 256
unfolding is_frame_kind
is_frame_kind-lt k h = ground arith

abbrev pub Encodable : ℕ → ℕ → List ℕ → List ℕ → Type 0
Encodable k i meta body =
    (is_frame_kind k ≡ true) × (i < 4294967296) × (9 + length meta + length body ≤ max_frame_length)

-- The fields of the buffer, as the decoder reads them.
module _ (k i : ℕ) (meta body : List ℕ) where
  pub length-frame_bytes : length (frame_bytes k i meta body) ≡ 13 + length meta + length body
  unfolding frame_bytes uint32_bytes
  length-frame_bytes = omega (arith, length-append meta body)

  pub length_field :
      Encodable k i meta body
      → uint32_at (frame_bytes k i meta body) 0 ≡ 9 + length meta + length body
  unfolding uint32_at frame_bytes uint32_bytes
  length_field (_, _, h) = omega arith

  kind_field : Encodable k i meta body → uint8_at (frame_bytes k i meta body) 4 ≡ k
  unfolding uint8_at frame_bytes uint32_bytes
  kind_field (h, _, _) = omega (arith, is_frame_kind-lt k h)

  id_field : Encodable k i meta body → uint32_at (frame_bytes k i meta body) 5 ≡ i
  unfolding uint32_at frame_bytes uint32_bytes
  id_field (_, h, _) = omega arith

  metadata_length_field :
      Encodable k i meta body → uint32_at (frame_bytes k i meta body) 9 ≡ length meta
  unfolding uint32_at frame_bytes uint32_bytes
  metadata_length_field (_, _, h) = omega arith

  meta_view : subarray (frame_bytes k i meta body) 13 (13 + length meta) ≡ meta
  unfolding frame_bytes uint32_bytes
  meta_view = rw (add-sub_left 13 (length meta)) (take-append meta body)

  body_view : drop (13 + length meta) (frame_bytes k i meta body) ≡ body
  unfolding frame_bytes uint32_bytes
  body_view = rw (← drop-drop (length meta) 13 (frame_bytes k i meta body)) (drop-append meta body)

  pub decode_frame_view-frame_bytes :
      Encodable k i meta body
      → decode_frame_view (frame_bytes k i meta body)
        ≡ ok (record { kind = k; id = i; meta = meta; body = body })
  unfolding decode_frame_view
  decode_frame_view-frame_bytes e = ground (
    arith,
    e.0,
    e.2,
    length-frame_bytes,
    length_field e,
    kind_field e,
    id_field e,
    metadata_length_field e,
    meta_view,
    body_view,
  )

-- What `encode_frame` accepts, and what it writes.
pub encode_frame_inv :
    (input : FrameInput) (encoded : List ℕ)
    → encode_frame input ≡ ok encoded
    → (meta : List ℕ) × (metadata_bytes input.meta ≡ ok meta)
      × Encodable input.kind input.id meta (or_else input.body [])
      × (encoded ≡ frame_bytes input.kind input.id meta (or_else input.body []))
unfolding encode_frame
encode_frame_inv input encoded h = elim (Result-cases (metadata_bytes input.meta)) [
  | inl (meta, em) ↦ (meta, em, ground arith, ground arith)
  | inr (e, ee) ↦ absurd (ground arith)
]

pub encode_frame-Encodable :
    (input : FrameInput) (meta : List ℕ)
    → metadata_bytes input.meta ≡ ok meta
    → Encodable input.kind input.id meta (or_else input.body [])
    → encode_frame input ≡ ok (frame_bytes input.kind input.id meta (or_else input.body []))
unfolding encode_frame
encode_frame-Encodable input meta em e = ground (arith, em)

-- Whatever `encodeFrame` returns, `decodeFrame` reads back: the kind, the id, the bytes of the
-- metadata, and the body, which is empty where none was given.
pub decode_frame-encode_frame :
    (input : FrameInput) (encoded : List ℕ)
    → encode_frame input ≡ ok encoded
    → (meta : List ℕ) × (metadata_bytes input.meta ≡ ok meta)
      × (decode_frame encoded
          ≡ ok (record {
            kind = input.kind;
            id = input.id;
            meta = meta;
            body = or_else input.body [];
          }))
unfolding decode_frame
decode_frame-encode_frame input encoded h =
    let (meta, em, e, eq) = encode_frame_inv input encoded h in
    (meta, em, rw (eq, decode_frame_view-frame_bytes _ _ meta _ e))

-- Where the metadata can be encoded, `encodeFrame` succeeds exactly on the inputs with a known kind,
-- a 32-bit id and a frame within the limit.
pub encode_frame-ok :
    (input : FrameInput) (meta : List ℕ)
    → metadata_bytes input.meta ≡ ok meta
    → ((encoded : List ℕ) × (encode_frame input ≡ ok encoded))
      ↔ Encodable input.kind input.id meta (or_else input.body [])
unfolding encode_frame
encode_frame-ok input meta em =
    (λ (encoded, h). ground (arith, em), λ e. (_, encode_frame-Encodable input meta em e))

get_or-lt : (v : List ℕ) → All IsByte v → (i : ℕ) → get_or v i 0 < 256
get_or-lt [] h i = omega arith
get_or-lt (x ∷ xs) h zero = h.0
get_or-lt (x ∷ xs) h (suc i) = get_or-lt xs h.1 i

-- Four bytes are the 32-bit number that they spell.
abbrev word : ℕ → ℕ → ℕ → ℕ → ℕ
word a b c d = a * 16777216 + b * 65536 + c * 256 + d

module _ (a b c d : ℕ) (ha : IsByte a) (hb : IsByte b) (hc : IsByte c) (hd : IsByte d) where
  uint32_bytes-word : uint32_bytes (word a b c d) ≡ a ∷ b ∷ c ∷ d ∷ []
  unfolding uint32_bytes
  uint32_bytes-word = cc (top, second, third, fourth)
    where
      top : word a b c d / 16777216 % 256 ≡ a
      top = omega arith

      second : word a b c d / 65536 % 256 ≡ b
      second = omega arith

      third : word a b c d / 256 % 256 ≡ c
      third = omega arith

      fourth : word a b c d % 256 ≡ d
      fourth = omega arith

-- The buffer is what it is read as, where the lengths agree.
frame_bytes-fields :
    (v : List ℕ)
    → All IsByte v
    → length v ≡ 4 + uint32_at v 0
    → 9 + uint32_at v 9 ≤ uint32_at v 0
    → let end = 13 + uint32_at v 9 in
      frame_bytes (uint8_at v 4) (uint32_at v 5) (subarray v 13 end) (drop end v) ≡ v
unfolding frame_bytes uint32_at uint8_at
frame_bytes-fields (a ∷ b ∷ c ∷ d ∷ k ∷ e ∷ f ∷ g ∷ h ∷ l ∷ m ∷ n ∷ o ∷ rest)
      (pa, (pb, (pc, (pd, (pk, (pe, (pf, (pg, (ph, (pl, (pm, (pn, (po, _))))))))))))) hl hm =
    let view = a ∷ b ∷ c ∷ d ∷ k ∷ e ∷ f ∷ g ∷ h ∷ l ∷ m ∷ n ∷ o ∷ rest in
    let size = word l m n o in
    rw (add-sub_left 13 size, ← drop-drop size 13 view)
      (rw (total, measured, uint32_bytes-word a b c d pa pb pc pd, kind, take-append-drop size rest)
        (rw (uint32_bytes-word e f g h pe pf pg ph, uint32_bytes-word l m n o pl pm pn po)))
  where
    kind : k % 256 ≡ k
    kind = omega arith

    measured : length (take (word l m n o) rest) ≡ word l m n o
    measured = omega (arith, length-take (word l m n o) rest)

    total : 9 + length (take (word l m n o) rest) + length (drop (word l m n o) rest) ≡ word a b c d
    total = omega (arith, length-take (word l m n o) rest, length-drop (word l m n o) rest)
frame_bytes-fields _ hb hl hm = absurd (omega arith)

abbrev fields : List ℕ → Frame
fields v = record {
  kind = uint8_at v 4;
  id = uint32_at v 5;
  meta = subarray v 13 (13 + uint32_at v 9);
  body = drop (13 + uint32_at v 9) v;
}

-- What `decode_frame_view` has checked when it returns.
decode_frame_view_inv :
    (v : List ℕ) (f : Frame)
    → decode_frame_view v ≡ ok f
    → (length v ≡ 4 + uint32_at v 0)
      × (9 + uint32_at v 9 ≤ uint32_at v 0)
      × (uint32_at v 0 ≤ max_frame_length)
      × (is_frame_kind f.kind ≡ true)
      × (f ≡ fields v)
unfolding decode_frame_view
decode_frame_view_inv v f h = ground arith

uint32_at-lt : (v : List ℕ) → All IsByte v → (i : ℕ) → uint32_at v i < 4294967296
unfolding uint32_at uint8_at
uint32_at-lt v h i =
    omega
      (arith, get_or-lt v h i, get_or-lt v h (i + 1), get_or-lt v h (i + 2), get_or-lt v h (i + 3))

-- A frame handed to the encoder again.
abbrev pub as_input : Frame → FrameInput
as_input f = record { kind = f.kind; id = f.id; meta = bytes f.meta; body = some f.body }

-- The other way round: a string of bytes, numbers below 256, that `decodeFrame` accepts is the
-- encoding of what it returns.
pub encode_frame-decode_frame :
    (encoded : List ℕ) (f : Frame)
    → All IsByte encoded
    → decode_frame encoded ≡ ok f
    → encode_frame (as_input f) ≡ ok encoded
unfolding decode_frame metadata_bytes
encode_frame-decode_frame encoded f hb h =
    encode_frame-Encodable (as_input f) f.meta refl (kind_known, id_fits, within) ∙ ap ok same
  where
    checked :
        (length encoded ≡ 4 + uint32_at encoded 0)
        × (9 + uint32_at encoded 9 ≤ uint32_at encoded 0)
        × (uint32_at encoded 0 ≤ max_frame_length)
        × (is_frame_kind f.kind ≡ true)
        × (f ≡ fields encoded)
    checked = decode_frame_view_inv encoded f (ground arith)

    kind_known : is_frame_kind f.kind ≡ true
    kind_known = checked.3

    same : frame_bytes f.kind f.id f.meta f.body ≡ encoded
    same = rw checked.4 (frame_bytes-fields encoded hb checked.0 checked.1)

    id_fits : f.id < 4294967296
    id_fits = rw checked.4 (uint32_at-lt encoded hb 5)

    within : 9 + length f.meta + length f.body ≤ max_frame_length
    within =
        omega (
          arith,
          length-frame_bytes f.kind f.id f.meta f.body,
          ap length same,
          checked.0,
          checked.2,
        )
