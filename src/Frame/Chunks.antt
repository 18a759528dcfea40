-- ===== src/Frame/Chunks.antt =====
-- Whole streams: the chunks of a stream against the stream, and against the frames that were
-- written (packages/effect-tls-client/src/internal/Frame.ts).
use mathlib.Core.List.{flatten}
use effect_tls_client.Prelude.{
  ℕ, ◌+◌, ◌≡◌, refl, ap, ◌∙◌, List, [], ◌∷◌, ◌++◌, map, length, Result, ok, err, map_ok, All, arith,
  append_assoc, append-nil, take_all, drop_all,
}
use effect_tls_client.Frame.Codec.{
  Frame, encode_frame, metadata_bytes, FrameCodecError, frame_bytes, uint32_at,
}
use effect_tls_client.Frame.RoundTrip.{
  Encodable, length_field, length-frame_bytes, decode_frame_view-frame_bytes, encode_frame_inv,
  as_input,
}
use effect_tls_client.Frame.Decoder.{
  FrameDecoder, new_decoder, frame, round, prepend, drain, pushed, push, finish, decode_frames,
}
use effect_tls_client.Frame.Stream.{
  drain-append, Extends, Settled, drain-Settled, round_short, looped, round-append_frame,
}

-- One more chunk after those whose frames came before.
abbrev continue_push :
    List Frame
    → FrameDecoder × Result FrameCodecError (List Frame)
    → FrameDecoder × Result FrameCodecError (List Frame)
continue_push fs (d, r) = (d, map_ok (λ gs. fs ++ gs) r)

abbrev push_more :
    (FrameDecoder → FrameDecoder × Result FrameCodecError (List Frame))
    → FrameDecoder × Result FrameCodecError (List Frame)
    → FrameDecoder × Result FrameCodecError (List Frame)
push_more rest (d, ok fs) = continue_push fs (rest d)
push_more rest (d, err e) = (d, err e)

-- The chunks of a stream, one `push` each, until one throws.
unfoldable pub push_all :
    FrameDecoder → List (List ℕ) → FrameDecoder × Result FrameCodecError (List Frame)
push_all d [] = (d, ok [])
push_all d (c ∷ cs) = push_more (λ d'. push_all d' cs) (push d c)

-- Two outcomes agree: the same frames and the same buffer, or the same exception.
abbrev pub Agree :
    FrameDecoder × Result FrameCodecError (List Frame)
    → FrameDecoder × Result FrameCodecError (List Frame)
    → Type 0
Agree (d, ok fs) (d', r) = (d' ≡ d) × (r ≡ ok fs)
Agree (d, err e) (d', r) = r ≡ err e

Agree-refl : (p : FrameDecoder × Result FrameCodecError (List Frame)) → Agree (continue_push [] p) p
Agree-refl (d, ok fs) = (refl, refl)
Agree-refl (d, err e) = refl

Agree-pushed :
    (d d' : FrameDecoder) (fs : List Frame) (r : Result FrameCodecError (List Frame × List ℕ))
    → Agree (continue_push fs (pushed d' r)) (pushed d (map_ok (prepend fs) r))
Agree-pushed d d' fs (ok (gs, left)) = (refl, refl)
Agree-pushed d d' fs (err e) = refl

push-append_ok :
    (d : FrameDecoder) (c₂ : List ℕ) (fs : List Frame) (left : List ℕ)
    → drain left ≡ ok ([], left)
    → Agree
        (continue_push fs (push (record { buffer = left }) c₂))
        (pushed d (map_ok (prepend fs) (drain (left ++ c₂))))
unfolding push
push-append_ok d [] fs left h = rw (append-nil, h) (refl, refl)
push-append_ok d (c ∷ cs) fs left h = Agree-pushed d _ fs (drain (left ++ c ∷ cs))

push-append_cons :
    (d : FrameDecoder) (xs c₂ : List ℕ) (r : Result FrameCodecError (List Frame × List ℕ))
    → Extends xs c₂ r
    → Settled r
    → Agree (push_more (λ d'. push d' c₂) (pushed d r)) (pushed d (drain (xs ++ c₂)))
push-append_cons d xs c₂ (ok (fs, left)) e h = rw e (push-append_ok d c₂ fs left h)
push-append_cons d xs c₂ (err x) e h = rw e refl

-- A chunk that is cut in two gives the same frames and the same buffer, or throws the same.
push-append :
    (d : FrameDecoder) (c₁ c₂ : List ℕ)
    → Agree (push_more (λ d'. push d' c₂) (push d c₁)) (push d (c₁ ++ c₂))
unfolding push
push-append d [] c₂ = Agree-refl (push d c₂)
push-append d (b ∷ bs) c₂ =
    let xs = d.buffer ++ (b ∷ bs) in
    rw (← append_assoc d.buffer (b ∷ bs) c₂) (
      push-append_cons d xs c₂ (drain xs) (drain-append (length xs) xs c₂ (omega arith))
        (drain-Settled (length xs) xs (omega arith)))

Agree-push_more :
    (f g : FrameDecoder → FrameDecoder × Result FrameCodecError (List Frame))
    → ((d : FrameDecoder) → Agree (f d) (g d))
    → (p q : FrameDecoder × Result FrameCodecError (List Frame)) → Agree (push_more g p) q
    → Agree (push_more f p) q
Agree-push_more f g h (d, err e) q a = a
Agree-push_more f g h (d, ok fs) q a = continued fs (f d) (g d) q (h d) a
  where
    continued :
        (fs : List Frame) (p p' q : FrameDecoder × Result FrameCodecError (List Frame))
        → Agree p p'
        → Agree (continue_push fs p') q
        → Agree (continue_push fs p) q
    continued fs (d₁, ok gs) (d₂, ok hs) q h a = ground arith
    continued fs (d₁, ok gs) (d₂, err e) q h a = cc
    continued fs (d₁, err e) (d₂, ok hs) q h a = cc
    continued fs (d₁, err e) (d₂, err e') q h a = cc

-- However a stream is cut into chunks, pushing them one by one gives the frames and the buffer that
-- pushing the whole stream gives, or throws the same exception.
pub push_all-flatten :
    (d : FrameDecoder) (cs : List (List ℕ)) → Agree (push_all d cs) (push d (flatten cs))
unfolding push_all flatten push
push_all-flatten d [] = (refl, refl)
push_all-flatten d (c ∷ cs) =
    Agree-push_more _ _ (λ d'. push_all-flatten d' cs) (push d c) _ (push-append d c (flatten cs))

-- The bytes that `encodeFrame` writes for a frame.
abbrev pub wire : Frame → List ℕ
wire f = frame_bytes f.kind f.id f.meta f.body

abbrev pub EncodableFrame : Frame → Type 0
EncodableFrame f = Encodable f.kind f.id f.meta f.body

round-wire : (f : Frame) → EncodableFrame f → round (wire f) ≡ ok (frame f [])
unfolding round
round-wire f e = ground (
  arith,
  length-frame_bytes f.kind f.id f.meta f.body,
  length_field f.kind f.id f.meta f.body e,
  take_all (4 + uint32_at (wire f) 0) (wire f),
  drop_all (4 + uint32_at (wire f) 0) (wire f),
  decode_frame_view-frame_bytes f.kind f.id f.meta f.body e,
)

drain-wire : (fs : List Frame) → All EncodableFrame fs → drain (flatten (map wire fs)) ≡ ok (fs, [])
unfolding flatten
drain-wire [] h = looped [] (round_short [] (omega arith))
drain-wire (f ∷ fs) (e, es) =
    looped _ (round-append_frame (wire f) (flatten (map wire fs)) f [] (round-wire f e))
    ∙ ap (map_ok (prepend (f ∷ []))) (drain-wire fs es)

push-wire :
    (fs : List Frame)
    → All EncodableFrame fs
    → push new_decoder (flatten (map wire fs)) ≡ (new_decoder, ok fs)
unfolding push
push-wire fs h = pushed_once (flatten (map wire fs)) fs (drain-wire fs h)
  where
    pushed_once :
        (bs : List ℕ) (fs : List Frame)
        → drain bs ≡ ok (fs, [])
        → push new_decoder bs ≡ (new_decoder, ok fs)
    pushed_once [] fs e = ground (arith, looped [] (round_short [] (omega arith)))
    pushed_once (b ∷ bs) fs e = ap (pushed new_decoder) e

-- `written` is what `encodeFrame` writes for each of the frames.
abbrev pub Written : List Frame → List (List ℕ) → Type 0
Written [] [] = Unit {0}
Written [] (b ∷ bs) = ⊥
Written (f ∷ fs) [] = ⊥
Written (f ∷ fs) (b ∷ bs) = (encode_frame (as_input f) ≡ ok b) × Written fs bs

wire-encode_frame :
    (f : Frame) (b : List ℕ) → encode_frame (as_input f) ≡ ok b → EncodableFrame f × (b ≡ wire f)
unfolding metadata_bytes
wire-encode_frame f b h = let (meta, em, e, eq) = encode_frame_inv (as_input f) b h in ground arith

Written-wire :
    (fs : List Frame) (bs : List (List ℕ))
    → Written fs bs
    → All EncodableFrame fs × (bs ≡ map wire fs)
Written-wire [] [] h = (tt, refl)
Written-wire [] (b ∷ bs) h = absurd h
Written-wire (f ∷ fs) [] h = absurd h
Written-wire (f ∷ fs) (b ∷ bs) (h, hs) =
    let (e, eq) = wire-encode_frame f b h in let (es, eqs) = Written-wire fs bs hs in ((e, es), cc)

-- Frames that were encoded one after the other come out of the incremental decoder, in order and
-- with an empty buffer at the end, wherever the stream of their bytes is cut into chunks.
pub push_all-Written :
    (fs : List Frame) (bs cs : List (List ℕ))
    → Written fs bs
    → flatten cs ≡ flatten bs
    → push_all new_decoder cs ≡ (new_decoder, ok fs)
push_all-Written fs bs cs w e =
    let (es, eqs) = Written-wire fs bs w in
    agreed (push_all new_decoder cs) fs
      (rw (← push-wire fs es, ← eqs, ← e) (push_all-flatten new_decoder cs))
  where
    agreed :
        (p : FrameDecoder × Result FrameCodecError (List Frame)) (fs : List Frame)
        → Agree p (new_decoder, ok fs)
        → p ≡ (new_decoder, ok fs)
    agreed (d, ok gs) fs h = ground arith
    agreed (d, err x) fs h = cc

-- `decodeFrames` returns the frames whose encodings it is given one after the other.
pub decode_frames-Written :
    (fs : List Frame) (bs : List (List ℕ)) → Written fs bs → decode_frames (flatten bs) ≡ ok fs
unfolding decode_frames finish
decode_frames-Written fs bs w = let (es, eqs) = Written-wire fs bs w in rw (eqs, push-wire fs es)
