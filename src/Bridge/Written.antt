-- ===== src/Bridge/Written.antt =====
-- `writeFrame` of packages/effect-tls-client/src/internal/Bridge.ts with `encodeFrame` and
-- `decodeFrame` of Frame.ts: what the Bridge reads of a frame that is written.
use effect_tls_client.Prelude.{ℕ, ◌≡◌, refl, true, or_else, Option, List, [], ◌∷◌, ok}
use effect_tls_client.Frame.Codec.{decode_frame, frame_bytes, metadata_bytes}
use effect_tls_client.Frame.RoundTrip.{
  Encodable, encode_frame-Encodable, decode_frame_view-frame_bytes,
}
use effect_tls_client.Bridge.World.{World, write, emit}
use effect_tls_client.Bridge.Writing.{write_frame, write_bytes, frame_input}

-- The process takes the bytes of the frame, which is what the other side decodes of them.
pub write_frame-frame_input :
    (kind id : ℕ) (meta : List ℕ) (body : Option (List ℕ)) (w : World)
    → Encodable kind id meta (or_else body [])
    → (encoded : List ℕ) × (write_frame true (frame_input kind id meta body) w
        ≡ (emit (write encoded ∷ []) w, ok tt))
      × (decode_frame encoded
          ≡ ok (record { kind = kind; id = id; meta = meta; body = or_else body [] }))
unfolding write_frame write_bytes metadata_bytes decode_frame
write_frame-frame_input kind id meta body w fits =
    let made = encode_frame-Encodable (frame_input kind id meta body) meta refl fits in
    (
      frame_bytes kind id meta (or_else body []),
      rw made refl,
      rw (decode_frame_view-frame_bytes kind id meta (or_else body []) fits) refl,
    )
