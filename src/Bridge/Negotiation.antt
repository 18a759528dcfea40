-- ===== src/Bridge/Negotiation.antt =====
-- What the hello exchange of packages/effect-tls-client/src/internal/Bridge.ts settles.
use text.Mathlib.TextEquality.{eq_iff}
use effect_tls_client.Prelude.{
  ℕ, zero, suc, ◌==◌, ◌≡◌, refl, ap, true, false, Option, none, some, [], ◌∷◌, Result, ok, err,
  arith, Bool-cases, Option-cases, inl, inr,
}
use effect_tls_client.Prelude.Int.{ℤ, pos, negsuc}
use effect_tls_client.Frame.Codec.{Frame}
use effect_tls_client.Protocol.Metadata.{
  HelloAckMeta, protocol_version, default_window, default_chunk_size,
}
use effect_tls_client.Protocol.Schema.{JsonCodec, decode_meta, hello_ack}
use effect_tls_client.Errors.{BridgeError, plain, version_mismatch, version_mismatch_error}
use effect_tls_client.Bridge.World.{World, State, emit, kill}
use effect_tls_client.Bridge.Settle.{mark_dead}
use effect_tls_client.Bridge.ErrorFrames.{fail_protocol}
use effect_tls_client.Bridge.Ending.{mark_dead_first}
use effect_tls_client.Bridge.Hello.{
  BridgeVersion, negotiated, versions_agree, is_int, package_version, accept_hello,
  accept_hello_meta,
}

-- The size that an answer settles, where it may leave it out or send 0.
pub data Settled (fallback : ℕ) : Option ℕ → ℕ → Type 0 where
  left_out : Settled fallback none fallback
  sent_zero : Settled fallback (some 0) fallback
  sent_size : (n : ℕ) → Settled fallback (some (suc n)) (suc n)

suc-not_zero : (n : ℕ) → (suc n == 0) ≡ false
suc-not_zero n = ground arith

negotiated-Settled :
    (asked : Option ℕ) (fallback : ℕ) → Settled fallback asked (negotiated asked fallback)
unfolding negotiated
negotiated-Settled none fallback = left_out
negotiated-Settled (some zero) fallback = sent_zero
negotiated-Settled (some (suc n)) fallback = rw (suc-not_zero n) (sent_size n)

-- The answer of a Bridge of version 0.1.0 that speaks version 1 of the protocol.
abbrev pub IsOurs : HelloAckMeta → Type 0
IsOurs meta = (meta.protocol_version ≡ pos 1) × (meta.bridge_version ≡ "0.1.0")

is_int-pos : (z : ℤ) (n : ℕ) → is_int z n ≡ true → z ≡ pos n
unfolding is_int
is_int-pos (pos m) n h = ap pos (ground arith)
is_int-pos (negsuc m) n h = absurd (ground arith)

versions_agree-IsOurs : (meta : HelloAckMeta) → versions_agree meta ≡ true → IsOurs meta
unfolding versions_agree
versions_agree-IsOurs meta h = (
  is_int-pos meta.protocol_version protocol_version (ground arith),
  (eq_iff meta.bridge_version package_version).0 (ground arith),
)

IsOurs-versions_agree : (meta : HelloAckMeta) → IsOurs meta → versions_agree meta ≡ true
unfolding versions_agree is_int
IsOurs-versions_agree meta (protocol, bridge) =
    rw (protocol, (eq_iff meta.bridge_version package_version).1 bridge) refl

NotOurs-disagree : (meta : HelloAckMeta) → versions_agree meta ≡ false → ¬ IsOurs meta
NotOurs-disagree meta h ours = absurd (ground (arith, IsOurs-versions_agree meta ours))

-- What the connection is after it has died of an error: the error, an empty map.
pub record DiesOf (e : BridgeError) (w : World) : Type 0 where
  pub dead_of : w.dead ≡ some e
  pub emptied : w.pending ≡ []

-- What the answer to `hello` comes to, by its metadata.
pub data Negotiated (w : World)
    : Option HelloAckMeta → World × Result BridgeError BridgeVersion → Type 0 where
  opens :
      (meta : HelloAckMeta) (state : State) (v : BridgeVersion)
      → IsOurs meta
      → Settled 65536 meta.chunk_size state.chunk_size
      → Settled 1048576 meta.window state.window
      → state ≡ record w.state { chunk_size = state.chunk_size; window = state.window }
      → v.bridge_version ≡ v.package_version
      → v.window ≡ meta.window
      → v.chunk_size ≡ meta.chunk_size
      → Negotiated w (some meta) (record w { state = state }, ok v)
  mismatched :
      (meta : HelloAckMeta) (w' : World)
      → ¬ IsOurs meta
      → DiesOf
          (version_mismatch_error
            (version_mismatch 1 meta.protocol_version)
            (plain "0.1.0")
            (plain meta.bridge_version))
          w'
      → Negotiated w (some meta) (
        emit (kill ∷ []) w',
        err (
            version_mismatch_error
              (version_mismatch 1 meta.protocol_version)
              (plain "0.1.0")
              (plain meta.bridge_version)),
      )
  unreadable :
      (w' : World)
      → DiesOf (fail_protocol "invalid helloAck metadata") w'
      → Negotiated w none (w', err (fail_protocol "invalid helloAck metadata"))

mark_dead-DiesOf : (e : BridgeError) (w : World) → w.dead ≡ none → DiesOf e (mark_dead e w)
mark_dead-DiesOf e w h = record {
  dead_of = (mark_dead_first e w h).0;
  emptied = (mark_dead_first e w h).1;
}

accept_hello_meta_lem :
    (meta : HelloAckMeta) (w : World)
    → w.dead ≡ none
    → Negotiated w (some meta) (accept_hello_meta meta w)
unfolding accept_hello_meta
accept_hello_meta_lem meta w h = elim (Bool-cases (versions_agree meta)) [
  | inl e ↦
      rw (e, accept_hello_meta)
        (opens meta _ _ (versions_agree-IsOurs meta e)
          (negotiated-Settled meta.chunk_size default_chunk_size)
          (negotiated-Settled meta.window default_window) refl (versions_agree-IsOurs meta e).1 refl
          refl)
  | inr e ↦
      rw (e, accept_hello_meta)
        (mismatched meta _ (NotOurs-disagree meta e) (mark_dead-DiesOf _ w h))
]

-- Where the connection is not dead: the answer to `hello` opens the connection exactly if its metadata
-- decodes with the protocol version 1 and the Bridge version 0.1.0; then chunk size and window are
-- those of the answer, or 65536 and 1048576 where it leaves them out or sends 0, and nothing else
-- changes. Other versions give the mismatch error with both versions, of which the connection dies with
-- an empty map before the process is killed; metadata that does not decode gives a protocol error, of
-- which it dies too.
pub accept_hello-Negotiated :
    (codec : JsonCodec) (frame : Frame) (w : World)
    → w.dead ≡ none
    → Negotiated w (decode_meta codec hello_ack frame.meta) (accept_hello codec frame w)
unfolding accept_hello
accept_hello-Negotiated codec frame w h =
    elim (Option-cases (decode_meta codec hello_ack frame.meta)) [
      | inl e ↦ rw (e, accept_hello) (unreadable _ (mark_dead-DiesOf _ w h))
      | inr (meta, e) ↦ rw (e, accept_hello) (accept_hello_meta_lem meta w h)
    ]
