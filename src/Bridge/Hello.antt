-- ===== src/Bridge/Hello.antt =====
-- The start and the end of a connection: the `hello` exchange, `release` and `version` of
-- packages/effect-tls-client/src/internal/Bridge.ts.
use Prim.Native.String.{String}
use text.Mathlib.Text.{◌==◌ as str_eq}
use effect_tls_client.Prelude.{
  ℕ, Bool, true, false, ◌&&◌, Option, none, some, [], ◌∷◌, ◌==◌, if◌then◌else◌, Result, ok, err,
}
use effect_tls_client.Prelude.Int.{ℤ, pos, negsuc}
use effect_tls_client.Frame.Kind
use effect_tls_client.Frame.Codec.{Frame}
use effect_tls_client.Protocol.Metadata.{
  HelloAckMeta, empty_meta, protocol_version, default_window, default_chunk_size,
}
use effect_tls_client.Protocol.Schema
use effect_tls_client.Protocol.Schema.{
  JsonCodec, encode_meta, decode_meta, hello_ack, empty, is_some,
}
use effect_tls_client.Errors.{BridgeError, plain, version_mismatch, version_mismatch_error}
use effect_tls_client.Bridge.World.{
  World, deferred, emit, kill, with_state, hello, shutdown, get_dead,
}
use effect_tls_client.Bridge.Settle.{mark_dead}
use effect_tls_client.Bridge.ErrorFrames.{fail_protocol}
use effect_tls_client.Bridge.Writing.{write_frame, frame_input, register}

-- `packageJson.version`.
abbrev pub package_version : String
package_version = "0.1.0"

pub record BridgeVersion : Type 0 where
  pub package_version : String
  pub bridge_version : String
  pub protocol_version : ℤ
  pub tls_client_version : String
  pub go_version : String
  pub window : Option ℕ
  pub chunk_size : Option ℕ

-- The `hello` frame goes out under the id 0.
unfoldable pub send_hello : JsonCodec → Bool → World → World × Result BridgeError (Unit {0})
send_hello codec stdin_ok w =
    write_frame stdin_ok
      (frame_input Kind.hello 0
        (encode_meta codec Schema.hello (record {
          protocol_version = pos protocol_version;
          client_version = package_version;
          window = some default_window;
          chunk_size = some default_chunk_size;
        }))
        none)
      (register 0 (deferred (record { expected = hello; response = hello_ack })) w)

-- The wait for the answer has run out of time.
unfoldable pub hello_timed_out : World → World × BridgeError
hello_timed_out w =
    let error = fail_protocol "Bridge hello timed out" in
    (emit (kill ∷ []) (mark_dead error w), error)

unfoldable pub is_int : ℤ → ℕ → Bool
is_int (pos n) m = n == m
is_int (negsuc n) m = false

-- `undefined` and 0 stand for the default.
unfoldable pub negotiated : Option ℕ → ℕ → ℕ
negotiated none fallback = fallback
negotiated (some n) fallback = if n == 0 then fallback else n

bridge_version_of : HelloAckMeta → BridgeVersion
bridge_version_of meta = record {
  package_version = package_version;
  bridge_version = meta.bridge_version;
  protocol_version = meta.protocol_version;
  tls_client_version = meta.tls_client_version;
  go_version = meta.go_version;
  window = meta.window;
  chunk_size = meta.chunk_size;
}

unfoldable pub versions_agree : HelloAckMeta → Bool
unfolding is_int
versions_agree meta =
    is_int meta.protocol_version protocol_version && str_eq meta.bridge_version package_version

unfoldable pub accept_hello_meta : HelloAckMeta → World → World × Result BridgeError BridgeVersion
unfolding bridge_version_of
accept_hello_meta meta w =
    if versions_agree meta
    then (
      with_state
          (record w.state {
            chunk_size = negotiated meta.chunk_size default_chunk_size;
            window = negotiated meta.window default_window;
          })
          w,
      ok (bridge_version_of meta),
    )
    else (let error =
          version_mismatch_error (version_mismatch protocol_version meta.protocol_version)
            (plain package_version) (plain meta.bridge_version) in
        (emit (kill ∷ []) (mark_dead error w), err error))

-- What follows the answer to `hello`.
unfoldable pub accept_hello : JsonCodec → Frame → World → World × Result BridgeError BridgeVersion
unfolding accept_hello_meta
accept_hello codec frame w = elim (decode_meta codec hello_ack frame.meta) [
  | none ↦ let error = fail_protocol "invalid helloAck metadata" in (mark_dead error w, err error)
  | some meta ↦ accept_hello_meta meta w
]

unfoldable pub version : BridgeVersion → World → Result BridgeError BridgeVersion
version answer w = elim (get_dead w) [ none ↦ ok answer | some error ↦ err error ]

-- The finaliser up to its wait for the answer or the exit: `false` where there is no wait.
unfoldable pub release_start : JsonCodec → Bool → World → World × Bool
release_start codec stdin_ok w =
    let closing = with_state (record w.state { closing = true }) w in
    if w.closing
    then (w, false)
    else if is_some w.dead
    then (emit (kill ∷ []) closing, false)
    else (
      (write_frame stdin_ok (frame_input Kind.shutdown 0 (encode_meta codec empty empty_meta) none)
          (register 0 (deferred (record { expected = shutdown; response = empty })) closing)).0,
      true,
    )

-- After the answer, the exit or the timeout.
unfoldable pub release_end : World → World
release_end w = emit (kill ∷ []) w
