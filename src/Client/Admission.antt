-- ===== src/Client/Admission.antt =====
-- `requestWith` of packages/effect-tls-client/src/TlsClient.ts against `request` of
-- packages/effect-tls-client/src/internal/Bridge.ts: the checks that a request of the client meets.
use effect_tls_client.Prelude.{
  some, ◌≡◌, refl, Bool, true, false, not, ◌&&◌, none, ok, err, if◌then◌else◌, arith,
}
use effect_tls_client.Protocol.Metadata.{SessionConfig}
use effect_tls_client.Protocol.Schema.{
  JsonCodec, is_some, exactly_one, check_session_config, check_nested_config, checked, encode_meta,
  request,
}
use effect_tls_client.Protocol.Schema
use effect_tls_client.Errors.{BridgeError, session_config_error, schema_failure}
use effect_tls_client.Bridge.World.{World, get_dead}
use effect_tls_client.Bridge.Requests.{check_request, upload_for}
use effect_tls_client.Client.Platform.{Platform}
use effect_tls_client.Client.Requests.{
  RequestTarget, by_session, by_config, RequestInput, NormalizedRequest, normalize_request,
  request_meta, config_of, session_of, normalize_config,
}
use effect_tls_client.Client.Normal.{IsNormal, normalize_request-IsNormal}

-- A target as `TlsClient` gives it: a session, or a configuration that `normalizeConfig` has returned.
unfoldable pub IsTarget : RequestTarget → Type 0
IsTarget (by_session session_id profile) = Unit {0}
IsTarget (by_config config profile) = normalize_config config ≡ ok config

passed :
    (b : Bool) (config : SessionConfig) (e : BridgeError)
    → (if b then ok config else err e) ≡ ok config
    → b ≡ true
passed true config e h = refl
passed false config e h = absurd (ground arith)

target_checks :
    (target : RequestTarget)
    → IsTarget target
    → (check_nested_config (config_of target) ≡ true)
      × (exactly_one (session_of target) (config_of target) ≡ true)
unfolding IsTarget check_nested_config normalize_config
target_checks (by_session session_id profile) h = (refl, refl)
target_checks (by_config config profile) h =
    (passed (check_session_config config) config (session_config_error schema_failure) h, refl)

request_meta-checked :
    (p : Platform) (target : RequestTarget) (n : NormalizedRequest p)
    → IsTarget target
    → checked request (some (request_meta p target n)) ≡ some (request_meta p target n)
unfolding Schema.check_request Schema.check_meta
request_meta-checked p target n h =
    let (nested, one) = target_checks target h in rw (nested, one) refl

not_both : (b : Bool) → (b && not b) ≡ false
not_both true = refl
not_both false = refl

-- The checks of `request` pass.
pub check_request-request_meta :
    (p : Platform) (codec : JsonCodec) (w : World) (target : RequestTarget) (input : RequestInput p)
    (n : NormalizedRequest p)
    → p.lower "Content-Type" ≡ "content-type"
    → get_dead w ≡ none
    → IsTarget target
    → normalize_request p input ≡ ok n
    → check_request codec (some (request_meta p target n)) (is_some n.body) w
      ≡ ok (
        encode_meta codec request (request_meta p target n),
        record {
          expects_headers = true;
          headers_seen = false;
          upload = upload_for (is_some n.body);
        },
      )
unfolding check_request
check_request-request_meta p codec w target input n lowered alive known h =
    let announced = IsNormal.body_announced (normalize_request-IsNormal p input n lowered h) in
    rw
      (
        alive,
        check_request,
        request_meta-checked p target n known,
        announced,
        not_both (is_some n.body),
      )
      refl
