-- ===== src/Client/Runs.antt =====
-- The theorems about packages/effect-tls-client/src/TlsClient.ts at concrete inputs: a request, a
-- cookie, a session and a socket.
use mathlib.Core.List.{flatten}
use effect_tls_client.Prelude.{ℕ, arith, ◌≡◌, refl, true, none, some, List, [], ◌∷◌, map, ok}
use effect_tls_client.Frame.Codec.{utf8_encode}
use effect_tls_client.Prelude.Int.{pos}
use effect_tls_client.Prelude.Options.{traverse}
use effect_tls_client.Protocol.Schema.{
  encode_meta, request, is_some, decode_meta, Meta, check_session_config, check_meta,
}
use effect_tls_client.Bridge.Calls.{Ticket, call_schema, check_call}
use effect_tls_client.Client.Platform.{EffectCookie, time}
use effect_tls_client.Bridge.World.{World, initial_world, get_dead}
use effect_tls_client.Client.Samples.{
  sample_platform, sample_options, sample_input, sample_cookie, sample_config, cookie_codec,
  cookie_frame,
}
use effect_tls_client.Client.Bodies.{encode_body, header_value, concatenate, succeed}
use effect_tls_client.Client.Joining.{concatenate-flatten}
use effect_tls_client.Client.Requests.{
  normalize_options, parse_timeout, content_length_of, with_content_type, method_of, agreed_length,
  NormalizedRequest, by_session, normalize_request, request_meta, begin_request_with,
}
use effect_tls_client.Client.Normal.{IsNormal, normalize_request-IsNormal}
use effect_tls_client.Client.Cookies.{
  normalize_cookies, effect_cookie, cookies_from_wire, expiry, options_of, date_of_seconds,
  valid_date, max_time,
}
use effect_tls_client.Client.CookieTrip.{MakesAsGiven, returned}
use effect_tls_client.Client.Calls.{
  set_cookies, begin_client_call, decode_cookie_result, end_cookies, begin_set_cookies, create,
  kind_of, given_of,
}
use effect_tls_client.Client.Acceptance.{IsCall, check_call-given_of, begin_set_cookies-end_cookies}
use effect_tls_client.Client.Admission.{IsTarget}
use effect_tls_client.Client.Sending.{Sent, begin_request_with-Sent}

abbrev normal : NormalizedRequest sample_platform
normal = record {
  url = "https://example.org/";
  method = "POST";
  headers =
      ("Accept", "text/html")
      ∷ ("content-length", "2")
      ∷ ("Content-Type", "text/plain;charset=UTF-8")
      ∷ [];
  header_order = none;
  has_body = true;
  content_length = some 2;
  timeout_ms = some 500;
  follow_redirects = none;
  host_override = none;
  cookies = none;
  body = some (succeed (0x68 ∷ 0x69 ∷ []));
}

normal_run : normalize_request sample_platform sample_input ≡ ok normal
unfolding normalize_request normalize_options parse_timeout encode_body content_length_of
    header_value with_content_type utf8_encode normalize_cookies method_of agreed_length
normal_run = refl

normalize_request-IsNormal_example : IsNormal sample_platform sample_options normal
normalize_request-IsNormal_example =
    normalize_request-IsNormal sample_platform sample_input normal refl normal_run

abbrev plain_meta : List ℕ
plain_meta =
    encode_meta cookie_codec request
      (request_meta sample_platform (by_session "s" "chrome_133") normal)

begin_request_with-Sent_example :
    (t : Ticket) × (w' : World) × (begin_request_with sample_platform cookie_codec
        (by_session "s" "chrome_133")
        sample_input
        initial_world
      ≡ some (w', ok t))
    × Sent initial_world (is_some normal.body) plain_meta t w'
unfolding get_dead IsTarget
begin_request_with-Sent_example =
    begin_request_with-Sent sample_platform cookie_codec initial_world (by_session "s" "chrome_133")
      sample_input normal refl refl (omega arith, omega arith) (omega arith) tt normal_run
      (omega arith)

concatenate-flatten_example :
    concatenate ((1 ∷ 2 ∷ []) ∷ [] ∷ (3 ∷ []) ∷ [])
    ≡ some (flatten ((1 ∷ 2 ∷ []) ∷ [] ∷ (3 ∷ []) ∷ []))
concatenate-flatten_example = concatenate-flatten ((1 ∷ 2 ∷ []) ∷ [] ∷ (3 ∷ []) ∷ [])

makes : MakesAsGiven sample_platform
makes name value options cookie h = cc

jar : List EffectCookie
jar =
    record {
      name = "sid";
      value = "1";
      options = some (options_of sample_cookie (some (time (pos 1700000000000))));
    }
    ∷ []

begin_set_cookies-end_cookies_example :
    begin_set_cookies sample_platform cookie_codec "t" "https://example.org/" jar initial_world
    ≡ begin_client_call cookie_codec
        (set_cookies "t" "https://example.org/" (map returned (sample_cookie ∷ [])))
        initial_world
unfolding jar end_cookies decode_cookie_result decode_meta cookies_from_wire traverse check_meta
    effect_cookie expiry options_of valid_date date_of_seconds max_time
begin_set_cookies-end_cookies_example =
    begin_set_cookies-end_cookies sample_platform cookie_codec cookie_frame (sample_cookie ∷ []) jar
      "t" "https://example.org/" initial_world makes (λ es h. refl) refl refl

check_call-given_of_example :
    (meta : Meta (call_schema (kind_of (create "s" sample_config)))) × (given_of
        (create "s" sample_config)
        (call_schema (kind_of (create "s" sample_config)))
      ≡ some meta)
    × (check_call cookie_codec
          (kind_of (create "s" sample_config))
          (given_of (create "s" sample_config))
          none
          initial_world
        ≡ ok (encode_meta cookie_codec (call_schema (kind_of (create "s" sample_config))) meta))
unfolding get_dead IsCall check_session_config
check_call-given_of_example =
    check_call-given_of cookie_codec initial_world (create "s" sample_config) refl refl
