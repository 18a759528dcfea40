-- ===== src/Client/Samples.antt =====
-- A platform, a request and cookies for the runs of packages/effect-tls-client/src/TlsClient.ts and
-- TlsHttpClient.ts.
use Prim.Native.String.{String}
use text.Mathlib.Text.{◌==◌ as str_eq}
use effect_tls_client.Prelude.{
  ℕ, ◌==◌, true, false, Option, none, some, List, [], ◌∷◌, if◌then◌else◌,
}
use effect_tls_client.Prelude.Int.{pos}
use effect_tls_client.Frame.Kind
use effect_tls_client.Frame.Codec.{Frame}
use effect_tls_client.Protocol.Metadata.{Cookie, Pair, lax, SessionConfig, empty_meta}
use effect_tls_client.Protocol.Schema
use effect_tls_client.Protocol.Schema.{JsonCodec, MetaSchema, Meta}
use effect_tls_client.Client.Platform.{
  Platform, JsNumber, integer, not_integer, EffectCookie, CookieOptions,
}
use effect_tls_client.Client.Bodies.{text_body}
use effect_tls_client.Client.Requests.{RequestInput, RequestOptions, by_url}

abbrev lower_some : String → String
lower_some name =
    if str_eq name "Content-Type"
    then "content-type"
    else if str_eq name "Accept"
    then "accept"
    else name

abbrev read_some : String → JsNumber
read_some text = if str_eq text "2" then integer (pos 2) else not_integer

abbrev print_some : ℕ → String
print_some n = if n == 2 then "2" else "0"

abbrev make_given : String → String → CookieOptions → Option EffectCookie
make_given name value options = some (record { name = name; value = value; options = some options })

-- Its collections of cookies are lists.
abbrev pub sample_platform : Platform
sample_platform = record {
  FormData = Unit {0};
  ByteStream = Unit {0};
  UrlParams = Unit {0};
  Readable = Unit {0};
  Blob = Unit {0};
  Cookies = List EffectCookie;
  Headers = List Pair;
  lower = lower_some;
  number = read_some;
  decimal = print_some;
  encode_form = λ form. none;
  params_text = λ params. [];
  from_readable = λ readable. tt;
  blob_bytes = λ blob. none;
  values = λ cookies. cookies;
  from_iterable = λ cookies. cookies;
  make_cookie_unsafe = make_given;
  from_set_cookie = λ texts. [];
  headers_from_input = λ headers. headers;
}

abbrev pub sample_options : RequestOptions sample_platform
sample_options = record {
  headers = some (("Accept", "text/html") ∷ ("content-length", "2") ∷ []);
  header_order = none;
  timeout_ms = some (integer (pos 500));
  follow_redirects = none;
  host_override = none;
  method = none;
  body = some (text_body (0x68 ∷ 0x69 ∷ []));
  cookies = none;
}

abbrev pub sample_input : RequestInput sample_platform
sample_input = by_url "https://example.org/" (some sample_options)

abbrev pub sample_cookie : Cookie
sample_cookie = record {
  name = "sid";
  value = "1";
  domain = "example.org";
  path = "";
  origin = some "https://example.org";
  expires = some (pos 1700000000);
  secure = true;
  http_only = false;
  same_site = some lax;
}

abbrev pub sample_config : SessionConfig
sample_config = record {
  profile = some "chrome_133";
  custom_profile = none;
  identity = none;
  timeout_ms = none;
  follow_redirects = none;
  proxy_url = none;
  insecure_skip_verify = none;
  random_tls_extension_order = none;
  disable_session_tickets = none;
  force_http1 = none;
  disable_http3 = none;
  protocol_racing = none;
  disable_ipv4 = none;
  disable_ipv6 = none;
  local_address = none;
  server_name = none;
  certificate_pins = none;
  cookie_jar = none;
  transport = none;
}

-- A codec that knows one answer with cookies.
abbrev decode_cookies : (s : MetaSchema) → List ℕ → Option (Meta s)
decode_cookies Schema.cookies_result bytes = some (record { cookies = sample_cookie ∷ [] })
decode_cookies Schema.empty bytes = some empty_meta
decode_cookies _ bytes = none

abbrev pub cookie_codec : JsonCodec
cookie_codec = record { decode = decode_cookies; encode = λ s meta. 0x7b ∷ 0x7d ∷ [] }

abbrev pub cookie_frame : Frame
cookie_frame = record { kind = Kind.ok; id = 1; meta = 0x7b ∷ 0x7d ∷ []; body = [] }
