-- ===== src/Client/Cookies.antt =====
-- Cookies between effect's form and the wire's: `toWireCookie`, `normalizeCookies` and
-- `cookiesFromWire` of packages/effect-tls-client/src/TlsClient.ts. A `Schema.Int` is a safe integer,
-- an ℤ.
use Prim.Native.String.{String}
use mathlib.Core.Option.{map as map_some}
use text.Mathlib.Text.{◌==◌ as str_eq}
use effect_tls_client.Prelude.{
  ℕ, ◌+◌, ◌*◌, ◌/◌, Bool, true, false, Option, none, some, List, map, leb, if◌then◌else◌, or_else,
  Result, ok, err,
}
use effect_tls_client.Prelude.Options.{and_then, traverse}
use effect_tls_client.Prelude.Int.{ℤ, pos, negsuc}
use effect_tls_client.Protocol.Metadata.{Cookie, SameSite, lax, strict, anywhere}
use effect_tls_client.Errors.{RequestError, plain}
use effect_tls_client.Client.Platform.{
  Platform, JsNumber, integer, not_integer, JsDate, time, invalid_date, SameSiteOption, lax_option,
  strict_option, none_option, CookieOptions, EffectCookie,
}
use effect_tls_client.Client.Failures.{config_failure}

-- A cookie before the `CookieSchema`. `expires` is `none` for null.
pub record CookieDraft : Type 0 where
  pub name : String
  pub value : String
  pub domain : String
  pub path : String
  pub expires : Option JsNumber
  pub secure : Bool
  pub http_only : Bool
  pub same_site : Option SameSite

-- `RequestCookieInput`: `expires` is missing, null or a number.
pub record CookieInput : Type 0 where
  pub name : String
  pub value : String
  pub domain : Option String
  pub path : Option String
  pub expires : Option (Option JsNumber)
  pub secure : Option Bool
  pub http_only : Option Bool
  pub same_site : Option SameSite

-- `Math.floor(ms / 1000)`: below zero, -(n + 1) / 1000 is rounded down.
unfoldable pub floor_seconds : ℤ → ℤ
floor_seconds (pos n) = pos (n / 1000)
floor_seconds (negsuc n) = negsuc (n / 1000)

abbrev pub seconds_of : JsDate → JsNumber
seconds_of (time ms) = integer (floor_seconds ms)
seconds_of invalid_date = not_integer

abbrev pub same_site_of : SameSiteOption → SameSite
same_site_of lax_option = lax
same_site_of strict_option = strict
same_site_of none_option = anywhere

abbrev pub no_options : CookieOptions
no_options = record {
  domain = none;
  path = none;
  expires = none;
  secure = none;
  http_only = none;
  same_site = none;
}

unfoldable pub to_wire_cookie : EffectCookie → CookieDraft
to_wire_cookie cookie =
    let options = or_else cookie.options no_options in
    record {
      name = cookie.name;
      value = cookie.value;
      domain = or_else options.domain "";
      path = or_else options.path "/";
      expires = map_some seconds_of options.expires;
      secure = or_else options.secure false;
      http_only = or_else options.http_only false;
      same_site = map_some same_site_of options.same_site;
    }

unfoldable pub input_cookie : CookieInput → CookieDraft
input_cookie cookie = record {
  name = cookie.name;
  value = cookie.value;
  domain = or_else cookie.domain "";
  path = or_else cookie.path "/";
  expires = or_else cookie.expires none;
  secure = or_else cookie.secure false;
  http_only = or_else cookie.http_only false;
  same_site = cookie.same_site;
}

-- `Schema.NullOr(Schema.Int)`.
unfoldable pub decode_expires : Option JsNumber → Option (Option ℤ)
decode_expires none = some none
decode_expires (some (integer seconds)) = some (some seconds)
decode_expires (some not_integer) = none

-- `CookieSchema`, of which only `expires` can fail here.
unfoldable pub decode_cookie : CookieDraft → Option Cookie
decode_cookie draft = and_then (decode_expires draft.expires) (λ expires. some (record {
  name = draft.name;
  value = draft.value;
  domain = draft.domain;
  path = draft.path;
  origin = none;
  expires = expires;
  secure = draft.secure;
  http_only = draft.http_only;
  same_site = draft.same_site;
}))

abbrev pub or_config_failure {ℓ} : {A : Type ℓ} → String → Option A → Result RequestError A
or_config_failure message none = err (config_failure (plain message))
or_config_failure message (some a) = ok a

-- `new Date(seconds * 1000)`: a time of more than 8.64e15 milliseconds either way is invalid.
unfoldable pub max_time : ℕ
max_time = 8640000000000000

unfoldable pub date_of_seconds : ℤ → JsDate
unfolding max_time
date_of_seconds (pos n) = if leb (n * 1000) max_time then time (pos (n * 1000)) else invalid_date
date_of_seconds (negsuc n) =
    if leb ((n + 1) * 1000) max_time then time (negsuc (n * 1000 + 999)) else invalid_date

-- `none` where an invalid date is thrown.
unfoldable pub valid_date : JsDate → Option (Option JsDate)
valid_date (time ms) = some (some (time ms))
valid_date invalid_date = none

unfoldable pub expiry : Option ℤ → Option (Option JsDate)
unfolding valid_date
expiry none = some none
expiry (some seconds) = valid_date (date_of_seconds seconds)

abbrev pub unless_empty : String → Option String
unless_empty s = if str_eq s "" then none else some s

abbrev pub if_true : Bool → Option Bool
if_true true = some true
if_true false = none

abbrev pub same_site_option : SameSite → SameSiteOption
same_site_option lax = lax_option
same_site_option strict = strict_option
same_site_option anywhere = none_option

unfoldable pub options_of : Cookie → Option JsDate → CookieOptions
options_of cookie expires = record {
  domain = unless_empty cookie.domain;
  path = unless_empty cookie.path;
  expires = expires;
  secure = if_true cookie.secure;
  http_only = if_true cookie.http_only;
  same_site = map_some same_site_option cookie.same_site;
}

module _ (p : Platform) where
  -- The value of `cookies`: effect's collection, or an array of inputs.
  pub data CookieSource : Type 0 where
    collection : p.Cookies → CookieSource
    inputs : List CookieInput → CookieSource

  unfoldable pub drafts_of : CookieSource → List CookieDraft
  drafts_of (collection cookies) = map to_wire_cookie (p.values cookies)
  drafts_of (inputs cookies) = map input_cookie cookies

  unfoldable pub normalize_cookies :
      Option CookieSource → Result RequestError (Option (List Cookie))
  normalize_cookies none = ok none
  normalize_cookies (some source) =
      or_config_failure "invalid request cookies"
        (map_some some (traverse decode_cookie (drafts_of source)))

  unfoldable pub effect_cookie : Cookie → Option EffectCookie
  effect_cookie cookie =
      and_then (expiry cookie.expires)
        (λ expires. p.make_cookie_unsafe cookie.name cookie.value (options_of cookie expires))

  unfoldable pub cookies_from_wire : List Cookie → Result RequestError p.Cookies
  cookies_from_wire cookies =
      or_config_failure "invalid cookies returned by Bridge"
        (map_some p.from_iterable (traverse effect_cookie cookies))
