-- ===== src/Client/Platform.antt =====
-- What packages/effect-tls-client/src/TlsClient.ts and TlsHttpClient.ts use of the JavaScript
-- platform and of effect, outside the repository: a parameter of the definitions that use it.
use Prim.Native.String.{String}
use effect_tls_client.Prelude.{ℕ, Bool, Option, List}
use effect_tls_client.Prelude.Int.{ℤ}
use effect_tls_client.Protocol.Metadata.{Pair}

-- A number: a safe integer, or any other.
pub data JsNumber : Type 0 where
  integer : ℤ → JsNumber
  not_integer : JsNumber

-- `Date.prototype.getTime()`: milliseconds, or NaN.
pub data JsDate : Type 0 where
  time : ℤ → JsDate
  invalid_date : JsDate

-- "lax", "strict" and "none" of effect's cookies.
pub data SameSiteOption : Type 0 where
  lax_option strict_option none_option : SameSiteOption

pub record CookieOptions : Type 0 where
  pub domain : Option String
  pub path : Option String
  pub expires : Option JsDate
  pub secure : Option Bool
  pub http_only : Option Bool
  pub same_site : Option SameSiteOption

-- `Cookies.Cookie`.
pub record EffectCookie : Type 0 where
  pub name : String
  pub value : String
  pub options : Option CookieOptions

pub record Platform : Type 1 where
  pub FormData : Type 0
  pub ByteStream : Type 0
  pub UrlParams : Type 0
  pub Readable : Type 0
  pub Blob : Type 0
  pub Cookies : Type 0
  pub Headers : Type 0
  -- `String.prototype.toLowerCase`, `Number(text)` and `String(number)`.
  pub lower : String → String
  pub number : String → JsNumber
  pub decimal : ℕ → String
  -- `Request.arrayBuffer` and the content type of a form: `none` where the promise is rejected.
  pub encode_form : FormData → Option (List ℕ × Option String)
  -- `URLSearchParams.toString`, `Stream.fromReadableStream` and `Blob.arrayBuffer`.
  pub params_text : UrlParams → List ℕ
  pub from_readable : Readable → ByteStream
  pub blob_bytes : Blob → Option (List ℕ)
  -- `Object.values(cookies.cookies)`, `Cookies.fromIterable`, `Cookies.makeCookieUnsafe` (`none` where
  -- it throws) and `Cookies.fromSetCookie`.
  pub values : Cookies → List EffectCookie
  pub from_iterable : List EffectCookie → Cookies
  pub make_cookie_unsafe : String → String → CookieOptions → Option EffectCookie
  pub from_set_cookie : List String → Cookies
  -- `Headers.fromInput`.
  pub headers_from_input : List Pair → Headers
