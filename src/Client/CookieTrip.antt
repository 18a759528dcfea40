-- ===== src/Client/CookieTrip.antt =====
-- Cookies that the Bridge returns and that are given back to it, in
-- packages/effect-tls-client/src/TlsClient.ts.
use Prim.Native.String.{String}
use mathlib.Core.Option.{map as map_some}
use text.Mathlib.Text.{◌==◌ as str_eq}
use text.Mathlib.TextEquality.{eq_iff}
use effect_tls_client.Prelude.{
  ◌+◌, ◌*◌, ◌/◌, ◌≡◌, refl, sym, Bool, true, false, Option, none, some, List, [], ◌∷◌, map, leb,
  if◌then◌else◌, or_else, ok, arith, Bool-cases, inl, inr,
}
use effect_tls_client.Prelude.Options.{traverse, and_then-some}
use effect_tls_client.Prelude.Int.{ℤ, pos, negsuc}
use effect_tls_client.Protocol.Metadata.{Cookie, SameSite, lax, strict, anywhere}
use effect_tls_client.Client.Platform.{
  Platform, JsDate, time, invalid_date, CookieOptions, EffectCookie,
}
use effect_tls_client.Client.Cookies.{
  floor_seconds, seconds_of, same_site_of, to_wire_cookie, decode_expires, decode_cookie, max_time,
  date_of_seconds, valid_date, expiry, unless_empty, if_true, same_site_option, options_of,
  or_config_failure, drafts_of, normalize_cookies, collection, effect_cookie, cookies_from_wire,
}

-- What comes back: the path "/" for an empty one, and no origin.
unfoldable pub returned : Cookie → Cookie
returned cookie = record cookie {
  path = (if str_eq cookie.path "" then "/" else cookie.path);
  origin = none;
}

same_site_trip : (s : Option SameSite) → map_some same_site_of (map_some same_site_option s) ≡ s
same_site_trip none = refl
same_site_trip (some lax) = refl
same_site_trip (some strict) = refl
same_site_trip (some anywhere) = refl

if_true_trip : (b : Bool) → or_else (if_true b) false ≡ b
if_true_trip true = refl
if_true_trip false = refl

unless_empty_trip : (s d : String) → or_else (unless_empty s) d ≡ (if str_eq s "" then d else s)
unless_empty_trip s d = elim (Bool-cases (str_eq s "")) [ inl e ↦ rw e refl | inr e ↦ rw e refl ]

unless_empty_same : (s : String) → or_else (unless_empty s) "" ≡ s
unless_empty_same s = elim (Bool-cases (str_eq s "")) [
  | inl e ↦ rw e (sym ((eq_iff s "").0 e))
  | inr e ↦ rw e refl
]

dated :
    (b : Bool) (ms : ℤ) (date : Option JsDate)
    → valid_date (if b then time ms else invalid_date) ≡ some date
    → date ≡ some (time ms)
unfolding valid_date
dated true ms date h = cc
dated false ms date h = cc

date_trip :
    (seconds : ℤ) (date : Option JsDate)
    → valid_date (date_of_seconds seconds) ≡ some date
    → decode_expires (map_some seconds_of date) ≡ some (some seconds)
unfolding date_of_seconds decode_expires floor_seconds
date_trip (pos n) date h =
    let exact : n * 1000 / 1000 ≡ n = omega arith in
    rw (dated (leb (n * 1000) max_time) _ date h, exact) refl
date_trip (negsuc n) date h =
    let exact : (n * 1000 + 999) / 1000 ≡ n = omega arith in
    rw (dated (leb ((n + 1) * 1000) max_time) _ date h, exact) refl

expiry_trip :
    (expires : Option ℤ) (date : Option JsDate)
    → expiry expires ≡ some date
    → decode_expires (map_some seconds_of date) ≡ some expires
unfolding expiry decode_expires
expiry_trip none date h = cc
expiry_trip (some seconds) date h = date_trip seconds date h

-- The cookie as effect's collection holds it.
abbrev made : Cookie → Option JsDate → EffectCookie
made cookie date = record {
  name = cookie.name;
  value = cookie.value;
  options = some (options_of cookie date);
}

made_trip :
    (cookie : Cookie) (date : Option JsDate)
    → expiry cookie.expires ≡ some date
    → decode_cookie (to_wire_cookie (made cookie date)) ≡ some (returned cookie)
unfolding decode_cookie to_wire_cookie options_of returned
made_trip cookie date h =
    rw
      (
        expiry_trip cookie.expires date h,
        unless_empty_same cookie.domain,
        unless_empty_trip cookie.path "/",
        if_true_trip cookie.secure,
        if_true_trip cookie.http_only,
        same_site_trip cookie.same_site,
      )
      refl

-- What effect documents of `makeCookieUnsafe`: the cookie that it returns has the name, the value
-- and the options that it is given.
abbrev pub MakesAsGiven : Platform → Type 0
MakesAsGiven p =
    (name value : String) (options : CookieOptions) (cookie : EffectCookie)
    → p.make_cookie_unsafe name value options ≡ some cookie
    → cookie ≡ record { name = name; value = value; options = some options }

module _ (p : Platform) (makes : MakesAsGiven p) where
  effect_cookie_trip :
      (cookie : Cookie) (e : EffectCookie)
      → effect_cookie p cookie ≡ some e
      → decode_cookie (to_wire_cookie e) ≡ some (returned cookie)
  unfolding effect_cookie
  effect_cookie_trip cookie e h =
      let (date, dates, makes_it) = and_then-some (expiry cookie.expires) _ e h in
      rw (makes cookie.name cookie.value (options_of cookie date) e makes_it)
        (made_trip cookie date dates)

  traverse_trip :
      (cookies : List Cookie) (es : List EffectCookie)
      → traverse (effect_cookie p) cookies ≡ some es
      → traverse decode_cookie (map to_wire_cookie es) ≡ some (map returned cookies)
  unfolding traverse
  traverse_trip [] [] h = refl
  traverse_trip [] (e ∷ es) h = absurd (ground arith)
  traverse_trip (c ∷ cs) es h =
      let (e, first, rest) = and_then-some (effect_cookie p c) _ es h in
      let (others, later, all) = and_then-some (traverse (effect_cookie p) cs) _ es rest in
      let whole : es ≡ e ∷ others = cc in
      rw (whole, effect_cookie_trip c e first, traverse_trip cs others later) refl

  converted :
      (cookies : List Cookie) (jar : p.Cookies) (o : Option (List EffectCookie))
      → or_config_failure "invalid cookies returned by Bridge" (map_some p.from_iterable o) ≡ ok jar
      → (es : List EffectCookie) × (o ≡ some es) × (p.from_iterable es ≡ jar)
  converted cookies jar none h = absurd (ground arith)
  converted cookies jar (some es) h = (es, refl, cc)

  -- Where `makeCookieUnsafe` makes what it is given, and effect's collection lists the cookies that it
  -- is made of: cookies of the wire that the client turns into a collection and back into cookies of
  -- the wire are the same, but for an empty path, which is "/", and the origin, which is left out.
  pub normalize_cookies-cookies_from_wire :
      (cookies : List Cookie) (jar : p.Cookies)
      → ((es : List EffectCookie)
          → traverse (effect_cookie p) cookies ≡ some es
          → p.values (p.from_iterable es) ≡ es)
      → cookies_from_wire p cookies ≡ ok jar
      → normalize_cookies p (some (collection jar)) ≡ ok (some (map returned cookies))
  unfolding normalize_cookies cookies_from_wire drafts_of
  normalize_cookies-cookies_from_wire cookies jar kept h =
      let (es, made_of, whole) = converted cookies jar (traverse (effect_cookie p) cookies) h in
      rw (sym whole, kept es made_of, traverse_trip cookies es made_of) refl
