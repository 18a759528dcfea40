-- ===== src/Client/Acceptance.antt =====
-- The calls of packages/effect-tls-client/src/TlsClient.ts against `call` of
-- packages/effect-tls-client/src/internal/Bridge.ts, and cookies that are taken from one session and
-- given to another.
use Prim.Native.String.{String}
use effect_tls_client.Prelude.{
  ◌≡◌, refl, subst, true, none, some, List, map, Result, ok, err, >>=-ok, arith,
}
use effect_tls_client.Prelude.Options.{traverse}
use effect_tls_client.Frame.Codec.{Frame}
use effect_tls_client.Protocol.Metadata.{Cookie}
use effect_tls_client.Protocol.Schema
use effect_tls_client.Protocol.Schema.{
  JsonCodec, MetaSchema, Meta, encode_meta, check_session_config,
}
use effect_tls_client.Errors.{RequestError}
use effect_tls_client.Bridge.World.{World, get_dead}
use effect_tls_client.Bridge.Calls.{call_schema, check_call, encode_call_meta}
use effect_tls_client.Client.Platform.{Platform, EffectCookie}
use effect_tls_client.Client.Cookies.{effect_cookie, cookies_from_wire}
use effect_tls_client.Client.CookieTrip.{
  MakesAsGiven, returned, normalize_cookies-cookies_from_wire,
}
use effect_tls_client.Client.Calls.{
  ClientCall, create, destroy, get_cookies, set_cookies, export_cookies, import_cookies,
  get_bandwidth, reset_bandwidth, set_proxy, kind_of, given_of, begin_client_call,
  decode_cookie_result, from_request, end_cookies, begin_set_cookies,
}

-- A session is created with a configuration that passes its schema.
unfoldable pub IsCall : ClientCall → Type 0
IsCall (create id config) = check_session_config config ≡ true
IsCall call = Unit {0}

-- Where the Bridge is alive and a session that is created has a valid configuration: each call of the
-- client has the fields of the schema that the Bridge chooses by the kind of the call, and passes
-- the Bridge's checks, which encode them.
pub check_call-given_of :
    (codec : JsonCodec) (w : World) (call : ClientCall)
    → get_dead w ≡ none
    → IsCall call
    → (meta : Meta (call_schema (kind_of call))) × (given_of call (call_schema (kind_of call))
        ≡ some meta)
      × (check_call codec (kind_of call) (given_of call) none w
          ≡ ok (encode_meta codec (call_schema (kind_of call)) meta))
unfolding IsCall check_call encode_call_meta call_schema kind_of given_of Schema.check_meta
check_call-given_of codec w (create id config) alive valid =
    (_, refl, rw (alive, check_call, valid) refl)
check_call-given_of codec w (destroy id) alive valid = (_, refl, rw (alive, check_call) refl)
check_call-given_of codec w (get_cookies id url) alive valid =
    (_, refl, rw (alive, check_call) refl)
check_call-given_of codec w (set_cookies id url cookies) alive valid =
    (_, refl, rw (alive, check_call) refl)
check_call-given_of codec w (export_cookies id) alive valid = (_, refl, rw (alive, check_call) refl)
check_call-given_of codec w (import_cookies id cookies) alive valid =
    (_, refl, rw (alive, check_call) refl)
check_call-given_of codec w (get_bandwidth id) alive valid = (_, refl, rw (alive, check_call) refl)
check_call-given_of codec w (reset_bandwidth id) alive valid =
    (_, refl, rw (alive, check_call) refl)
check_call-given_of codec w (set_proxy id proxy) alive valid =
    (_, refl, rw (alive, check_call) refl)

from_request-ok :
    {A : Type 0} (r : Result RequestError A) (a : A) → from_request r ≡ ok a → r ≡ ok a
from_request-ok (ok b) a h = cc
from_request-ok (err e) a h = absurd (ground arith)

-- Where `makeCookieUnsafe` makes what it is given, and effect's collection lists the cookies that it
-- is made of: the cookies that `cookies` returns, given to `setCookies` of any session, are sent to
-- the Bridge as it has returned them, but for an empty path, which is "/", and the origin, which is
-- left out.
pub begin_set_cookies-end_cookies :
    (p : Platform) (codec : JsonCodec) (frame : Frame) (values : List Cookie) (jar : p.Cookies)
    (id url : String) (w : World)
    → MakesAsGiven p
    → ((es : List EffectCookie)
        → traverse (effect_cookie p) values ≡ some es
        → p.values (p.from_iterable es) ≡ es)
    → decode_cookie_result codec frame ≡ ok values
    → end_cookies p codec (ok frame) ≡ ok jar
    → begin_set_cookies p codec id url jar w
      ≡ begin_client_call codec (set_cookies id url (map returned values)) w
unfolding begin_set_cookies end_cookies
begin_set_cookies-end_cookies p codec frame values jar id url w makes kept decodes ends =
    let (values', decodes', converts) = >>=-ok (decode_cookie_result codec frame) _ jar ends in
    let same : values' ≡ values = cc in
    let made : cookies_from_wire p values ≡ ok jar =
      from_request-ok (cookies_from_wire p values) jar
        (subst (λ vs. from_request (cookies_from_wire p vs) ≡ ok jar) same converts) in
    rw (normalize_cookies-cookies_from_wire p makes values jar kept made, begin_set_cookies) refl
