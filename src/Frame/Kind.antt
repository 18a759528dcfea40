-- ===== src/Frame/Kind.antt =====
-- The kinds of frames of protocol version 1: `FrameKind` and `isFrameKind` of
-- packages/effect-tls-client/src/internal/Frame.ts. A kind is a number, as in the source.
use effect_tls_client.Prelude.{ℕ, Bool, List, [], ◌∷◌, contains}

abbrev pub hello : ℕ
hello = 0x01

abbrev pub shutdown : ℕ
shutdown = 0x02

abbrev pub session_create : ℕ
session_create = 0x10

abbrev pub session_destroy : ℕ
session_destroy = 0x11

abbrev pub session_proxy : ℕ
session_proxy = 0x12

abbrev pub cookies_get : ℕ
cookies_get = 0x13

abbrev pub cookies_set : ℕ
cookies_set = 0x14

abbrev pub cookies_export : ℕ
cookies_export = 0x15

abbrev pub cookies_import : ℕ
cookies_import = 0x16

abbrev pub bandwidth_get : ℕ
bandwidth_get = 0x17

abbrev pub bandwidth_reset : ℕ
bandwidth_reset = 0x18

abbrev pub request : ℕ
request = 0x20

abbrev pub body_chunk : ℕ
body_chunk = 0x21

abbrev pub body_end : ℕ
body_end = 0x22

abbrev pub ws_connect : ℕ
ws_connect = 0x30

abbrev pub ws_write : ℕ
ws_write = 0x31

abbrev pub ws_close : ℕ
ws_close = 0x32

abbrev pub cancel : ℕ
cancel = 0x40

abbrev pub ack : ℕ
ack = 0x41

abbrev pub debug_ping : ℕ
debug_ping = 0xf0

abbrev pub debug_sleep : ℕ
debug_sleep = 0xf1

abbrev pub debug_stream : ℕ
debug_stream = 0xf2

abbrev pub hello_ack : ℕ
hello_ack = 0x80

abbrev pub ok : ℕ
ok = 0x81

abbrev pub error : ℕ
error = 0x82

abbrev pub headers : ℕ
headers = 0x90

abbrev pub chunk : ℕ
chunk = 0x91

abbrev pub end : ℕ
end = 0x92

abbrev pub ws_open : ℕ
ws_open = 0xa0

abbrev pub ws_frame : ℕ
ws_frame = 0xa1

abbrev pub ws_closed : ℕ
ws_closed = 0xa2

abbrev pub body_ack : ℕ
body_ack = 0xc1

abbrev pub known_kinds : List ℕ
known_kinds =
    hello ∷ shutdown ∷ session_create ∷ session_destroy ∷ session_proxy ∷ cookies_get ∷ cookies_set
    ∷ cookies_export ∷ cookies_import ∷ bandwidth_get ∷ bandwidth_reset ∷ request ∷ body_chunk
    ∷ body_end ∷ ws_connect ∷ ws_write ∷ ws_close ∷ cancel ∷ ack ∷ debug_ping ∷ debug_sleep
    ∷ debug_stream ∷ hello_ack ∷ ok ∷ error ∷ headers ∷ chunk ∷ end ∷ ws_open ∷ ws_frame ∷ ws_closed
    ∷ body_ack ∷ []

unfoldable pub is_frame_kind : ℕ → Bool
is_frame_kind value = contains value known_kinds
