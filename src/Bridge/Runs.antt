-- ===== src/Bridge/Runs.antt =====
-- A short connection of packages/effect-tls-client/src/internal/Bridge.ts, and its theorems at
-- concrete inputs.
use mathlib.Core.List.{flatten}
use effect_tls_client.Prelude.{
  ℕ, ◌+◌, ◌≡◌, ◌≤◌, ◌*◌, ◌++◌, ◌↔◌, refl, Bool, true, Option, none, some, List, [], ◌∷◌, ok, arith,
}
use effect_tls_client.Prelude.Int.{pos}
use effect_tls_client.Frame.Kind
use effect_tls_client.Frame.Codec.{
  Frame, frame_bytes, uint32_bytes, uint32_at, decode_frame_view, encode_frame,
}
use effect_tls_client.Frame.Decoder.{push, drain, drain_from, round}
use effect_tls_client.Prelude.Assoc.{lookup, remove, insert}
use effect_tls_client.Protocol.Metadata.{
  empty_meta, HelloAckMeta, RequestMeta, SessionConfig, SessionConfigWire,
}
use effect_tls_client.Protocol.Schema
use effect_tls_client.Protocol.Schema.{
  JsonCodec, MetaSchema, Meta, decode_meta, hello_ack, request, session_config_wire,
}
use effect_tls_client.Protocol.Targets.{OneProfile, OneTarget, decode_meta-targets}
use effect_tls_client.Errors.{exited}
use effect_tls_client.Bridge.World.{World, Action, write, settle_call, initial_world, append_stderr}
use effect_tls_client.Bridge.Settle.{
  complete_pending, complete_deferred, mark_dead, mark_exited, fail_all,
}
use effect_tls_client.Bridge.Dispatch.{
  on_stdout, process_chunk, process_pushed, handle_frames, handle_frame, handle_operation_frame,
  deferred_frame, check_answer,
}
use effect_tls_client.Bridge.Ledger.{Settles, live, ended}
use effect_tls_client.Bridge.Ending.{mark_dead_first}
use effect_tls_client.Bridge.Conservation.{on_stdout-Settles}
use effect_tls_client.Bridge.Writing.{allocate_id, register, write_frame, write_bytes}
use effect_tls_client.Bridge.Ids.{Allocated, allocate_id-Allocated}
use effect_tls_client.Bridge.Hello.{send_hello, accept_hello, versions_agree, negotiated}
use effect_tls_client.Bridge.Negotiation.{Negotiated, accept_hello-Negotiated}
use effect_tls_client.Bridge.Sockets.{web_socket_credit, ws_queue_capacity}
use effect_tls_client.Bridge.Credit.{web_socket_credit_bounds}
use effect_tls_client.Bridge.Stderr.{append_all, append_all-last, last}
use effect_tls_client.Bridge.Orderly.{Orderly}
use effect_tls_client.Bridge.Steps.{
  stdout_chunk, stderr_chunk, process_exits, hello_sent, hello_answered, Reach, here, next,
  Reach-dead, Reach-Orderly,
}

abbrev ack_meta : HelloAckMeta
ack_meta = record {
  protocol_version = pos 1;
  bridge_version = "0.1.0";
  tls_client_version = "1.11.0";
  go_version = "go1.24";
  window = some 1048576;
  chunk_size = some 0;
}

abbrev pub get_meta : RequestMeta
get_meta = record {
  session_id = some "s";
  config = none;
  url = "https://example.org/";
  method = "GET";
  headers = [];
  header_order = none;
  has_body = Bool.false;
  content_length = none;
  timeout_ms = none;
  follow_redirects = none;
  host_override = none;
  cookies = none;
}

-- A codec that knows one value of three schemas.
abbrev decode_sample : (s : MetaSchema) → List ℕ → Option (Meta s)
decode_sample Schema.hello_ack bytes = some ack_meta
decode_sample Schema.request bytes = some get_meta
decode_sample Schema.empty bytes = some empty_meta
decode_sample _ bytes = none

abbrev pub sample_codec : JsonCodec
sample_codec = record { decode = decode_sample; encode = λ s meta. 0x7b ∷ 0x7d ∷ [] }

abbrev pub all_accepted : List Action → ℕ → Bool
all_accepted log r = true

abbrev pub ack_frame : Frame
ack_frame = record { kind = Kind.hello_ack; id = 0; meta = 0x7b ∷ 0x7d ∷ []; body = [] }

abbrev hello_wire : List ℕ
hello_wire = 0 ∷ 0 ∷ 0 ∷ 11 ∷ 1 ∷ 0 ∷ 0 ∷ 0 ∷ 0 ∷ 0 ∷ 0 ∷ 0 ∷ 2 ∷ 0x7b ∷ 0x7d ∷ []

abbrev ack_wire : List ℕ
ack_wire = 0 ∷ 0 ∷ 0 ∷ 11 ∷ 0x80 ∷ 0 ∷ 0 ∷ 0 ∷ 0 ∷ 0 ∷ 0 ∷ 0 ∷ 2 ∷ 0x7b ∷ 0x7d ∷ []

-- `hello` is sent, answered and accepted.
abbrev pub greeted : World
greeted = (send_hello sample_codec true initial_world).0

abbrev answered : World
answered = on_stdout sample_codec all_accepted ack_wire greeted

abbrev opened : World
opened = (accept_hello sample_codec ack_frame answered).0

abbrev closed : World
closed = mark_exited (some (pos 2)) none (append_stderr (0x21 ∷ []) opened)

-- The answer settles the call, and the id 0 is free again.
answered_log : answered.log ≡ write hello_wire ∷ settle_call 0 (ok ack_frame) ∷ []
unfolding send_hello on_stdout process_chunk process_pushed push drain drain_from round uint32_at
    decode_frame_view Kind.is_frame_kind handle_frames handle_frame handle_operation_frame
    deferred_frame check_answer decode_meta Schema.check_meta complete_pending complete_deferred
    lookup remove insert register write_frame write_bytes encode_frame frame_bytes uint32_bytes
answered_log = refl

opened_window : opened.window ≡ 1048576
unfolding accept_hello decode_meta Schema.check_meta versions_agree negotiated
opened_window = refl

-- The chunk size 0 stands for the default.
opened_chunk_size : opened.chunk_size ≡ 65536
unfolding accept_hello decode_meta Schema.check_meta versions_agree negotiated
opened_chunk_size = refl

opened_Reach : Reach sample_codec all_accepted initial_world opened
opened_Reach =
    next (next (next here (hello_sent true)) (stdout_chunk ack_wire)) (hello_answered ack_frame)

closed-Reach : Reach sample_codec all_accepted initial_world closed
closed-Reach =
    next (next opened_Reach (stderr_chunk (0x21 ∷ []))) (process_exits (some (pos 2)) none)

Reach-Orderly_example : Orderly closed
Reach-Orderly_example = Reach-Orderly closed-Reach

-- A connection that has died before anything was sent.
abbrev stillborn : World
stillborn = mark_exited none none initial_world

stillborn_dead : stillborn.dead ≡ some (exited none none [])
unfolding mark_exited mark_dead fail_all
stillborn_dead = refl

Reach-dead_example :
    (on_stdout sample_codec all_accepted ack_wire stillborn).dead ≡ some (exited none none [])
Reach-dead_example =
    Reach-dead {codec = sample_codec} {accepts = all_accepted} {v = stillborn} (exited none none [])
      (next here (stdout_chunk ack_wire)) stillborn_dead

on_stdout-Settles_example : Settles greeted answered
on_stdout-Settles_example = on_stdout-Settles sample_codec all_accepted ack_wire greeted

abbrev one_pending : World
one_pending = record initial_world { pending = (5, 0) ∷ []; fresh = 1 }

mark_dead_first_example :
    ((mark_dead (exited none none []) one_pending).dead ≡ some (exited none none []))
    × ((mark_dead (exited none none []) one_pending).pending ≡ [])
    × ((mark_dead (exited none none []) one_pending).fresh ≡ 1)
    × ((r : ℕ)
        → ended r (mark_dead (exited none none []) one_pending).log
          ≡ ended r [] + live r ((5, 0) ∷ []))
mark_dead_first_example = mark_dead_first (exited none none []) one_pending refl

-- The id 4294967295 is taken, and 1 too.
abbrev nearly_wrapped : World
nearly_wrapped = record initial_world {
  state = record initial_world.state { next_id = 4294967295 };
  pending = (4294967295, 0) ∷ (1, 1) ∷ [];
}

allocate_id-Allocated_example : Allocated nearly_wrapped (allocate_id nearly_wrapped)
allocate_id-Allocated_example =
    allocate_id-Allocated nearly_wrapped (omega arith, omega arith) (omega arith)

accept_hello-Negotiated_example :
    Negotiated initial_world
      (decode_meta sample_codec hello_ack ack_frame.meta)
      (accept_hello sample_codec ack_frame initial_world)
accept_hello-Negotiated_example = accept_hello-Negotiated sample_codec ack_frame initial_world refl

abbrev sample_session : SessionConfig
sample_session = record {
  profile = some "chrome_133";
  custom_profile = none;
  identity = none;
  timeout_ms = none;
  follow_redirects = none;
  proxy_url = none;
  insecure_skip_verify = none;
  random_tls_extension_order = none;
  disable_session_tickets = none;
  force_http1 = none;
  disable_http3 = none;
  protocol_racing = none;
  disable_ipv4 = none;
  disable_ipv6 = none;
  local_address = none;
  server_name = none;
  certificate_pins = none;
  cookie_jar = none;
  transport = none;
}

abbrev get_wire : SessionConfigWire
get_wire = record { session_id = "s"; config = sample_session }

decode_meta-targets_example :
    ((decode_meta sample_codec request [] ≡ some get_meta) ↔ (
      (sample_codec.decode request [] ≡ some get_meta)
      × OneTarget get_meta.session_id get_meta.config))
    × ((decode_meta sample_codec session_config_wire [] ≡ some get_wire) ↔ (
        (sample_codec.decode session_config_wire [] ≡ some get_wire) × OneProfile get_wire.config))
decode_meta-targets_example = decode_meta-targets sample_codec [] get_meta get_wire

web_socket_credit_bounds_example :
    (1 ≤ web_socket_credit 1048576 10)
    × (10 ≤ web_socket_credit 1048576 10)
    × (1048576 ≤ ws_queue_capacity * web_socket_credit 1048576 10)
web_socket_credit_bounds_example = web_socket_credit_bounds 1048576 10

append_all-last_example :
    (append_all ((1 ∷ 2 ∷ []) ∷ (3 ∷ []) ∷ []) initial_world).stderr_tail
    ≡ last 4096 ([] ++ flatten ((1 ∷ 2 ∷ []) ∷ (3 ∷ []) ∷ []))
append_all-last_example = append_all-last ((1 ∷ 2 ∷ []) ∷ (3 ∷ []) ∷ []) initial_world (omega arith)
