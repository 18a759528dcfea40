-- ===== src/Bridge/FlightRuns.antt =====
-- A request with a body over the connection of packages/effect-tls-client/src/internal/Bridge.ts.
use effect_tls_client.Prelude.{
  ◌≡◌, ◌≤◌, refl, inl, true, false, Option, none, some, ℕ, List, [], ◌∷◌, Result, ok, length, All,
  arith,
}
use effect_tls_client.Frame.Kind
use effect_tls_client.Frame.Codec.{Frame, decode_frame, frame_bytes, uint32_bytes, encode_frame}
use effect_tls_client.Prelude.Assoc.{insert, has}
use effect_tls_client.Protocol.Metadata.{RequestMeta, empty_meta}
use effect_tls_client.Protocol.Schema
use effect_tls_client.Protocol.Schema.{decode_meta, encode_meta, empty, JsonCodec, MetaSchema, Meta}
use effect_tls_client.Errors.{BridgeError}
use effect_tls_client.Bridge.World.{
  Upload, emit, write, PendingStream, stream, World, initial_world, get_dead,
}
use effect_tls_client.Bridge.Writing.{
  register, write_frame, write_bytes, frame_input, allocate_id, allocate_from,
}
use effect_tls_client.Bridge.Hello.{send_hello, accept_hello, negotiated, versions_agree}
use effect_tls_client.Bridge.Calls.{Ticket}
use effect_tls_client.Bridge.Requests.{new_upload, begin_request, check_request, register_stream}
use effect_tls_client.Bridge.Uploads.{
  slices, max_chunk, Attempt, attempted, upload_stopped, must_wait, send_upload_chunk,
}
use mathlib.Core.List.{flatten}
use effect_tls_client.Bridge.Progress.{slices-max_chunk}
use effect_tls_client.Bridge.StreamFrames.{handle_stream_frame}
use effect_tls_client.Bridge.Resuming.{acknowledged, counted, send_upload_chunk-resumes}
use effect_tls_client.Bridge.Flight.{InWindow, sent_of}
use effect_tls_client.Bridge.Steps.{hello_sent, hello_answered, request_begins, slice_attempted}
use effect_tls_client.Bridge.FlightSteps.{Serves, here, next, Serves-InWindow}
use effect_tls_client.Bridge.Runs.{sample_codec, all_accepted, ack_frame, get_meta, greeted}

abbrev post_meta : RequestMeta
post_meta = record get_meta { method = "POST"; has_body = true }

abbrev welcomed : World
welcomed = (accept_hello sample_codec ack_frame greeted).0

abbrev world_of : Option (World × Result BridgeError Ticket) → World
world_of none = initial_world
world_of (some (w, result)) = w

abbrev attempted_world : Attempt → World
attempted_world upload_stopped = initial_world
attempted_world must_wait = initial_world
attempted_world (attempted w result) = w

abbrev post_ticket : Ticket
post_ticket = record {
  id = 1;
  operation = 1;
  input = frame_input Kind.request 1 (0x7b ∷ 0x7d ∷ []) none;
}

abbrev posted : World
posted = world_of (begin_request sample_codec (some post_meta) true welcomed)

abbrev uploading : World
uploading =
    attempted_world (send_upload_chunk sample_codec true post_ticket (1 ∷ 2 ∷ 3 ∷ []) posted)

post_accepted :
    begin_request sample_codec (some post_meta) true welcomed ≡ some (posted, ok post_ticket)
unfolding send_hello register insert write_frame write_bytes encode_frame frame_bytes uint32_bytes
    Kind.is_frame_kind accept_hello decode_meta Schema.check_meta Schema.check_request
    Schema.check_nested_config versions_agree negotiated begin_request check_request register_stream
    get_dead allocate_id allocate_from has send_upload_chunk
post_accepted = refl

slice_sent :
    send_upload_chunk sample_codec true post_ticket (1 ∷ 2 ∷ 3 ∷ []) posted
    ≡ attempted uploading (ok tt)
unfolding send_hello register insert write_frame write_bytes encode_frame frame_bytes uint32_bytes
    Kind.is_frame_kind accept_hello decode_meta Schema.check_meta Schema.check_request
    Schema.check_nested_config versions_agree negotiated begin_request check_request register_stream
    get_dead allocate_id allocate_from has send_upload_chunk
slice_sent = refl

three_sent : sent_of (uploading.operations 1) ≡ 3
unfolding send_hello register insert write_frame write_bytes encode_frame frame_bytes uint32_bytes
    Kind.is_frame_kind accept_hello decode_meta Schema.check_meta Schema.check_request
    Schema.check_nested_config versions_agree negotiated begin_request check_request register_stream
    get_dead allocate_id allocate_from has send_upload_chunk
three_sent = refl

uploading_served : Serves sample_codec all_accepted initial_world uploading
unfolding send_hello register insert write_frame write_bytes encode_frame frame_bytes uint32_bytes
    Kind.is_frame_kind accept_hello decode_meta Schema.check_meta Schema.check_request
    Schema.check_nested_config versions_agree negotiated begin_request check_request register_stream
    get_dead allocate_id allocate_from has send_upload_chunk
uploading_served =
    next
      (next (next (next here (hello_sent true) (inl refl)) (hello_answered ack_frame) (inl refl))
        (request_begins (some post_meta) true post_accepted) (inl refl))
      (slice_attempted true post_ticket (1 ∷ 2 ∷ 3 ∷ []) slice_sent) (inl refl)

Serves-InWindow_example : InWindow uploading
Serves-InWindow_example = Serves-InWindow uploading_served

-- Three of four bytes are in flight.
abbrev in_flight : Upload
in_flight = record new_upload { sent = 3 }

abbrev posting : PendingStream
posting = record { expects_headers = true; headers_seen = false; upload = some in_flight }

abbrev crowded : World
crowded = record initial_world {
  state = record initial_world.state { window = 4 };
  operations = λ r. stream posting;
}

abbrev two_acked : Frame
two_acked = record { kind = Kind.body_ack; id = 1; meta = []; body = [] }

-- A codec that reads an acknowledgement of two bytes.
abbrev decode_acked : (s : MetaSchema) → List ℕ → Option (Meta s)
decode_acked Schema.ack bytes = some (record { bytes = 2 })
decode_acked _ bytes = none

abbrev acking_codec : JsonCodec
acking_codec = record { decode = decode_acked; encode = λ s meta. 0x7b ∷ 0x7d ∷ [] }

abbrev next_slice : List ℕ
next_slice = 4 ∷ 5 ∷ 6 ∷ []

send_upload_chunk-resumes_example :
    (send_upload_chunk acking_codec true post_ticket next_slice crowded ≡ must_wait)
    × (handle_stream_frame acking_codec all_accepted two_acked 1 posting crowded
        ≡ (acknowledged post_ticket posting in_flight 2 crowded, none))
    × (encoded : List ℕ) × (send_upload_chunk acking_codec true post_ticket next_slice
          (acknowledged post_ticket posting in_flight 2 crowded)
        ≡ attempted
            (emit (write encoded ∷ []) (counted post_ticket posting in_flight 2 3 crowded))
            (ok tt))
    × (decode_frame encoded
        ≡ ok (record {
          kind = Kind.body_chunk;
          id = 1;
          meta = encode_meta acking_codec empty empty_meta;
          body = next_slice;
        }))
unfolding decode_meta Schema.check_meta Kind.is_frame_kind
send_upload_chunk-resumes_example =
    send_upload_chunk-resumes acking_codec all_accepted post_ticket two_acked 2 next_slice posting
      in_flight crowded refl refl refl (omega arith) refl refl refl (omega arith) (omega arith)
      (omega arith) (refl, omega arith, omega arith)

slices-max_chunk_example :
    (flatten (slices (max_chunk initial_world) (1 ∷ 2 ∷ 3 ∷ [])) ≡ 1 ∷ 2 ∷ 3 ∷ [])
    × All
        (λ slice. (1 ≤ length slice) × (length slice ≤ 65536) × (length slice ≤ 1048576))
        (slices (max_chunk initial_world) (1 ∷ 2 ∷ 3 ∷ []))
slices-max_chunk_example =
    slices-max_chunk initial_world (1 ∷ 2 ∷ 3 ∷ []) (omega arith) (omega arith)
