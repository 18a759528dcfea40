-- ===== src/Http/Runs.antt =====
-- The theorems about packages/effect-tls-client/src/TlsHttpClient.ts at concrete inputs.
use effect_tls_client.Prelude.{
  ◌+◌, or_else, ℕ, ◌≡◌, refl, true, none, some, List, [], ◌∷◌, length, if◌then◌else◌, Result, ok,
}
use effect_tls_client.Prelude.Int.{pos}
use effect_tls_client.Protocol.Metadata.{Pair}
use effect_tls_client.Client.Platform.{Platform, integer}
use effect_tls_client.Client.Samples.{sample_platform}
use effect_tls_client.Client.Bodies.{succeed}
use effect_tls_client.Client.Requests.{
  RequestInput, NormalizedRequest, normalize_request, parse_timeout,
}
use effect_tls_client.Http.Headers.{
  combine_header_pairs, combine_from, combine_pair, find_index, merge_at, has_header,
}
use effect_tls_client.Http.Combining.{grouped, combine_header_pairs-grouped}
use effect_tls_client.Http.Bodies.{uint8_array, with_body_headers}
use effect_tls_client.Http.Adapter.{
  TransportControls, array_buffer, has_no_body, session_request, before_hash,
}
use effect_tls_client.Errors.{BridgeError}
use effect_tls_client.Http.Reading.{
  Read, run_stream, read_json, read_text, unread, use_buffer, use_bodies,
}
use effect_tls_client.Http.BodyLog.{
  Source, stream_reads, first_buffered, runs, source_closes, scope_closes,
}
use effect_tls_client.Http.Rereading.{one_if_some, use_bodies-log}
use effect_tls_client.Http.Delivery.{
  whole_body, array_buffer-whole_body, session_request-normalize_request,
}

abbrev two_accepts : List Pair
two_accepts = ("Accept", "a") ∷ ("via", "x") ∷ ("accept", "b") ∷ []

combine_header_pairs-grouped_example :
    combine_header_pairs (Platform.lower sample_platform) two_accepts
    ≡ grouped (Platform.lower sample_platform) [] two_accepts
combine_header_pairs-grouped_example =
    combine_header_pairs-grouped (Platform.lower sample_platform) two_accepts

-- A name that comes twice is folded into its first place.
folded :
    combine_header_pairs (Platform.lower sample_platform) two_accepts
    ≡ ("Accept", "a, b") ∷ ("via", "x") ∷ []
unfolding combine_header_pairs combine_from combine_pair find_index merge_at
folded = refl

cut_hash : before_hash "https://example.org/a#b" ≡ "https://example.org/a"
unfolding before_hash
cut_hash = refl

array_buffer-whole_body_example :
    array_buffer "GET" (pos 200) (ok ((1 ∷ []) ∷ [] ∷ (2 ∷ []) ∷ []))
    ≡ some (
        if has_no_body "GET" (pos 200)
        then ok []
        else whole_body (ok ((1 ∷ []) ∷ [] ∷ (2 ∷ []) ∷ [])))
array_buffer-whole_body_example =
    array_buffer-whole_body "GET" (pos 200) (ok ((1 ∷ []) ∷ [] ∷ (2 ∷ []) ∷ []))

abbrev sample_controls : TransportControls
sample_controls = record {
  timeout_ms = some (integer (pos 500));
  header_order = none;
  host_override = none;
  response_mode = none;
}

abbrev two_bytes : List ℕ
two_bytes = 1 ∷ 2 ∷ []

abbrev only_accept : List Pair
only_accept = ("Accept", "a") ∷ []

session_request-normalize_request_example :
    (input : RequestInput sample_platform) × (n : NormalizedRequest sample_platform)
    × (session_request sample_platform true
          (record {
            method = "PUT";
            url = "https://example.org/";
            headers = only_accept;
            body = uint8_array two_bytes "application/octet-stream" (length two_bytes);
          })
          sample_controls
        ≡ ok input)
    × (normalize_request sample_platform input ≡ ok n)
    × (n.body ≡ some (succeed two_bytes))
    × (n.content_length ≡ some (length two_bytes))
    × (n.headers
        ≡ with_body_headers sample_platform only_accept
            (uint8_array two_bytes "application/octet-stream" (length two_bytes)))
unfolding has_header parse_timeout
session_request-normalize_request_example =
    session_request-normalize_request sample_platform "PUT" "https://example.org/"
      "application/octet-stream" only_accept two_bytes sample_controls (some 500) refl refl refl
      refl refl

abbrev three_chunks : Result BridgeError (List (List ℕ))
three_chunks = ok (two_bytes ∷ [] ∷ two_bytes ∷ [])

-- The stream, a text, the stream again, and a JSON value.
abbrev four_reads : List (Read × Source)
four_reads =
    (run_stream, three_chunks)
    ∷ (read_text, three_chunks)
    ∷ (run_stream, ok [])
    ∷ (read_json, ok [])
    ∷ []

use_bodies-log_example :
    (source_closes (use_bodies "GET" (pos 200) four_reads unread)
      ≡ stream_reads four_reads + one_if_some (first_buffered four_reads))
    × (scope_closes (use_bodies "GET" (pos 200) four_reads unread)
        ≡ stream_reads four_reads + one_if_some (first_buffered four_reads))
    × (runs (use_bodies "GET" (pos 200) four_reads unread) ≡ (
        if has_no_body "GET" (pos 200)
        then 0
        else stream_reads four_reads + one_if_some (first_buffered four_reads)))
    × ((use_buffer "GET" (pos 200) (ok []) (use_bodies "GET" (pos 200) four_reads unread)).1
        ≡ some (
            if has_no_body "GET" (pos 200)
            then ok []
            else whole_body (or_else (first_buffered four_reads) (ok []))))
use_bodies-log_example = use_bodies-log "GET" (pos 200) four_reads (ok [])
