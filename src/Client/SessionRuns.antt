-- ===== src/Client/SessionRuns.antt =====
-- The theorems about sessions, sockets and responses of packages/effect-tls-client/src/TlsClient.ts at
-- concrete inputs: a session that the layer's finaliser destroys, a socket that the peer closes, and a
-- response that is read twice.
use mathlib.Core.List.{flatten}
use effect_tls_client.Prelude.{
  ℕ, ◌+◌, ◌≤◌, ◌≡◌, refl, true, false, not, Bool, none, some, List, [], ◌∷◌, contains, Result, ok,
  err, map_ok,
}
use effect_tls_client.Prelude.Int.{pos}
use effect_tls_client.Prelude.Tally.{tally}
use effect_tls_client.Prelude.Members.{add_id, delete_id}
use effect_tls_client.Protocol.Metadata.{EndMeta, ResponseHeadersMeta, http_2_0}
use effect_tls_client.Errors.{Message, BridgeError, websocket_error, closed, plain}
use effect_tls_client.Client.Accounts.{bit, destroys, raises, lowers}
use effect_tls_client.Client.Sessions.{
  Clients, no_sessions, begin_session, created, finalise, finalise_next, destroy_session,
  destroy_ends, session_begins, create_answered, layer_closes, layer_destroys, destroy_answered,
  Clientele, no_session_yet, after,
}
use effect_tls_client.Client.Lifecycles.{Simulated}
use effect_tls_client.Client.Simulation.{ClientStep-Simulated}
use effect_tls_client.Client.Balance.{
  Clientele-Implements, gauge_of, Clientele-balance, Clientele-settled,
}
use effect_tls_client.Client.Failures.{socket_close, socket_error, web_socket_error}
use effect_tls_client.Client.WebSockets.{
  Socket, new_socket, begin_reader, reader_opened, end_read, set_failure_of, set_failure, write,
  byte_chunk, refused, begin_read, close_connection, decrement,
}
use effect_tls_client.Client.SocketSteps.{
  SocketRun, unused, after as after_step, reader_begins, reader_opens, frame_read, ups, downs,
  SocketRun-balance,
}
use effect_tls_client.Client.SocketFailure.{
  is_waiting, SocketRun-waiting, at_rest, and_close, and_closed, Quiet-refused,
}
use effect_tls_client.Client.Responses.{
  ResponseState, new_response, use_bytes, Use, take_counts, close_response, use_all, answered,
  request_metrics,
}
use effect_tls_client.Client.Counting.{counts, expected_count, request_metrics-counts}
use effect_tls_client.Client.Caching.{metrics_of, use_all-metrics, use_bytes-again}

abbrev started : Clients
started = begin_session no_sessions

abbrev running : Clients
running = created 0 started

abbrev closing_layer : Clients
closing_layer = finalise running

abbrev ending : Clients
ending = finalise_next 0 [] closing_layer

abbrev over : Clients
over = destroy_ends 0 true ending

closing_layer-Clientele : Clientele closing_layer
unfolding begin_session
closing_layer-Clientele =
    after (after (after no_session_yet session_begins) (create_answered 0 refl)) layer_closes

over-Clientele : Clientele over
unfolding begin_session created finalise finalise_next destroy_session add_id
over-Clientele =
    after (after closing_layer-Clientele (layer_destroys 0 [] refl)) (destroy_answered 0 true refl)

Clientele-balance_example :
    (tally (destroys 0) over.log ≤ 1)
    × (tally (raises 0) over.log ≤ 1)
    × (tally (raises 0) over.log ≡ tally (lowers 0) over.log + gauge_of (over.sessions 0))
Clientele-balance_example = Clientele-balance over 0 over-Clientele

Clientele-settled_example : tally (raises 0) over.log ≤ tally (destroys 0) over.log
unfolding begin_session created finalise finalise_next destroy_session destroy_ends add_id delete_id
Clientele-settled_example = Clientele-settled over 0 over-Clientele refl refl

-- What was counted in that run.
over_counts :
    (tally (raises 0) over.log ≡ 1)
    × (tally (lowers 0) over.log ≡ 1)
    × (tally (destroys 0) over.log ≡ 1)
unfolding begin_session created finalise finalise_next destroy_session destroy_ends add_id tally
over_counts = (refl, refl, refl)

ClientStep-Simulated_example :
    Simulated ending (Clientele-Implements closing_layer closing_layer-Clientele).0
unfolding begin_session created finalise add_id
ClientStep-Simulated_example =
    ClientStep-Simulated closing_layer ending
      (Clientele-Implements closing_layer closing_layer-Clientele).0
      (Clientele-Implements closing_layer closing_layer-Clientele).1 (layer_destroys 0 [] refl)

-- The peer has closed the connection.
abbrev peer_closed : BridgeError
peer_closed = websocket_error (record {
  kind = closed;
  message = plain "closed";
  code = some (pos 1001);
  reason = none;
  initiator = none;
})

abbrev never : Message → Bool
never message = false

abbrev connected : Socket
connected = reader_opened (begin_reader new_socket)

abbrev failed : Socket
failed = (end_read never 0 (err peer_closed) connected).0

failed_run : SocketRun never failed
failed_run =
    after_step (after_step (after_step unused reader_begins) reader_opens)
      (frame_read 0 (err peer_closed))

SocketRun-balance_example :
    (tally (ups 0) failed.log ≤ 1)
    × (tally (ups 0) failed.log
        ≡ tally (downs 0) failed.log + bit (contains 0 failed.counted_connections))
SocketRun-balance_example = SocketRun-balance never failed 0 failed_run

SocketRun-waiting_example : is_waiting (write (byte_chunk (1 ∷ [])) failed) ≡ not failed.latch_open
SocketRun-waiting_example = SocketRun-waiting never failed (byte_chunk (1 ∷ [])) failed_run

abbrev shut : Socket
shut = decrement 0 (close_connection 0 (pos 1000) "" failed)

-- The finaliser closes the connection; the first failure stays.
Quiet-refused_example :
    (write (byte_chunk (1 ∷ [])) shut ≡ refused (socket_close (pos 1001) none))
    × (begin_read 0 shut ≡ err (socket_close (pos 1001) none))
unfolding reader_opened begin_reader end_read set_failure_of set_failure socket_error
    web_socket_error
Quiet-refused_example =
    Quiet-refused never (socket_close (pos 1001) none) failed shut (byte_chunk (1 ∷ [])) 0 refl refl
      (and_closed 0 (and_close 0 (pos 1000) "" at_rest))

abbrev sample_headers : ResponseHeadersMeta
sample_headers = record {
  status = pos 200;
  url = "https://example.org/";
  headers = [];
  protocol = http_2_0;
}

abbrev sample_end : EndMeta
sample_end = record { protocol = some http_2_0; bytes_read = 3; bytes_written = 0 }

abbrev three_bytes : Result BridgeError (List (List ℕ))
three_bytes = ok ((1 ∷ 2 ∷ []) ∷ (3 ∷ []) ∷ [])

abbrev two_uses : List Use
two_uses = take_counts three_bytes (ok sample_end) ∷ close_response (err peer_closed) ∷ []

abbrev used : ResponseState
used = use_all two_uses (new_response "chrome_133" sample_headers)

use_all-metrics_example : used.metrics ≡ metrics_of "chrome_133" sample_headers used.cached_end
use_all-metrics_example = use_all-metrics "chrome_133" sample_headers two_uses

abbrev read_once : ResponseState
read_once = (use_bytes three_bytes (ok sample_end) (new_response "chrome_133" sample_headers)).0

use_bytes-again_example :
    ((use_bytes three_bytes (ok sample_end) (new_response "chrome_133" sample_headers)).1
      ≡ some (map_ok flatten three_bytes))
    × ((use_bytes (err peer_closed) (ok sample_end) (use_all two_uses read_once)).1
        ≡ some (map_ok flatten three_bytes))
use_bytes-again_example =
    use_bytes-again three_bytes (err peer_closed) (ok sample_end) (ok sample_end) two_uses
      (new_response "chrome_133" sample_headers) refl

request_metrics-counts_example :
    tally counts (request_metrics "chrome_133" (answered sample_headers) two_uses (ok sample_end))
    ≡ expected_count (answered sample_headers)
request_metrics-counts_example =
    request_metrics-counts "chrome_133" (answered sample_headers) two_uses (ok sample_end)
