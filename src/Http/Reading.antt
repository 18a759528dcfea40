-- ===== src/Http/Reading.antt =====
-- The caches of a `TlsHttpResponse` in packages/effect-tls-client/src/TlsHttpClient.ts: the public
-- `stream` runs the response's stream whenever it is run, and `arrayBuffer` once, of which the others
-- are made. A text, a JSON value and the like are made of the cached buffer by functions, so that
-- their own caches only save work. Each run is a run to its end; the abort signal is effect's.
use Prim.Native.String.{String}
use effect_tls_client.Prelude.{ℕ, Option, none, some, List, [], ◌∷◌, ◌++◌, if◌then◌else◌, Result}
use effect_tls_client.Prelude.Int.{ℤ}
use effect_tls_client.Errors.{BridgeError}
use effect_tls_client.Http.Bodies.{HttpError}
use effect_tls_client.Http.Adapter.{array_buffer, has_no_body, ResponseMode, is_buffered_mode}

-- `none` is a defect.
abbrev pub Outcome : Type 0
Outcome = Option (Result HttpError (List ℕ))

-- What a run of `stream` does to the response: it runs the response's own stream, calls the
-- response's `close` and closes the scope of the request, whose finalisers the scope runs.
pub data BodyAction : Type 0 where
  run_source close_source close_scope : BodyAction

-- `arrayBufferBody`, and what has been done to the response.
pub record BodyState : Type 0 where
  pub array_buffer_body : Option Outcome
  pub log : List BodyAction

abbrev pub unread : BodyState
unread = record { array_buffer_body = none; log = [] }

-- `stream`, run to its end: a response without a body fails, and its own stream is not run.
unfoldable pub stream_actions : String → ℤ → List BodyAction
stream_actions method status =
    if has_no_body method status
    then close_source ∷ close_scope ∷ []
    else run_source ∷ close_source ∷ close_scope ∷ []

abbrev pub use_stream : String → ℤ → BodyState → BodyState
use_stream method status s = record s { log = s.log ++ stream_actions method status }

abbrev pub run_buffer : String → ℤ → Outcome → BodyState → BodyState × Outcome
run_buffer method status outcome s =
    (record (use_stream method status s) { array_buffer_body = some outcome }, outcome)

-- `arrayBuffer`: `source` is what the response's stream comes to, if it is run now.
unfoldable pub use_buffer :
    String → ℤ → Result BridgeError (List (List ℕ)) → BodyState → BodyState × Outcome
use_buffer method status source s = elim s.array_buffer_body [
  | some before ↦ (s, before)
  | none ↦ run_buffer method status (array_buffer method status source) s
]

-- What a caller reads; each but the stream needs the buffer first.
pub data Read : Type 0 where
  run_stream read_buffer read_text read_json read_form_data read_url_params : Read

unfoldable pub use_body :
    String → ℤ → Read → Result BridgeError (List (List ℕ)) → BodyState → BodyState
unfolding use_buffer
use_body method status run_stream source s = use_stream method status s
use_body method status _ source s = (use_buffer method status source s).0

unfoldable pub use_bodies :
    String → ℤ → List (Read × Result BridgeError (List (List ℕ))) → BodyState → BodyState
unfolding use_body
use_bodies method status [] s = s
use_bodies method status ((r, source) ∷ reads) s =
    use_bodies method status reads (use_body method status r source s)

-- A mode that buffers reads before the response is returned.
unfoldable pub after_request :
    String → ℤ → Option ResponseMode → Result BridgeError (List (List ℕ)) → BodyState
unfolding use_buffer is_buffered_mode
after_request method status mode source =
    if is_buffered_mode mode then (use_buffer method status source unread).0 else unread
