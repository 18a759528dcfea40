-- ===== src/Client/Responses.antt =====
-- `responseFrom` of packages/effect-tls-client/src/TlsClient.ts: a response over the Bridge's, whose
-- end, bytes, text and JSON are computed once (`Effect.cached`).
use Prim.Native.String.{String}
use text.Mathlib.Text.{◌==◌ as str_eq}
use effect_tls_client.Prelude.{
  ℕ, Option, none, some, List, [], ◌∷◌, ◌++◌, if◌then◌else◌, Result, ok, err, ◌>>=◌,
}
use effect_tls_client.Prelude.Int.{ℤ}
use effect_tls_client.Protocol.Metadata.{Pair, EndMeta, ResponseHeadersMeta, ResponseProtocol}
use effect_tls_client.Errors.{BridgeError, request_error, plain}
use effect_tls_client.Client.Platform.{Platform}
use effect_tls_client.Client.Failures.{ErrorLabel, no_error, body_failure, request_error_kind}
use effect_tls_client.Client.Bodies.{concatenate}

-- The updates of the metrics, with their attributes: the profile, and the protocol, where `none` is
-- "unknown".
pub data MetricUpdate : Type 0 where
  bytes_read_by : (profile : String) (protocol : Option ResponseProtocol) (n : ℕ) → MetricUpdate
  bytes_written_by : (profile : String) (protocol : Option ResponseProtocol) (n : ℕ) → MetricUpdate
  one_request :
      (profile : String) (protocol : Option ResponseProtocol) (label : ErrorLabel) → MetricUpdate

-- What the end of a response is tapped with.
unfoldable pub end_metrics :
    String → ResponseHeadersMeta → Result BridgeError EndMeta → List MetricUpdate
end_metrics profile headers (ok value) =
    bytes_read_by profile value.protocol value.bytes_read
    ∷ bytes_written_by profile value.protocol value.bytes_written
    ∷ one_request profile value.protocol no_error
    ∷ []
end_metrics profile headers (err error) =
    one_request profile (some headers.protocol) (request_error_kind error) ∷ []

-- The caches of one response, and its updates of the metrics. A collection of the stream ends with
-- the chunks or an error.
pub record ResponseState : Type 0 where
  pub profile : String
  pub headers : ResponseHeadersMeta
  pub cached_end : Option (Result BridgeError EndMeta)
  pub cached_bytes : Option (Result BridgeError (List ℕ))
  pub metrics : List MetricUpdate

abbrev pub new_response : String → ResponseHeadersMeta → ResponseState
new_response profile headers = record {
  profile = profile;
  headers = headers;
  cached_end = none;
  cached_bytes = none;
  metrics = [];
}

-- `end`: `answer` is what the Bridge's end comes to, if it is waited for now.
unfoldable pub use_end :
    Result BridgeError EndMeta → ResponseState → ResponseState × Result BridgeError EndMeta
use_end answer s = elim s.cached_end [
  | some before ↦ (s, before)
  | none ↦ (
    record s {
      cached_end = some answer;
      metrics = s.metrics ++ end_metrics s.profile s.headers answer;
    },
    answer,
  )
]

-- `stream`, to its end, and `close`: each ends with the end, whose result is ignored.
abbrev pub ensure_end : Result BridgeError EndMeta → ResponseState → ResponseState
ensure_end answer s = (use_end answer s).0

-- `Effect.map(concatenate)`: what it throws cannot be caught here.
abbrev pub joined_chunks : Result BridgeError (List (List ℕ)) → Option (Result BridgeError (List ℕ))
joined_chunks (err error) = some (err error)
joined_chunks (ok chunks) = elim (concatenate chunks) [ none ↦ none | some bytes ↦ some (ok bytes) ]

abbrev pub keep_bytes :
    Option (Result BridgeError (List ℕ))
    → ResponseState
    → ResponseState × Option (Result BridgeError (List ℕ))
keep_bytes none s = (s, none)
keep_bytes (some bytes) s = (record s { cached_bytes = some bytes }, some bytes)

-- `bytes`: `chunks` is what the stream comes to, if it is run now; `none` a defect.
unfoldable pub use_bytes :
    Result BridgeError (List (List ℕ))
    → Result BridgeError EndMeta
    → ResponseState
    → ResponseState × Option (Result BridgeError (List ℕ))
unfolding use_end
use_bytes chunks answer s = elim s.cached_bytes [
  | some before ↦ (s, some before)
  | none ↦ keep_bytes (joined_chunks chunks) (ensure_end answer s)
]

abbrev pub after_bytes :
    Result BridgeError EndMeta
    → ResponseState × Option (Result BridgeError (List ℕ))
    → ResponseState × Option (Result BridgeError EndMeta)
after_bytes answer (s, none) = (s, none)
after_bytes answer (s, some (err error)) = (s, some (err error))
after_bytes answer (s, some (ok bytes)) = let (s', end) = use_end answer s in (s', some end)

-- `bytesRead` and `bytesWritten`: a field of the end, after the bytes.
unfoldable pub use_counts :
    Result BridgeError (List (List ℕ))
    → Result BridgeError EndMeta
    → ResponseState
    → ResponseState × Option (Result BridgeError EndMeta)
unfolding use_bytes use_end
use_counts chunks answer s = after_bytes answer (use_bytes chunks answer s)

-- `text` is made of the bytes by `TextDecoder`, and `json` of the text by effect's JSON codec.
unfoldable pub json_of :
    {J : Type 0} → (List ℕ → Option J) → Result BridgeError (List ℕ) → Result BridgeError J
json_of parse text = text >>= λ value. elim (parse value) [
  | none ↦ err (request_error (body_failure (plain "response body is not valid JSON")))
  | some json ↦ ok json
]

module _ (p : Platform) where
  unfoldable pub set_cookie_values : List Pair → List String
  set_cookie_values [] = []
  set_cookie_values ((name, value) ∷ headers) =
      let rest = set_cookie_values headers in
      if str_eq (p.lower name) "set-cookie" then value ∷ rest else rest

  -- The fields that are at hand at once.
  pub record TlsResponse : Type 0 where
    pub status : ℤ
    pub url : String
    pub headers : List Pair
    pub protocol : ResponseProtocol
    pub cookies : p.Cookies

  unfoldable pub response_from : ResponseHeadersMeta → TlsResponse
  unfolding set_cookie_values
  response_from headers = record {
    status = headers.status;
    url = headers.url;
    headers = headers.headers;
    protocol = headers.protocol;
    cookies = p.from_set_cookie (set_cookie_values headers.headers);
  }

-- What a caller does with a response, with what the Bridge's stream and end come to then.
pub data Use : Type 0 where
  run_stream : (answer : Result BridgeError EndMeta) → Use
  take_bytes :
      (chunks : Result BridgeError (List (List ℕ))) (answer : Result BridgeError EndMeta) → Use
  take_counts :
      (chunks : Result BridgeError (List (List ℕ))) (answer : Result BridgeError EndMeta) → Use
  close_response : (answer : Result BridgeError EndMeta) → Use

unfoldable pub use_response : Use → ResponseState → ResponseState
unfolding use_end use_bytes use_counts
use_response (run_stream answer) s = ensure_end answer s
use_response (take_bytes chunks answer) s = (use_bytes chunks answer s).0
use_response (take_counts chunks answer) s = (use_counts chunks answer s).0
use_response (close_response answer) s = ensure_end answer s

unfoldable pub use_all : List Use → ResponseState → ResponseState
unfolding use_response
use_all [] s = s
use_all (first ∷ uses) s = use_all uses (use_response first s)

-- What `requestWith` comes to: the options do not fit, the Bridge fails the request, or it answers.
pub data RequestOutcome : Type 0 where
  not_sent : RequestOutcome
  failed : BridgeError → RequestOutcome
  answered : ResponseHeadersMeta → RequestOutcome

-- The updates of the metrics of one `requestWith`: those of a failure of the Bridge, or those of the
-- response, which its scope closes in the end.
unfoldable pub request_metrics :
    String → RequestOutcome → List Use → Result BridgeError EndMeta → List MetricUpdate
unfolding use_all use_end
request_metrics profile not_sent uses answer = []
request_metrics profile (failed error) uses answer =
    one_request profile none (request_error_kind error) ∷ []
request_metrics profile (answered headers) uses answer =
    (ensure_end answer (use_all uses (new_response profile headers))).metrics
