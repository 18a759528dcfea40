-- ===== src/Client/Counting.antt =====
-- How often a request of `requestWith` in packages/effect-tls-client/src/TlsClient.ts is counted.
use Prim.Native.String.{String}
use effect_tls_client.Prelude.{
  ℕ, ◌≡◌, refl, sym, ap, ◌∙◌, Option, some, List, [], ◌∷◌, ◌++◌, Result, ok, err, arith,
}
use effect_tls_client.Prelude.Tally.{tally}
use effect_tls_client.Protocol.Metadata.{EndMeta, ResponseHeadersMeta}
use effect_tls_client.Errors.{BridgeError}
use effect_tls_client.Client.Responses.{
  MetricUpdate, one_request, end_metrics, ResponseState, new_response, Use, use_all, close_response,
  use_response, RequestOutcome, not_sent, failed, answered, request_metrics,
}
use effect_tls_client.Client.Caching.{metrics_of, use_all-metrics, use_all_then, use_end-cached}

-- An update of the counter of requests.
abbrev pub counts : MetricUpdate → ℕ
counts (one_request profile protocol label) = 1
counts _ = 0

-- Once it is sent, a request is counted.
abbrev pub expected_count : RequestOutcome → ℕ
expected_count not_sent = 0
expected_count (failed error) = 1
expected_count (answered headers) = 1

end_metrics-counts :
    (profile : String) (headers : ResponseHeadersMeta) (answer : Result BridgeError EndMeta)
    → tally counts (end_metrics profile headers answer) ≡ 1
unfolding tally end_metrics
end_metrics-counts profile headers (ok value) = omega arith
end_metrics-counts profile headers (err error) = omega arith

metrics_of-counts :
    (profile : String) (headers : ResponseHeadersMeta)
    (cached : Option (Result BridgeError EndMeta)) (answer : Result BridgeError EndMeta)
    → cached ≡ some answer
    → tally counts (metrics_of profile headers cached) ≡ 1
unfolding metrics_of
metrics_of-counts profile headers cached answer e = rw e (end_metrics-counts profile headers answer)

-- However a response is used: when its scope has closed it, the request has been counted once, as it
-- has where the Bridge fails it, and not at all where its options do not fit.
pub request_metrics-counts :
    (profile : String) (outcome : RequestOutcome) (uses : List Use)
    (answer : Result BridgeError EndMeta)
    → tally counts (request_metrics profile outcome uses answer) ≡ expected_count outcome
unfolding request_metrics use_response tally
request_metrics-counts profile not_sent uses answer = refl
request_metrics-counts profile (failed error) uses answer = omega arith
request_metrics-counts profile (answered headers) uses answer =
    let s = new_response profile headers in
    let closed = use_all_then uses (close_response answer) s in
    let (before, cached) = use_end-cached answer (use_all uses s) in
    ap (λ v. tally counts (ResponseState.metrics v)) (sym closed)
    ∙ ap (tally counts) (use_all-metrics profile headers (uses ++ (close_response answer ∷ [])))
    ∙ metrics_of-counts profile headers _ before (ap ResponseState.cached_end closed ∙ cached)
