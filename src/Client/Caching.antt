-- ===== src/Client/Caching.antt =====
-- The caches of `responseFrom` in packages/effect-tls-client/src/TlsClient.ts: what is computed once
-- stays, and is counted once.
use Prim.Native.String.{String}
use mathlib.Core.List.{flatten}
use effect_tls_client.Prelude.{
  ℕ, ◌≡◌, refl, sym, ap, subst, ◌∙◌, Option, none, some, List, [], ◌∷◌, ◌++◌, Result, ok, err,
  map_ok, arith, Option-cases, inl, inr,
}
use effect_tls_client.Protocol.Metadata.{EndMeta, ResponseHeadersMeta}
use effect_tls_client.Errors.{BridgeError}
use effect_tls_client.Client.Joining.{concatenate-flatten}
use effect_tls_client.Client.Responses.{
  MetricUpdate, end_metrics, ResponseState, new_response, use_end, ensure_end, joined_chunks,
  keep_bytes, use_bytes, after_bytes, use_counts, Use, run_stream, take_bytes, take_counts,
  close_response, use_response, use_all,
}

-- The updates that an end stands for.
unfoldable pub metrics_of :
    String → ResponseHeadersMeta → Option (Result BridgeError EndMeta) → List MetricUpdate
metrics_of profile headers none = []
metrics_of profile headers (some answer) = end_metrics profile headers answer

-- How the uses of a response lead on: the profile and the headers stay, an end and bytes that are
-- cached stay, and the updates are those of the end.
pub record Keeps (s s' : ResponseState) : Type 0 where
  pub same_profile : s'.profile ≡ s.profile
  pub same_headers : s'.headers ≡ s.headers
  pub end_kept :
      (answer : Result BridgeError EndMeta)
      → s.cached_end ≡ some answer
      → s'.cached_end ≡ some answer
  pub bytes_kept :
      (bytes : Result BridgeError (List ℕ))
      → s.cached_bytes ≡ some bytes
      → s'.cached_bytes ≡ some bytes
  pub metered :
      s.metrics ≡ metrics_of s.profile s.headers s.cached_end
      → s'.metrics ≡ metrics_of s'.profile s'.headers s'.cached_end

Keeps-refl : (s : ResponseState) → Keeps s s
Keeps-refl s = record {
  same_profile = refl;
  same_headers = refl;
  end_kept = λ answer e. e;
  bytes_kept = λ bytes e. e;
  metered = λ e. e;
}

Keeps-trans : {s t u : ResponseState} → Keeps s t → Keeps t u → Keeps s u
Keeps-trans h k = record {
  same_profile = k.same_profile ∙ h.same_profile;
  same_headers = k.same_headers ∙ h.same_headers;
  end_kept = λ answer e. k.end_kept answer (h.end_kept answer e);
  bytes_kept = λ bytes e. k.bytes_kept bytes (h.bytes_kept bytes e);
  metered = λ e. k.metered (h.metered e);
}

-- The state after an end that is waited for.
abbrev with_end : Result BridgeError EndMeta → ResponseState → ResponseState
with_end answer s = record s {
  cached_end = some answer;
  metrics = s.metrics ++ end_metrics s.profile s.headers answer;
}

use_end-none :
    (answer : Result BridgeError EndMeta) (s : ResponseState)
    → s.cached_end ≡ none
    → use_end answer s ≡ (with_end answer s, answer)
unfolding use_end
use_end-none answer s e =
    ap (λ o. elim o [ some before ↦ (s, before) | none ↦ (with_end answer s, answer) ]) e

use_end-some :
    (answer before : Result BridgeError EndMeta) (s : ResponseState)
    → s.cached_end ≡ some before
    → use_end answer s ≡ (s, before)
unfolding use_end
use_end-some answer before s e =
    ap (λ o. elim o [ some before ↦ (s, before) | none ↦ (with_end answer s, answer) ]) e

with_end-Keeps :
    (answer : Result BridgeError EndMeta) (s : ResponseState)
    → s.cached_end ≡ none
    → Keeps s (with_end answer s)
unfolding metrics_of
with_end-Keeps answer s e = record {
  same_profile = refl;
  same_headers = refl;
  end_kept = λ before h. absurd (ground (arith, e, h));
  bytes_kept = λ bytes h. h;
  metered = λ h.
      ap (λ m. m ++ end_metrics s.profile s.headers answer)
        (h ∙ ap (metrics_of s.profile s.headers) e);
}

use_end-Keeps :
    (answer : Result BridgeError EndMeta) (s : ResponseState) → Keeps s (use_end answer s).0
use_end-Keeps answer s = elim (Option-cases s.cached_end) [
  | inl e ↦ subst (λ v. Keeps s v.0) (sym (use_end-none answer s e)) (with_end-Keeps answer s e)
  | inr (before, e) ↦ subst (λ v. Keeps s v.0) (sym (use_end-some answer before s e)) (Keeps-refl s)
]

-- `concatenate` throws nothing: the chunks, joined, or their error.
joined_chunks-flatten :
    (chunks : Result BridgeError (List (List ℕ)))
    → joined_chunks chunks ≡ some (map_ok flatten chunks)
joined_chunks-flatten (ok chunks) = rw (concatenate-flatten chunks, joined_chunks) refl
joined_chunks-flatten (err error) = refl

use_bytes-none :
    (chunks : Result BridgeError (List (List ℕ))) (answer : Result BridgeError EndMeta)
    (s : ResponseState)
    → s.cached_bytes ≡ none
    → use_bytes chunks answer s ≡ (
      record (use_end answer s).0 { cached_bytes = some (map_ok flatten chunks) },
      some (map_ok flatten chunks),
    )
unfolding use_bytes
use_bytes-none chunks answer s e =
    ap
      (λ o. elim o [
        | some before ↦ (s, some before)
        | none ↦ keep_bytes (joined_chunks chunks) (ensure_end answer s)
      ])
      e
    ∙ ap (λ bytes. keep_bytes bytes (ensure_end answer s)) (joined_chunks-flatten chunks)

use_bytes-some :
    (chunks : Result BridgeError (List (List ℕ))) (answer : Result BridgeError EndMeta)
    (before : Result BridgeError (List ℕ)) (s : ResponseState)
    → s.cached_bytes ≡ some before
    → use_bytes chunks answer s ≡ (s, some before)
unfolding use_bytes
use_bytes-some chunks answer before s e =
    ap
      (λ o. elim o [
        | some before ↦ (s, some before)
        | none ↦ keep_bytes (joined_chunks chunks) (ensure_end answer s)
      ])
      e

-- `bytes` keeps what was cached, and caches what it returns.
use_bytes-Keeps :
    (chunks : Result BridgeError (List (List ℕ))) (answer : Result BridgeError EndMeta)
    (s : ResponseState)
    → Keeps s (use_bytes chunks answer s).0
use_bytes-Keeps chunks answer s = elim (Option-cases s.cached_bytes) [
  | inl e ↦
      let ended = use_end-Keeps answer s in
      subst (λ v. Keeps s v.0) (sym (use_bytes-none chunks answer s e))
        (record {
          same_profile = ended.same_profile;
          same_headers = ended.same_headers;
          end_kept = ended.end_kept;
          bytes_kept = λ bytes h. absurd (ground (arith, e, h));
          metered = ended.metered;
        })
  | inr (before, e) ↦
      subst (λ v. Keeps s v.0) (sym (use_bytes-some chunks answer before s e)) (Keeps-refl s)
]

after_bytes-Keeps :
    (answer : Result BridgeError EndMeta) (s : ResponseState)
    (p : ResponseState × Option (Result BridgeError (List ℕ)))
    → Keeps s p.0
    → Keeps s (after_bytes answer p).0
after_bytes-Keeps answer s (v, none) h = h
after_bytes-Keeps answer s (v, some (err error)) h = h
after_bytes-Keeps answer s (v, some (ok bytes)) h = Keeps-trans h (use_end-Keeps answer v)

use_response-Keeps : (u : Use) (s : ResponseState) → Keeps s (use_response u s)
unfolding use_response use_counts
use_response-Keeps (run_stream answer) s = use_end-Keeps answer s
use_response-Keeps (take_bytes chunks answer) s = use_bytes-Keeps chunks answer s
use_response-Keeps (take_counts chunks answer) s =
    after_bytes-Keeps answer s (use_bytes chunks answer s) (use_bytes-Keeps chunks answer s)
use_response-Keeps (close_response answer) s = use_end-Keeps answer s

use_all-Keeps : (uses : List Use) (s : ResponseState) → Keeps s (use_all uses s)
unfolding use_all
use_all-Keeps [] s = Keeps-refl s
use_all-Keeps (u ∷ uses) s =
    Keeps-trans (use_response-Keeps u s) (use_all-Keeps uses (use_response u s))

pub use_all_then :
    (uses : List Use) (u : Use) (s : ResponseState)
    → use_all (uses ++ (u ∷ [])) s ≡ use_response u (use_all uses s)
unfolding use_all
use_all_then [] u s = refl
use_all_then (first ∷ uses) u s = use_all_then uses u (use_response first s)

-- Whoever waits for the end leaves it cached.
pub use_end-cached :
    (answer : Result BridgeError EndMeta) (s : ResponseState)
    → (before : Result BridgeError EndMeta) × ((use_end answer s).0.cached_end ≡ some before)
use_end-cached answer s = elim (Option-cases s.cached_end) [
  | inl e ↦ (answer, ap (λ v. ResponseState.cached_end v.0) (use_end-none answer s e))
  | inr (before, e) ↦
      (before, ap (λ v. ResponseState.cached_end v.0) (use_end-some answer before s e) ∙ e)
]

-- However a response is used, and however often: the metrics are updated for its end once, when it
-- is first waited for, with what that came to, and not at all before.
pub use_all-metrics :
    (profile : String) (headers : ResponseHeadersMeta) (uses : List Use)
    → (use_all uses (new_response profile headers)).metrics
      ≡ metrics_of profile headers (use_all uses (new_response profile headers)).cached_end
unfolding metrics_of
use_all-metrics profile headers uses =
    let kept = use_all-Keeps uses (new_response profile headers) in
    kept.metered refl
    ∙ ap
        (λ p.
          metrics_of p (use_all uses (new_response profile headers)).headers
            (use_all uses (new_response profile headers)).cached_end)
        kept.same_profile
    ∙ ap (λ h. metrics_of profile h (use_all uses (new_response profile headers)).cached_end)
        kept.same_headers

-- Where no bytes are cached yet: `bytes` returns the chunks of the stream, joined, or their error, and
-- returns the same again whatever is done with the response in between and whatever the stream would
-- come to then.
pub use_bytes-again :
    (chunks later : Result BridgeError (List (List ℕ))) (answer end : Result BridgeError EndMeta)
    (uses : List Use) (s : ResponseState)
    → s.cached_bytes ≡ none
    → ((use_bytes chunks answer s).1 ≡ some (map_ok flatten chunks))
      × ((use_bytes later end (use_all uses (use_bytes chunks answer s).0)).1
          ≡ some (map_ok flatten chunks))
use_bytes-again chunks later answer end uses s e =
    let first = use_bytes-none chunks answer s e in
    let cached =
      Keeps.bytes_kept (use_all-Keeps uses (use_bytes chunks answer s).0) (map_ok flatten chunks)
        (ap (λ v. ResponseState.cached_bytes v.0) first) in
    (ap (λ v. v.1) first, ap (λ v. v.1) (use_bytes-some later end _ _ cached))
