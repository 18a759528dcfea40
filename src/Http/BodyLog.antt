-- ===== src/Http/BodyLog.antt =====
-- What reads of a `TlsHttpResponse` of packages/effect-tls-client/src/TlsHttpClient.ts do to its
-- response, counted.
use Prim.Native.String.{String}
use effect_tls_client.Prelude.{
  ℕ, suc, ◌+◌, ◌≡◌, Option, none, some, List, [], ◌∷◌, if◌then◌else◌, Result, Bool, true, false,
  Bool-cases, inl, inr, arith,
}
use effect_tls_client.Prelude.Int.{ℤ}
use effect_tls_client.Prelude.Tally.{tally, tally-append}
use effect_tls_client.Errors.{BridgeError}
use effect_tls_client.Http.Adapter.{has_no_body}
use effect_tls_client.Http.Reading.{
  Outcome, run_source, close_source, close_scope, BodyState, stream_actions, use_stream, Read,
  run_stream,
}

abbrev pub Source : Type 0
Source = Result BridgeError (List (List ℕ))

abbrev pub is_stream : Read → Bool
is_stream run_stream = true
is_stream _ = false

-- How many of the reads run the stream, and what the stream comes to at the first of the others.
unfoldable pub stream_reads : List (Read × Source) → ℕ
stream_reads [] = 0
stream_reads ((r, source) ∷ reads) =
    let rest = stream_reads reads in if is_stream r then suc rest else rest

unfoldable pub first_buffered : List (Read × Source) → Option Source
first_buffered [] = none
first_buffered ((r, source) ∷ reads) =
    let rest = first_buffered reads in if is_stream r then rest else some source

-- One run of the source and one closing count 1 each.
abbrev pub runs : BodyState → ℕ
runs s = tally (λ a. elim a [ run_source ↦ 1 | _ ↦ 0 ]) s.log

abbrev pub source_closes : BodyState → ℕ
source_closes s = tally (λ a. elim a [ close_source ↦ 1 | _ ↦ 0 ]) s.log

abbrev pub scope_closes : BodyState → ℕ
scope_closes s = tally (λ a. elim a [ close_scope ↦ 1 | _ ↦ 0 ]) s.log

-- What `n` more runs of `stream` have added.
pub record Adds (no_body : Bool) (n : ℕ) (s s' : BodyState) : Type 0 where
  pub run_adds : runs s' ≡ runs s + (if no_body then 0 else n)
  pub source_adds : source_closes s' ≡ source_closes s + n
  pub scope_adds : scope_closes s' ≡ scope_closes s + n

module _ (method : String) (status : ℤ) where
  pub Adds-one :
      (s : BodyState) (cached : Option Outcome)
      → Adds
          (has_no_body method status)
          1
          s
          (record (use_stream method status s) { array_buffer_body = cached })
  unfolding stream_actions tally
  Adds-one s cached = elim (Bool-cases (has_no_body method status)) [
    | inl e ↦ rw e (record {
      run_adds = tally-append _ s.log _;
      source_adds = tally-append _ s.log _;
      scope_adds = tally-append _ s.log _;
    })
    | inr e ↦ rw e (record {
      run_adds = tally-append _ s.log _;
      source_adds = tally-append _ s.log _;
      scope_adds = tally-append _ s.log _;
    })
  ]

pub Adds-none : (no_body : Bool) (s : BodyState) → Adds no_body 0 s s
Adds-none true s = record {
  run_adds = omega arith;
  source_adds = omega arith;
  scope_adds = omega arith;
}
Adds-none false s = record {
  run_adds = omega arith;
  source_adds = omega arith;
  scope_adds = omega arith;
}

pub Adds-trans :
    (no_body : Bool) {k m n : ℕ} {s t u : BodyState}
    → k ≡ m + n
    → Adds no_body m s t
    → Adds no_body n t u
    → Adds no_body k s u
Adds-trans true e a b = record {
  run_adds = omega (arith, e, Adds.run_adds a, Adds.run_adds b);
  source_adds = omega (arith, e, Adds.source_adds a, Adds.source_adds b);
  scope_adds = omega (arith, e, Adds.scope_adds a, Adds.scope_adds b);
}
Adds-trans false e a b = record {
  run_adds = omega (arith, e, Adds.run_adds a, Adds.run_adds b);
  source_adds = omega (arith, e, Adds.source_adds a, Adds.source_adds b);
  scope_adds = omega (arith, e, Adds.scope_adds a, Adds.scope_adds b);
}
