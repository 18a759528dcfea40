-- ===== src/Http/Rereading.antt =====
-- What reading a `TlsHttpResponse` of packages/effect-tls-client/src/TlsHttpClient.ts more than once
-- comes to, in any order of its stream and of what is made of its buffer.
use Prim.Native.String.{String}
use effect_tls_client.Prelude.{
  ℕ, ◌+◌, ◌≡◌, ◌⊎◌, refl, sym, subst, ap, ◌∙◌, Option, none, some, List, [], ◌∷◌, if◌then◌else◌, ok,
  Bool, false, or_else, inl, inr, arith,
}
use effect_tls_client.Prelude.Int.{ℤ}
use effect_tls_client.Prelude.Tally.{tally}
use effect_tls_client.Http.Adapter.{array_buffer, has_no_body}
use effect_tls_client.Http.Delivery.{whole_body, array_buffer-whole_body}
use effect_tls_client.Http.Reading.{
  Outcome, BodyState, read_buffer, read_text, read_json, read_form_data, read_url_params, unread,
  use_stream, run_buffer, use_buffer, Read, run_stream, use_body, use_bodies,
}
use effect_tls_client.Http.BodyLog.{
  Source, is_stream, stream_reads, first_buffered, runs, source_closes, scope_closes, Adds,
  Adds-one, Adds-none, Adds-trans,
}

module _ (method : String) (status : ℤ) where
  use_buffer-some :
      (source : Source) (s : BodyState) (before : Outcome)
      → s.array_buffer_body ≡ some before
      → use_buffer method status source s ≡ (s, before)
  unfolding use_buffer
  use_buffer-some source s before e =
      ap
        (λ o. elim o [
          | some kept ↦ (s, kept)
          | none ↦ run_buffer method status (array_buffer method status source) s
        ])
        e

  use_buffer-none :
      (source : Source) (s : BodyState)
      → s.array_buffer_body ≡ none
      → use_buffer method status source s
        ≡ run_buffer method status
            (some (if has_no_body method status then ok [] else whole_body source))
            s
  unfolding use_buffer
  use_buffer-none source s e =
      ap
        (λ o. elim o [
          | some kept ↦ (s, kept)
          | none ↦ run_buffer method status (array_buffer method status source) s
        ])
        e
      ∙ ap (λ outcome. run_buffer method status outcome s)
          (array_buffer-whole_body method status source)

-- Either the read runs the stream, or it uses the buffer.
abbrev UsesBuffer : String → ℤ → Read → Type 0
UsesBuffer method status r =
    (is_stream r ≡ false)
    × ((source : Source) (s : BodyState)
        → use_body method status r source s ≡ (use_buffer method status source s).0)

Read-cases :
    (method : String) (status : ℤ) (r : Read) → (r ≡ run_stream) ⊎ UsesBuffer method status r
unfolding use_body
Read-cases method status run_stream = inl refl
Read-cases method status read_buffer = inr (refl, λ source s. refl)
Read-cases method status read_text = inr (refl, λ source s. refl)
Read-cases method status read_json = inr (refl, λ source s. refl)
Read-cases method status read_form_data = inr (refl, λ source s. refl)
Read-cases method status read_url_params = inr (refl, λ source s. refl)

-- The buffer that the first read of it leaves.
abbrev pub buffer_of : Bool → Option Source → Option Outcome
buffer_of no_body none = none
buffer_of no_body (some source) = some (some (if no_body then ok [] else whole_body source))

abbrev pub one_if_some {ℓ} : {A : Type ℓ} → Option A → ℕ
one_if_some none = 0
one_if_some (some a) = 1

module _ (method : String) (status : ℤ) where
  use_bodies-cached :
      (reads : List (Read × Source)) (s : BodyState) (before : Outcome)
      → s.array_buffer_body ≡ some before
      → ((use_bodies method status reads s).array_buffer_body ≡ some before)
        × Adds (has_no_body method status) (stream_reads reads) s (use_bodies method status reads s)
  unfolding use_bodies use_body stream_reads
  use_bodies-cached [] s before e = (e, Adds-none _ s)
  use_bodies-cached ((r, source) ∷ reads) s before e = elim (Read-cases method status r) [
    | inl same ↦
        let (kept, adds) = use_bodies-cached reads (use_stream method status s) before e in
        rw same
          (kept, Adds-trans _ (omega arith) (Adds-one method status s s.array_buffer_body) adds)
    | inr (other, same) ↦ rw other (
        subst
          (λ v.
            ((use_bodies method status reads v).array_buffer_body ≡ some before)
            × Adds (has_no_body method status) (stream_reads reads) s
                (use_bodies method status reads v))
          (sym (same source s ∙ ap (λ v. v.0) (use_buffer-some method status source s before e)))
          (use_bodies-cached reads s before e))
  ]

  use_bodies-uncached :
      (reads : List (Read × Source)) (s : BodyState)
      → s.array_buffer_body ≡ none
      → ((use_bodies method status reads s).array_buffer_body
          ≡ buffer_of (has_no_body method status) (first_buffered reads))
        × Adds
            (has_no_body method status)
            (stream_reads reads + one_if_some (first_buffered reads))
            s
            (use_bodies method status reads s)
  unfolding use_bodies use_body stream_reads first_buffered
  use_bodies-uncached [] s e = (e, Adds-none _ s)
  use_bodies-uncached ((r, source) ∷ reads) s e = elim (Read-cases method status r) [
    | inl same ↦
        let (kept, adds) = use_bodies-uncached reads (use_stream method status s) e in
        rw same
          (kept, Adds-trans _ (omega arith) (Adds-one method status s s.array_buffer_body) adds)
    | inr (other, same) ↦
        let outcome : Outcome =
          some (if has_no_body method status then ok [] else whole_body source) in
        let (kept, adds) =
          use_bodies-cached reads (run_buffer method status outcome s).0 outcome refl in
        rw other (
          subst
            (λ v.
              ((use_bodies method status reads v).array_buffer_body ≡ some outcome)
              × Adds (has_no_body method status) (stream_reads reads + 1) s
                  (use_bodies method status reads v))
            (sym (same source s ∙ ap (λ v. v.0) (use_buffer-none method status source s e)))
            (kept, Adds-trans _ (omega arith) (Adds-one method status s (some outcome)) adds))
  ]

from_zero : (a b : ℕ) → a ≡ 0 + b → a ≡ b
from_zero a b h = omega (arith, h)

read_later :
    (method : String) (status : ℤ) (later : Source) (first : Option Source) (s : BodyState)
    → s.array_buffer_body ≡ buffer_of (has_no_body method status) first
    → (use_buffer method status later s).1
      ≡ some (if has_no_body method status then ok [] else whole_body (or_else first later))
read_later method status later none s e = ap (λ v. v.1) (use_buffer-none method status later s e)
read_later method status later (some source) s e =
    ap (λ v. v.1) (use_buffer-some method status later s _ e)

-- Whatever is read of a response, and however often: each read of the stream and the first read that
-- needs the buffer call `close` of the response and close the scope of the request once, no other read
-- does, and as often the response's own stream is run, but for a response without a body, whose is not
-- run at all. The buffer is what the stream came to at the first read that needed it, all its bytes or
-- its error, or nothing for a response without a body; it stays so whatever the stream would come to
-- later.
pub use_bodies-log :
    (method : String) (status : ℤ) (reads : List (Read × Source)) (later : Source)
    → (source_closes (use_bodies method status reads unread)
        ≡ stream_reads reads + one_if_some (first_buffered reads))
      × (scope_closes (use_bodies method status reads unread)
          ≡ stream_reads reads + one_if_some (first_buffered reads))
      × (runs (use_bodies method status reads unread) ≡ (
          if has_no_body method status
          then 0
          else stream_reads reads + one_if_some (first_buffered reads)))
      × ((use_buffer method status later (use_bodies method status reads unread)).1
          ≡ some (
              if has_no_body method status
              then ok []
              else whole_body (or_else (first_buffered reads) later)))
unfolding tally
use_bodies-log method status reads later =
    let (kept, adds) = use_bodies-uncached method status reads unread refl in
    (
      from_zero _ _ (Adds.source_adds adds),
      from_zero _ _ (Adds.scope_adds adds),
      from_zero _ _ (Adds.run_adds adds),
      read_later method status later (first_buffered reads) _ kept,
    )
