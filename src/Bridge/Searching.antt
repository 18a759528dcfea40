-- ===== src/Bridge/Searching.antt =====
-- The search of `signalFromError` in packages/effect-tls-client/src/internal/Bridge.ts ends, also
-- where objects refer to each other in a circle.
use Prim.Native.String.{String}
use effect_tls_client.Prelude.{
  ℕ, zero, suc, ◌+◌, ◌≤◌, ◌<◌, ◌≡◌, refl, sym, subst, false, Option, none, some, List, [], ◌∷◌,
  ◌==◌, if◌then◌else◌, contains, All, arith, Bool-cases, Option-cases, ==_iff, inl, inr,
}
use effect_tls_client.Prelude.Members.{add_id, contains-add_id}
use effect_tls_client.Prelude.Options.{and_then}
use effect_tls_client.Bridge.Signals.{
  Value, primitive, object, Properties, nested_values, Visit, unless_found, visit_each,
  visit_object, matched_or, visit, or_message, signal_from_error,
}

-- How many of the first `n` objects are not seen.
unfoldable pub unseen : ℕ → List ℕ → ℕ
unseen zero seen = 0
unseen (suc n) seen = (if contains n seen then 0 else 1) + unseen n seen

unseen-add_id_le : (n r : ℕ) (seen : List ℕ) → unseen n (add_id r seen) ≤ unseen n seen
unfolding unseen
unseen-add_id_le zero r seen = omega arith
unseen-add_id_le (suc n) r seen =
    ground (arith, unseen-add_id_le n r seen, contains-add_id n r seen)

unseen-add_id_lt :
    (n r : ℕ) (seen : List ℕ)
    → r < n
    → contains r seen ≡ false
    → unseen n (add_id r seen) < unseen n seen
unfolding unseen
unseen-add_id_lt zero r seen h new = absurd (omega arith)
unseen-add_id_lt (suc n) r seen h new = elim (Bool-cases (n == r)) [
  | inl e ↦
      let unknown : contains n seen ≡ false =
        subst (λ k. contains k seen ≡ false) (sym ((==_iff n r).0 e)) new in
      ground (arith, contains-add_id n r seen, e, unknown, unseen-add_id_le n r seen)
  | inr e ↦
      let below : r < n = ground (arith, h, e) in
      ground (arith, contains-add_id n r seen, e, unseen-add_id_lt n r seen below new)
]

-- A reference is to one of the first `n` objects.
abbrev pub IsStored : ℕ → Value → Type 0
IsStored n (primitive text) = Unit {0}
IsStored n (object r) = r < n

-- A visit that has come to its end, with no fewer objects seen.
pub data Ends (n : ℕ) (seen : List ℕ) : Visit → Type 0 where
  ends :
      (found : Option String) (seen' : List ℕ)
      → unseen n seen' ≤ unseen n seen
      → Ends n seen (some (found, seen'))

-- The same, from a set with fewer seen.
Ends-trans :
    (n : ℕ) (seen seen' : List ℕ) (v : Visit)
    → unseen n seen' ≤ unseen n seen
    → Ends n seen' v
    → Ends n seen v
Ends-trans n seen seen' _ h (ends found seen'' k) = ends found seen'' (omega (arith, h, k))

-- A visit, and what follows where it finds nothing.
then-Ends :
    (n : ℕ) (seen : List ℕ) (rest : List ℕ → Visit) (v : Visit)
    → Ends n seen v
    → ((seen' : List ℕ) → unseen n seen' ≤ unseen n seen → Ends n seen' (rest seen'))
    → Ends n seen (and_then v (unless_found rest))
then-Ends n seen rest _ (ends (some signal) seen' k) h = ends (some signal) seen' k
then-Ends n seen rest _ (ends none seen' k) h = Ends-trans n seen seen' _ k (h seen' k)

-- A list of visits that each come to their end does so.
visit_each-Ends :
    (n bound : ℕ) (step : Value → List ℕ → Visit) (values : List Value) (seen : List ℕ)
    → All (IsStored n) values
    → ((value : Value) (seen : List ℕ)
        → IsStored n value
        → unseen n seen < bound
        → Ends n seen (step value seen))
    → unseen n seen < bound
    → Ends n seen (visit_each step values seen)
unfolding visit_each
visit_each-Ends n bound step [] seen stored each h = ends none seen (omega arith)
visit_each-Ends n bound step (value ∷ values) seen stored each h =
    then-Ends n seen (visit_each step values) (step value seen) (each value seen stored.0 h)
      (λ seen' k. visit_each-Ends n bound step values seen' stored.1 each (omega (arith, h, k)))

module _ (match : String → Option String) (objects : ℕ → Properties) where
  matched_or-Ends :
      (n : ℕ) (o : Option String) (seen : List ℕ) (rest : Visit)
      → Ends n seen rest
      → Ends n seen (matched_or match objects o seen rest)
  matched_or-Ends n (some signal) seen rest h = ends (some signal) seen (omega arith)
  matched_or-Ends n none seen rest h = h

  visit_object-Ends :
      (n bound r : ℕ) (step : Value → List ℕ → Visit) (seen : List ℕ)
      → All (IsStored n) (nested_values (objects r))
      → ((value : Value) (seen : List ℕ)
          → IsStored n value
          → unseen n seen < bound
          → Ends n seen (step value seen))
      → r < n
      → unseen n seen < suc bound
      → Ends n seen (visit_object match objects step r seen)
  visit_object-Ends n bound r step seen stored each known h = elim (Bool-cases (contains r seen)) [
    | inl e ↦ rw e (ends none seen (omega arith))
    | inr e ↦ rw e (elim (Option-cases (Properties.signal (objects r))) [
      | inl none_here ↦ rw none_here (
          Ends-trans n seen (add_id r seen) _ (unseen-add_id_le n r seen) (
            visit_each-Ends n bound step (nested_values (objects r)) (add_id r seen) stored each
              (omega (arith, h, unseen-add_id_lt n r seen known e))))
      | inr (signal, here) ↦
          rw here (ends (some signal) (add_id r seen) (unseen-add_id_le n r seen))
    ])
  ]

  visit-Ends :
      (n fuel : ℕ) (value : Value) (seen : List ℕ)
      → ((r : ℕ) → All (IsStored n) (nested_values (objects r)))
      → IsStored n value
      → unseen n seen < fuel
      → Ends n seen (visit match objects fuel value seen)
  unfolding visit
  visit-Ends n zero value seen stored known h = absurd (omega (arith, h))
  visit-Ends n (suc fuel) (primitive text) seen stored known h =
      ends (match text) seen (omega arith)
  visit-Ends n (suc fuel) (object r) seen stored known h =
      matched_or-Ends n (match (Properties.printed (objects r))) seen _ (
        visit_object-Ends n fuel r (visit match objects fuel) seen (stored r)
          (λ value seen'. visit-Ends n fuel value seen' stored) known h)

  unseen_bound : (n : ℕ) → unseen n [] ≤ n
  unfolding unseen
  unseen_bound zero = omega arith
  unseen_bound (suc n) = omega (arith, unseen_bound n)

  -- Where all that the error and its objects refer to is among the first `n` objects, in circles or
  -- not: the search ends, and goes no deeper than `n + 1`.
  pub signal_from_error_ends :
      (n : ℕ) (cause : Value)
      → ((r : ℕ) → All (IsStored n) (nested_values (objects r)))
      → IsStored n cause
      → (signal : Option String) × (signal_from_error match objects (n + 1) cause ≡ some signal)
  unfolding signal_from_error
  signal_from_error_ends n cause stored known =
      finish (visit match objects (n + 1) cause [])
        (visit-Ends n (n + 1) cause [] stored known (omega (arith, unseen_bound n)))
    where
      finish :
          (v : Visit)
          → Ends n [] v
          → (signal : Option String) × (and_then v
                (λ found. some (or_message match objects cause found))
              ≡ some signal)
      finish _ (ends found seen h) = (_, refl)
