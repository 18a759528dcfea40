-- ===== src/Bridge/Signals.antt =====
-- `signalFromError` and `errorMessage` of packages/effect-tls-client/src/internal/Bridge.ts: the search
-- for a signal in an error and all that it refers to, which may refer back.
use Prim.Native.String.{String}
use effect_tls_client.Prelude.{
  ℕ, zero, suc, Option, none, some, List, [], ◌∷◌, ◌++◌, if◌then◌else◌, or_else, contains,
}
use effect_tls_client.Prelude.Members.{add_id}
use effect_tls_client.Prelude.Options.{and_then}

-- A value that is no object, by its text (`String(value)`), or the reference of an object.
pub data Value : Type 0 where
  primitive : String → Value
  object : ℕ → Value

-- An object: its text, the message of an Error, a `signal` that is a string, `cause` and `reason`, and
-- the values of its own properties.
pub record Properties : Type 0 where
  pub printed : String
  pub message : Option String
  pub signal : Option String
  pub cause : Option Value
  pub reason : Option Value
  pub values : List Value

abbrev pub as_list : Option Value → List Value
as_list none = []
as_list (some value) = value ∷ []

-- What is visited of an object, in this order.
unfoldable pub nested_values : Properties → List Value
nested_values properties =
    as_list properties.cause ++ (as_list properties.reason ++ properties.values)

-- What a visit returns, with the set of seen objects. `none` is a search that has not come to its end.
abbrev pub Visit : Type 0
Visit = Option (Option String × List ℕ)

-- The visits of one value after the other, until one returns a signal.
abbrev pub unless_found : (List ℕ → Visit) → Option String × List ℕ → Visit
unless_found next (some signal, seen) = some (some signal, seen)
unless_found next (none, seen) = next seen

unfoldable pub visit_each : (Value → List ℕ → Visit) → List Value → List ℕ → Visit
visit_each visit [] seen = some (none, seen)
visit_each visit (value ∷ values) seen =
    and_then (visit value seen) (unless_found (visit_each visit values))

-- `match` is the regular expression for a signal in a text, and `objects` what is stored.
module _ (match : String → Option String) (objects : ℕ → Properties) where
  -- An object whose text has no signal.
  abbrev pub visit_object : (Value → List ℕ → Visit) → ℕ → List ℕ → Visit
  visit_object visit r seen =
      if contains r seen then some (none, seen) else elim (objects r).signal [
        | some signal ↦ some (some signal, add_id r seen)
        | none ↦ visit_each visit (nested_values (objects r)) (add_id r seen)
      ]

  abbrev pub matched_or : Option String → List ℕ → Visit → Visit
  matched_or (some signal) seen rest = some (some signal, seen)
  matched_or none seen rest = rest

  -- The fuel is how deep the search may go.
  unfoldable pub visit : ℕ → Value → List ℕ → Visit
  unfolding visit_each nested_values
  visit zero value seen = none
  visit (suc fuel) (primitive text) seen = some (match text, seen)
  visit (suc fuel) (object r) seen =
      matched_or (match (objects r).printed) seen (visit_object (visit fuel) r seen)

  abbrev pub error_message : Value → String
  error_message (primitive text) = text
  error_message (object r) = or_else (objects r).message (objects r).printed

  abbrev pub or_message : Value → Option String × List ℕ → Option String
  or_message cause (some signal, seen) = some signal
  or_message cause (none, seen) = match (error_message cause)

  -- `none` where the fuel does not do.
  unfoldable pub signal_from_error : ℕ → Value → Option (Option String)
  unfolding visit
  signal_from_error fuel cause =
      and_then (visit fuel cause []) (λ found. some (or_message cause found))
