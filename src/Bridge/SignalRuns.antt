-- ===== src/Bridge/SignalRuns.antt =====
-- The search of `signalFromError` in packages/effect-tls-client/src/internal/Bridge.ts in two errors
-- that refer to each other.
use Prim.Native.String.{String}
use text.Mathlib.Text.{◌==◌ as str_eq}
use effect_tls_client.Prelude.{
  ℕ, ◌+◌, ◌≡◌, refl, Option, none, some, [], ◌∷◌, ◌==◌, if◌then◌else◌, All, arith, Bool-cases, inl,
  inr,
}
use effect_tls_client.Prelude.Members.{add_id}
use effect_tls_client.Bridge.Signals.{
  primitive, object, Properties, nested_values, visit, visit_each, signal_from_error,
}
use effect_tls_client.Bridge.Searching.{IsStored, signal_from_error_ends}

abbrev match_some : String → Option String
match_some text = if str_eq text "signal: 'SIGTERM'" then some "SIGTERM" else none

abbrev outer : Properties
outer = record {
  printed = "Error: exited";
  message = some "exited";
  signal = none;
  cause = some (object 1);
  reason = none;
  values = [];
}

abbrev inner : Properties
inner = record {
  printed = "[object Object]";
  message = none;
  signal = none;
  cause = some (object 0);
  reason = none;
  values = object 0 ∷ primitive "signal: 'SIGTERM'" ∷ [];
}

abbrev two_objects : ℕ → Properties
two_objects r = if r == 0 then outer else inner

two-IsStored : (r : ℕ) → All (IsStored 2) (nested_values (two_objects r))
unfolding nested_values
two-IsStored r = elim (Bool-cases (r == 0)) [
  | inl e ↦ rw e (omega arith, tt)
  | inr e ↦ rw e (omega arith, (omega arith, (tt, tt)))
]

found : signal_from_error match_some two_objects 3 (object 0) ≡ some (some "SIGTERM")
unfolding signal_from_error visit visit_each nested_values add_id
found = refl

signal_from_error_ends_example :
    (signal : Option String) × (signal_from_error match_some two_objects (2 + 1) (object 0)
      ≡ some signal)
signal_from_error_ends_example =
    signal_from_error_ends match_some two_objects 2 (object 0) two-IsStored (omega arith)
