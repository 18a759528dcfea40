-- ===== src/Http/Headers.antt =====
-- The headers of packages/effect-tls-client/src/TlsHttpClient.ts: `hasHeader`, `combineHeaderPairs`
-- and `withBodyHeaders`. `lower` is `String.prototype.toLowerCase`, whose case tables are the
-- platform's.
use Prim.Native.String.{String, ◌++◌ as str_append}
use text.Mathlib.Text.{◌==◌ as str_eq}
use effect_tls_client.Prelude.{
  ℕ, zero, suc, Bool, false, ◌||◌, Option, none, some, List, [], ◌∷◌, ◌++◌, if◌then◌else◌,
}
use effect_tls_client.Protocol.Metadata.{Pair}

-- `existing, value`.
abbrev pub join_two : String → String → String
join_two existing value = str_append existing (str_append ", " value)

-- `combined[index] = [existing[0], existing[1] + ", " + value]`.
unfoldable pub merge_at : ℕ → String → List Pair → List Pair
merge_at i value [] = []
merge_at zero value ((name, existing) ∷ pairs) = (name, join_two existing value) ∷ pairs
merge_at (suc i) value (pair ∷ pairs) = pair ∷ merge_at i value pairs

abbrev pub next_index : Option ℕ → Option ℕ
next_index none = none
next_index (some i) = some (suc i)

module _ (lower : String → String) where
  unfoldable pub has_header : List Pair → String → Bool
  has_header [] name = false
  has_header ((header_name, value) ∷ headers) name =
      str_eq (lower header_name) name || has_header headers name

  -- `combined.findIndex`: `none` is -1.
  unfoldable pub find_index : List Pair → String → Option ℕ
  find_index [] name = none
  find_index ((existing_name, value) ∷ pairs) name =
      let rest = find_index pairs name in
      if str_eq (lower existing_name) (lower name) then some zero else next_index rest

  -- The body of the loop of `combineHeaderPairs`.
  unfoldable pub combine_pair : List Pair → Pair → List Pair
  combine_pair combined (name, value) = elim (find_index combined name) [
    | none ↦ combined ++ ((name, value) ∷ [])
    | some index ↦ merge_at index value combined
  ]

  unfoldable pub combine_from : List Pair → List Pair → List Pair
  combine_from combined [] = combined
  combine_from combined (pair ∷ pairs) = combine_from (combine_pair combined pair) pairs

  unfoldable pub combine_header_pairs : List Pair → List Pair
  combine_header_pairs pairs = combine_from [] pairs
