-- ===== src/Http/Combining.antt =====
-- What `combineHeaderPairs` of packages/effect-tls-client/src/TlsHttpClient.ts computes, against a
-- description that has no array it changes: one entry for each name, at its first place.
use Prim.Native.String.{String}
use text.Mathlib.Text.{◌==◌ as str_eq}
use text.Mathlib.TextEquality.{eq_iff}
use mathlib.Core.List.{map-append}
use effect_tls_client.Prelude.{
  ℕ, zero, suc, ◌≡◌, refl, sym, ap, subst, ◌∙◌, Bool, true, false, ◌||◌, Option, none, some, List,
  [], ◌∷◌, ◌++◌, map, append_assoc, append-nil, if◌then◌else◌, arith, ◌⊎◌, Bool-cases, Option-cases,
  inl, inr,
}
use effect_tls_client.Protocol.Metadata.{Pair}
use effect_tls_client.Http.Headers.{
  join_two, next_index, merge_at, find_index, combine_pair, combine_from, combine_header_pairs,
}

-- `v1, v2, …`.
unfoldable pub join_from : String → List String → String
join_from value [] = value
join_from value (next ∷ rest) = join_from (join_two value next) rest

unfoldable pub includes : List String → String → Bool
includes [] name = false
includes (known ∷ names) name = str_eq known name || includes names name

or_false : (a b : Bool) → (a || b) ≡ false → (a ≡ false) × (b ≡ false)
or_false a b h = ground arith

str_eq_sym : (s t : String) → str_eq s t ≡ str_eq t s
str_eq_sym s t = elim (Bool-cases (str_eq s t)) [
  | inl e ↦ e ∙ sym ((eq_iff t s).1 (sym ((eq_iff s t).0 e)))
  | inr e ↦ elim (Bool-cases (str_eq t s)) [
    | inl f ↦ (eq_iff s t).1 (sym ((eq_iff t s).0 f)) ∙ sym f
    | inr f ↦ e ∙ sym f
  ]
]

module _ (lower : String → String) where
  -- The values of the pairs with a name, in their order.
  unfoldable pub values_of : String → List Pair → List String
  values_of key [] = []
  values_of key ((name, value) ∷ pairs) =
      let rest = values_of key pairs in if str_eq key (lower name) then value ∷ rest else rest

  unfoldable pub key_of : Pair → String
  key_of (name, value) = lower name

  -- A pair, with the values that follow for its name.
  unfoldable pub extend : List Pair → Pair → Pair
  unfolding values_of
  extend pairs (name, value) = (name, join_from value (values_of (lower name) pairs))

  -- A name joins those that are `seen`, once.
  abbrev pub note : List String → String → List String
  note seen key = if includes seen key then seen else seen ++ (key ∷ [])

  -- The first pair of each name that is not `seen`, with all values of that name.
  unfoldable pub grouped : List String → List Pair → List Pair
  grouped seen [] = []
  grouped seen (pair ∷ pairs) =
      let rest = grouped (note seen (key_of pair)) pairs in
      if includes seen (key_of pair) then rest else extend pairs pair ∷ rest

  -- No name comes twice.
  unfoldable pub AllDistinct : List Pair → Type 0
  AllDistinct [] = Unit {0}
  AllDistinct (pair ∷ pairs) =
      (includes (map key_of pairs) (key_of pair) ≡ false) × AllDistinct pairs

  includes-append :
      (names : List String) (name key : String)
      → includes names key ≡ false
      → str_eq key name ≡ false
      → includes (names ++ (name ∷ [])) key ≡ false
  unfolding includes
  includes-append [] name key h e = rw (str_eq_sym name key, e) refl
  includes-append (known ∷ names) name key h e =
      let (here, later) = or_false (str_eq known key) (includes names key) h in
      rw here (includes-append names name key later e)

  apart_first :
      (b : Bool) (rest : Option ℕ)
      → (if b then some zero else next_index rest) ≡ none
      → (b ≡ false) × (rest ≡ none)
  apart_first b none h = ground arith
  apart_first b (some i) h = ground arith

  found_first :
      (b : Bool) (rest : Option ℕ) (i : ℕ)
      → (if b then some zero else next_index rest) ≡ some i
      → ((b ≡ true) × (i ≡ zero)) ⊎ ((b ≡ false) × ((j : ℕ) × (rest ≡ some j) × (i ≡ suc j)))
  found_first true rest i h = inl (refl, ground arith)
  found_first false none i h = absurd (ground arith)
  found_first false (some j) i h = inr (refl, (j, refl, ground arith))

  find_index-none :
      (combined : List Pair) (name : String)
      → find_index lower combined name ≡ none
      → includes (map key_of combined) (lower name) ≡ false
  unfolding find_index includes key_of
  find_index-none [] name h = refl
  find_index-none ((n, v) ∷ c) name h =
      let (here, later) = apart_first (str_eq (lower n) (lower name)) (find_index lower c name) h in
      rw here (find_index-none c name later)

  key_of-merge_at :
      (i : ℕ) (value : String) (combined : List Pair)
      → map key_of (merge_at i value combined) ≡ map key_of combined
  unfolding merge_at key_of
  key_of-merge_at i value [] = refl
  key_of-merge_at zero value ((n, v) ∷ c) = refl
  key_of-merge_at (suc i) value (pair ∷ c) = ap (◌∷◌ (key_of pair)) (key_of-merge_at i value c)

  values_of-other :
      (key name value : String) (pairs : List Pair)
      → str_eq key (lower name) ≡ false
      → values_of key ((name, value) ∷ pairs) ≡ values_of key pairs
  unfolding values_of
  values_of-other key name value pairs h = rw h refl

  values_of-same :
      (key name value : String) (pairs : List Pair)
      → str_eq key (lower name) ≡ true
      → values_of key ((name, value) ∷ pairs) ≡ value ∷ values_of key pairs
  unfolding values_of
  values_of-same key name value pairs h = rw h refl

  -- A pair whose name is not among them changes nothing.
  extend_apart :
      (combined pairs : List Pair) (name value : String)
      → includes (map key_of combined) (lower name) ≡ false
      → map (extend ((name, value) ∷ pairs)) combined ≡ map (extend pairs) combined
  unfolding includes key_of extend
  extend_apart [] pairs name value h = refl
  extend_apart ((n, v) ∷ c) pairs name value h =
      let (here, later) = or_false _ _ h in
      rw (values_of-other (lower n) name value pairs here, extend_apart c pairs name value later)
        refl

  -- A pair whose name is at an index is the next value there.
  extend-merge_at :
      (combined pairs : List Pair) (name value : String) (i : ℕ)
      → find_index lower combined name ≡ some i
      → AllDistinct combined
      → map (extend ((name, value) ∷ pairs)) combined
        ≡ map (extend pairs) (merge_at i value combined)
  unfolding find_index key_of extend merge_at AllDistinct join_from
  extend-merge_at [] pairs name value i h d = absurd (ground arith)
  extend-merge_at ((n, v) ∷ c) pairs name value i h d =
      elim (found_first (str_eq (lower n) (lower name)) (find_index lower c name) i h) [
        | inl (here, e) ↦
            let same : lower n ≡ lower name = (eq_iff (lower n) (lower name)).0 here in
            rw
              (
                e,
                values_of-same (lower n) name value pairs here,
                extend_apart c pairs name value
                    (subst (λ k. includes (map key_of c) k ≡ false) same d.0),
              )
              refl
        | inr (apart, (j, later, e)) ↦
            rw
              (
                e,
                values_of-other (lower n) name value pairs apart,
                extend-merge_at c pairs name value j later d.1,
              )
              refl
      ]

  find_index-some :
      (combined : List Pair) (name : String) (i : ℕ)
      → find_index lower combined name ≡ some i
      → includes (map key_of combined) (lower name) ≡ true
  unfolding find_index includes key_of
  find_index-some [] name i h = absurd (ground arith)
  find_index-some ((n, v) ∷ c) name i h =
      elim (found_first (str_eq (lower n) (lower name)) (find_index lower c name) i h) [
        | inl (here, e) ↦ rw here refl
        | inr (apart, (j, later, e)) ↦ rw apart (find_index-some c name j later)
      ]

  AllDistinct-merge_at :
      (i : ℕ) (value : String) (combined : List Pair)
      → AllDistinct combined
      → AllDistinct (merge_at i value combined)
  unfolding AllDistinct merge_at key_of
  AllDistinct-merge_at i value [] d = d
  AllDistinct-merge_at zero value ((n, v) ∷ c) d = d
  AllDistinct-merge_at (suc i) value (pair ∷ c) d =
      (rw (key_of-merge_at i value c) d.0, AllDistinct-merge_at i value c d.1)

  AllDistinct-append :
      (combined : List Pair) (pair : Pair)
      → AllDistinct combined
      → includes (map key_of combined) (key_of pair) ≡ false
      → AllDistinct (combined ++ (pair ∷ []))
  unfolding AllDistinct includes
  AllDistinct-append [] pair d h = (refl, tt)
  AllDistinct-append (first ∷ c) pair d h =
      let (here, later) = or_false _ _ h in
      (
        rw (map-append key_of c (pair ∷ []))
            (includes-append (map key_of c) (key_of pair) (key_of first) d.0 here),
        AllDistinct-append c pair d.1 later,
      )

  extend-nil : (combined : List Pair) → map (extend []) combined ≡ combined
  unfolding extend values_of join_from
  extend-nil [] = refl
  extend-nil ((n, v) ∷ c) = ap (◌∷◌ (n, v)) (extend-nil c)

  combine_pair-none :
      (combined : List Pair) (name value : String)
      → find_index lower combined name ≡ none
      → combine_pair lower combined (name, value) ≡ combined ++ ((name, value) ∷ [])
  unfolding combine_pair
  combine_pair-none combined name value e = rw (e, combine_pair) refl

  combine_pair-some :
      (combined : List Pair) (name value : String) (i : ℕ)
      → find_index lower combined name ≡ some i
      → combine_pair lower combined (name, value) ≡ merge_at i value combined
  unfolding combine_pair
  combine_pair-some combined name value i e = rw (e, combine_pair) refl

  combine_from-grouped :
      (pairs combined : List Pair)
      → AllDistinct combined
      → combine_from lower combined pairs
        ≡ map (extend pairs) combined ++ grouped (map key_of combined) pairs
  unfolding combine_from grouped key_of
  combine_from-grouped [] combined d = rw (extend-nil combined) (sym (append-nil combined))
  combine_from-grouped ((n, v) ∷ pairs) combined d =
      elim (Option-cases (find_index lower combined n)) [
        | inl e ↦
            let fresh = find_index-none combined n e in
            let rest =
              combine_from-grouped pairs (combined ++ ((n, v) ∷ []))
                (AllDistinct-append combined (n, v) d fresh) in
            rw
              (
                combine_pair-none combined n v e,
                rest,
                fresh,
                extend_apart combined pairs n v fresh,
                map-append (extend pairs) combined ((n, v) ∷ []),
                map-append key_of combined ((n, v) ∷ []),
              )
              (append_assoc (map (extend pairs) combined) (extend pairs (n, v) ∷ []) _)
        | inr (i, e) ↦
            let rest =
              combine_from-grouped pairs (merge_at i v combined)
                (AllDistinct-merge_at i v combined d) in
            rw
              (
                combine_pair-some combined n v i e,
                rest,
                find_index-some combined n i e,
                extend-merge_at combined pairs n v i e d,
                key_of-merge_at i v combined,
              )
              refl
      ]

  -- The header pairs that `combineHeaderPairs` returns are, in the order in which the names first come
  -- (told apart without their case), each first name with all values of that name in their order,
  -- joined by commas.
  pub combine_header_pairs-grouped :
      (pairs : List Pair) → combine_header_pairs lower pairs ≡ grouped [] pairs
  unfolding combine_header_pairs AllDistinct
  combine_header_pairs-grouped pairs = combine_from-grouped pairs [] tt
