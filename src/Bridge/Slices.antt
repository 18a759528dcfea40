-- ===== src/Bridge/Slices.antt =====
-- What `sendChunk` in `runUpload` of packages/effect-tls-client/src/internal/Bridge.ts cuts.
use mathlib.Core.List.{flatten}
use effect_tls_client.Prelude.{
  ℕ, zero, suc, ◌≤◌, ◌<◌, ◌≡◌, refl, ap, ◌∙◌, List, [], ◌∷◌, ◌++◌, length, take, drop, All, arith,
  length-take, length-drop, take-append-drop,
}
use effect_tls_client.Bridge.Uploads.{slices_from, slices}

flatten-slices_from :
    (fuel size : ℕ) (chunk : List ℕ)
    → 0 < size
    → length chunk ≤ fuel
    → flatten (slices_from fuel size chunk) ≡ chunk
unfolding slices_from flatten
flatten-slices_from zero size [] h l = refl
flatten-slices_from zero size (b ∷ bs) h l = absurd (omega arith)
flatten-slices_from (suc fuel) size [] h l = refl
flatten-slices_from (suc fuel) size (b ∷ bs) h l =
    ap (◌++◌ (take size (b ∷ bs))) (
      flatten-slices_from fuel size (drop size (b ∷ bs)) h
        (omega (arith, length-drop size (b ∷ bs))))
    ∙ take-append-drop size (b ∷ bs)

slices_from-All :
    (fuel size : ℕ) (chunk : List ℕ)
    → 0 < size
    → All (λ slice. (1 ≤ length slice) × (length slice ≤ size)) (slices_from fuel size chunk)
unfolding slices_from
slices_from-All zero size chunk h = tt
slices_from-All (suc fuel) size [] h = tt
slices_from-All (suc fuel) size (b ∷ bs) h = (
  (omega (arith, length-take size (b ∷ bs)), omega (arith, length-take size (b ∷ bs))),
  slices_from-All fuel size (drop size (b ∷ bs)) h,
)

-- Where the size is not 0, the slices of a chunk joined are the chunk, and each has from 1 to that
-- many bytes.
pub slices_lem :
    (size : ℕ) (chunk : List ℕ)
    → 0 < size
    → (flatten (slices size chunk) ≡ chunk)
      × All (λ slice. (1 ≤ length slice) × (length slice ≤ size)) (slices size chunk)
unfolding slices
slices_lem size chunk h = (
  flatten-slices_from (length chunk) size chunk h (omega arith),
  slices_from-All (length chunk) size chunk h,
)
