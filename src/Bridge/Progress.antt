-- ===== src/Bridge/Progress.antt =====
-- The slices that `runUpload` of packages/effect-tls-client/src/internal/Bridge.ts cuts.
use mathlib.Core.List.{flatten}
use effect_tls_client.Prelude.{ℕ, ◌≤◌, ◌≡◌, List, [], ◌∷◌, length, All, arith}
use effect_tls_client.Bridge.World.{World}
use effect_tls_client.Bridge.Uploads.{max_chunk, slices}
use effect_tls_client.Bridge.Slices.{slices_lem}

All-weaken :
    (w : World) (ss : List (List ℕ))
    → All (λ slice. (1 ≤ length slice) × (length slice ≤ max_chunk w)) ss
    → All
        (λ slice. (1 ≤ length slice) × (length slice ≤ w.chunk_size) × (length slice ≤ w.window))
        ss
All-weaken w [] h = tt
All-weaken w (s ∷ ss) ((a, b), hs) = ((a, omega (arith, b), omega (arith, b)), All-weaken w ss hs)

-- Where the chunk size and the window are 1 at least: the slices that `runUpload` cuts a chunk into,
-- joined, are the chunk, and each has 1 byte at least, and no more than the chunk size and the
-- window.
pub slices-max_chunk :
    (w : World) (chunk : List ℕ)
    → 1 ≤ w.chunk_size
    → 1 ≤ w.window
    → (flatten (slices (max_chunk w) chunk) ≡ chunk)
      × All
          (λ slice. (1 ≤ length slice) × (length slice ≤ w.chunk_size) × (length slice ≤ w.window))
          (slices (max_chunk w) chunk)
slices-max_chunk w chunk c h =
    let (joined, each) = slices_lem (max_chunk w) chunk (omega (arith, c, h)) in
    (joined, All-weaken w (slices (max_chunk w) chunk) each)
