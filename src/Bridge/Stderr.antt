-- ===== src/Bridge/Stderr.antt =====
-- The tail of the Bridge's stderr, `appendStderr` of
-- packages/effect-tls-client/src/internal/Bridge.ts.
use mathlib.Core.List.{flatten}
use mathlib.Core.Path.{ap₂}
use effect_tls_client.Prelude.{
  ℕ, ◌+◌, ◌-◌, ◌≤◌, ◌≡◌, ap, sym, ◌∙◌, List, [], ◌∷◌, ◌++◌, length, drop, min, arith, length-drop,
  length-append, append_assoc, drop-append_le, drop-drop, drop_all, drop-append_split, append-nil,
  ◌⊎◌, inl, inr,
}
use effect_tls_client.Bridge.World.{World, append_stderr, stderr_tail_bytes}

-- The last `n` entries.
abbrev pub last : ℕ → List ℕ → List ℕ
last n xs = drop (length xs - n) xs

length-last : (n : ℕ) (xs : List ℕ) → length (last n xs) ≡ min n (length xs)
length-last n xs = omega (arith, length-drop (length xs - n) xs)

-- Dropping past the end, or by the same number, is the same.
drop_agree :
    (m n : ℕ) (xs : List ℕ) → (m ≡ n) ⊎ ((length xs ≤ m) × (length xs ≤ n)) → drop m xs ≡ drop n xs
drop_agree m n xs (inl e) = ap (λ k. drop k xs) e
drop_agree m n xs (inr (h, l)) = drop_all m xs h ∙ sym (drop_all n xs l)

kept_old :
    (old chunk : List ℕ)
    → length old ≤ stderr_tail_bytes
    → let kept = length (drop (length chunk - stderr_tail_bytes) chunk) in
      let total = length old + length chunk - stderr_tail_bytes in
      (length old - min (length old) (stderr_tail_bytes - kept) ≡ total)
      ⊎ ((length old ≤ length old - min (length old) (stderr_tail_bytes - kept))
          × (length old ≤ total))
kept_old old chunk h = grind (arith, length-drop (length chunk - stderr_tail_bytes) chunk)

-- One chunk keeps the last 4096 bytes of the tail and the chunk.
pub append_stderr-last :
    (chunk : List ℕ) (w : World)
    → length w.stderr_tail ≤ stderr_tail_bytes
    → (append_stderr chunk w).stderr_tail ≡ last stderr_tail_bytes (w.stderr_tail ++ chunk)
unfolding append_stderr
append_stderr-last chunk w h = rw (length-append w.stderr_tail chunk) (
    rw (drop-append_split (length w.stderr_tail + length chunk - 4096) w.stderr_tail chunk) (
      ap₂ ◌++◌ (drop_agree _ _ w.stderr_tail (kept_old w.stderr_tail chunk h))
        (ap (λ k. drop k chunk) (omega arith))))

-- All the chunks of stderr, in order.
unfoldable pub append_all : List (List ℕ) → World → World
append_all [] w = w
append_all (c ∷ cs) w = append_all cs (append_stderr c w)

last-append : (n : ℕ) (xs ys : List ℕ) → last n (last n xs ++ ys) ≡ last n (xs ++ ys)
last-append n xs ys =
    let j = length xs - n in
    ap₂ drop (omega (arith, length-append (last n xs) ys, length-append xs ys, length-last n xs))
      (sym (drop-append_le j xs ys (omega arith)))
    ∙ drop-drop (length (last n xs ++ ys) - n) j (xs ++ ys)
    ∙ ap (λ k. drop k (xs ++ ys))
        (omega (arith, length-append (last n xs) ys, length-append xs ys, length-last n xs))

-- Where the tail has 4096 bytes at most: however stderr is cut into chunks, the tail afterwards is
-- the last 4096 bytes of the tail and the chunks.
pub append_all-last :
    (cs : List (List ℕ)) (w : World)
    → length w.stderr_tail ≤ stderr_tail_bytes
    → (append_all cs w).stderr_tail ≡ last stderr_tail_bytes (w.stderr_tail ++ flatten cs)
unfolding append_all flatten
append_all-last [] w h =
    let whole : length w.stderr_tail - 4096 ≡ 0 = omega arith in
    rw append-nil (sym (ap (λ k. drop k w.stderr_tail) whole))
append_all-last (c ∷ cs) w h =
    let one = append_stderr-last c w h in
    append_all-last cs (append_stderr c w)
      (rw one (omega (arith, length-last 4096 (w.stderr_tail ++ c))))
    ∙ rw one (last-append 4096 (w.stderr_tail ++ c) (flatten cs))
    ∙ ap (last 4096) (append_assoc w.stderr_tail c (flatten cs))
