-- ===== src/Frame/Stream.antt =====
-- The incremental decoder does not depend on where the chunks of the stream are cut
-- (packages/effect-tls-client/src/internal/Frame.ts).
use effect_tls_client.Prelude.{
  ℕ, zero, suc, ◌+◌, ◌≤◌, ◌<◌, ◌≡◌, refl, sym, ap, subst, ◌∙◌, inl, inr, List, [], ◌∷◌, ◌++◌,
  length, Result, ok, err, ◌>>=◌, map_ok, arith, length-append, length-drop, append_assoc,
  take-append_le, drop-append_le, Result-cases,
}
use effect_tls_client.Frame.Codec.{Frame, FrameCodecError, uint32_at, uint8_at}
use effect_tls_client.Frame.Decoder.{Round, stop, frame, round, prepend, drain_from, drain}

-- A round that cuts a frame off takes 13 bytes at least.
round_shorter :
    (rest : List ℕ) (f : Frame) (rest' : List ℕ)
    → round rest ≡ ok (frame f rest')
    → length rest' + 13 ≤ length rest
unfolding round
round_shorter rest f rest' h = ground (arith, length-drop (4 + uint32_at rest 0) rest)

-- Fewer than four bytes end the loop.
pub round_short : (rest : List ℕ) → length rest < 4 → round rest ≡ ok stop
unfolding round
round_short rest h = ground arith

-- Fuel beyond the number of bytes changes nothing.
drain_from_fuel :
    (m n : ℕ) (rest : List ℕ)
    → length rest ≤ m
    → length rest ≤ n
    → drain_from m rest ≡ drain_from n rest
unfolding drain_from
drain_from_fuel zero zero rest hm hn = refl
drain_from_fuel zero (suc n) rest hm hn = rw (round_short rest (omega arith)) refl
drain_from_fuel (suc m) zero rest hm hn = rw (round_short rest (omega arith)) refl
drain_from_fuel (suc m) (suc n) rest hm hn = elim (Result-cases (round rest)) [
  | inl (stop, e) ↦ rw e refl
  | inl (frame f rest', e) ↦
      let hs = round_shorter rest f rest' e in
      rw e (rw (drain_from_fuel m n rest' (omega arith) (omega arith)) refl)
  | inr (x, e) ↦ rw e refl
]

abbrev pub continue_with : List ℕ → Round → Result FrameCodecError (List Frame × List ℕ)
continue_with rest stop = ok ([], rest)
continue_with rest (frame f rest') = map_ok (prepend (f ∷ [])) (drain rest')

-- The loop of `push`, without fuel: after each round it goes on with the bytes that are left.
pub drain_loop : (rest : List ℕ) → drain rest ≡ (round rest >>= continue_with rest)
unfolding drain drain_from
drain_loop [] = rw (round_short [] (omega arith)) refl
drain_loop (b ∷ bs) = elim (Result-cases (round (b ∷ bs))) [
  | inl (stop, e) ↦ rw e refl
  | inl (frame f rest', e) ↦
      let hs = round_shorter (b ∷ bs) f rest' e in
      rw e (rw (drain_from_fuel (length bs) (length rest') rest' (omega arith) (omega arith)) refl)
  | inr (x, e) ↦ rw e refl
]

pub looped :
    (xs : List ℕ) {r : Result FrameCodecError Round}
    → round xs ≡ r
    → drain xs ≡ (r >>= continue_with xs)
looped xs e = drain_loop xs ∙ ap (λ r. r >>= continue_with xs) e

uint32_at-append : (xs ys : List ℕ) → 4 ≤ length xs → uint32_at (xs ++ ys) 0 ≡ uint32_at xs 0
unfolding uint32_at uint8_at
uint32_at-append (a ∷ b ∷ c ∷ d ∷ xs) ys h = refl
uint32_at-append _ ys h = absurd (omega arith)

-- Bytes behind a complete frame do not change the round that cuts it off.
pub round-append_frame :
    (xs ys : List ℕ) (f : Frame) (rest : List ℕ)
    → round xs ≡ ok (frame f rest)
    → round (xs ++ ys) ≡ ok (frame f (rest ++ ys))
unfolding round
round-append_frame xs ys f rest h = ground (
  arith,
  length-append xs ys,
  uint32_at-append xs ys,
  take-append_le (4 + uint32_at xs 0) xs ys,
  drop-append_le (4 + uint32_at xs 0) xs ys,
)

round-append_err :
    (xs ys : List ℕ) (e : FrameCodecError) → round xs ≡ err e → round (xs ++ ys) ≡ err e
unfolding round
round-append_err xs ys e h = ground (
  arith,
  length-append xs ys,
  uint32_at-append xs ys,
  take-append_le (4 + uint32_at xs 0) xs ys,
  drop-append_le (4 + uint32_at xs 0) xs ys,
)

prepend_assoc :
    (fs gs : List Frame) (r : Result FrameCodecError (List Frame × List ℕ))
    → map_ok (prepend fs) (map_ok (prepend gs) r) ≡ map_ok (prepend (fs ++ gs)) r
prepend_assoc fs gs (ok (hs, left)) = rw append_assoc
prepend_assoc fs gs (err e) = refl

prepend_nil : (r : Result FrameCodecError (List Frame × List ℕ)) → map_ok (prepend []) r ≡ r
prepend_nil (ok (hs, left)) = refl
prepend_nil (err e) = refl

-- What the loop does on a longer input, given what it does on the shorter one.
abbrev pub Extends : List ℕ → List ℕ → Result FrameCodecError (List Frame × List ℕ) → Type 0
Extends xs ys (ok (fs, left)) = drain (xs ++ ys) ≡ map_ok (prepend fs) (drain (left ++ ys))
Extends xs ys (err e) = drain (xs ++ ys) ≡ err e

Extends-step :
    (xs ys rest : List ℕ) (f : Frame) (r : Result FrameCodecError (List Frame × List ℕ))
    → drain (xs ++ ys) ≡ map_ok (prepend (f ∷ [])) (drain (rest ++ ys))
    → Extends rest ys r
    → Extends xs ys (map_ok (prepend (f ∷ [])) r)
Extends-step xs ys rest f (ok (fs, left)) h e =
    h ∙ ap (map_ok (prepend (f ∷ []))) e ∙ prepend_assoc (f ∷ []) fs (drain (left ++ ys))
Extends-step xs ys rest f (err x) h e = h ∙ ap (map_ok (prepend (f ∷ []))) e

pub drain-append : (n : ℕ) (xs ys : List ℕ) → length xs ≤ n → Extends xs ys (drain xs)
drain-append zero xs ys h =
    rw (drain_loop xs, round_short xs (omega arith)) (sym (prepend_nil (drain (xs ++ ys))))
drain-append (suc n) xs ys h = elim (Result-cases (round xs)) [
  | inl (stop, e) ↦ rw (drain_loop xs, e) (sym (prepend_nil (drain (xs ++ ys))))
  | inl (frame f rest, e) ↦
      let hs = round_shorter xs f rest e in
      subst (Extends xs ys) (sym (looped xs e)) (
        Extends-step xs ys rest f (drain rest)
          (looped (xs ++ ys) (round-append_frame xs ys f rest e))
          (drain-append n rest ys (omega arith)))
  | inr (x, e) ↦
      subst (Extends xs ys) (sym (looped xs e)) (looped (xs ++ ys) (round-append_err xs ys x e))
]

-- The loop has nothing left to do on the bytes that it leaves.
abbrev pub Settled : Result FrameCodecError (List Frame × List ℕ) → Type 0
Settled (ok (fs, left)) = drain left ≡ ok ([], left)
Settled (err e) = Unit {0}

Settled-prepend :
    (f : Frame) (r : Result FrameCodecError (List Frame × List ℕ))
    → Settled r
    → Settled (map_ok (prepend (f ∷ [])) r)
Settled-prepend f (ok (fs, left)) h = h
Settled-prepend f (err e) h = tt

pub drain-Settled : (n : ℕ) (xs : List ℕ) → length xs ≤ n → Settled (drain xs)
drain-Settled zero xs h = rw (looped_short, looped_short)
  where
    looped_short : drain xs ≡ ok ([], xs)
    looped_short = drain_loop xs ∙ rw (round_short xs (omega arith)) refl
drain-Settled (suc n) xs h = elim (Result-cases (round xs)) [
  | inl (stop, e) ↦ subst Settled (sym (looped xs e)) (looped xs e)
  | inl (frame f rest, e) ↦
      let hs = round_shorter xs f rest e in
      subst Settled (sym (looped xs e))
        (Settled-prepend f (drain rest) (drain-Settled n rest (omega arith)))
  | inr (x, e) ↦ subst Settled (sym (looped xs e)) tt
]
