-- ===== src/Bridge/Ids.antt =====
-- `allocateId` of packages/effect-tls-client/src/internal/Bridge.ts ends, and gives an id that no
-- pending operation has.
use effect_tls_client.Prelude.{
  ℕ, zero, suc, ◌+◌, ◌-◌, ◌%◌, ◌≤◌, ◌<◌, ◌≡◌, ◌≢◌, refl, inl, inr, true, false, Option, none, some,
  List, [], ◌∷◌, ◌==◌, length, arith, Bool-cases,
}
use effect_tls_client.Prelude.Assoc.{has, remove}
use effect_tls_client.Bridge.World.{World}
use effect_tls_client.Bridge.Writing.{allocate_from, allocate_id, id_after, max_id}

-- The id that comes `k` rounds later.
id_later : ℕ → ℕ → ℕ
id_later zero id = id
id_later (suc k) id = id_later k (id_after id)

abbrev pub IsId : ℕ → Type 0
IsId id = (1 ≤ id) × (id ≤ max_id)

IsId-after : (id : ℕ) → IsId id → IsId (id_after id)
IsId-after id h = ground arith

id_later_lem : (k id : ℕ) → IsId id → id_later k id ≡ 1 + (id - 1 + k) % max_id
unfolding id_later
id_later_lem zero id h = omega arith
id_later_lem (suc k) id h = ground (arith, id_later_lem k (id_after id) (IsId-after id h))

id_later-ne : (k id : ℕ) → IsId id → suc k < max_id → id_later (suc k) id ≢ id
id_later-ne k id h b e = omega (arith, id_later_lem (suc k) id h)

has-remove_ne :
    (id k : ℕ) (m : List (ℕ × ℕ)) → k ≢ id → has k (remove id m) ≡ false → has k m ≡ false
unfolding has remove
has-remove_ne id k [] n h = refl
has-remove_ne id k ((j, s) ∷ m) n h = ground (arith, has-remove_ne id k m n)

length-remove_le : (id : ℕ) (m : List (ℕ × ℕ)) → length (remove id m) ≤ length m
unfolding remove
length-remove_le id [] = omega arith
length-remove_le id ((j, s) ∷ m) = ground (arith, length-remove_le id m)

length-remove_lt : (id : ℕ) (m : List (ℕ × ℕ)) → has id m ≡ true → length (remove id m) < length m
unfolding has remove
length-remove_lt id [] h = cc
length-remove_lt id ((j, s) ∷ m) h = ground (arith, length-remove_lt id m, length-remove_le id m)

-- Among more ids in a row than the map has entries, one is free.
free_id :
    (n id : ℕ) (m : List (ℕ × ℕ))
    → IsId id
    → length m < n
    → n < max_id
    → (k : ℕ) × (k < n) × (has (id_later k id) m ≡ false)
unfolding id_later
free_id zero id m h l b = absurd (omega arith)
free_id (suc n) id m h l b = elim (Bool-cases (has id m)) [
  | inr e ↦ (0, omega arith, e)
  | inl e ↦
      let (k, lt, free) =
        free_id n (id_after id) (remove id m) (IsId-after id h)
          (omega (arith, length-remove_lt id m e)) (omega arith) in
      (suc k, omega arith, has-remove_ne id _ m (id_later-ne k id h (omega arith)) free)
]

-- What `allocateId` returns: an id that is not in the map.
abbrev pub Allocated : World → Option (ℕ × World) → Type 0
Allocated w none = ⊥
Allocated w (some (id, w')) =
    IsId id
    × (has id w.pending ≡ false)
    × IsId w'.next_id
    × (w' ≡ record w { state = record w.state { next_id = w'.next_id } })

abbrev advanced : World → World
advanced w = record w { state = record w.state { next_id = id_after w.next_id } }

Allocated-advanced : (w : World) (r : Option (ℕ × World)) → Allocated (advanced w) r → Allocated w r
Allocated-advanced w none h = h
Allocated-advanced w (some (id, w')) h = h

not-zero : (id : ℕ) → IsId id → (id == 0) ≡ false
not-zero id h = ground arith

allocate_from-Allocated :
    (n k : ℕ) (w : World)
    → IsId w.next_id
    → k < n
    → has (id_later k w.next_id) w.pending ≡ false
    → Allocated w (allocate_from n w)
unfolding allocate_from id_later
allocate_from-Allocated zero k w h l f = absurd (omega arith)
allocate_from-Allocated (suc n) k w h l f = elim (Bool-cases (has w.next_id w.pending)) [
  | inr e ↦ rw (not-zero w.next_id h, e) (h, e, IsId-after w.next_id h, refl)
  | inl e ↦
      rw (not-zero w.next_id h, e)
        (Allocated-advanced w (allocate_from n (advanced w))
          (later k l f (λ j. allocate_from-Allocated n j (advanced w) (IsId-after w.next_id h)) e))
]
  where
    later :
        (k : ℕ)
        → k < suc n
        → has (id_later k w.next_id) w.pending ≡ false
        → (rec : (j : ℕ)
            → j < n
            → has (id_later j (id_after w.next_id)) w.pending ≡ false
            → Allocated (advanced w) (allocate_from n (advanced w)))
        → has w.next_id w.pending ≡ true
        → Allocated (advanced w) (allocate_from n (advanced w))
    later zero l f rec e = cc
    later (suc k) l f rec e = rec k (omega arith) f

-- Where `nextId` is from 1 to 2 ^ 32 - 1 and fewer than 2 ^ 32 - 2 operations are pending,
-- `allocateId` returns: an id from 1 to 2 ^ 32 - 1 that is not in the map, and nothing but `nextId`
-- changes, which stays in that range.
pub allocate_id-Allocated :
    (w : World) → IsId w.next_id → length w.pending + 1 < max_id → Allocated w (allocate_id w)
unfolding allocate_id
allocate_id-Allocated w h b =
    let (k, lt, free) =
      free_id (suc (length w.pending)) w.next_id w.pending h (omega arith) (omega arith) in
    allocate_from-Allocated _ k w h lt free
