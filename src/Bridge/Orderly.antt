-- ===== src/Bridge/Orderly.antt =====
-- The invariant of the state of packages/effect-tls-client/src/internal/Bridge.ts, and that the
-- parts its operations are made of keep it.
use effect_tls_client.Prelude.{
  ℕ, ◌+◌, ◌≤◌, ◌≡◌, refl, ◌∙◌, Bool, true, false, some, List, [], ◌∷◌, ◌==◌, if◌then◌else◌, Result,
  ok, err, arith, Bool-cases, inl, inr, not,
}
use effect_tls_client.Prelude.Assoc.{insert, remove, has}
use effect_tls_client.Frame.Codec.{FrameInput, FrameCodecError, encode_frame}
use effect_tls_client.Protocol.Schema.{JsonCodec, is_some}
use effect_tls_client.Errors.{BridgeError}
use effect_tls_client.Bridge.World.{World, Operation, write}
use effect_tls_client.Bridge.Settle.{delete}
use effect_tls_client.Bridge.Ledger.{
  ends, ended, live, UniqueKeys, Settles, UniqueKeys-remove, Settles-refl,
}
use effect_tls_client.Bridge.Ending.{mark_dead-Settles}
use effect_tls_client.Bridge.Returns.{Settles-emit}
use effect_tls_client.Bridge.Writing.{
  register, write_frame, write_encoded, write_bytes, send_cancel,
}

-- The ids in the map are distinct; an operation is pending once at most, and then it has not been
-- ended, nor is it ended twice; and references that are not in use are neither pending nor ended.
pub record Orderly (w : World) : Type 0 where
  pub unique : UniqueKeys w.pending
  pub once : (r : ℕ) → live r w.pending + ended r w.log ≤ 1
  pub unused : (r : ℕ) → w.fresh ≤ r → live r w.pending + ended r w.log ≡ 0

-- What each step does: it keeps the invariant, and the error that the connection died of.
pub record Progress (w w' : World) : Type 0 where
  pub orderly : Orderly w → Orderly w'
  pub dead_kept : (e : BridgeError) → w.dead ≡ some e → w'.dead ≡ some e

pub Progress_trans : {u v w : World} → Progress u v → Progress v w → Progress u w
Progress_trans a b = record {
  orderly = λ o. b.orderly (a.orderly o);
  dead_kept = λ e h. b.dead_kept e (a.dead_kept e h);
}

pub Settles-Progress : {w w' : World} → Settles w w' → Progress w w'
Settles-Progress s = record {
  orderly = λ o. record {
    unique = s.unique o.unique;
    once = λ r. omega (arith, s.conserved o.unique r, o.once r);
    unused = λ r h. s.conserved o.unique r ∙ o.unused r (omega (arith, s.fresh_kept));
  };
  dead_kept = s.dead_kept;
}

pub Progress_refl : (w : World) → Progress w w
Progress_refl w = Settles-Progress (Settles-refl w)

live-remove_le : (id r : ℕ) (m : List (ℕ × ℕ)) → live r (remove id m) ≤ live r m
unfolding live remove
live-remove_le id r [] = omega arith
live-remove_le id r ((j, s) ∷ m) = ground (arith, live-remove_le id r m)

-- An entry that is deleted is not ended: its fiber has the error of its write.
pub delete-Progress : (id : ℕ) (w : World) → Progress w (delete id w)
delete-Progress id w = record {
  orderly = λ o. record {
    unique = UniqueKeys-remove id w.pending o.unique;
    once = λ r. omega (arith, live-remove_le id r w.pending, o.once r);
    unused = λ r h. omega (arith, live-remove_le id r w.pending, o.unused r h);
  };
  dead_kept = λ e h. h;
}

live-insert_le :
    (id r s : ℕ) (m : List (ℕ × ℕ)) → live r (insert id s m) ≤ live r m + (if s == r then 1 else 0)
unfolding live insert
live-insert_le id r s [] = ground arith
live-insert_le id r s ((j, t) ∷ m) = ground (arith, live-insert_le id r s m)

has-insert_ne :
    (id k s : ℕ) (m : List (ℕ × ℕ))
    → has k m ≡ false
    → (id == k) ≡ false
    → has k (insert id s m) ≡ false
unfolding has insert
has-insert_ne id k s [] h n = ground arith
has-insert_ne id k s ((j, t) ∷ m) h n = ground (arith, has-insert_ne id k s m)

UniqueKeys-insert : (id s : ℕ) (m : List (ℕ × ℕ)) → UniqueKeys m → UniqueKeys (insert id s m)
unfolding insert has
UniqueKeys-insert id s [] h = (refl, tt)
UniqueKeys-insert id s ((j, t) ∷ m) h =
    ground (arith, h.0, has-insert_ne id j s m, UniqueKeys-insert id s m h.1)

-- A new operation has a reference of its own.
pub register-Progress :
    (id : ℕ) (operation : Operation) (w : World) → Progress w (register id operation w)
unfolding register
register-Progress id operation w = record {
  orderly = λ o. record {
    unique = UniqueKeys-insert id w.fresh w.pending o.unique;
    once = λ r. ground (arith, live-insert_le id r w.fresh w.pending, o.once r, o.unused r);
    unused = λ r h. ground (arith, live-insert_le id r w.fresh w.pending, o.unused r);
  };
  dead_kept = λ e h. h;
}

write_bytes-Settles :
    (stdin_ok : Bool) (encoded : List ℕ) (w : World) → Settles w (write_bytes stdin_ok encoded w).0
unfolding write_bytes ends
write_bytes-Settles true encoded w = Settles-emit (write encoded) w (λ r. refl)
write_bytes-Settles false encoded w = mark_dead-Settles _ w

write_encoded-Settles :
    (stdin_ok : Bool) (encoded : Result FrameCodecError (List ℕ)) (w : World)
    → Settles w (write_encoded stdin_ok encoded w).0
write_encoded-Settles stdin_ok (err e) w = Settles-refl w
write_encoded-Settles stdin_ok (ok encoded) w = write_bytes-Settles stdin_ok encoded w

pub write_frame-Settles :
    (stdin_ok : Bool) (input : FrameInput) (w : World) → Settles w (write_frame stdin_ok input w).0
unfolding write_frame
write_frame-Settles stdin_ok input w = write_encoded-Settles stdin_ok (encode_frame input) w

pub send_cancel-Settles :
    (codec : JsonCodec) (stdin_ok : Bool) (id : ℕ) (w : World)
    → Settles w (send_cancel codec stdin_ok id w).0
unfolding send_cancel
send_cancel-Settles codec stdin_ok id w = elim (Bool-cases (is_some w.dead)) [
  | inl e ↦ rw (e, send_cancel) (Settles-refl w)
  | inr e ↦ elim (Bool-cases (not (has id w.pending))) [
    | inl f ↦ rw (e, f, send_cancel) (Settles-refl w)
    | inr f ↦ rw (e, f, send_cancel) (write_frame-Settles stdin_ok _ w)
  ]
]
