-- ===== src/Bridge/Ledger.antt =====
-- Every operation of packages/effect-tls-client/src/internal/Bridge.ts ends once: an operation that
-- is pending has not been settled, and what takes it out of the map settles it.
use effect_tls_client.Prelude.{
  ℕ, ◌+◌, ◌≡◌, refl, ◌∙◌, false, Option, none, some, List, [], ◌∷◌, ◌++◌, ◌==◌, if◌then◌else◌, err,
  arith,
}
use effect_tls_client.Prelude.Assoc.{lookup, remove, has}
use effect_tls_client.Errors.{BridgeError}
use effect_tls_client.Bridge.World.{
  World, Operation, deferred, stream, websocket, PendingStream, Upload, Action, settle_call,
  settle_headers, settle_end, settle_open, settle_done, settle_stop, fail_queue,
}
use effect_tls_client.Bridge.Settle.{stop_upload_of, stop_upload, fail_operation, fail_all}

-- The action that ends the operation at `r`: the answer to a call, or `done` of a stream or socket.
unfoldable pub ends : ℕ → Action → ℕ
ends r (settle_call s result) = if s == r then 1 else 0
ends r (settle_done s) = if s == r then 1 else 0
ends r _ = 0

-- How often the operation at `r` has been ended.
unfoldable pub ended : ℕ → List Action → ℕ
ended r [] = 0
ended r (a ∷ rest) = ends r a + ended r rest

-- How often the operation at `r` is pending.
unfoldable pub live : ℕ → List (ℕ × ℕ) → ℕ
live r [] = 0
live r ((id, s) ∷ m) = (if s == r then 1 else 0) + live r m

abbrev pub UniqueKeys : List (ℕ × ℕ) → Type 0
UniqueKeys [] = Unit {0}
UniqueKeys ((id, s) ∷ m) = (has id m ≡ false) × UniqueKeys m

-- What a step does to the operations: each stays pending or is ended, as often as it was pending.
pub record Settles (w w' : World) : Type 0 where
  pub conserved :
      UniqueKeys w.pending
      → (r : ℕ) → live r w'.pending + ended r w'.log ≡ live r w.pending + ended r w.log
  pub unique : UniqueKeys w.pending → UniqueKeys w'.pending
  pub dead_kept : (e : BridgeError) → w.dead ≡ some e → w'.dead ≡ some e
  pub fresh_kept : w'.fresh ≡ w.fresh

pub ended-append : (r : ℕ) (xs ys : List Action) → ended r (xs ++ ys) ≡ ended r xs + ended r ys
unfolding ended
ended-append r [] ys = omega arith
ended-append r (a ∷ rest) ys = omega (arith, ended-append r rest ys)

has-remove : (id k : ℕ) (m : List (ℕ × ℕ)) → has k m ≡ false → has k (remove id m) ≡ false
unfolding has remove
has-remove id k [] h = refl
has-remove id k ((j, s) ∷ m) h = ground (arith, has-remove id k m)

pub UniqueKeys-remove : (id : ℕ) (m : List (ℕ × ℕ)) → UniqueKeys m → UniqueKeys (remove id m)
unfolding remove
UniqueKeys-remove id [] h = tt
UniqueKeys-remove id ((j, s) ∷ m) h =
    ground (arith, has-remove id j m h.0, UniqueKeys-remove id m h.1)

remove_absent : (id : ℕ) (m : List (ℕ × ℕ)) → has id m ≡ false → remove id m ≡ m
unfolding has remove
remove_absent id [] h = refl
remove_absent id ((j, s) ∷ m) h = ground (arith, remove_absent id m)

-- Deleting a pending id takes away the operation that it leads to, and no other.
pub live-remove :
    (id r s : ℕ) (m : List (ℕ × ℕ))
    → UniqueKeys m
    → lookup id m ≡ some s
    → live r (remove id m) + (if s == r then 1 else 0) ≡ live r m
unfolding live lookup remove
live-remove id r s [] u h = cc
live-remove id r s ((j, t) ∷ m) u h = ground (arith, live-remove id r s m u.1, remove_absent id m)

-- A step that leaves the map alone and ends nothing.
pub Settles-quiet :
    (w w' : World)
    → w'.pending ≡ w.pending
    → w'.dead ≡ w.dead
    → w'.fresh ≡ w.fresh
    → ((r : ℕ) → ended r w'.log ≡ ended r w.log)
    → Settles w w'
Settles-quiet w w' p d f h = record {
  conserved = λ u r. rw (p, h r) refl;
  unique = λ u. rw p u;
  dead_kept = λ e k. d ∙ k;
  fresh_kept = f;
}

pub Settles-refl : (w : World) → Settles w w
Settles-refl w = Settles-quiet w w refl refl refl (λ r. refl)

pub Settles-trans : {u v w : World} → Settles u v → Settles v w → Settles u w
Settles-trans a b = record {
  conserved = λ u r. b.conserved (a.unique u) r ∙ a.conserved u r;
  unique = λ h. b.unique (a.unique h);
  dead_kept = λ e h. b.dead_kept e (a.dead_kept e h);
  fresh_kept = b.fresh_kept ∙ a.fresh_kept;
}

stop_upload_of-quiet :
    (r : ℕ) (operation : PendingStream) (o : Option Upload) (w : World)
    → ((stop_upload_of r operation o w).pending ≡ w.pending)
      × ((s : ℕ) → ended s (stop_upload_of r operation o w).log ≡ ended s w.log)
      × ((stop_upload_of r operation o w).dead ≡ w.dead)
      × ((stop_upload_of r operation o w).fresh ≡ w.fresh)
unfolding stop_upload_of ended ends
stop_upload_of-quiet r operation none w = (refl, λ s. refl, refl, refl)
stop_upload_of-quiet r operation (some upload) w = (
  ground arith,
  λ s. ground (arith, ended-append s w.log (settle_stop r ∷ [])),
  ground arith,
  ground arith,
)

-- Stopping an upload ends nothing.
pub stop_upload-quiet :
    (r : ℕ) (operation : PendingStream) (w : World)
    → ((stop_upload r operation w).pending ≡ w.pending)
      × ((s : ℕ) → ended s (stop_upload r operation w).log ≡ ended s w.log)
      × ((stop_upload r operation w).dead ≡ w.dead)
      × ((stop_upload r operation w).fresh ≡ w.fresh)
unfolding stop_upload
stop_upload-quiet r operation w = stop_upload_of-quiet r operation operation.upload w

-- The loop of `markDead` ends the operation at `r` once for each entry that leads to it.
fail_operation-ended :
    (error : BridgeError) (r s : ℕ) (operation : Operation) (w : World)
    → ended s (fail_operation error r operation w).log ≡ ended s w.log + (if r == s then 1 else 0)
unfolding fail_operation ended ends
fail_operation-ended error r s (deferred operation) w =
    omega (arith, ended-append s w.log (settle_call r (err error) ∷ []))
fail_operation-ended error r s (stream operation) w =
    let actions =
      fail_queue r error
      ∷ settle_headers r (err error)
      ∷ settle_end r (err error)
      ∷ settle_done r
      ∷ [] in
    omega (
      arith,
      ended-append s (stop_upload r operation w).log actions,
      (stop_upload-quiet r operation w).1 s,
    )
fail_operation-ended error r s (websocket operation) w = omega (
  arith,
  ended-append s w.log (fail_queue r error ∷ settle_open r (err error) ∷ settle_done r ∷ []),
)

fail_operation_keeps :
    (error : BridgeError) (r : ℕ) (operation : Operation) (w : World)
    → ((fail_operation error r operation w).pending ≡ w.pending)
      × ((fail_operation error r operation w).dead ≡ w.dead)
      × ((fail_operation error r operation w).fresh ≡ w.fresh)
unfolding fail_operation
fail_operation_keeps error r (deferred operation) w = (refl, refl, refl)
fail_operation_keeps error r (stream operation) w =
    let (p, e, d, f) = stop_upload-quiet r operation w in (p, d, f)
fail_operation_keeps error r (websocket operation) w = (refl, refl, refl)

pub fail_all_lem :
    (error : BridgeError) (m : List (ℕ × ℕ)) (w : World)
    → ((fail_all error m w).pending ≡ w.pending)
      × ((fail_all error m w).dead ≡ w.dead)
      × ((fail_all error m w).fresh ≡ w.fresh)
      × ((s : ℕ) → ended s (fail_all error m w).log ≡ ended s w.log + live s m)
unfolding fail_all live
fail_all_lem error [] w = (refl, refl, refl, λ s. omega arith)
fail_all_lem error ((id, r) ∷ m) w =
    let next = fail_operation error r (w.operations r) w in
    let (p, d, f, e) = fail_all_lem error m next in
    let (p', d', f') = fail_operation_keeps error r (w.operations r) w in
    (
      p ∙ p',
      d ∙ d',
      f ∙ f',
      λ s. omega (arith, e s, fail_operation-ended error r s (w.operations r) w),
    )
