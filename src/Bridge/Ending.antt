-- ===== src/Bridge/Ending.antt =====
-- `markDead`, `completePending`, `completeStream` and `completeWebSocket` of
-- packages/effect-tls-client/src/internal/Bridge.ts end what they take out of the map.
use Prim.Native.String.{String}
use effect_tls_client.Prelude.{
  ℕ, ◌+◌, ◌≡◌, refl, ap, ◌∙◌, Option, none, some, [], ◌∷◌, ◌==◌, if◌then◌else◌, Result, ok, err,
  arith, Option-cases, inl, inr,
}
use effect_tls_client.Prelude.Int.{ℤ}
use effect_tls_client.Prelude.Assoc.{lookup, remove}
use effect_tls_client.Frame.Codec.{Frame}
use effect_tls_client.Protocol.Metadata.{EndMeta}
use effect_tls_client.Errors.{BridgeError}
use effect_tls_client.Bridge.World.{
  World, Operation, deferred, stream, websocket, settle_call, settle_open, settle_done, fail_queue,
}
use effect_tls_client.Bridge.Settle.{
  stop_upload, mark_dead, mark_exited, complete_pending, complete_deferred, complete_websocket,
  complete_socket, complete_stream, complete_transfer, stream_actions,
}
use effect_tls_client.Bridge.Ledger.{
  ends, ended, live, Settles, ended-append, UniqueKeys-remove, live-remove, Settles-refl,
  stop_upload-quiet, fail_all_lem,
}

-- Where the connection is not dead, `markDead` records its error, empties the map, ends every
-- operation in it as often as it was there, and takes no new reference into use.
pub mark_dead_first :
    (error : BridgeError) (w : World)
    → w.dead ≡ none
    → ((mark_dead error w).dead ≡ some error)
      × ((mark_dead error w).pending ≡ [])
      × ((mark_dead error w).fresh ≡ w.fresh)
      × ((r : ℕ) → ended r (mark_dead error w).log ≡ ended r w.log + live r w.pending)
unfolding mark_dead
mark_dead_first error w h =
    let next = record w { state = record w.state { dead = some error }; pending = [] } in
    let (p, d, f, e) = fail_all_lem error w.pending next in rw (h, mark_dead) (d, p, f, e)

-- Any later call changes nothing.
pub mark_dead_again :
    (error old : BridgeError) (w : World) → w.dead ≡ some old → mark_dead error w ≡ w
unfolding mark_dead
mark_dead_again error old w h = ground arith

pub mark_dead-Settles : (error : BridgeError) (w : World) → Settles w (mark_dead error w)
mark_dead-Settles error w = elim (Option-cases w.dead) [
  | inl h ↦
      let (d, p, f, e) = mark_dead_first error w h in
      record {
        conserved = λ u r. rw p (unfold live in omega (arith, e r));
        unique = λ u. rw p tt;
        dead_kept = λ x k. cc (h, k);
        fresh_kept = f;
      }
  | inr (old, h) ↦ rw (mark_dead_again error old w h) (Settles-refl w)
]

-- What takes one pending id out of the map and ends its operation.
ends_one :
    (id r : ℕ) (w w' : World)
    → lookup id w.pending ≡ some r
    → w'.pending ≡ remove id w.pending
    → w'.dead ≡ w.dead
    → w'.fresh ≡ w.fresh
    → ((s : ℕ) → ended s w'.log ≡ ended s w.log + (if r == s then 1 else 0))
    → Settles w w'
ends_one id r w w' l p d f e = record {
  conserved = λ u s. rw p (omega (arith, e s, live-remove id s r w.pending u l));
  unique = λ u. rw p (UniqueKeys-remove id w.pending u);
  dead_kept = λ x k. d ∙ k;
  fresh_kept = f;
}

complete_deferred-Settles :
    (id r : ℕ) (operation : Operation) (result : Result BridgeError Frame) (w : World)
    → lookup id w.pending ≡ some r
    → Settles w (complete_deferred id r operation result w)
unfolding complete_deferred ended ends
complete_deferred-Settles id r (deferred operation) result w l =
    ends_one id r w _ l refl refl refl
      (λ s. omega (arith, ended-append s w.log (settle_call r result ∷ [])))
complete_deferred-Settles id r (stream operation) result w l = Settles-refl w
complete_deferred-Settles id r (websocket operation) result w l = Settles-refl w

pub complete_pending-Settles :
    (id : ℕ) (result : Result BridgeError Frame) (w : World)
    → Settles w (complete_pending id result w)
unfolding complete_pending
complete_pending-Settles id result w = elim (Option-cases (lookup id w.pending)) [
  | inl e ↦ rw (e, complete_pending) (Settles-refl w)
  | inr (r, e) ↦
      rw (e, complete_pending) (complete_deferred-Settles id r (w.operations r) result w e)
]

complete_socket-Settles :
    (id r : ℕ) (operation : Operation) (error : BridgeError) (w : World)
    → lookup id w.pending ≡ some r
    → Settles w (complete_socket id r operation error w)
unfolding complete_socket ended ends
complete_socket-Settles id r (deferred operation) error w l = Settles-refl w
complete_socket-Settles id r (stream operation) error w l = Settles-refl w
complete_socket-Settles id r (websocket operation) error w l =
    ends_one id r w _ l refl refl refl (λ s. omega (
      arith,
      ended-append s w.log (fail_queue r error ∷ settle_open r (err error) ∷ settle_done r ∷ []),
    ))

pub complete_websocket-Settles :
    (id : ℕ) (error : BridgeError) (w : World) → Settles w (complete_websocket id error w)
unfolding complete_websocket
complete_websocket-Settles id error w = elim (Option-cases (lookup id w.pending)) [
  | inl e ↦ rw (e, complete_websocket) (Settles-refl w)
  | inr (r, e) ↦
      rw (e, complete_websocket) (complete_socket-Settles id r (w.operations r) error w e)
]

stream_actions-ended :
    (r s : ℕ) (result : Result BridgeError EndMeta)
    → ended s (stream_actions r result) ≡ (if r == s then 1 else 0)
unfolding stream_actions ended ends
stream_actions-ended r s (ok end) = omega arith
stream_actions-ended r s (err error) = omega arith

complete_transfer-Settles :
    (id r : ℕ) (operation : Operation) (result : Result BridgeError EndMeta) (w : World)
    → lookup id w.pending ≡ some r
    → Settles w (complete_transfer id r operation result w)
unfolding complete_transfer
complete_transfer-Settles id r (deferred operation) result w l = Settles-refl w
complete_transfer-Settles id r (websocket operation) result w l = Settles-refl w
complete_transfer-Settles id r (stream operation) result w l =
    let (p, e, d, f) = stop_upload-quiet r operation w in
    ends_one id r w _ l (ap (remove id) p) d f (λ s. omega (
      arith,
      ended-append s (stop_upload r operation w).log (stream_actions r result),
      stream_actions-ended r s result,
      e s,
    ))

pub complete_stream-Settles :
    (id : ℕ) (result : Result BridgeError EndMeta) (w : World)
    → Settles w (complete_stream id result w)
unfolding complete_stream
complete_stream-Settles id result w = elim (Option-cases (lookup id w.pending)) [
  | inl e ↦ rw (e, complete_stream) (Settles-refl w)
  | inr (r, e) ↦
      rw (e, complete_stream) (complete_transfer-Settles id r (w.operations r) result w e)
]

pub mark_exited-Settles :
    (exit_code : Option ℤ) (signal : Option String) (w : World)
    → Settles w (mark_exited exit_code signal w)
unfolding mark_exited
mark_exited-Settles exit_code signal w = mark_dead-Settles _ w
