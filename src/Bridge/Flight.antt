-- ===== src/Bridge/Flight.antt =====
-- The bytes of request bodies that are sent and not acknowledged, in the objects that the Bridge's
-- state of packages/effect-tls-client/src/internal/Bridge.ts leads to.
use effect_tls_client.Prelude.{
  ℕ, ◌+◌, ◌≤◌, ◌≡◌, refl, sym, subst, ◌∙◌, true, Option, none, some, List, [], ◌∷◌, ◌==◌, ==_iff,
  if◌then◌else◌, Result, arith, Bool-cases, Option-cases, inl, inr,
}
use effect_tls_client.Prelude.Assoc.{lookup}
use effect_tls_client.Frame.Codec.{Frame}
use effect_tls_client.Protocol.Metadata.{EndMeta}
use effect_tls_client.Errors.{BridgeError}
use effect_tls_client.Bridge.World.{
  World, Operation, deferred, stream, websocket, PendingStream, Upload, set_operation,
}
use effect_tls_client.Bridge.Settle.{
  stop_upload_of, stop_upload, fail_operation, fail_all, mark_dead, mark_exited, complete_deferred,
  complete_pending, complete_socket, complete_websocket, complete_transfer, complete_stream,
}
use effect_tls_client.Bridge.Ending.{mark_dead_again}
use effect_tls_client.Prelude.Int.{ℤ}
use Prim.Native.String.{String}

abbrev pub sent_by : Option Upload → ℕ
sent_by none = 0
sent_by (some upload) = upload.sent

abbrev pub acked_by : Option Upload → ℕ
acked_by none = 0
acked_by (some upload) = upload.acked

abbrev pub sent_of : Operation → ℕ
sent_of (stream operation) = sent_by operation.upload
sent_of (deferred operation) = 0
sent_of (websocket operation) = 0

abbrev pub acked_of : Operation → ℕ
acked_of (stream operation) = acked_by operation.upload
acked_of (deferred operation) = 0
acked_of (websocket operation) = 0

-- No upload has more bytes in flight than the window, nor more acknowledged than sent.
abbrev pub InWindow : World → Type 0
InWindow w =
    (r : ℕ)
    → (acked_of (w.operations r) ≤ sent_of (w.operations r))
      × (sent_of (w.operations r) ≤ acked_of (w.operations r) + w.window)

-- Two operations with the same bytes sent and acknowledged.
abbrev pub Alike : Operation → Operation → Type 0
Alike a b = (sent_of a ≡ sent_of b) × (acked_of a ≡ acked_of b)

-- A step that sends and acknowledges nothing.
pub record SameFlight (w w' : World) : Type 0 where
  pub window_same : w'.window ≡ w.window
  pub alike : (r : ℕ) → Alike (w'.operations r) (w.operations r)

-- A step that keeps the bytes in flight within the window.
pub record Flows (w w' : World) : Type 0 where
  pub window_kept : w'.window ≡ w.window
  pub in_window : InWindow w → InWindow w'

pub SameFlight-Flows : {w w' : World} → SameFlight w w' → Flows w w'
SameFlight-Flows s = record {
  window_kept = s.window_same;
  in_window = λ h r. (omega (arith, s.alike r, h r), omega (arith, s.alike r, h r, s.window_same));
}

pub SameFlight-refl : (w : World) → SameFlight w w
SameFlight-refl w = record { window_same = refl; alike = λ r. (refl, refl) }

pub SameFlight-trans : {u v w : World} → SameFlight u v → SameFlight v w → SameFlight u w
SameFlight-trans a b = record {
  window_same = b.window_same ∙ a.window_same;
  alike = λ r. let (s, k) = a.alike r in let (s', k') = b.alike r in (s' ∙ s, k' ∙ k);
}

pub Flows-trans : {u v w : World} → Flows u v → Flows v w → Flows u w
Flows-trans a b = record {
  window_kept = b.window_kept ∙ a.window_kept;
  in_window = λ h. b.in_window (a.in_window h);
}

pub SameFlight-set :
    (r : ℕ) (operation : Operation) (w : World)
    → Alike operation (w.operations r)
    → SameFlight w (set_operation r operation w)
SameFlight-set r operation w h = record { window_same = refl; alike = at }
  where
    at : (s : ℕ) → Alike (if s == r then operation else w.operations s) (w.operations s)
    at s = elim (Bool-cases (s == r)) [
      | inl e ↦ rw e (subst (λ k. Alike operation (w.operations k)) (sym ((==_iff s r).0 e)) h)
      | inr e ↦ rw e (refl, refl)
    ]

stop_upload_of-SameFlight :
    (r : ℕ) (operation : PendingStream) (o : Option Upload) (w : World)
    → (sent_by o ≡ sent_of (w.operations r)) × (acked_by o ≡ acked_of (w.operations r))
    → SameFlight w (stop_upload_of r operation o w)
unfolding stop_upload_of
stop_upload_of-SameFlight r operation none w h = SameFlight-refl w
stop_upload_of-SameFlight r operation (some upload) w h = elim (Bool-cases upload.stopped) [
  | inl e ↦ rw (e, stop_upload_of) (SameFlight-refl w)
  | inr e ↦
      let s =
        SameFlight-set r
          (stream (record operation { upload = some (record upload { stopped = true }) })) w h in
      rw (e, stop_upload_of) (record { window_same = refl; alike = s.alike })
]

pub stop_upload-SameFlight :
    (r : ℕ) (operation : PendingStream) (w : World)
    → Alike (stream operation) (w.operations r)
    → SameFlight w (stop_upload r operation w)
unfolding stop_upload
stop_upload-SameFlight r operation w h = stop_upload_of-SameFlight r operation operation.upload w h

fail_operation-SameFlight :
    (error : BridgeError) (r : ℕ) (operation : Operation) (w : World)
    → Alike operation (w.operations r)
    → SameFlight w (fail_operation error r operation w)
unfolding fail_operation
fail_operation-SameFlight error r (stream operation) w h =
    let s = stop_upload-SameFlight r operation w h in
    record { window_same = s.window_same; alike = s.alike }
fail_operation-SameFlight error r (websocket operation) w h =
    let s = SameFlight-set r (websocket (record operation { failure = some error })) w h in
    record { window_same = refl; alike = s.alike }
fail_operation-SameFlight error r (deferred operation) w h = record {
  window_same = refl;
  alike = λ s. (refl, refl);
}

fail_all-SameFlight :
    (error : BridgeError) (m : List (ℕ × ℕ)) (w : World) → SameFlight w (fail_all error m w)
unfolding fail_all
fail_all-SameFlight error [] w = SameFlight-refl w
fail_all-SameFlight error ((id, r) ∷ m) w =
    SameFlight-trans (fail_operation-SameFlight error r (w.operations r) w (refl, refl))
      (fail_all-SameFlight error m _)

pub mark_dead-SameFlight : (error : BridgeError) (w : World) → SameFlight w (mark_dead error w)
unfolding mark_dead
mark_dead-SameFlight error w = elim (Option-cases w.dead) [
  | inr (old, e) ↦ subst (SameFlight w) (sym (mark_dead_again error old w e)) (SameFlight-refl w)
  | inl e ↦
      let s =
        fail_all-SameFlight error w.pending
          (record w { state = record w.state { dead = some error }; pending = [] }) in
      rw (e, mark_dead) (record { window_same = s.window_same; alike = s.alike })
]

pub mark_exited-SameFlight :
    (exit_code : Option ℤ) (signal : Option String) (w : World)
    → SameFlight w (mark_exited exit_code signal w)
unfolding mark_exited
mark_exited-SameFlight exit_code signal w = mark_dead-SameFlight _ w

complete_deferred-SameFlight :
    (id r : ℕ) (operation : Operation) (result : Result BridgeError Frame) (w : World)
    → SameFlight w (complete_deferred id r operation result w)
unfolding complete_deferred
complete_deferred-SameFlight id r (deferred operation) result w = record {
  window_same = refl;
  alike = λ s. (refl, refl);
}
complete_deferred-SameFlight id r (stream operation) result w = SameFlight-refl w
complete_deferred-SameFlight id r (websocket operation) result w = SameFlight-refl w

pub complete_pending-SameFlight :
    (id : ℕ) (result : Result BridgeError Frame) (w : World)
    → SameFlight w (complete_pending id result w)
unfolding complete_pending
complete_pending-SameFlight id result w = elim (Option-cases (lookup id w.pending)) [
  | inl e ↦ rw (e, complete_pending) (SameFlight-refl w)
  | inr (r, e) ↦
      rw (e, complete_pending) (complete_deferred-SameFlight id r (w.operations r) result w)
]

complete_socket-SameFlight :
    (id r : ℕ) (operation : Operation) (error : BridgeError) (w : World)
    → Alike operation (w.operations r)
    → SameFlight w (complete_socket id r operation error w)
unfolding complete_socket
complete_socket-SameFlight id r (websocket operation) error w h =
    let s = SameFlight-set r (websocket (record operation { failure = some error })) w h in
    record { window_same = refl; alike = s.alike }
complete_socket-SameFlight id r (stream operation) error w h = SameFlight-refl w
complete_socket-SameFlight id r (deferred operation) error w h = SameFlight-refl w

pub complete_websocket-SameFlight :
    (id : ℕ) (error : BridgeError) (w : World) → SameFlight w (complete_websocket id error w)
unfolding complete_websocket
complete_websocket-SameFlight id error w = elim (Option-cases (lookup id w.pending)) [
  | inl e ↦ rw (e, complete_websocket) (SameFlight-refl w)
  | inr (r, e) ↦
      rw (e, complete_websocket)
        (complete_socket-SameFlight id r (w.operations r) error w (refl, refl))
]

complete_transfer-SameFlight :
    (id r : ℕ) (operation : Operation) (result : Result BridgeError EndMeta) (w : World)
    → Alike operation (w.operations r)
    → SameFlight w (complete_transfer id r operation result w)
unfolding complete_transfer
complete_transfer-SameFlight id r (stream operation) result w h =
    let s = stop_upload-SameFlight r operation w h in
    record { window_same = s.window_same; alike = s.alike }
complete_transfer-SameFlight id r (websocket operation) result w h = SameFlight-refl w
complete_transfer-SameFlight id r (deferred operation) result w h = SameFlight-refl w

pub complete_stream-SameFlight :
    (id : ℕ) (result : Result BridgeError EndMeta) (w : World)
    → SameFlight w (complete_stream id result w)
unfolding complete_stream
complete_stream-SameFlight id result w = elim (Option-cases (lookup id w.pending)) [
  | inl e ↦ rw (e, complete_stream) (SameFlight-refl w)
  | inr (r, e) ↦
      rw (e, complete_stream)
        (complete_transfer-SameFlight id r (w.operations r) result w (refl, refl))
]
