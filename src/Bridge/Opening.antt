-- ===== src/Bridge/Opening.antt =====
-- Opening, writing and cleaning up operations keep the invariant: `call`, `stream`, `request`,
-- `webSocket` and the uploads of packages/effect-tls-client/src/internal/Bridge.ts.
use effect_tls_client.Prelude.{
  ℕ, zero, suc, ◌≡◌, refl, Bool, true, false, Option, none, some, List, ◌==◌, if◌then◌else◌, Result,
  ok, err, Bool-cases, inl, inr, not, ◌&&◌,
}
use effect_tls_client.Prelude.Assoc.{has}
use effect_tls_client.Protocol.Metadata.{DebugStreamMeta, RequestMeta, WsConnectMeta}
use effect_tls_client.Protocol.Schema.{JsonCodec, MetaSchema, Meta}
use effect_tls_client.Errors.{BridgeError}
use effect_tls_client.Bridge.World.{
  World, State, with_state, Operation, PendingStream, deferred, stream, websocket,
}
use effect_tls_client.Bridge.Settle.{delete}
use effect_tls_client.Bridge.Ledger.{Settles, Settles-quiet, Settles-refl}
use effect_tls_client.Bridge.Returns.{stop_upload-Settles}
use effect_tls_client.Bridge.Writing.{allocate_from, allocate_id, id_after, register, write_frame}
use effect_tls_client.Bridge.Calls.{
  Ticket, check_call, register_call, begin_call, after_write, write_call, write_first, delete_own,
  is_pending, clean_up, with_id, open_checked, unless_dead,
}
use effect_tls_client.Bridge.Requests.{
  register_stream, check_stream, check_request, begin_stream, begin_request, stop_own, stop_request,
}
use effect_tls_client.Bridge.Sockets.{register_socket, check_socket, begin_web_socket}
use effect_tls_client.Bridge.Orderly.{
  Progress, Progress_trans, Progress_refl, Settles-Progress, delete-Progress, register-Progress,
  write_frame-Settles, send_cancel-Settles,
}

-- An operation that returns makes progress.
abbrev pub Advances {ℓ} : {A : Type ℓ} → World → Option (World × A) → Type 0
Advances w none = Unit {0}
Advances w (some (w', a)) = Progress w w'

abbrev AdvancesId : World → Option (ℕ × World) → Type 0
AdvancesId w none = Unit {0}
AdvancesId w (some (id, w')) = Progress w w'

AdvancesId-trans :
    (u v : World) (o : Option (ℕ × World)) → Progress u v → AdvancesId v o → AdvancesId u o
AdvancesId-trans u v none p h = tt
AdvancesId-trans u v (some (id, w)) p h = Progress_trans p h

set_state-Progress : (s : State) (w : World) → s.dead ≡ w.dead → Progress w (with_state s w)
set_state-Progress s w d = Settles-Progress (Settles-quiet w _ refl d refl (λ r. refl))

allocate_from-Advances : (n : ℕ) (w : World) → AdvancesId w (allocate_from n w)
unfolding allocate_from
allocate_from-Advances zero w = tt
allocate_from-Advances (suc n) w =
    let next = with_state (record w.state { next_id = id_after w.next_id }) w in
    let step : Progress w next = set_state-Progress _ w refl in
    chosen (not (w.next_id == 0) && not (has w.next_id w.pending)) next step (allocate_from n next)
      (AdvancesId-trans w next (allocate_from n next) step (allocate_from-Advances n next))
  where
    chosen :
        (b : Bool) (next : World)
        → Progress w next
        → (rest : Option (ℕ × World)) → AdvancesId w rest
        → AdvancesId w (if b then some (w.next_id, next) else rest)
    chosen true next p rest h = p
    chosen false next p rest h = h

allocate_id-Advances : (w : World) → AdvancesId w (allocate_id w)
unfolding allocate_id
allocate_id-Advances w = allocate_from-Advances _ w

with_id-Advances :
    {A : Type 0} (w : World) (o : Option (ℕ × World)) (enter : ℕ × World → World × A)
    → AdvancesId w o
    → ((id : ℕ) (v : World) → Progress v (enter (id, v)).0)
    → Advances w (with_id o enter)
with_id-Advances w none enter h k = tt
with_id-Advances w (some (id, v)) enter h k = Progress_trans h (k id v)

open_checked-Advances :
    {B : Type 0} (w : World) (r : Result BridgeError B)
    (enter : B → ℕ × World → World × Result BridgeError Ticket)
    → ((b : B) (id : ℕ) (v : World) → Progress v (enter b (id, v)).0)
    → Advances w (open_checked w r enter)
open_checked-Advances w (err error) enter k = Progress_refl w
open_checked-Advances w (ok b) enter k =
    with_id-Advances w (allocate_id w) (enter b) (allocate_id-Advances w) (k b)

unless_dead-Progress :
    (t : Ticket) (w : World) (o : Option BridgeError) → Progress w (unless_dead t w o).0
unless_dead-Progress t w none = Progress_refl w
unless_dead-Progress t w (some error) = delete-Progress t.id w

pub begin_call-Advances :
    (codec : JsonCodec) (kind : ℕ) (given : (s : MetaSchema) → Option (Meta s))
    (body : Option (List ℕ)) (response : MetaSchema) (w : World)
    → Advances w (begin_call codec kind given body response w)
unfolding begin_call register_call
begin_call-Advances codec kind given body response w =
    open_checked-Advances w (check_call codec kind given body w) (register_call kind body response)
      (λ encoded id v.
        Progress_trans (register-Progress id _ v) (unless_dead-Progress _ (register id _ v) _))

register_stream-Progress :
    (kind : ℕ) (b : List ℕ × PendingStream) (id : ℕ) (w : World)
    → Progress w (register_stream kind b (id, w)).0
unfolding register_stream
register_stream-Progress kind (meta, operation) id w = register-Progress id (stream operation) w

pub begin_stream-Advances :
    (codec : JsonCodec) (meta : Option DebugStreamMeta) (w : World)
    → Advances w (begin_stream codec meta w)
unfolding begin_stream
begin_stream-Advances codec meta w =
    open_checked-Advances w (check_stream codec meta w) _ (register_stream-Progress _)

pub begin_request-Advances :
    (codec : JsonCodec) (meta : Option RequestMeta) (has_body : Bool) (w : World)
    → Advances w (begin_request codec meta has_body w)
unfolding begin_request
begin_request-Advances codec meta has_body w =
    open_checked-Advances w (check_request codec meta has_body w) _ (register_stream-Progress _)

pub begin_web_socket-Advances :
    (codec : JsonCodec) (meta : Option WsConnectMeta) (w : World)
    → Advances w (begin_web_socket codec meta w)
unfolding begin_web_socket register_socket
begin_web_socket-Advances codec meta w =
    open_checked-Advances w (check_socket codec meta w) _ (λ encoded id v. register-Progress id _ v)

after_write-Progress :
    (w : World) (undo : World → World) (p : World × Result BridgeError (Unit {0}))
    → ((v : World) → Progress v (undo v))
    → Progress w p.0
    → Progress w (after_write undo p).0
after_write-Progress w undo (v, ok _) h p = p
after_write-Progress w undo (v, err error) h p = Progress_trans p (h v)

pub write_call-Progress :
    (stdin_ok : Bool) (t : Ticket) (w : World) → Progress w (write_call stdin_ok t w).0
unfolding write_call
write_call-Progress stdin_ok t w =
    after_write-Progress w (delete t.id) (write_frame stdin_ok t.input w) (delete-Progress t.id)
      (Settles-Progress (write_frame-Settles stdin_ok t.input w))

delete_own-Progress : (t : Ticket) (w : World) → Progress w (delete_own t w)
delete_own-Progress t w = elim (Bool-cases (is_pending t.id t.operation w)) [
  | inl e ↦ rw e (delete-Progress t.id w)
  | inr e ↦ rw e (Progress_refl w)
]

pub write_first-Progress :
    (stdin_ok : Bool) (t : Ticket) (w : World) → Progress w (write_first stdin_ok t w).0
unfolding write_first
write_first-Progress stdin_ok t w =
    after_write-Progress w (delete_own t) (write_frame stdin_ok t.input w) (delete_own-Progress t)
      (Settles-Progress (write_frame-Settles stdin_ok t.input w))

pub clean_up-Progress :
    (codec : JsonCodec) (stdin_ok request_sent : Bool) (t : Ticket) (w : World)
    → Progress w (clean_up codec stdin_ok request_sent t w).0
unfolding clean_up
clean_up-Progress codec stdin_ok true t w =
    Settles-Progress (send_cancel-Settles codec stdin_ok t.id w)
clean_up-Progress codec stdin_ok false t w = delete_own-Progress t w

stop_own-Settles : (r : ℕ) (operation : Operation) (w : World) → Settles w (stop_own r operation w)
stop_own-Settles r (stream operation) w = stop_upload-Settles r operation w
stop_own-Settles r (deferred operation) w = Settles-refl w
stop_own-Settles r (websocket operation) w = Settles-refl w

pub stop_request-Settles :
    (request_sent : Bool) (t : Ticket) (w : World) → Settles w (stop_request request_sent t w)
unfolding stop_request
stop_request-Settles true t w = stop_own-Settles t.operation (w.operations t.operation) w
stop_request-Settles false t w = Settles-refl w
