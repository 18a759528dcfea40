-- ===== src/Bridge/FlightOpening.antt =====
-- Operations begin with nothing in flight: `call`, `stream`, `request` and `webSocket` of
-- packages/effect-tls-client/src/internal/Bridge.ts up to their first write.
use effect_tls_client.Prelude.{
  ℕ, zero, suc, ◌≡◌, refl, subst, Bool, true, false, not, ◌&&◌, Option, none, some, List, ◌==◌,
  if◌then◌else◌, Result, ok, err, Option-cases, inl, inr,
}
use effect_tls_client.Prelude.Assoc.{has}
use effect_tls_client.Protocol.Metadata.{DebugStreamMeta, RequestMeta, WsConnectMeta}
use effect_tls_client.Protocol.Schema.{JsonCodec, MetaSchema, Meta, checked, request}
use effect_tls_client.Errors.{BridgeError}
use effect_tls_client.Bridge.World.{World, with_state, stream, PendingStream, get_dead}
use effect_tls_client.Bridge.Settle.{delete}
use effect_tls_client.Bridge.Writing.{register, allocate_from, allocate_id, id_after}
use effect_tls_client.Bridge.Calls.{
  Ticket, check_call, register_call, begin_call, with_id, open_checked, unless_dead,
}
use effect_tls_client.Bridge.Requests.{
  register_stream, check_stream, check_request, begin_stream, begin_request, upload_for,
}
use effect_tls_client.Bridge.Sockets.{register_socket, check_socket, begin_web_socket}
use effect_tls_client.Bridge.Flight.{Flows, Flows-trans, sent_of, acked_of}
use effect_tls_client.Bridge.FlightStream.{Flows-refl, Flows-quiet}
use effect_tls_client.Bridge.FlightWriting.{register-Flows}

-- An operation that returns keeps the bytes in flight within the window.
abbrev pub ReturnFlows {ℓ} : {A : Type ℓ} → World → Option (World × A) → Type 0
ReturnFlows w none = Unit {0}
ReturnFlows w (some (w', a)) = Flows w w'

abbrev IdFlows : World → Option (ℕ × World) → Type 0
IdFlows w none = Unit {0}
IdFlows w (some (id, w')) = Flows w w'

IdFlows-trans : (u v : World) (o : Option (ℕ × World)) → Flows u v → IdFlows v o → IdFlows u o
IdFlows-trans u v none p h = tt
IdFlows-trans u v (some (id, w)) p h = Flows-trans p h

IdFlows-choice :
    (w v : World) (b : Bool) (rest : Option (ℕ × World))
    → Flows w v
    → IdFlows w rest
    → IdFlows w (if b then some (w.next_id, v) else rest)
IdFlows-choice w v true rest p h = p
IdFlows-choice w v false rest p h = h

allocate_from-Flows : (n : ℕ) (w : World) → IdFlows w (allocate_from n w)
unfolding allocate_from
allocate_from-Flows zero w = tt
allocate_from-Flows (suc n) w =
    let next = with_state (record w.state { next_id = id_after w.next_id }) w in
    let step : Flows w next = Flows-quiet w next refl refl in
    IdFlows-choice w next (not (w.next_id == 0) && not (has w.next_id w.pending))
      (allocate_from n next) step
      (IdFlows-trans w next (allocate_from n next) step (allocate_from-Flows n next))

with_id-Flows :
    {A : Type 0} (w : World) (o : Option (ℕ × World)) (enter : ℕ × World → World × A)
    → IdFlows w o
    → ((id : ℕ) (v : World) → Flows v (enter (id, v)).0)
    → ReturnFlows w (with_id o enter)
with_id-Flows w none enter h k = tt
with_id-Flows w (some (id, v)) enter h k = Flows-trans h (k id v)

open_checked-Flows :
    {B : Type 0} (w : World) (r : Result BridgeError B)
    (enter : B → ℕ × World → World × Result BridgeError Ticket)
    → ((b : B) → r ≡ ok b → (id : ℕ) (v : World) → Flows v (enter b (id, v)).0)
    → ReturnFlows w (open_checked w r enter)
unfolding allocate_id
open_checked-Flows w (err error) enter k = Flows-refl w
open_checked-Flows w (ok b) enter k =
    with_id-Flows w (allocate_id w) (enter b) (allocate_from-Flows _ w) (k b refl)

unless_dead-Flows :
    (t : Ticket) (w : World) (o : Option BridgeError) → Flows w (unless_dead t w o).0
unless_dead-Flows t w none = Flows-refl w
unless_dead-Flows t w (some error) = Flows-quiet w (delete t.id w) refl refl

pub begin_call-Flows :
    (codec : JsonCodec) (kind : ℕ) (given : (s : MetaSchema) → Option (Meta s))
    (body : Option (List ℕ)) (response : MetaSchema) (w : World)
    → ReturnFlows w (begin_call codec kind given body response w)
unfolding begin_call register_call
begin_call-Flows codec kind given body response w =
    open_checked-Flows w (check_call codec kind given body w) (register_call kind body response)
      (λ encoded e id v.
        Flows-trans (register-Flows id _ v (refl, refl)) (unless_dead-Flows _ (register id _ v) _))

-- A stream that is to be registered has nothing in flight.
abbrev Fresh : Result BridgeError (List ℕ × PendingStream) → Type 0
Fresh (err error) = Unit {0}
Fresh (ok (encoded, operation)) =
    (sent_of (stream operation) ≡ 0) × (acked_of (stream operation) ≡ 0)

register_stream-Flows :
    (kind : ℕ) (r : Result BridgeError (List ℕ × PendingStream)) (w : World)
    → Fresh r
    → ReturnFlows w (open_checked w r (register_stream kind))
unfolding register_stream
register_stream-Flows kind r w h =
    open_checked-Flows w r (register_stream kind)
      (λ (encoded, operation) e id v. register-Flows id (stream operation) v (subst Fresh e h))

check_stream-Fresh :
    (codec : JsonCodec) (meta : Option DebugStreamMeta) (w : World)
    → Fresh (check_stream codec meta w)
unfolding check_stream
check_stream-Fresh codec meta w = elim (Option-cases (get_dead w)) [
  | inr (error, e) ↦ rw (e, check_stream) tt
  | inl e ↦ elim (Option-cases meta) [
    | inl m ↦ rw (e, m, check_stream) tt
    | inr (meta', m) ↦ rw (e, m, check_stream) (refl, refl)
  ]
]

upload_for-Fresh :
    (b : Bool) (encoded : List ℕ) (guard : Bool) (error : BridgeError)
    → Fresh (
        if guard
        then err error
        else ok (
          encoded,
          record { expects_headers = true; headers_seen = false; upload = upload_for b },
        ))
upload_for-Fresh b encoded true error = tt
upload_for-Fresh true encoded false error = (refl, refl)
upload_for-Fresh false encoded false error = (refl, refl)

check_request-Fresh :
    (codec : JsonCodec) (meta : Option RequestMeta) (has_body : Bool) (w : World)
    → Fresh (check_request codec meta has_body w)
unfolding check_request
check_request-Fresh codec meta has_body w = elim (Option-cases (get_dead w)) [
  | inr (error, e) ↦ rw (e, check_request) tt
  | inl e ↦ elim (Option-cases (checked request meta)) [
    | inl m ↦ rw (e, m, check_request) tt
    | inr (meta', m) ↦ rw (e, m, check_request) (upload_for-Fresh _ _ _ _)
  ]
]

pub begin_web_socket-Flows :
    (codec : JsonCodec) (meta : Option WsConnectMeta) (w : World)
    → ReturnFlows w (begin_web_socket codec meta w)
unfolding begin_web_socket register_socket
begin_web_socket-Flows codec meta w =
    open_checked-Flows w (check_socket codec meta w) register_socket
      (λ encoded e id v. register-Flows id _ v (refl, refl))

pub begin_stream-Flows :
    (codec : JsonCodec) (meta : Option DebugStreamMeta) (w : World)
    → ReturnFlows w (begin_stream codec meta w)
unfolding begin_stream
begin_stream-Flows codec meta w =
    register_stream-Flows _ (check_stream codec meta w) w (check_stream-Fresh codec meta w)

pub begin_request-Flows :
    (codec : JsonCodec) (meta : Option RequestMeta) (has_body : Bool) (w : World)
    → ReturnFlows w (begin_request codec meta has_body w)
unfolding begin_request
begin_request-Flows codec meta has_body w =
    register_stream-Flows _ (check_request codec meta has_body w) w
      (check_request-Fresh codec meta has_body w)
