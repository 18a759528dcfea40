-- ===== src/Client/Sending.antt =====
-- `requestWith` of packages/effect-tls-client/src/TlsClient.ts with `request` of
-- packages/effect-tls-client/src/internal/Bridge.ts: from the caller's request to the bytes that the
-- Bridge reads.
use effect_tls_client.Prelude.{
  ℕ, ◌+◌, ◌≤◌, ◌<◌, Option, some, List, [], ◌∷◌, length, ap, ==_refl, ◌≡◌, refl, Bool, true, false,
  none, ok, arith,
}
use effect_tls_client.Protocol.Schema.{JsonCodec, is_some, encode_meta, request}
use effect_tls_client.Bridge.World.{World, State, get_dead}
use effect_tls_client.Bridge.Requests.{upload_for}
use effect_tls_client.Prelude.Assoc.{has, insert}
use effect_tls_client.Frame.Kind
use effect_tls_client.Frame.Codec.{decode_frame, max_frame_length}
use effect_tls_client.Bridge.World.{PendingStream, stream, emit, write}
use effect_tls_client.Bridge.Calls.{Ticket, with_id, write_first, after_write, delete_own}
use effect_tls_client.Bridge.Writing.{allocate_id, frame_input, register, max_id}
use effect_tls_client.Bridge.Written.{write_frame-frame_input}
use effect_tls_client.Bridge.Ids.{IsId, Allocated, allocate_id-Allocated}
use effect_tls_client.Bridge.Requests.{register_stream, begin_request}
use effect_tls_client.Client.Platform.{Platform}
use effect_tls_client.Client.Requests.{
  RequestTarget, RequestInput, NormalizedRequest, normalize_request, begin_request_with,
  request_meta,
}
use effect_tls_client.Client.Admission.{IsTarget, check_request-request_meta}

-- What `request` registers: a stream that waits for headers, with an upload if there is a body.
abbrev pub awaiting_headers : Bool → PendingStream
awaiting_headers has_body = record {
  expects_headers = true;
  headers_seen = false;
  upload = upload_for has_body;
}

-- A request on its way: it is registered under a free id, nothing has died, and its first frame is
-- written, from which the other side decodes the metadata.
pub record Sent (w : World) (has_body : Bool) (meta : List ℕ) (t : Ticket) (w' : World)
    : Type 0 where
  pub id_in_range : IsId t.id
  pub id_free : has t.id w.pending ≡ false
  pub registered : w'.pending ≡ insert t.id t.operation w.pending
  pub stored : w'.operations t.operation ≡ stream (awaiting_headers has_body)
  pub new_reference : t.operation ≡ w.fresh
  pub still_alive : w'.dead ≡ w.dead
  pub encoded : List ℕ
  pub written : write_first true t w' ≡ (emit (write encoded ∷ []) w', ok tt)
  pub decoded :
      decode_frame encoded ≡ ok (record { kind = Kind.request; id = t.id; meta = meta; body = [] })

IsId-32_bit : (id : ℕ) → IsId id → id < 4294967296
IsId-32_bit id h = omega arith

request_known : Kind.is_frame_kind Kind.request ≡ true
unfolding Kind.is_frame_kind
request_known = refl

register_stream-Sent :
    (w : World) (has_body : Bool) (meta : List ℕ) (r : Option (ℕ × World))
    → Allocated w r
    → 9 + length meta ≤ max_frame_length
    → (t : Ticket) × (w' : World) × (with_id r
          (register_stream Kind.request (meta, awaiting_headers has_body))
        ≡ some (w', ok t))
      × Sent w has_body meta t w'
unfolding register_stream register write_first
register_stream-Sent w has_body meta none a fits = absurd a
register_stream-Sent w has_body meta (some (id, v)) (range, free, later, same) fits =
    let w' = register id (stream (awaiting_headers has_body)) v in
    let (encoded, writes, reads) =
      write_frame-frame_input Kind.request id meta none w'
        (request_known, IsId-32_bit id range, omega (arith, fits)) in
    let t : Ticket = record {
      id = id;
      operation = v.fresh;
      input = frame_input Kind.request id meta none;
    } in
    (
      t,
      w',
      refl,
      record {
        id_in_range = range;
        id_free = free;
        registered = ap (insert id v.fresh) (ap World.pending same);
        stored = rw (==_refl v.fresh) refl;
        new_reference = ap World.fresh same;
        still_alive = ap (λ v. State.dead (World.state v)) same;
        encoded = encoded;
        written = ap (after_write (delete_own t)) writes;
        decoded = reads;
      },
    )

-- Where the Bridge is alive, its next id is from 1 to 2 ^ 32 - 1, fewer than 2 ^ 32 - 2 operations are
-- pending, the target is a session or a checked configuration, lower-casing "Content-Type" gives
-- "content-type", and the encoded metadata leaves a frame within its limit: a request that
-- `normalizeRequest` accepts is not refused by the Bridge. It is registered under an id in that range
-- that was free, as a new operation that waits for headers, with an upload exactly if the request has
-- a body, and the connection stays alive. Where the process takes bytes, its first frame is then
-- written, in one write, whose bytes decode as a request frame of this id with the metadata of the
-- request and no body.
pub begin_request_with-Sent :
    (p : Platform) (codec : JsonCodec) (w : World) (target : RequestTarget) (input : RequestInput p)
    (n : NormalizedRequest p)
    → p.lower "Content-Type" ≡ "content-type"
    → get_dead w ≡ none
    → IsId w.next_id
    → length w.pending + 1 < max_id
    → IsTarget target
    → normalize_request p input ≡ ok n
    → 9 + length (encode_meta codec request (request_meta p target n)) ≤ max_frame_length
    → (t : Ticket) × (w' : World) × (begin_request_with p codec target input w ≡ some (w', ok t))
      × Sent w (is_some n.body) (encode_meta codec request (request_meta p target n)) t w'
unfolding begin_request_with begin_request
begin_request_with-Sent p codec w target input n lowered alive id room known h fits =
    let (t, w', begins, sent) =
      register_stream-Sent w (is_some n.body) (encode_meta codec request (request_meta p target n))
        (allocate_id w) (allocate_id-Allocated w id room) fits in
    let passes = check_request-request_meta p codec w target input n lowered alive known h in
    (t, w', rw (h, begin_request_with, passes) begins, sent)
