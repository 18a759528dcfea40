-- ===== src/Client/SocketSteps.antt =====
-- The socket of `makeWebSocketSocket` in packages/effect-tls-client/src/TlsClient.ts along the steps of
-- its fibers: its latch, its failure and the metric of open connections.
use Prim.Native.String.{String}
use effect_tls_client.Prelude.{
  ℕ, ◌+◌, ◌≤◌, ◌≡◌, refl, sym, ap, Bool, true, false, not, ◌&&◌, ◌||◌, List, ◌==◌, ltb, contains,
  Result, ok, err, arith, Bool-cases, Option-cases, ==_iff, ==_refl, inl, inr,
}
use effect_tls_client.Prelude.Int.{ℤ, pos}
use effect_tls_client.Prelude.Tally.{tally, tally-note, tally-other}
use effect_tls_client.Prelude.Members.{gone, kept, there, joined}
use effect_tls_client.Protocol.Metadata.{Opcode}
use effect_tls_client.Protocol.Schema.{is_some}
use effect_tls_client.Errors.{BridgeError, Message}
use effect_tls_client.Client.Accounts.{bit}
use effect_tls_client.Client.Failures.{SocketError}
use effect_tls_client.Client.WebSockets.{
  SocketAction, close_call, connections_up, connections_down, Socket, new_socket, set_failure,
  close_connection, decrement, begin_reader, reader_opened, is_active, set_failure_of, end_read,
  end_write, close_managed,
}

-- A step of one of the fibers that share the socket. What the Bridge answers, and when, is open.
pub data SocketStep (is_timeout : Message → Bool) (s : Socket) : Socket → Type 0 where
  reader_begins : SocketStep is_timeout s (begin_reader s)
  reader_opens : SocketStep is_timeout s (reader_opened s)
  frame_read :
      (active : ℕ) (answer : Result BridgeError (Opcode × List ℕ))
      → SocketStep is_timeout s (end_read is_timeout active answer s).0
  chunk_written :
      (active : ℕ) (answer : Result BridgeError (Unit {0}))
      → SocketStep is_timeout s (end_write is_timeout active answer s).0
  connection_closes :
      (active : ℕ) (code : ℤ) (reason : String)
      → SocketStep is_timeout s (close_connection active code reason s)
  close_ends : (active : ℕ) → SocketStep is_timeout s (decrement active s)
  managed_closes : SocketStep is_timeout s (close_managed s)

-- What a socket may come to.
pub data SocketRun (is_timeout : Message → Bool) : Socket → Type 0 where
  unused : SocketRun is_timeout new_socket
  after :
      {s s' : Socket}
      → SocketRun is_timeout s
      → SocketStep is_timeout s s'
      → SocketRun is_timeout s'

abbrev pub ups : ℕ → SocketAction → ℕ
ups r (connections_up s) = bit (r == s)
ups r _ = 0

abbrev pub downs : ℕ → SocketAction → ℕ
downs r (connections_down s) = bit (r == s)
downs r _ = 0

-- One connection's part of the metric against the set of counted connections.
pub record Counted (raised lowered : ℕ) (opened counted : Bool) : Type 0 where
  pub raised_once : raised ≡ bit opened
  pub balanced : raised ≡ lowered + bit counted
  pub counted_opened : (counted && not opened) ≡ false

abbrev CountedIn : Socket → ℕ → Type 0
CountedIn s r =
    Counted (tally (ups r) s.log) (tally (downs r) s.log) (ltb r s.fresh)
      (contains r s.counted_connections)

pub record Sound (s : Socket) : Type 0 where
  pub latched : s.latch_open ≡ (is_some s.connection || is_some s.failure)
  pub counted : (r : ℕ) → CountedIn s r

set_failure-Sound : (error : SocketError) (s : Socket) → Sound s → Sound (set_failure error s)
unfolding set_failure
set_failure-Sound error s h = record { latched = refl; counted = h.counted }

set_failure_of-Sound :
    (active : ℕ) (mapped : SocketError) (s : Socket)
    → Sound s
    → Sound (set_failure_of active mapped s).0
unfolding set_failure_of
set_failure_of-Sound active mapped s h = elim (Bool-cases (is_active active s.connection)) [
  | inl e ↦ rw e (set_failure-Sound mapped s h)
  | inr e ↦ rw e h
]

end_read-Sound :
    (is_timeout : Message → Bool) (active : ℕ) (answer : Result BridgeError (Opcode × List ℕ))
    (s : Socket)
    → Sound s
    → Sound (end_read is_timeout active answer s).0
unfolding end_read
end_read-Sound is_timeout active (ok (opcode, body)) s h = h
end_read-Sound is_timeout active (err error) s h = set_failure_of-Sound active _ s h

end_write-Sound :
    (is_timeout : Message → Bool) (active : ℕ) (answer : Result BridgeError (Unit {0})) (s : Socket)
    → Sound s
    → Sound (end_write is_timeout active answer s).0
unfolding end_write
end_write-Sound is_timeout active (ok _) s h = h
end_write-Sound is_timeout active (err error) s h = set_failure_of-Sound active _ s h

Counted-cast :
    {u u' d d' : ℕ} {opened opened' counted counted' : Bool}
    → u' ≡ u
    → d' ≡ d
    → opened' ≡ opened
    → counted' ≡ counted
    → Counted u d opened counted
    → Counted u' d' opened' counted'
Counted-cast eu ed eo ec h = rw (eu, ed, eo, ec) h

open-Counted : (u d : ℕ) (counted : Bool) → Counted u d false counted → Counted (u + 1) d true true
open-Counted u d counted h = record {
  raised_once = ground (arith, h.raised_once);
  balanced = ground (arith, h.balanced, h.counted_opened);
  counted_opened = refl;
}

close-Counted : (u d : ℕ) (opened : Bool) → Counted u d opened true → Counted u (d + 1) opened false
close-Counted u d opened h = record {
  raised_once = h.raised_once;
  balanced = ground (arith, h.balanced);
  counted_opened = refl;
}

close_connection-Sound :
    (active : ℕ) (code : ℤ) (reason : String) (s : Socket)
    → Sound s
    → Sound (close_connection active code reason s)
unfolding close_connection set_failure
close_connection-Sound active code reason s h = record {
  latched = refl;
  counted = λ r.
      Counted-cast (tally-other (ups r) (close_call active code reason) s.log refl)
        (tally-other (downs r) (close_call active code reason) s.log refl) refl refl (h.counted r);
}

close_managed-Sound : (s : Socket) → Sound s → Sound (close_managed s)
unfolding close_managed
close_managed-Sound s h = elim (Option-cases s.connection) [
  | inl e ↦ rw (e, close_managed) h
  | inr (active, e) ↦ rw (e, close_managed) (close_connection-Sound active (pos 1000) "" s h)
]

reader_opened-Sound : (s : Socket) → Sound s → Sound (reader_opened s)
unfolding reader_opened
reader_opened-Sound s h = record {
  latched = refl;
  counted = λ r. elim (Bool-cases (r == s.fresh)) [
    | inl e ↦
        let same : r ≡ s.fresh = (==_iff r s.fresh).0 e in
        let unopened : false ≡ ltb s.fresh s.fresh = ground arith in
        rw same (
          Counted-cast
            (tally-note (ups s.fresh) (connections_up s.fresh) s.log 1 (ap bit (==_refl s.fresh)))
            (tally-other (downs s.fresh) (connections_up s.fresh) s.log refl) (ground arith)
            (there s.fresh s.counted_connections)
            (open-Counted _ _ _ (Counted-cast refl refl unopened refl (h.counted s.fresh))))
    | inr e ↦
        Counted-cast (tally-other (ups r) (connections_up s.fresh) s.log (ap bit e))
          (tally-other (downs r) (connections_up s.fresh) s.log refl) (ground (arith, e))
          (joined r s.fresh s.counted_connections e) (h.counted r)
  ];
}

decrement-Sound : (active : ℕ) (s : Socket) → Sound s → Sound (decrement active s)
unfolding decrement
decrement-Sound active s h = elim (Bool-cases (contains active s.counted_connections)) [
  | inl counted ↦ rw counted (record {
    latched = h.latched;
    counted = λ r. elim (Bool-cases (r == active)) [
      | inl e ↦ rw ((==_iff r active).0 e) (
          Counted-cast (tally-other (ups active) (connections_down active) s.log refl)
            (tally-note (downs active) (connections_down active) s.log 1 (ap bit (==_refl active)))
            refl (gone active s.counted_connections)
            (close-Counted _ _ _ (Counted-cast refl refl refl (sym counted) (h.counted active))))
      | inr e ↦
          Counted-cast (tally-other (ups r) (connections_down active) s.log refl)
            (tally-other (downs r) (connections_down active) s.log (ap bit e)) refl
            (kept r active s.counted_connections e) (h.counted r)
    ];
  })
  | inr uncounted ↦ rw uncounted h
]

SocketStep-Sound :
    (is_timeout : Message → Bool) (s s' : Socket) → Sound s → SocketStep is_timeout s s' → Sound s'
unfolding begin_reader
SocketStep-Sound is_timeout s _ h reader_begins = record { latched = refl; counted = h.counted }
SocketStep-Sound is_timeout s _ h reader_opens = reader_opened-Sound s h
SocketStep-Sound is_timeout s _ h (frame_read active answer) =
    end_read-Sound is_timeout active answer s h
SocketStep-Sound is_timeout s _ h (chunk_written active answer) =
    end_write-Sound is_timeout active answer s h
SocketStep-Sound is_timeout s _ h (connection_closes active code reason) =
    close_connection-Sound active code reason s h
SocketStep-Sound is_timeout s _ h (close_ends active) = decrement-Sound active s h
SocketStep-Sound is_timeout s _ h managed_closes = close_managed-Sound s h

pub SocketRun-Sound : (is_timeout : Message → Bool) (s : Socket) → SocketRun is_timeout s → Sound s
unfolding tally
SocketRun-Sound is_timeout _ unused = record {
  latched = refl;
  counted =
      λ r. record { raised_once = ground arith; balanced = omega arith; counted_opened = refl };
}
SocketRun-Sound is_timeout s (after {s = before} run step) =
    SocketStep-Sound is_timeout before s (SocketRun-Sound is_timeout before run) step

-- In every state that the socket may come to: each connection has raised the gauge of open
-- connections once at most, and lowered it again exactly if it is no longer counted.
pub SocketRun-balance :
    (is_timeout : Message → Bool) (s : Socket) (r : ℕ)
    → SocketRun is_timeout s
    → (tally (ups r) s.log ≤ 1)
      × (tally (ups r) s.log ≡ tally (downs r) s.log + bit (contains r s.counted_connections))
SocketRun-balance is_timeout s r run =
    let counted = Sound.counted (SocketRun-Sound is_timeout s run) r in
    (ground (arith, Counted.raised_once counted), Counted.balanced counted)
