-- ===== src/Client/SocketFailure.antt =====
-- Writes and reads of the socket of `makeWebSocketSocket` in
-- packages/effect-tls-client/src/TlsClient.ts: when they wait, and what they come to after a failure.
use Prim.Native.String.{String}
use effect_tls_client.Prelude.{
  ℕ, ◌≡◌, refl, sym, ap, ◌∙◌, Bool, true, false, not, ◌||◌, Option, none, some, List, contains,
  Result, ok, err, Bool-cases, Option-cases, inl, inr,
}
use effect_tls_client.Prelude.Int.{ℤ}
use effect_tls_client.Protocol.Metadata.{Opcode}
use effect_tls_client.Protocol.Schema.{is_some}
use effect_tls_client.Errors.{BridgeError, Message}
use effect_tls_client.Client.Failures.{SocketError}
use effect_tls_client.Client.SocketSteps.{SocketRun, Sound, SocketRun-Sound}
use effect_tls_client.Client.WebSockets.{
  byte_chunk, text_chunk, close_event, Socket, set_failure, close_connection, decrement, is_active,
  begin_read, set_failure_of, end_read, Chunk, Write, refused, waits_open, write_to, refused_or,
  write, end_write, close_managed,
}

abbrev pub is_waiting : Write → Bool
is_waiting waits_open = true
is_waiting _ = false

write_to-waiting : (active : ℕ) (chunk : Chunk) → is_waiting (write_to active chunk) ≡ false
write_to-waiting active (byte_chunk bytes) = refl
write_to-waiting active (text_chunk codes) = refl
write_to-waiting active (close_event code reason) = refl

refused_or-waiting :
    (failure : Option SocketError)
    → is_waiting (refused_or failure waits_open) ≡ not (is_some failure)
refused_or-waiting none = refl
refused_or-waiting (some e) = refl

write-waiting :
    (chunk : Chunk) (s : Socket)
    → is_waiting (write chunk s) ≡ not (is_some s.connection || is_some s.failure)
unfolding write
write-waiting chunk s = elim (Option-cases s.connection) [
  | inl e ↦ rw (e, write) (refused_or-waiting s.failure)
  | inr (active, e) ↦ rw (e, write) (write_to-waiting active chunk)
]

-- In every state that the socket may come to, a write waits at the latch exactly if the latch is
-- closed, and so never comes back to wait at an open one.
pub SocketRun-waiting :
    (is_timeout : Message → Bool) (s : Socket) (chunk : Chunk)
    → SocketRun is_timeout s
    → is_waiting (write chunk s) ≡ not s.latch_open
SocketRun-waiting is_timeout s chunk run =
    write-waiting chunk s ∙ ap not (sym (Sound.latched (SocketRun-Sound is_timeout s run)))

-- Steps of the fibers among which no reader begins and none is given its connection.
pub data Quiet (is_timeout : Message → Bool) (s : Socket) : Socket → Type 0 where
  at_rest : Quiet is_timeout s s
  and_read :
      {s' : Socket} (active : ℕ) (answer : Result BridgeError (Opcode × List ℕ))
      → Quiet is_timeout s s'
      → Quiet is_timeout s (end_read is_timeout active answer s').0
  and_write :
      {s' : Socket} (active : ℕ) (answer : Result BridgeError (Unit {0}))
      → Quiet is_timeout s s'
      → Quiet is_timeout s (end_write is_timeout active answer s').0
  and_close :
      {s' : Socket} (active : ℕ) (code : ℤ) (reason : String)
      → Quiet is_timeout s s'
      → Quiet is_timeout s (close_connection active code reason s')
  and_closed :
      {s' : Socket} (active : ℕ) → Quiet is_timeout s s' → Quiet is_timeout s (decrement active s')
  and_managed : {s' : Socket} → Quiet is_timeout s s' → Quiet is_timeout s (close_managed s')

-- The socket has failed with `e`.
abbrev Failed : SocketError → Socket → Type 0
Failed e s = (s.connection ≡ none) × (s.failure ≡ some e)

set_failure-Failed :
    (e error : SocketError) (s : Socket) → Failed e s → Failed e (set_failure error s)
unfolding set_failure
set_failure-Failed e error s (c, f) = (refl, rw f refl)

set_failure_of-Failed :
    (e : SocketError) (active : ℕ) (mapped : SocketError) (s : Socket)
    → Failed e s
    → Failed e (set_failure_of active mapped s).0
unfolding set_failure_of
set_failure_of-Failed e active mapped s h = elim (Bool-cases (is_active active s.connection)) [
  | inl same ↦ rw same (set_failure-Failed e mapped s h)
  | inr other ↦ rw other h
]

decrement-Failed :
    (e : SocketError) (active : ℕ) (s : Socket) → Failed e s → Failed e (decrement active s)
unfolding decrement
decrement-Failed e active s h = elim (Bool-cases (contains active s.counted_connections)) [
  | inl counted ↦ rw counted h
  | inr uncounted ↦ rw uncounted h
]

Quiet-Failed :
    (is_timeout : Message → Bool) (e : SocketError) (s s' : Socket)
    → Failed e s
    → Quiet is_timeout s s'
    → Failed e s'
unfolding end_read end_write close_connection close_managed
Quiet-Failed is_timeout e s _ h at_rest = h
Quiet-Failed is_timeout e s _ h (and_read active (ok (opcode, body)) run) =
    Quiet-Failed is_timeout e s _ h run
Quiet-Failed is_timeout e s _ h (and_read {s' = v} active (err error) run) =
    set_failure_of-Failed e active _ v (Quiet-Failed is_timeout e s v h run)
Quiet-Failed is_timeout e s _ h (and_write active (ok _) run) = Quiet-Failed is_timeout e s _ h run
Quiet-Failed is_timeout e s _ h (and_write {s' = v} active (err error) run) =
    set_failure_of-Failed e active _ v (Quiet-Failed is_timeout e s v h run)
Quiet-Failed is_timeout e s _ h (and_close {s' = v} active code reason run) =
    set_failure-Failed e _ v (Quiet-Failed is_timeout e s v h run)
Quiet-Failed is_timeout e s _ h (and_closed {s' = v} active run) =
    decrement-Failed e active v (Quiet-Failed is_timeout e s v h run)
Quiet-Failed is_timeout e s _ h (and_managed {s' = v} run) =
    let (c, f) = Quiet-Failed is_timeout e s v h run in rw (c, close_managed) (c, f)

-- Where the socket has no connection and has failed with an error: whatever its fibers do until a
-- reader begins or is given its connection, every write is refused with that first error, and so is
-- every read.
pub Quiet-refused :
    (is_timeout : Message → Bool) (e : SocketError) (s s' : Socket) (chunk : Chunk) (active : ℕ)
    → s.connection ≡ none
    → s.failure ≡ some e
    → Quiet is_timeout s s'
    → (write chunk s' ≡ refused e) × (begin_read active s' ≡ err e)
unfolding write begin_read
Quiet-refused is_timeout e s s' chunk active unconnected failed run =
    let (c, f) = Quiet-Failed is_timeout e s s' (unconnected, failed) run in
    (rw (c, write, f) refl, rw (c, begin_read, f) refl)
