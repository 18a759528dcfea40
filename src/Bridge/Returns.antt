-- ===== src/Bridge/Returns.antt =====
-- Rules for the `try` blocks of the handlers of
-- packages/effect-tls-client/src/internal/Bridge.ts: what a block settles, if it returns.
use Prim.Native.String.{String}
use effect_tls_client.Prelude.{
  ℕ, ◌≡◌, refl, Bool, true, false, Option, none, some, [], ◌∷◌, if◌then◌else◌, Result, ok, err,
  ◌>>=◌, ◌>>◌, throw_if, arith,
}
use effect_tls_client.Errors.{BridgeError}
use effect_tls_client.Bridge.World.{
  World, Operation, deferred, stream, websocket, PendingStream, Action, emit, set_operation,
}
use effect_tls_client.Bridge.Settle.{stop_upload}
use effect_tls_client.Bridge.ErrorFrames.{decoded, caught, complete_with_error}
use effect_tls_client.Bridge.Ledger.{
  ends, ended, Settles, ended-append, Settles-quiet, stop_upload-quiet,
}
use effect_tls_client.Bridge.Ending.{
  mark_dead-Settles, complete_pending-Settles, complete_websocket-Settles, complete_stream-Settles,
}

-- A block that may throw is related to the state that it returns, if it returns.
pub data OnReturn (R : World → World → Type 0) (w : World) : Result BridgeError World → Type 0 where
  returns : {w' : World} → R w w' → OnReturn R w (ok w')
  throws : {e : BridgeError} → OnReturn R w (err e)

pub OnReturn-throw :
    {R : World → World → Type 0} (w : World) (b : Bool) (e : BridgeError)
    (rest : Result BridgeError World)
    → OnReturn R w rest
    → OnReturn R w (throw_if b e >> rest)
OnReturn-throw w true e rest h = throws
OnReturn-throw w false e rest h = h

pub OnReturn-decoded {ℓ} :
    {R : World → World → Type 0} {A : Type ℓ} (w : World) (message : String) (o : Option A)
    (f : A → Result BridgeError World)
    → ((a : A) → OnReturn R w (f a))
    → OnReturn R w (decoded message o >>= f)
OnReturn-decoded w message none f h = throws
OnReturn-decoded w message (some a) f h = h a

pub OnReturn-if :
    {R : World → World → Type 0} (w : World) (b : Bool) (x y : Result BridgeError World)
    → OnReturn R w x
    → OnReturn R w y
    → OnReturn R w (if b then x else y)
OnReturn-if w true x y hx hy = hx
OnReturn-if w false x y hx hy = hy

pub caught-Settles :
    (w : World) (r : Result BridgeError World) → OnReturn Settles w r → Settles w (caught w r).0
caught-Settles w r (returns h) = h
caught-Settles w r (throws {e = e}) = mark_dead-Settles e w

-- One more action that ends nothing.
pub Settles-emit : (a : Action) (w : World) → ((r : ℕ) → ends r a ≡ 0) → Settles w (emit (a ∷ []) w)
unfolding ended
Settles-emit a w h =
    Settles-quiet w _ refl refl refl (λ r. omega (arith, ended-append r w.log (a ∷ []), h r))

pub Settles-set :
    (r : ℕ) (operation : Operation) (w : World) → Settles w (set_operation r operation w)
Settles-set r operation w = Settles-quiet w _ refl refl refl (λ s. refl)

pub stop_upload-Settles :
    (r : ℕ) (operation : PendingStream) (w : World) → Settles w (stop_upload r operation w)
stop_upload-Settles r operation w =
    let (p, e, d, f) = stop_upload-quiet r operation w in Settles-quiet w _ p d f e

pub complete_with_error-Settles :
    (id : ℕ) (operation : Operation) (e : BridgeError) (w : World)
    → Settles w (complete_with_error id operation e w)
unfolding complete_with_error
complete_with_error-Settles id (deferred operation) e w = complete_pending-Settles id (err e) w
complete_with_error-Settles id (stream operation) e w = complete_stream-Settles id (err e) w
complete_with_error-Settles id (websocket operation) e w = complete_websocket-Settles id e w
