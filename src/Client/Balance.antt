-- ===== src/Client/Balance.antt =====
-- What holds in every state that a client of packages/effect-tls-client/src/TlsClient.ts may come to:
-- the destroy calls and the metric of each session, and what the layer's finaliser leaves.
use effect_tls_client.Prelude.{ℕ, ◌+◌, ◌≤◌, ◌≡◌, refl, Bool, false, [], arith}
use effect_tls_client.Prelude.Tally.{tally}
use effect_tls_client.Client.Accounts.{bit, destroys, raises, lowers, held, is_open, Accounts}
use effect_tls_client.Client.Lifecycles.{Life, absent, session_of, Implements}
use effect_tls_client.Client.Simulation.{ClientStep-Simulated}
use effect_tls_client.Client.Sessions.{
  Session, Clients, no_sessions, Clientele, no_session_yet, after,
}

no_sessions-Implements : Implements no_sessions (λ r. absent)
unfolding session_of tally
no_sessions-Implements = record {
  known = λ r. refl;
  numbered = λ r. ground arith;
  accounts = λ r. record {
    destroyed_once = refl;
    raised_once = refl;
    lowered_once = omega arith;
    untouched = refl;
    listed_open = refl;
    open_listed = refl;
    due_active = refl;
  };
}

pub Clientele-Implements : (w : Clients) → Clientele w → (lives : ℕ → Life) × Implements w lives
Clientele-Implements _ no_session_yet = (_, no_sessions-Implements)
Clientele-Implements w (after {w = v} before step) =
    let (lives, i) = Clientele-Implements v before in
    let s = ClientStep-Simulated v w lives i step in (s.lives_after, s.implements)

-- What a session adds to the gauge: 1 while it is open, and while the destroy call of one that was
-- open waits for its answer.
unfoldable pub gauge_of : Session → ℕ
gauge_of s = bit (is_open s) + held s.destroying

balance :
    (s : Session) (d u l : ℕ) (listed due : Bool)
    → Accounts s d u l listed due
    → (d ≤ 1) × (u ≤ 1) × (u ≡ l + gauge_of s)
unfolding gauge_of
balance s d u l listed due a = (
  ground (arith, a.destroyed_once),
  ground (arith, a.raised_once),
  ground (arith, a.raised_once, a.lowered_once),
)

-- In every state that a client may come to, in any interleaving of its fibers: each session has had
-- one destroy call at most, and has raised the gauge of active sessions as often as it has lowered
-- it, once at most, but for the 1 that it adds while it is open or its destroy call waits.
pub Clientele-balance :
    (w : Clients) (r : ℕ)
    → Clientele w
    → (tally (destroys r) w.log ≤ 1)
      × (tally (raises r) w.log ≤ 1)
      × (tally (raises r) w.log ≡ tally (lowers r) w.log + gauge_of (w.sessions r))
Clientele-balance w r reached =
    let (lives, i) = Clientele-Implements w reached in balance _ _ _ _ _ _ (i.accounts r)

settled :
    (s : Session) (d u l : ℕ) (listed due : Bool)
    → listed ≡ false
    → due ≡ false
    → Accounts s d u l listed due
    → u ≤ d
settled s d u l listed due e f a =
    ground (arith, e, f, a.raised_once, a.destroyed_once, a.open_listed)

-- In every state that a client may come to in which the map of active sessions is empty and its
-- finaliser has come to the end of its loop: each session whose create call has succeeded has had its
-- destroy call.
pub Clientele-settled :
    (w : Clients) (r : ℕ)
    → Clientele w
    → w.active_sessions ≡ []
    → w.due ≡ []
    → tally (raises r) w.log ≤ tally (destroys r) w.log
Clientele-settled w r reached e f =
    let (lives, i) = Clientele-Implements w reached in
    settled _ _ _ (tally (lowers r) w.log) _ _ (rw e refl) (rw f refl) (i.accounts r)
