-- ===== src/Client/Sessions.antt =====
-- The sessions of a TlsClient: the layer's `activeSessions`, `session`, `destroySession` and the
-- layer's finaliser in packages/effect-tls-client/src/TlsClient.ts. A session is the number of its
-- `session` call, which stands for its id too, since `crypto.randomUUID` gives each a new one. Each
-- fiber is cut into the steps between its waits for the Bridge; the calls of the Bridge and of the
-- metric `sessionsActive` are a log.
use effect_tls_client.Prelude.{
  ℕ, suc, ◌<◌, ◌≡◌, Bool, true, false, Option, none, some, List, [], ◌∷◌, ◌++◌, ◌==◌, if◌then◌else◌,
  Result, ok, err,
}
use effect_tls_client.Prelude.Members.{add_id, delete_id}
use effect_tls_client.Protocol.Metadata.{SessionConfig}
use effect_tls_client.Errors.{BridgeError}
use effect_tls_client.Client.Requests.{normalize_config}

-- The variables of one `session` call. `waiting` is its fiber in the create call; `destroying` a
-- fiber in the destroy call, with the value of `sessionActive` that it took along.
pub record Session : Type 0 where
  pub waiting : Bool
  pub destroy_sent : Bool
  pub session_active : Bool
  pub destroying : Option Bool

pub data ClientAction : Type 0 where
  create_call : ℕ → ClientAction
  destroy_call : ℕ → ClientAction
  gauge_up : ℕ → ClientAction
  gauge_down : ℕ → ClientAction

-- `due` holds what the loop of the layer's finaliser has not come to.
pub record Clients : Type 0 where
  pub fresh : ℕ
  pub sessions : ℕ → Session
  pub active_sessions : List ℕ
  pub due : List ℕ
  pub log : List ClientAction

abbrev pub new_session : Session
new_session = record {
  waiting = false;
  destroy_sent = false;
  session_active = false;
  destroying = none;
}

abbrev pub no_sessions : Clients
no_sessions = record {
  fresh = 0;
  sessions = λ r. new_session;
  active_sessions = [];
  due = [];
  log = [];
}

abbrev pub set_session : ℕ → Session → Clients → Clients
set_session r session w = record w {
  sessions = λ other. if other == r then session else w.sessions other;
}

abbrev pub note : List ClientAction → Clients → Clients
note actions w = record w { log = w.log ++ actions }

-- A `session` call up to its wait for the create call.
unfoldable pub begin_session : Clients → Clients
begin_session w =
    note (create_call w.fresh ∷ []) (
      set_session w.fresh (record new_session { waiting = true })
        (record w { fresh = suc w.fresh }))

unfoldable pub session : SessionConfig → Clients → Clients × Result BridgeError ℕ
unfolding begin_session
session config w = elim (normalize_config config) [
  | err error ↦ (w, err error)
  | ok checked ↦ (begin_session w, ok w.fresh)
]

-- `destroySession` up to its wait for the destroy call.
unfoldable pub destroy_session : ℕ → Clients → Clients
destroy_session r w =
    let s = w.sessions r in
    if s.destroy_sent
    then w
    else note (destroy_call r ∷ []) (
        set_session r (record s { destroy_sent = true; destroying = some s.session_active })
          (record w { active_sessions = delete_id r w.active_sessions }))

abbrev pub lower_gauge : ℕ → Bool → Clients → Clients
lower_gauge r true w = note (gauge_down r ∷ []) w
lower_gauge r false w = w

-- The rest of `destroySession`, however the call has ended.
unfoldable pub destroy_ends : ℕ → Bool → Clients → Clients
destroy_ends r counted w =
    lower_gauge r counted (set_session r (record (w.sessions r) { destroying = none }) w)

-- The create call has succeeded.
unfoldable pub created : ℕ → Clients → Clients
created r w = note (gauge_up r ∷ []) (
    set_session r (record (w.sessions r) { waiting = false; session_active = true })
      (record w { active_sessions = add_id r w.active_sessions }))

-- The create call has failed, or is interrupted.
unfoldable pub create_failed : ℕ → Clients → Clients
unfolding destroy_session
create_failed r w = destroy_session r (set_session r (record (w.sessions r) { waiting = false }) w)

-- The layer's finaliser takes all destroyers out of the map, and runs them one after the other.
unfoldable pub finalise : Clients → Clients
finalise w = record w { active_sessions = []; due = w.due ++ w.active_sessions }

unfoldable pub finalise_next : ℕ → List ℕ → Clients → Clients
unfolding destroy_session
finalise_next r rest w = destroy_session r (record w { due = rest })

-- A step of one of the fibers. A session's scope or an interruption destroys it once its create call
-- is over.
pub data ClientStep (w : Clients) : Clients → Type 0 where
  session_begins : ClientStep w (begin_session w)
  create_answered : (r : ℕ) → Session.waiting (w.sessions r) ≡ true → ClientStep w (created r w)
  create_fails : (r : ℕ) → Session.waiting (w.sessions r) ≡ true → ClientStep w (create_failed r w)
  session_released :
      (r : ℕ)
      → r < w.fresh
      → Session.waiting (w.sessions r) ≡ false
      → ClientStep w (destroy_session r w)
  destroy_answered :
      (r : ℕ) (counted : Bool)
      → Session.destroying (w.sessions r) ≡ some counted
      → ClientStep w (destroy_ends r counted w)
  layer_closes : ClientStep w (finalise w)
  layer_destroys :
      (r : ℕ) (rest : List ℕ) → w.due ≡ r ∷ rest → ClientStep w (finalise_next r rest w)

-- What a client may come to.
pub data Clientele : Clients → Type 0 where
  no_session_yet : Clientele no_sessions
  after : {w w' : Clients} → Clientele w → ClientStep w w' → Clientele w'
