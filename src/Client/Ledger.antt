-- ===== src/Client/Ledger.antt =====
-- The accounts of the sessions of packages/effect-tls-client/src/TlsClient.ts hold in every state that
-- a client may come to.
use effect_tls_client.Prelude.{
  ℕ, ◌≡◌, refl, ap, subst, ◌∙◌, Bool, true, false, none, some, List, ◌∷◌, ◌==◌, contains, arith,
  Bool-cases, ==_iff, ==_refl, inl, inr,
}
use effect_tls_client.Prelude.Tally.{tally, tally-note, tally-other}
use effect_tls_client.Prelude.Members.{contains-append, gone, kept, there, joined}
use effect_tls_client.Client.Accounts.{
  bit, destroys, raises, lowers, is_open, Accounts, destroy-Accounts, create-Accounts,
  idle-Accounts, ended-Accounts, Accounts-cast, begun-Accounts, due-Accounts, closed-Accounts,
}
use effect_tls_client.Client.Sessions.{
  Session, create_call, destroy_call, gauge_up, gauge_down, Clients, new_session, set_session,
  begin_session, destroy_session, destroy_ends, created, finalise, finalise_next,
}

abbrev pub AccountsOf : Clients → ℕ → Type 0
AccountsOf w r =
    Accounts (w.sessions r) (tally (destroys r) w.log) (tally (raises r) w.log)
      (tally (lowers r) w.log) (contains r w.active_sessions) (contains r w.due)

-- `destroySession` of `s`, as an account `r` sees it.
destroyed-AccountsOf :
    (s : ℕ) (w : Clients) (r : ℕ)
    → Session.destroy_sent (w.sessions s) ≡ false
    → Session.waiting (w.sessions s) ≡ false
    → AccountsOf w r
    → AccountsOf (destroy_session s w) r
unfolding destroy_session
destroyed-AccountsOf s w r unsent over a = elim (Bool-cases (r == s)) [
  | inl e ↦
      let same : r ≡ s = (==_iff r s).0 e in
      let a' : AccountsOf w s = subst (AccountsOf w) same a in
      let session : Session = record (w.sessions s) {
        destroy_sent = true;
        destroying = some (Session.session_active (w.sessions s));
      } in
      rw (unsent, e, same)
        (Accounts-cast session
          (tally-note (destroys s) (destroy_call s) w.log 1 (ap bit (==_refl s)))
          (tally-other (raises s) (destroy_call s) w.log refl)
          (tally-other (lowers s) (destroy_call s) w.log refl) (gone s w.active_sessions) refl
          (destroy-Accounts _ _ _ _ _ _ unsent over a'))
  | inr e ↦
      rw (unsent, e)
        (Accounts-cast (w.sessions r) (tally-other (destroys r) (destroy_call s) w.log (ap bit e))
          (tally-other (raises r) (destroy_call s) w.log refl)
          (tally-other (lowers r) (destroy_call s) w.log refl) (kept r s w.active_sessions e) refl
          a)
]

pub destroy_session-AccountsOf :
    (s : ℕ) (w : Clients) (r : ℕ)
    → Session.waiting (w.sessions s) ≡ false
    → AccountsOf w r
    → AccountsOf (destroy_session s w) r
unfolding destroy_session
destroy_session-AccountsOf s w r over a = elim (Bool-cases (Session.destroy_sent (w.sessions s))) [
  | inl sent ↦ rw sent a
  | inr unsent ↦ destroyed-AccountsOf s w r unsent over a
]

pub created-AccountsOf :
    (s : ℕ) (w : Clients) (r : ℕ)
    → Session.waiting (w.sessions s) ≡ true
    → AccountsOf w r
    → AccountsOf (created s w) r
unfolding created
created-AccountsOf s w r waits a = elim (Bool-cases (r == s)) [
  | inl e ↦
      let same : r ≡ s = (==_iff r s).0 e in
      let a' : AccountsOf w s = subst (AccountsOf w) same a in
      let session : Session = record (w.sessions s) { waiting = false; session_active = true } in
      rw (e, same)
        (Accounts-cast session (tally-other (destroys s) (gauge_up s) w.log refl)
          (tally-note (raises s) (gauge_up s) w.log 1 (ap bit (==_refl s)))
          (tally-other (lowers s) (gauge_up s) w.log refl) (there s w.active_sessions) refl
          (create-Accounts _ _ _ _ _ _ waits a'))
  | inr e ↦ rw e (
      Accounts-cast (w.sessions r) (tally-other (destroys r) (gauge_up s) w.log refl)
        (tally-other (raises r) (gauge_up s) w.log (ap bit e))
        (tally-other (lowers r) (gauge_up s) w.log refl) (joined r s w.active_sessions e) refl a)
]

pub idle-AccountsOf :
    (s : ℕ) (w : Clients) (r : ℕ)
    → AccountsOf w r
    → AccountsOf (set_session s (record (w.sessions s) { waiting = false }) w) r
idle-AccountsOf s w r a = elim (Bool-cases (r == s)) [
  | inl e ↦
      let same : r ≡ s = (==_iff r s).0 e in
      rw (e, same) (idle-Accounts _ _ _ _ _ _ (subst (AccountsOf w) same a))
  | inr e ↦ rw e a
]

pub destroy_ends-AccountsOf :
    (s : ℕ) (counted : Bool) (w : Clients) (r : ℕ)
    → Session.destroying (w.sessions s) ≡ some counted
    → AccountsOf w r
    → AccountsOf (destroy_ends s counted w) r
unfolding destroy_ends
destroy_ends-AccountsOf s true w r taken a = elim (Bool-cases (r == s)) [
  | inl e ↦
      let same : r ≡ s = (==_iff r s).0 e in
      let session : Session = record (w.sessions s) { destroying = none } in
      rw (e, same)
        (Accounts-cast session (tally-other (destroys s) (gauge_down s) w.log refl)
          (tally-other (raises s) (gauge_down s) w.log refl)
          (tally-note (lowers s) (gauge_down s) w.log 1 (ap bit (==_refl s))) refl refl
          (ended-Accounts _ _ _ _ _ _ true taken (subst (AccountsOf w) same a)))
  | inr e ↦ rw e (
      Accounts-cast (w.sessions r) (tally-other (destroys r) (gauge_down s) w.log refl)
        (tally-other (raises r) (gauge_down s) w.log refl)
        (tally-other (lowers r) (gauge_down s) w.log (ap bit e)) refl refl a)
]
destroy_ends-AccountsOf s false w r taken a = elim (Bool-cases (r == s)) [
  | inl e ↦
      let same : r ≡ s = (==_iff r s).0 e in
      let session : Session = record (w.sessions s) { destroying = none } in
      rw (e, same)
        (Accounts-cast session refl refl (omega arith) refl refl
          (ended-Accounts _ _ _ _ _ _ false taken (subst (AccountsOf w) same a)))
  | inr e ↦ rw e a
]

pub begin_session-AccountsOf :
    (w : Clients) (r : ℕ)
    → w.sessions w.fresh ≡ new_session
    → AccountsOf w r
    → AccountsOf (begin_session w) r
unfolding begin_session
begin_session-AccountsOf w r unused a = elim (Bool-cases (r == w.fresh)) [
  | inl e ↦
      let same : r ≡ w.fresh = (==_iff r w.fresh).0 e in
      let a' : AccountsOf w w.fresh = subst (AccountsOf w) same a in
      rw (e, same)
        (Accounts-cast (record new_session { waiting = true })
          (tally-other (destroys w.fresh) (create_call w.fresh) w.log refl)
          (tally-other (raises w.fresh) (create_call w.fresh) w.log refl)
          (tally-other (lowers w.fresh) (create_call w.fresh) w.log refl) refl refl
          (begun-Accounts _ _ _ _ _ (
            subst
              (λ s.
                Accounts s (tally (destroys w.fresh) w.log) (tally (raises w.fresh) w.log)
                  (tally (lowers w.fresh) w.log) (contains w.fresh w.active_sessions)
                  (contains w.fresh w.due))
              unused a')))
  | inr e ↦ rw e (
      Accounts-cast (w.sessions r) (tally-other (destroys r) (create_call w.fresh) w.log refl)
        (tally-other (raises r) (create_call w.fresh) w.log refl)
        (tally-other (lowers r) (create_call w.fresh) w.log refl) refl refl a)
]

pub finalise-AccountsOf : (w : Clients) (r : ℕ) → AccountsOf w r → AccountsOf (finalise w) r
unfolding finalise
finalise-AccountsOf w r a =
    Accounts-cast (w.sessions r) refl refl refl refl (contains-append r w.due w.active_sessions)
      (due-Accounts _ _ _ _ _ _ a)

-- What stands first in `due` is active.
pub due-first :
    (w : Clients) (r : ℕ) (rest : List ℕ)
    → w.due ≡ r ∷ rest
    → AccountsOf w r
    → Session.session_active (w.sessions r) ≡ true
due-first w r rest e a =
    let due : contains r w.due ≡ true = rw (e, ==_refl r) refl in ground (arith, due, a.due_active)

-- Of a session that is not open, one place in `due` may go.
pop-AccountsOf :
    (w : Clients) (s : ℕ) (rest : List ℕ) (r : ℕ)
    → w.due ≡ s ∷ rest
    → is_open (w.sessions s) ≡ false
    → AccountsOf w r
    → AccountsOf (record w { due = rest }) r
pop-AccountsOf w s rest r e shut a = elim (Bool-cases (r == s)) [
  | inl same ↦
      let there_too : contains r w.due ≡ true = rw (e, same) refl in
      closed-Accounts _ _ _ _ _ (contains r w.due) _ (rw ((==_iff r s).0 same) shut)
        (ground (arith, there_too)) a
  | inr other ↦
      let as_before : contains r rest ≡ contains r w.due = rw (e, other) refl in
      Accounts-cast (w.sessions r) refl refl refl refl as_before a
]

pub finalise_next-destroy_session :
    (s : ℕ) (rest : List ℕ) (w : Clients)
    → finalise_next s rest w ≡ record (destroy_session s w) { due = rest }
unfolding finalise_next destroy_session
finalise_next-destroy_session s rest w = elim (Bool-cases (Session.destroy_sent (w.sessions s))) [
  | inl sent ↦ rw sent refl
  | inr unsent ↦ rw unsent refl
]

destroy_session-closed : (s : ℕ) (w : Clients) → is_open ((destroy_session s w).sessions s) ≡ false
unfolding destroy_session
destroy_session-closed s w = elim (Bool-cases (Session.destroy_sent (w.sessions s))) [
  | inl sent ↦ rw (sent, sent) (ground arith)
  | inr unsent ↦ rw (unsent, ==_refl s) (ground arith)
]

destroy_session-due : (s : ℕ) (w : Clients) → (destroy_session s w).due ≡ w.due
unfolding destroy_session
destroy_session-due s w = elim (Bool-cases (Session.destroy_sent (w.sessions s))) [
  | inl sent ↦ rw sent refl
  | inr unsent ↦ rw unsent refl
]

pub finalise_next-AccountsOf :
    (s : ℕ) (rest : List ℕ) (w : Clients) (r : ℕ)
    → w.due ≡ s ∷ rest
    → AccountsOf w s
    → AccountsOf w r
    → AccountsOf (finalise_next s rest w) r
finalise_next-AccountsOf s rest w r e as' a =
    let active = due-first w s rest e as' in
    let over : Session.waiting (w.sessions s) ≡ false =
      ground (arith, active, Accounts.untouched as') in
    rw (finalise_next-destroy_session s rest w) (
      pop-AccountsOf (destroy_session s w) s rest r (destroy_session-due s w ∙ e)
        (destroy_session-closed s w) (destroy_session-AccountsOf s w r over a))
