-- ===== src/Client/Destroying.antt =====
-- The ends of the calls and the destructions of sessions of packages/effect-tls-client/src/TlsClient.ts
-- are steps of the abstract view.
use effect_tls_client.Prelude.{
  ℕ, ◌≡◌, refl, sym, ap, subst, ◌∙◌, Bool, true, false, none, some, ◌==◌, if◌then◌else◌, arith,
  Bool-cases, ==_refl, inl, inr,
}
use effect_tls_client.Client.Ledger.{
  destroy_session-AccountsOf, created-AccountsOf, idle-AccountsOf, destroy_ends-AccountsOf,
}
use effect_tls_client.Client.Lifecycles.{
  Life, absent, creating, live, leaving, gone, succeeds, fails, closes, ends, change, stays, moves,
  session_of, is_begun, Implements, change-Implements, Simulated,
}
use effect_tls_client.Client.Sessions.{
  Session, Clients, new_session, set_session, destroy_session, destroy_ends, created, create_failed,
}

waiting-creating : (life : Life) → Session.waiting (session_of life) ≡ true → life ≡ creating
unfolding session_of
waiting-creating creating h = refl
waiting-creating absent h = absurd (ground arith)
waiting-creating live h = absurd (ground arith)
waiting-creating (leaving c) h = absurd (ground arith)
waiting-creating (gone c) h = absurd (ground arith)

destroying-leaving :
    (life : Life) (counted : Bool)
    → Session.destroying (session_of life) ≡ some counted
    → life ≡ leaving counted
unfolding session_of
destroying-leaving creating counted h = absurd (ground arith)
destroying-leaving absent counted h = absurd (ground arith)
destroying-leaving live counted h = absurd (ground arith)
destroying-leaving (leaving c) counted h = cc
destroying-leaving (gone c) counted h = absurd (ground arith)

ended_sessions :
    (s : ℕ) (counted : Bool) (w : Clients) (r : ℕ)
    → (destroy_ends s counted w).sessions r
      ≡ (if r == s then record (w.sessions s) { destroying = none } else w.sessions r)
unfolding destroy_ends
ended_sessions s true w r = refl
ended_sessions s false w r = refl

ended_fresh : (s : ℕ) (counted : Bool) (w : Clients) → (destroy_ends s counted w).fresh ≡ w.fresh
unfolding destroy_ends
ended_fresh s true w = refl
ended_fresh s false w = refl

pub create_answered-Simulated :
    (w : Clients) (lives : ℕ → Life) (s : ℕ)
    → Implements w lives
    → Session.waiting (w.sessions s) ≡ true
    → Simulated (created s w) lives
unfolding created session_of
create_answered-Simulated w lives s i waits =
    let e : lives s ≡ creating =
      waiting-creating (lives s) (sym (ap Session.waiting (i.known s)) ∙ waits) in
    record {
      lives_after = change s live lives;
      implements =
          change-Implements w (created s w) lives s _ live i (λ r. refl) refl
            (rw (i.known s, e) refl) (ap is_begun e) refl
            (λ r. created-AccountsOf s w r waits (i.accounts r));
      move = moves s live (rw e succeeds);
    }

pub destroy_answered-Simulated :
    (w : Clients) (lives : ℕ → Life) (s : ℕ) (counted : Bool)
    → Implements w lives
    → Session.destroying (w.sessions s) ≡ some counted
    → Simulated (destroy_ends s counted w) lives
unfolding session_of
destroy_answered-Simulated w lives s counted i taken =
    let e : lives s ≡ leaving counted =
      destroying-leaving (lives s) counted (sym (ap Session.destroying (i.known s)) ∙ taken) in
    record {
      lives_after = change s (gone counted) lives;
      implements =
          change-Implements w (destroy_ends s counted w) lives s
            (record (w.sessions s) { destroying = none }) (gone counted) i
            (λ r. ended_sessions s counted w r) (ended_fresh s counted w) (rw (i.known s, e) refl)
            (ap is_begun e) refl (λ r. destroy_ends-AccountsOf s counted w r taken (i.accounts r));
      move = moves s (gone counted) (rw e (ends counted));
    }

destroy_session-fresh : (s : ℕ) (w : Clients) → (destroy_session s w).fresh ≡ w.fresh
unfolding destroy_session
destroy_session-fresh s w = elim (Bool-cases (Session.destroy_sent (w.sessions s))) [
  | inl sent ↦ rw sent refl
  | inr unsent ↦ rw unsent refl
]

destroy_session-sessions :
    (s : ℕ) (w : Clients) (session : Session) (r : ℕ)
    → w.sessions s ≡ session
    → session.destroy_sent ≡ false
    → (destroy_session s w).sessions r ≡ (
        if r == s
        then record session { destroy_sent = true; destroying = some session.session_active }
        else w.sessions r)
unfolding destroy_session
destroy_session-sessions s w session r e unsent = rw (e, unsent) refl

-- The create call of `s` is over.
abbrev idle : ℕ → Clients → Clients
idle s w = set_session s (record (w.sessions s) { waiting = false }) w

idle_session :
    (s : ℕ) (w : Clients) → (idle s w).sessions s ≡ record (w.sessions s) { waiting = false }
idle_session s w = rw (==_refl s) refl

over_idle :
    (b : Bool) (x y z : Session) → (if b then x else if b then y else z) ≡ (if b then x else z)
over_idle true x y z = refl
over_idle false x y z = refl

pub create_fails-Simulated :
    (w : Clients) (lives : ℕ → Life) (s : ℕ)
    → Implements w lives
    → Session.waiting (w.sessions s) ≡ true
    → Simulated (create_failed s w) lives
unfolding create_failed session_of
create_fails-Simulated w lives s i waits =
    let e : lives s ≡ creating =
      waiting-creating (lives s) (sym (ap Session.waiting (i.known s)) ∙ waits) in
    let idled : (idle s w).sessions s ≡ new_session = idle_session s w ∙ rw (i.known s, e) refl in
    record {
      lives_after = change s (leaving false) lives;
      implements =
          change-Implements w (create_failed s w) lives s (session_of (leaving false))
            (leaving false) i
            (λ r.
              destroy_session-sessions s (idle s w) new_session r idled refl
              ∙ over_idle (r == s) _ _ (w.sessions r))
            (destroy_session-fresh s (idle s w)) refl (ap is_begun e) refl
            (λ r.
              destroy_session-AccountsOf s (idle s w) r (ap Session.waiting idled)
                (idle-AccountsOf s w r (i.accounts r)));
      move = moves s (leaving false) (rw e fails);
    }

sent_before :
    (s : ℕ) (w : Clients) → Session.destroy_sent (w.sessions s) ≡ true → destroy_session s w ≡ w
unfolding destroy_session
sent_before s w sent = rw sent refl

unchanged :
    (w : Clients) (lives : ℕ → Life) (s : ℕ)
    → Implements w lives
    → Session.destroy_sent (w.sessions s) ≡ true
    → Simulated (destroy_session s w) lives
unchanged w lives s i sent =
    subst (λ v. Simulated v lives) (sym (sent_before s w sent))
      (record { lives_after = lives; implements = i; move = stays })

-- A destruction of a session whose create call is over.
pub destroy_session-Simulated :
    (w : Clients) (lives : ℕ → Life) (s : ℕ) (life : Life)
    → Implements w lives
    → Session.waiting (w.sessions s) ≡ false
    → is_begun life ≡ true
    → lives s ≡ life
    → Simulated (destroy_session s w) lives
unfolding session_of
destroy_session-Simulated w lives s absent i over begun e = absurd (ground arith)
destroy_session-Simulated w lives s creating i over begun e = absurd (
    let waits : true ≡ false = sym (ap Session.waiting (i.known s ∙ ap session_of e)) ∙ over in
    ground arith)
destroy_session-Simulated w lives s live i over begun e = record {
  lives_after = change s (leaving true) lives;
  implements =
      change-Implements w (destroy_session s w) lives s (session_of (leaving true)) (leaving true) i
        (λ r. destroy_session-sessions s w (session_of live) r (i.known s ∙ ap session_of e) refl)
        (destroy_session-fresh s w) refl (ap is_begun e) refl
        (λ r. destroy_session-AccountsOf s w r over (i.accounts r));
  move = moves s (leaving true) (rw e closes);
}
destroy_session-Simulated w lives s (leaving c) i over begun e =
    unchanged w lives s i (ap Session.destroy_sent (i.known s ∙ ap session_of e))
destroy_session-Simulated w lives s (gone c) i over begun e =
    unchanged w lives s i (ap Session.destroy_sent (i.known s ∙ ap session_of e))
