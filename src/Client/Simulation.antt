-- ===== src/Client/Simulation.antt =====
-- Each step of the sessions of packages/effect-tls-client/src/TlsClient.ts is a step of the abstract
-- view.
use effect_tls_client.Prelude.{
  ℕ, suc, ◌≡◌, refl, sym, ap, subst, ◌∙◌, true, false, List, ◌∷◌, ◌==◌, ltb, arith, Bool-cases,
  ==_iff, inl, inr, ◌⊎◌,
}
use effect_tls_client.Client.Accounts.{Accounts}
use effect_tls_client.Client.Ledger.{
  AccountsOf, begin_session-AccountsOf, finalise-AccountsOf, finalise_next-AccountsOf, due-first,
  finalise_next-destroy_session,
}
use effect_tls_client.Client.Destroying.{
  create_answered-Simulated, destroy_answered-Simulated, create_fails-Simulated,
  destroy_session-Simulated,
}
use effect_tls_client.Client.Lifecycles.{
  Life, absent, creating, live, leaving, gone, begins, change, stays, moves, session_of, is_begun,
  Implements, Simulated,
}
use effect_tls_client.Client.Sessions.{
  Session, Clients, begin_session, finalise, finalise_next, ClientStep, session_begins,
  create_answered, create_fails, session_released, destroy_answered, layer_closes, layer_destroys,
}

begin_session-Simulated :
    (w : Clients) (lives : ℕ → Life) → Implements w lives → Simulated (begin_session w) lives
unfolding begin_session session_of
begin_session-Simulated w lives i =
    let e : lives w.fresh ≡ absent =
      not_begun (lives w.fresh) (i.numbered w.fresh ∙ (ground arith)) in
    record {
      lives_after = change w.fresh creating lives;
      implements = record {
        known = λ r. known_at r (Bool-cases (r == w.fresh));
        numbered = λ r. numbered_at r (Bool-cases (r == w.fresh));
        accounts =
            λ r. begin_session-AccountsOf w r (i.known w.fresh ∙ ap session_of e) (i.accounts r);
      };
      move = moves w.fresh creating (rw e begins);
    }
  where
    not_begun : (life : Life) → is_begun life ≡ false → life ≡ absent
    not_begun absent h = refl
    not_begun creating h = absurd (ground arith)
    not_begun live h = absurd (ground arith)
    not_begun (leaving c) h = absurd (ground arith)
    not_begun (gone c) h = absurd (ground arith)

    known_at :
        (r : ℕ)
        → ((r == w.fresh) ≡ true) ⊎ ((r == w.fresh) ≡ false)
        → (begin_session w).sessions r ≡ session_of (change w.fresh creating lives r)
    known_at r (inl e) = rw e refl
    known_at r (inr e) = rw e (i.known r)

    numbered_at :
        (r : ℕ)
        → ((r == w.fresh) ≡ true) ⊎ ((r == w.fresh) ≡ false)
        → is_begun (change w.fresh creating lives r) ≡ ltb r (suc w.fresh)
    numbered_at r (inl e) = rw (e, (==_iff r w.fresh).0 e) (ground arith)
    numbered_at r (inr e) = rw e (i.numbered r ∙ ground (arith, e))

finalise-Simulated :
    (w : Clients) (lives : ℕ → Life) → Implements w lives → Simulated (finalise w) lives
unfolding finalise
finalise-Simulated w lives i = record {
  lives_after = lives;
  implements = record {
    known = i.known;
    numbered = i.numbered;
    accounts = λ r. finalise-AccountsOf w r (i.accounts r);
  };
  move = stays;
}

finalise_next-Simulated :
    (w : Clients) (lives : ℕ → Life) (s : ℕ) (rest : List ℕ)
    → Implements w lives
    → w.due ≡ s ∷ rest
    → Simulated (finalise_next s rest w) lives
unfolding session_of
finalise_next-Simulated w lives s rest i e =
    let active = due-first w s rest e (i.accounts s) in
    let over : Session.waiting (w.sessions s) ≡ false =
      ground (arith, active, Accounts.untouched (i.accounts s)) in
    let before =
      destroy_session-Simulated w lives s (lives s) i over
        (active_begun (lives s) (sym (ap Session.session_active (i.known s)) ∙ active)) refl in
    record {
      lives_after = before.lives_after;
      implements = rw (finalise_next-destroy_session s rest w) (record {
        known = before.implements.known;
        numbered = before.implements.numbered;
        accounts = λ r.
            subst (λ v. AccountsOf v r) (finalise_next-destroy_session s rest w)
              (finalise_next-AccountsOf s rest w r e (i.accounts s) (i.accounts r));
      });
      move = before.move;
    }
  where
    active_begun :
        (life : Life) → Session.session_active (session_of life) ≡ true → is_begun life ≡ true
    active_begun absent h = absurd (ground arith)
    active_begun creating h = refl
    active_begun live h = refl
    active_begun (leaving c) h = refl
    active_begun (gone c) h = refl

-- Each step that a fiber takes with the sessions of a client, from a state that implements what the
-- sessions go through, leads to a state that implements it after one step of one session's life, or
-- none: a session is created, live from the answer to its create call, leaving from its one destroy
-- call on, and gone with the answer to that.
pub ClientStep-Simulated :
    (w w' : Clients) (lives : ℕ → Life) → Implements w lives → ClientStep w w' → Simulated w' lives
ClientStep-Simulated w _ lives i session_begins = begin_session-Simulated w lives i
ClientStep-Simulated w _ lives i (create_answered r waits) =
    create_answered-Simulated w lives r i waits
ClientStep-Simulated w _ lives i (create_fails r waits) = create_fails-Simulated w lives r i waits
ClientStep-Simulated w _ lives i (session_released r known over) =
    destroy_session-Simulated w lives r (lives r) i over (i.numbered r ∙ ground (arith, known)) refl
ClientStep-Simulated w _ lives i (destroy_answered r counted taken) =
    destroy_answered-Simulated w lives r counted i taken
ClientStep-Simulated w _ lives i layer_closes = finalise-Simulated w lives i
ClientStep-Simulated w _ lives i (layer_destroys r rest e) =
    finalise_next-Simulated w lives r rest i e
