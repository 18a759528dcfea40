-- ===== src/Client/Lifecycles.antt =====
-- What a session of packages/effect-tls-client/src/TlsClient.ts goes through, apart from the variables,
-- the map, the log and the interleaving of the fibers: the abstract view that the code implements.
use effect_tls_client.Prelude.{
  ℕ, ◌≡◌, sym, ap, ◌∙◌, Bool, true, false, some, ◌==◌, ltb, if◌then◌else◌, Bool-cases, ==_iff, inl,
  inr, ◌⊎◌,
}
use effect_tls_client.Client.Ledger.{AccountsOf}
use effect_tls_client.Client.Sessions.{Session, Clients, new_session}

-- A session that is leaving or gone has been live, or its create call has failed.
pub data Life : Type 0 where
  absent creating live : Life
  leaving gone : (was_live : Bool) → Life

pub data LifeStep : Life → Life → Type 0 where
  begins : LifeStep absent creating
  succeeds : LifeStep creating live
  fails : LifeStep creating (leaving false)
  closes : LifeStep live (leaving true)
  ends : (was_live : Bool) → LifeStep (leaving was_live) (gone was_live)

abbrev pub change : ℕ → Life → (ℕ → Life) → ℕ → Life
change r life lives other = if other == r then life else lives other

-- One session takes a step of its life, or none does.
pub data Move (lives : ℕ → Life) : (ℕ → Life) → Type 0 where
  stays : Move lives lives
  moves : (r : ℕ) (life : Life) → LifeStep (lives r) life → Move lives (change r life lives)

-- The variables of a session in each part of its life.
unfoldable pub session_of : Life → Session
session_of absent = new_session
session_of creating = record new_session { waiting = true }
session_of live = record new_session { session_active = true }
session_of (leaving was_live) = record new_session {
  destroy_sent = true;
  session_active = was_live;
  destroying = some was_live;
}
session_of (gone was_live) = record new_session { destroy_sent = true; session_active = was_live }

abbrev pub is_begun : Life → Bool
is_begun absent = false
is_begun _ = true

pub record Implements (w : Clients) (lives : ℕ → Life) : Type 0 where
  pub known : (r : ℕ) → w.sessions r ≡ session_of (lives r)
  pub numbered : (r : ℕ) → is_begun (lives r) ≡ ltb r w.fresh
  pub accounts : (r : ℕ) → AccountsOf w r

-- The session `s` has come to `life`.
pub change-Implements :
    (w w' : Clients) (lives : ℕ → Life) (s : ℕ) (session : Session) (life : Life)
    → Implements w lives
    → ((r : ℕ) → w'.sessions r ≡ (if r == s then session else w.sessions r))
    → w'.fresh ≡ w.fresh
    → session ≡ session_of life
    → is_begun (lives s) ≡ true
    → is_begun life ≡ true
    → ((r : ℕ) → AccountsOf w' r)
    → Implements w' (change s life lives)
change-Implements w w' lives s session life i sessions fresh is_life before now accounts = record {
  known = λ r. known_at r (Bool-cases (r == s));
  numbered = λ r. rw fresh (numbered_at r (Bool-cases (r == s)));
  accounts = accounts;
}
  where
    known_at :
        (r : ℕ)
        → ((r == s) ≡ true) ⊎ ((r == s) ≡ false)
        → w'.sessions r ≡ session_of (change s life lives r)
    known_at r (inl e) = sessions r ∙ (rw e is_life)
    known_at r (inr e) = sessions r ∙ (rw e (i.known r))

    numbered_at :
        (r : ℕ)
        → ((r == s) ≡ true) ⊎ ((r == s) ≡ false)
        → is_begun (change s life lives r) ≡ ltb r w.fresh
    numbered_at r (inl e) =
        rw e (now ∙ sym before ∙ i.numbered s ∙ ap (λ k. ltb k w.fresh) (sym ((==_iff r s).0 e)))
    numbered_at r (inr e) = rw e (i.numbered r)

-- What a step comes to: a state that implements a move of the lives.
pub record Simulated (w' : Clients) (lives : ℕ → Life) : Type 0 where
  pub lives_after : ℕ → Life
  pub implements : Implements w' lives_after
  pub move : Move lives lives_after
