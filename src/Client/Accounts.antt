-- ===== src/Client/Accounts.antt =====
-- What the sessions of packages/effect-tls-client/src/TlsClient.ts have done, along their steps: the
-- calls in the log, the metric and the map agree with the variables of each session.
use effect_tls_client.Prelude.{
  ℕ, ◌+◌, ◌≡◌, refl, ap, Bool, true, false, not, ◌&&◌, ◌||◌, Option, none, some, ◌==◌, arith,
}
use effect_tls_client.Client.Sessions.{
  Session, ClientAction, destroy_call, gauge_up, gauge_down, new_session,
}

abbrev pub bit : Bool → ℕ
bit true = 1
bit false = 0

abbrev pub destroys : ℕ → ClientAction → ℕ
destroys r (destroy_call s) = bit (r == s)
destroys r _ = 0

abbrev pub raises : ℕ → ClientAction → ℕ
raises r (gauge_up s) = bit (r == s)
raises r _ = 0

abbrev pub lowers : ℕ → ClientAction → ℕ
lowers r (gauge_down s) = bit (r == s)
lowers r _ = 0

-- How many fibers are going to lower the gauge.
abbrev pub held : Option Bool → ℕ
held none = 0
held (some counted) = bit counted

-- A session is open from the answer to its create call until it is destroyed.
abbrev pub is_open : Session → Bool
is_open s = s.session_active && not s.destroy_sent

-- One session's variables against what the log and the map hold of it.
pub record Accounts (s : Session) (destroyed raised lowered : ℕ) (listed due : Bool) : Type 0 where
  pub destroyed_once : destroyed ≡ bit s.destroy_sent
  pub raised_once : raised ≡ bit s.session_active
  pub lowered_once : lowered + held s.destroying ≡ bit (s.session_active && s.destroy_sent)
  pub untouched : (s.waiting && (s.session_active || s.destroy_sent)) ≡ false
  pub listed_open : (listed && not (is_open s)) ≡ false
  pub open_listed : (is_open s && not (listed || due)) ≡ false
  pub due_active : (due && not s.session_active) ≡ false

pub destroy-Accounts :
    (s : Session) (d u l : ℕ) (listed due : Bool)
    → s.destroy_sent ≡ false
    → s.waiting ≡ false
    → Accounts s d u l listed due
    → Accounts
        (record s { destroy_sent = true; destroying = some s.session_active })
        (d + 1)
        u
        l
        false
        due
destroy-Accounts s d u l listed due unsent over a = record {
  destroyed_once = ground (arith, a.destroyed_once);
  raised_once = a.raised_once;
  lowered_once = ground (arith, a.lowered_once);
  untouched = rw over refl;
  listed_open = refl;
  open_listed = ground arith;
  due_active = a.due_active;
}

pub create-Accounts :
    (s : Session) (d u l : ℕ) (listed due : Bool)
    → s.waiting ≡ true
    → Accounts s d u l listed due
    → Accounts (record s { waiting = false; session_active = true }) d (u + 1) l true due
create-Accounts s d u l listed due waits a = record {
  destroyed_once = a.destroyed_once;
  raised_once = ground (arith, a.raised_once, a.untouched);
  lowered_once = ground (arith, a.lowered_once, a.untouched);
  untouched = refl;
  listed_open = ground (arith, a.untouched);
  open_listed = ground (arith, a.untouched);
  due_active = ground arith;
}

pub idle-Accounts :
    (s : Session) (d u l : ℕ) (listed due : Bool)
    → Accounts s d u l listed due
    → Accounts (record s { waiting = false }) d u l listed due
idle-Accounts s d u l listed due a = record {
  destroyed_once = a.destroyed_once;
  raised_once = a.raised_once;
  lowered_once = a.lowered_once;
  untouched = refl;
  listed_open = a.listed_open;
  open_listed = a.open_listed;
  due_active = a.due_active;
}

pub ended-Accounts :
    (s : Session) (d u l : ℕ) (listed due counted : Bool)
    → s.destroying ≡ some counted
    → Accounts s d u l listed due
    → Accounts (record s { destroying = none }) d u (l + bit counted) listed due
ended-Accounts s d u l listed due counted e a = record {
  destroyed_once = a.destroyed_once;
  raised_once = a.raised_once;
  lowered_once =
      (let taken : held s.destroying ≡ bit counted = ap held e in
        omega (arith, taken, a.lowered_once));
  untouched = a.untouched;
  listed_open = a.listed_open;
  open_listed = a.open_listed;
  due_active = a.due_active;
}

-- The same entries, written otherwise.
pub Accounts-cast :
    (s : Session) {d d' u u' l l' : ℕ} {listed listed' due due' : Bool}
    → d' ≡ d
    → u' ≡ u
    → l' ≡ l
    → listed' ≡ listed
    → due' ≡ due
    → Accounts s d u l listed due
    → Accounts s d' u' l' listed' due'
Accounts-cast s ed eu el em en a = rw (ed, eu, el, em, en) a

pub begun-Accounts :
    (d u l : ℕ) (listed due : Bool)
    → Accounts new_session d u l listed due
    → Accounts (record new_session { waiting = true }) d u l listed due
begun-Accounts d u l listed due a = record {
  destroyed_once = a.destroyed_once;
  raised_once = a.raised_once;
  lowered_once = a.lowered_once;
  untouched = refl;
  listed_open = a.listed_open;
  open_listed = a.open_listed;
  due_active = a.due_active;
}

-- What is listed becomes due.
pub due-Accounts :
    (s : Session) (d u l : ℕ) (listed due : Bool)
    → Accounts s d u l listed due
    → Accounts s d u l false (due || listed)
due-Accounts s d u l listed due a = record {
  destroyed_once = a.destroyed_once;
  raised_once = a.raised_once;
  lowered_once = a.lowered_once;
  untouched = a.untouched;
  listed_open = refl;
  open_listed = ground (arith, a.open_listed);
  due_active = ground (arith, a.due_active, a.listed_open);
}

-- What is not open need not be due.
pub closed-Accounts :
    (s : Session) (d u l : ℕ) (listed due due' : Bool)
    → is_open s ≡ false
    → (due' && not due) ≡ false
    → Accounts s d u l listed due
    → Accounts s d u l listed due'
closed-Accounts s d u l listed due due' shut fewer a = record {
  destroyed_once = a.destroyed_once;
  raised_once = a.raised_once;
  lowered_once = a.lowered_once;
  untouched = a.untouched;
  listed_open = a.listed_open;
  open_listed = rw shut refl;
  due_active = ground (arith, a.due_active, fewer);
}
