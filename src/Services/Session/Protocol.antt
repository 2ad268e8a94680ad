-- ===== src/Services/Session/Protocol.antt =====
-- The life of a session of session.c, against its protocol: a session is absent, created or activated, and
-- only its authentication token opens the way to the next state.
use micro_opcua.Base.{
  ℕ, ◌≤◌, ◌≡◌, refl, ap, Bool, true, false, not, List, [], ◌∷◌, ◌==◌, if◌then◌else◌, arith,
}
use micro_opcua.Base.Status.{
  good, bad_internalerror, bad_sessionidinvalid, bad_identitytokeninvalid,
}
use micro_opcua.Base.Outcome.{Outcome, ok, err, fault}
use micro_opcua.Services.Session.Timeout.{Converts-clamp}
use micro_opcua.Services.Session.{
  State, closed, created, activated, Session, session_init, is_open, is_identity_token,
  create_with_identifiers, activate, close,
}

-- The calls that change a session, with their arguments.
pub data Call : Type 0 where
  create_call : ℕ → ℕ → ℕ → ℕ → Call
  activate_call : ℕ → ℕ → Call
  close_call : ℕ → Call

-- The session and the status after a call.
abbrev settled : {A : Type 0} → Session → Outcome Session A → Session × ℕ
settled s (ok a t) = (t, good)
settled s (err e t) = (t, e)
settled s fault = (s, bad_internalerror)

pub perform : Call → Session → Session × ℕ
perform (create_call bits id token channel) s =
    settled s (create_with_identifiers bits id token channel s)
perform (activate_call token encoding) s = settled s (activate token encoding s)
perform (close_call token) s = settled s (close token s)

-- The protocol: the token of the session, where there is one, and whether it is activated.
pub data Phase : Type 0 where
  absent : Phase
  present : ℕ → Bool → Phase

pub protocol : Call → Phase → Phase × ℕ
protocol (create_call bits id token channel) absent = (present token false, good)
protocol (create_call bits id token channel) (present t a) = (present t a, bad_internalerror)
protocol (activate_call token encoding) absent = (absent, bad_sessionidinvalid)
protocol (activate_call token encoding) (present t a) =
    if not (t == token)
    then (present t a, bad_sessionidinvalid)
    else if not (is_identity_token encoding)
    then (present t a, bad_identitytokeninvalid)
    else (present t true, good)
protocol (close_call token) absent = (absent, bad_sessionidinvalid)
protocol (close_call token) (present t a) =
    if not (t == token) then (present t a, bad_sessionidinvalid) else (absent, good)

abbrev phase_of : State → ℕ → Phase
phase_of closed token = absent
phase_of created token = present token false
phase_of activated token = present token true

abbrev pub phase : Session → Phase
phase s = phase_of s.state s.auth_token

-- The statuses of a sequence of calls.
pub statuses : Session → List Call → List ℕ
statuses s [] = []
statuses s (c ∷ calls) = let (t, e) = perform c s in e ∷ statuses t calls

pub protocol_statuses : Phase → List Call → List ℕ
protocol_statuses p [] = []
protocol_statuses p (c ∷ calls) = let (q, e) = protocol c p in e ∷ protocol_statuses q calls

perform-protocol :
    (c : Call) (s : Session) (st : State)
    → s.state ≡ st
    → (phase (perform c s).0, (perform c s).1) ≡ protocol c (phase s)
unfolding perform protocol create_with_identifiers activate close session_init
perform-protocol (create_call bits id token channel) s closed e = rw e
perform-protocol (create_call bits id token channel) s created e = rw e
perform-protocol (create_call bits id token channel) s activated e = rw e
perform-protocol (activate_call token encoding) s closed e = rw e
perform-protocol (activate_call token encoding) s created e = ground arith
perform-protocol (activate_call token encoding) s activated e = ground arith
perform-protocol (close_call token) s closed e = rw e
perform-protocol (close_call token) s created e = ground arith
perform-protocol (close_call token) s activated e = ground arith

statuses-protocol :
    (s : Session) (calls : List Call) → statuses s calls ≡ protocol_statuses (phase s) calls
unfolding statuses protocol_statuses
statuses-protocol s [] = refl
statuses-protocol s (c ∷ calls) =
    rw (← perform-protocol c s s.state refl)
      (ap (◌∷◌ (perform c s).1) (statuses-protocol (perform c s).0 calls))

-- Every sequence of calls of mu_session_create_with_identifiers, mu_session_activate and mu_session_close
-- on an initialised session returns the statuses of the protocol: a session is created only where there is
-- none, it is activated (also again) only with its own token and with an anonymous, user name or
-- certificate identity token, it is closed only with its own token, and a refused call changes nothing.
pub statuses-protocol_statuses :
    (calls : List Call) → statuses session_init calls ≡ protocol_statuses absent calls
unfolding session_init
statuses-protocol_statuses calls = statuses-protocol session_init calls

-- A closed session holds no data of an earlier one; an open one has a timeout in range.
pub data IsWell : Session → Type 0 where
  fresh : IsWell session_init
  running :
      (s : Session)
      → is_open s.state ≡ true
      → 10000 ≤ s.revised_session_timeout_ms
      → s.revised_session_timeout_ms ≤ 3600000
      → IsWell s

pub after : Session → List Call → Session
after s [] = s
after s (c ∷ calls) = after (perform c s).0 calls

create-IsWell :
    (bits id token channel : ℕ) (s : Session)
    → IsWell s
    → IsWell (settled s (create_with_identifiers bits id token channel s)).0
unfolding create_with_identifiers session_init
create-IsWell bits id token channel s fresh =
    let (same, lo, hi) = Converts-clamp bits in running _ refl lo hi
create-IsWell bits id token channel s (running t live lo hi) = rw live (running s live lo hi)

if-IsWell :
    {A : Type 0} (s : Session) (b : Bool) (x y : Outcome Session A)
    → IsWell (settled s x).0
    → IsWell (settled s y).0
    → IsWell (settled s (if b then x else y)).0
if-IsWell s true x y h k = h
if-IsWell s false x y h k = k

activate-IsWell :
    (token encoding : ℕ) (s : Session) → IsWell s → IsWell (settled s (activate token encoding s)).0
unfolding activate session_init
activate-IsWell token encoding s fresh = fresh
activate-IsWell token encoding s (running t live lo hi) =
    if-IsWell s (not (is_open s.state)) _ _ (running s live lo hi) (
      if-IsWell s (not (s.auth_token == token)) _ _ (running s live lo hi) (
        if-IsWell s (not (is_identity_token encoding)) _ _ (running s live lo hi)
          (running _ refl lo hi)))

close-IsWell : (token : ℕ) (s : Session) → IsWell s → IsWell (settled s (close token s)).0
unfolding close session_init
close-IsWell token s fresh = fresh
close-IsWell token s (running t live lo hi) =
    if-IsWell s (not (is_open s.state)) _ _ (running s live lo hi)
      (if-IsWell s (not (s.auth_token == token)) _ _ (running s live lo hi) fresh)

perform-IsWell : (c : Call) (s : Session) → IsWell s → IsWell (perform c s).0
unfolding perform
perform-IsWell (create_call bits id token channel) s h = create-IsWell bits id token channel s h
perform-IsWell (activate_call token encoding) s h = activate-IsWell token encoding s h
perform-IsWell (close_call token) s h = close-IsWell token s h

-- From a session that is initialised, or open with a timeout between 10000 and 3600000 milliseconds, every
-- sequence of calls leads to such a session again: a session that is not open is equal to an initialised
-- one, so that nothing of a closed session is kept.
pub after-IsWell : (calls : List Call) (s : Session) → IsWell s → IsWell (after s calls)
unfolding after
after-IsWell [] s h = h
after-IsWell (c ∷ calls) s h = after-IsWell calls (perform c s).0 (perform-IsWell c s h)
