-- ===== src/Services/Session/Lookup.antt =====
-- The searches in the table of sessions of session.c, and what creating a session in a free slot does to them.
use micro_opcua.Base.{
  some-injective, ℕ, zero, suc, ◌+◌, ◌≡◌, ◌≢◌, refl, ap, subst, inl, inr, Bool, true, false, ◌||◌,
  Option, none, some, List, [], ◌∷◌, get_elem?, take, set, Bool-cases, arith,
}
use Prim.Native.Nat.add
use micro_opcua.Base.Outcome.{ok}
use micro_opcua.Services.Session.{
  Session, created, is_open, is_free, has_token, find_from, find_by_token, find_free, any,
  authentication_token_active, clamp_timeout_bits, duration_bits_to_ms, create_with_identifiers,
}

-- The outcome of a search from index `i` on: the first session that passes the test, or none does.
abbrev pub Found : (Session → Bool) → ℕ → List Session → Option ℕ → Type 0
Found test i sessions none = any test sessions ≡ false
Found test i sessions (some j) =
    (k : ℕ) × (s : Session) × (j ≡ i + k)
    × (get_elem? sessions k ≡ some s)
    × (test s ≡ true)
    × (any test (take k sessions) ≡ false)

Found-suc :
    (test : Session → Bool) (i : ℕ) (s : Session) (sessions : List Session) (o : Option ℕ)
    → test s ≡ false
    → Found test (suc i) sessions o
    → Found test i (s ∷ sessions) o
Found-suc test i s sessions none e h = rw (e, h)
Found-suc test i s sessions (some j) e (k, t, at, got, passes, before) =
    (suc k, t, omega arith, got, passes, rw (e, before))

find_from-Found :
    (test : Session → Bool) (i : ℕ) (sessions : List Session)
    → Found test i sessions (find_from test i sessions)
unfolding find_from
find_from-Found test i [] = refl
find_from-Found test i (s ∷ sessions) = elim (Bool-cases (test s)) [
  | inl e ↦ rw e (0, s, omega arith, refl, e, refl)
  | inr e ↦ rw e (
      Found-suc test i s sessions (find_from test (suc i) sessions) e
        (find_from-Found test (suc i) sessions))
]

-- The search for a token finds the first open session with this token, and finds nothing only if there is
-- no open session with this token.
pub find_by_token-Found :
    (sessions : List Session) (token : ℕ)
    → Found (has_token token) 0 sessions (find_by_token sessions token)
unfolding find_by_token
find_by_token-Found sessions token = find_from-Found (has_token token) 0 sessions

find_free-Found : (sessions : List Session) → Found is_free 0 sessions (find_free sessions)
unfolding find_free
find_free-Found sessions = find_from-Found is_free 0 sessions

any-split : (a b : Bool) → (a || b) ≡ false → (a ≡ false) × (b ≡ false)
any-split a b h = ground arith

find_from-set :
    (test : Session → Bool) (i k : ℕ) (sessions : List Session) (s t : Session)
    → get_elem? sessions k ≡ some s
    → any test sessions ≡ false
    → test t ≡ true
    → find_from test i (set sessions k t) ≡ some (i + k)
unfolding find_from
find_from-set test i k [] s t got unused passes = absurd (ground arith)
find_from-set test i zero (x ∷ sessions) s t got unused passes = rw passes (ap some (omega arith))
find_from-set test i (suc k) (x ∷ sessions) s t got unused passes =
    let (first, others) = any-split (test x) (any test sessions) unused in
    rw (first, find_from-set test (suc i) k sessions s t got others passes) (ap some (omega arith))

find_from-set_other :
    (test : Session → Bool) (i k : ℕ) (sessions : List Session) (s t : Session)
    → get_elem? sessions k ≡ some s
    → test t ≡ test s
    → find_from test i (set sessions k t) ≡ find_from test i sessions
unfolding find_from
find_from-set_other test i k [] s t got same = refl
find_from-set_other test i zero (x ∷ sessions) s t got same = rw (same, some-injective x s got)
find_from-set_other test i (suc k) (x ∷ sessions) s t got same =
    rw (find_from-set_other test (suc i) k sessions s t got same)

slot_of_Found :
    (sessions : List Session) (i : ℕ)
    → Found is_free 0 sessions (some i)
    → (s : Session) × (get_elem? sessions i ≡ some s) × (is_open s.state ≡ false)
slot_of_Found sessions i (k, s, at, got, free, before) = (s, rw (at, add.zero k) got, ground arith)

-- Where a slot is free and a token is not in use, the session that is created in the slot is the one that
-- is found by the token from then on, and the search for every other token finds what it found before.
pub find_by_token-create :
    (sessions : List Session) (i bits id token channel : ℕ)
    → find_free sessions ≡ some i
    → authentication_token_active sessions token ≡ false
    → (s t : Session) × (get_elem? sessions i ≡ some s)
      × (create_with_identifiers bits id token channel s
          ≡ ok (clamp_timeout_bits bits, id, token) t)
      × (find_by_token (set sessions i t) token ≡ some i)
      × ((other : ℕ)
          → other ≢ token
          → find_by_token (set sessions i t) other ≡ find_by_token sessions other)
unfolding create_with_identifiers find_by_token authentication_token_active
find_by_token-create sessions i bits id token channel free unused =
    let (s, got, closed) =
      slot_of_Found sessions i (subst (Found is_free 0 sessions) free (find_free-Found sessions)) in
    let t : Session = record s {
      session_id = id;
      auth_token = token;
      secure_channel_id = channel;
      revised_session_timeout_ms = duration_bits_to_ms (clamp_timeout_bits bits);
      state = created;
    } in
    (
      s,
      t,
      got,
      rw closed,
      rw (find_from-set (has_token token) 0 i sessions s t got unused (ground arith))
          (ap some (omega arith)),
      λ other h.
          find_from-set_other (has_token other) 0 i sessions s t got (ground (arith, closed, h)),
    )
