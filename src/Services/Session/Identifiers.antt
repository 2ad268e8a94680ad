-- ===== src/Services/Session/Identifiers.antt =====
-- The SessionIds and the authentication tokens that session.c draws for a new session.
use micro_opcua.Base.{
  ℕ, zero, suc, ◌+◌, ◌*◌, ◌^◌, ◌<◌, ◌≡◌, refl, inl, inr, Bool, true, false, Option, some, List, [],
  ◌∷◌, length, Bool-cases, arith,
}
use micro_opcua.Base.Status.{bad_securitychecksfailed}
use micro_opcua.Base.Outcome.{Outcome, ok, err, fault}
use micro_opcua.Services.Session.{
  Session, first_unused, session_id_active, authentication_token_active, session_id_candidate,
  authentication_token_candidate, generate_session_id, generate_authentication_token,
}

-- What drawing one of the candidates `salt`, `salt + 1`, … of `n` salts may come to: the first that is not
-- active, or Bad_SecurityChecksFailed where all of them are.
abbrev pub Drawn : (ℕ → ℕ) → (ℕ → Bool) → ℕ → ℕ → Outcome (Unit {0}) ℕ → Type 0
Drawn candidate active salt n (ok id u) =
    (k : ℕ) × (k < n)
    × (id ≡ candidate (salt + k))
    × (active id ≡ false)
    × ((j : ℕ) → j < k → active (candidate (salt + j)) ≡ true)
Drawn candidate active salt n (err e u) =
    (e ≡ bad_securitychecksfailed) × ((k : ℕ) → k < n → active (candidate (salt + k)) ≡ true)
Drawn candidate active salt n fault = ⊥

zero_right : (n : ℕ) → n + 0 ≡ n
zero_right n = omega arith

next_salt : (n k : ℕ) → n + suc k ≡ suc n + k
next_salt n k = omega arith

module _ (candidate : ℕ → ℕ) (active : ℕ → Bool) where
  earlier :
      (salt : ℕ) (P : ℕ → Type 0)
      → active (candidate salt) ≡ true
      → ((j : ℕ) → P j → active (candidate (suc salt + j)) ≡ true)
      → (j : ℕ) → ((i : ℕ) → j ≡ suc i → P i)
      → active (candidate (salt + j)) ≡ true
  earlier salt P here rest zero h = rw (zero_right salt) here
  earlier salt P here rest (suc j) h = rw (next_salt salt j) (rest j (h j refl))

  Drawn-suc :
      (salt n : ℕ) (o : Outcome (Unit {0}) ℕ)
      → active (candidate salt) ≡ true
      → Drawn candidate active (suc salt) n o
      → Drawn candidate active salt (suc n) o
  Drawn-suc salt n (ok id u) here (k, fits, same, free, before) = (
    suc k,
    omega arith,
    rw (same, next_salt salt k),
    free,
    λ j h. earlier salt (λ i. i < k) here before j (λ i e. omega arith),
  )
  Drawn-suc salt n (err e u) here (same, all) =
      (same, λ j h. earlier salt (λ i. i < n) here all j (λ i e. omega arith))
  Drawn-suc salt n fault here h = h

  first_unused-Drawn :
      (salt n : ℕ) → Drawn candidate active salt n (first_unused candidate active salt n tt)
  unfolding first_unused
  first_unused-Drawn salt zero = (refl, λ k h. absurd (omega arith))
  first_unused-Drawn salt (suc n) = elim (Bool-cases (active (candidate salt))) [
    | inl e ↦ rw e (
        Drawn-suc salt n (first_unused candidate active (suc salt) n tt) e
          (first_unused-Drawn (suc salt) n))
    | inr e ↦ rw e (0, omega arith, rw (zero_right salt), e, λ j h. absurd (omega arith))
  ]

abbrev pub word_of : ℕ → ℕ → ℕ → ℕ → ℕ
word_of b0 b1 b2 b3 = b0 + b1 * 2 ^ 8 + b2 * 2 ^ 16 + b3 * 2 ^ 24

-- Where the entropy adapter yields four bytes, mu_session_generate_session_id draws the first of its
-- candidates that is no SessionId of an open session, one candidate more than the table has slots being
-- tried, and fails with Bad_SecurityChecksFailed only where all of them are in use.
pub generate_session_id-Drawn :
    (sessions : List Session) (random : ℕ → Option (List ℕ)) (b0 b1 b2 b3 : ℕ)
    → random 4 ≡ some (b0 ∷ b1 ∷ b2 ∷ b3 ∷ [])
    → Drawn
        (session_id_candidate (word_of b0 b1 b2 b3))
        (session_id_active sessions)
        0
        (suc (length sessions))
        (generate_session_id sessions (some random) tt)
unfolding generate_session_id
generate_session_id-Drawn sessions random b0 b1 b2 b3 e = rw e (
    first_unused-Drawn (session_id_candidate (word_of b0 b1 b2 b3)) (session_id_active sessions) 0
      (suc (length sessions)))

-- Where the entropy adapter yields four bytes, mu_session_generate_authentication_token draws the first of
-- its candidates that is no token of an open session, one candidate more than the table has slots being
-- tried, and fails with Bad_SecurityChecksFailed only where all of them are in use.
pub generate_authentication_token-Drawn :
    (sessions : List Session) (random : ℕ → Option (List ℕ)) (b0 b1 b2 b3 : ℕ)
    → random 4 ≡ some (b0 ∷ b1 ∷ b2 ∷ b3 ∷ [])
    → Drawn
        (authentication_token_candidate (word_of b0 b1 b2 b3))
        (authentication_token_active sessions)
        0
        (suc (length sessions))
        (generate_authentication_token sessions (some random) tt)
unfolding generate_authentication_token
generate_authentication_token-Drawn sessions random b0 b1 b2 b3 e = rw e (
    first_unused-Drawn (authentication_token_candidate (word_of b0 b1 b2 b3))
      (authentication_token_active sessions) 0 (suc (length sessions)))
