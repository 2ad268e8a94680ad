-- ===== src/Services/Subscription/Requests/Order.antt =====
-- The parked publish requests of a session are answered in the order of their times.
use micro_opcua.Base.{
  ℕ, suc, ◌+◌, ◌≤◌, ◌≡◌, refl, sym, ap, ◌∙◌, ◌⊎◌, inl, inr, true, false, ◌&&◌, Option, none, some,
  some-injective, List, [], ◌∷◌, get_elem?, set, All, Bool-cases, arith,
}
use micro_opcua.Services.Subscription.{PublishRequest, zero_request}
use micro_opcua.Services.Subscription.Requests.{is_of, better, best_from, taken, request_dequeue}

-- No request of the session was enqueued before `r`.
abbrev pub First : ℕ → PublishRequest → List PublishRequest → Type 0
First session r queue = All (λ x. is_of session x ≡ true → r.enqueued_ms ≤ x.enqueued_ms) queue

abbrev Place : ℕ → ℕ → List PublishRequest → ℕ → PublishRequest → Type 0
Place session i queue j r =
    (k : ℕ) × (j ≡ i + k) × (get_elem? queue k ≡ some r) × (is_of session r ≡ true)

-- What the loop finds from index `i` on, with the best request up to there.
abbrev Best :
    ℕ → ℕ → List PublishRequest → Option (ℕ × PublishRequest) → Option (ℕ × PublishRequest) → Type 0
Best session i queue best none = (best ≡ none) × All (λ x. is_of session x ≡ false) queue
Best session i queue best (some (j, r)) =
    ((best ≡ some (j, r)) ⊎ Place session i queue j r)
    × First session r queue
    × ((b : ℕ × PublishRequest) → best ≡ some b → r.enqueued_ms ≤ b.1.enqueued_ms)

not_before :
    (session : ℕ) (x r : PublishRequest) (best : Option (ℕ × PublishRequest))
    → (is_of session x && better x best) ≡ false
    → ((b : ℕ × PublishRequest) → best ≡ some b → r.enqueued_ms ≤ b.1.enqueued_ms)
    → is_of session x ≡ true
    → r.enqueued_ms ≤ x.enqueued_ms
not_before session x r none e before h = absurd (ground (arith, e, h))
not_before session x r (some b) e before h = ground (arith, e, h, before b refl)

-- The request at index `i` is not better.
Best-stay :
    (session i : ℕ) (x : PublishRequest) (queue : List PublishRequest)
    (best o : Option (ℕ × PublishRequest))
    → (is_of session x && better x best) ≡ false
    → Best session (suc i) queue best o
    → Best session i (x ∷ queue) best o
Best-stay session i x queue none none e (h, all) = (refl, (ground (arith, e), all))
Best-stay session i x queue (some b) none e (h, all) = absurd (ground (arith, h))
Best-stay session i x queue best (some (j, r)) e (inl h, all, before) =
    (inl h, (not_before session x r best e before, all), before)
Best-stay session i x queue best (some (j, r)) e (inr (k, at, got, passed), all, before) = (
  inr (suc k, omega (arith, at), got, passed),
  (not_before session x r best e before, all),
  before,
)

-- The request at index `i` is better.
Best-take :
    (session i : ℕ) (x : PublishRequest) (queue : List PublishRequest)
    (best o : Option (ℕ × PublishRequest))
    → (is_of session x && better x best) ≡ true
    → Best session (suc i) queue (some (i, x)) o
    → Best session i (x ∷ queue) best o
Best-take session i x queue best none e (h, all) = absurd (ground (arith, h))
Best-take session i x queue best (some (j, r)) e (from, all, before) =
    (place from, ((λ h. before (i, x) refl), all), λ b h. earlier best e b h)
  where
    place :
        (◌≡◌ {A = Option (ℕ × PublishRequest)} (some (i, x)) (some (j, r)))
          ⊎ Place session (suc i) queue j r
        → (best ≡ some (j, r)) ⊎ Place session i (x ∷ queue) j r
    place (inl h) = inr (
      0,
      ap (λ o. elim o [ none ↦ j | some q ↦ q.0 ]) (sym h) ∙ omega arith,
      ap (λ o. elim o [ none ↦ some r | some q ↦ some q.1 ]) h,
      ap (λ o. elim o [ none ↦ true | some q ↦ is_of session q.1 ]) (sym h) ∙ ground (arith, e),
    )
    place (inr (k, at, got, passed)) = inr (suc k, omega (arith, at), got, passed)

    earlier :
        (best : Option (ℕ × PublishRequest))
        → (is_of session x && better x best) ≡ true
        → (b : ℕ × PublishRequest) → best ≡ some b
        → r.enqueued_ms ≤ b.1.enqueued_ms
    earlier none e b h = absurd (ground (arith, h))
    earlier (some c) e b h =
        let same : c ≡ b = some-injective c b h in
        let times : c.1.enqueued_ms ≡ b.1.enqueued_ms = ap (λ q. q.1.enqueued_ms) same in
        ground (arith, times, e, before (i, x) refl)

best_from-Best :
    (session i : ℕ) (queue : List PublishRequest) (best : Option (ℕ × PublishRequest))
    → Best session i queue best (best_from session i queue best)
unfolding best_from
best_from-Best session i [] none = (refl, tt)
best_from-Best session i [] (some (j, r)) =
    (inl refl, tt, λ b h. same_time b (some-injective (j, r) b h))
  where
    same_time :
        (b : ℕ × PublishRequest)
        → ◌≡◌ {A = ℕ × PublishRequest} (j, r) b
        → r.enqueued_ms ≤ b.1.enqueued_ms
    same_time b h =
        let times : r.enqueued_ms ≡ b.1.enqueued_ms = ap (λ q. q.1.enqueued_ms) h in
        omega (arith, times)
best_from-Best session i (x ∷ queue) best = elim (Bool-cases (is_of session x && better x best)) [
  | inl e ↦
      rw e
        (Best-take session i x queue best _ e (best_from-Best session (suc i) queue (some (i, x))))
  | inr e ↦ rw e (Best-stay session i x queue best _ e (best_from-Best session (suc i) queue best))
]

-- What taking a request of a session out of the queue may come to.
abbrev pub Dequeued :
    ℕ → List PublishRequest → Option (PublishRequest × List PublishRequest) → Type 0
Dequeued session queue none = All (λ x. is_of session x ≡ false) queue
Dequeued session queue (some (r, rest)) =
    (i : ℕ) × (get_elem? queue i ≡ some r)
    × (is_of session r ≡ true)
    × (rest ≡ set queue i zero_request)
    × First session r queue

taken-Dequeued :
    (session : ℕ) (queue : List PublishRequest) (o : Option (ℕ × PublishRequest))
    → Best session 0 queue none o
    → Dequeued session queue (taken queue o)
taken-Dequeued session queue none (h, all) = all
taken-Dequeued session queue (some (i, r)) (inl h, all, before) = absurd (ground (arith, h))
taken-Dequeued session queue (some (i, r)) (inr (k, at, got, passed), all, before) =
    (i, ap (get_elem? queue) (omega (arith, at)) ∙ got, passed, refl, all)

-- A parked request of the session that was enqueued no later than any other of its parked requests is taken out
-- of its slot, and there is none only if no request of the session is parked.
pub request_dequeue-Dequeued :
    (session : ℕ) (queue : List PublishRequest)
    → Dequeued session queue (request_dequeue session queue)
unfolding request_dequeue
request_dequeue-Dequeued session queue =
    taken-Dequeued session queue _ (best_from-Best session 0 queue none)
