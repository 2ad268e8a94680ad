-- ===== src/AddressSpace/NodeLookup/BinarySearch.antt =====
-- The loop of the binary search of node_id.c, on any array that is ordered around what is sought.
use micro_opcua.Base.{
  ℕ, zero, suc, ◌+◌, ◌-◌, ◌/◌, ◌≤◌, ◌<◌, ◌≡◌, ◌≢◌, refl, ◌∙◌, ap, inl, inr, Option, none, some, ltb,
  Bool-cases, le→ltb_false, arith,
}
use Prim.Native.Nat.{Ordering}
use micro_opcua.Base.Outcome.{Outcome, ok, err, fault}
use micro_opcua.AddressSpace.NodeLookup.{turn, search}

-- `n` positions, first those below, then those that are equal, then those above.
pub record Ordered (n : ℕ) (probe : ℕ → Option Ordering) (p : ℕ → Ordering) : Type 0 where
  pub probed : (i : ℕ) → i < n → probe i ≡ some (p i)
  pub below : (i j : ℕ) → i < j → j < n → p j ≡ Ordering.lt → p i ≡ Ordering.lt
  pub above : (i j : ℕ) → i < j → j < n → p i ≡ Ordering.gt → p j ≡ Ordering.gt

-- A position that is equal, or none where there is none.
abbrev pub SearchOutcome : ℕ → (ℕ → Ordering) → Outcome (Unit {0}) (Option ℕ) → Type 0
SearchOutcome n p (ok (some i) u) = (i < n) × (p i ≡ Ordering.eq)
SearchOutcome n p (ok none u) = (i : ℕ) → i < n → p i ≢ Ordering.eq
SearchOutcome n p (err e u) = ⊥
SearchOutcome n p fault = ⊥

module _ (n : ℕ) (probe : ℕ → Option Ordering) (p : ℕ → Ordering) (o : Ordered n probe p) where
  -- What the loop keeps.
  abbrev pub Around : ℕ → ℕ → Type 0
  Around left right =
      ((i : ℕ) → i < left → p i ≡ Ordering.lt) × ((i : ℕ) → right ≤ i → i < n → p i ≡ Ordering.gt)

  nothing_left :
      (left right : ℕ) → Around left right → right ≤ left → (i : ℕ) → i < n → p i ≢ Ordering.eq
  nothing_left left right (low, high) done i h e = elim (Bool-cases (ltb i left)) [
    | inl f ↦ ground (arith, low i (ground arith))
    | inr f ↦ ground (arith, high i (ground arith) h)
  ]

  turn-SearchOutcome :
      (mid left right : ℕ) (lower upper : Outcome (Unit {0}) (Option ℕ)) (c : Ordering)
      → p mid ≡ c
      → mid < n
      → left ≤ mid
      → mid < right
      → Around left right
      → (Around left mid → SearchOutcome n p lower)
      → (Around (mid + 1) right → SearchOutcome n p upper)
      → SearchOutcome n p (turn (some c) mid lower upper)
  turn-SearchOutcome mid left right lower upper Ordering.lt e h a b (low, high) l u =
      u ((λ i k. below_mid i k), high)
    where
      below_mid : (i : ℕ) → i < mid + 1 → p i ≡ Ordering.lt
      below_mid i k = elim (Bool-cases (ltb i mid)) [
        | inl f ↦ o.below i mid (ground arith) h e
        | inr f ↦ ap p (ground arith) ∙ e
      ]
  turn-SearchOutcome mid left right lower upper Ordering.eq e h a b around l u = (h, e)
  turn-SearchOutcome mid left right lower upper Ordering.gt e h a b (low, high) l u =
      l (low, λ i k m. above_mid i k m)
    where
      above_mid : (i : ℕ) → mid ≤ i → i < n → p i ≡ Ordering.gt
      above_mid i k m = elim (Bool-cases (ltb mid i)) [
        | inl f ↦ o.above mid i (ground arith) m e
        | inr f ↦ ap p (ground arith) ∙ e
      ]

  pub search-SearchOutcome :
      (fuel left right : ℕ)
      → right ≤ left + fuel
      → right ≤ n
      → Around left right
      → SearchOutcome n p (search probe fuel left right)
  unfolding search
  search-SearchOutcome zero left right enough fits around =
      rw (le→ltb_false left right (omega arith)) (nothing_left left right around (omega arith))
  search-SearchOutcome (suc fuel) left right enough fits around =
      elim (Bool-cases (ltb left right)) [
        | inl e ↦
            rw (e, o.probed (left + (right - left) / 2) (ground arith))
              (turn-SearchOutcome (left + (right - left) / 2) left right _ _
                (p (left + (right - left) / 2)) refl (ground arith) (ground arith) (ground arith)
                around
                (λ k.
                  search-SearchOutcome fuel left (left + (right - left) / 2) (ground arith)
                    (ground arith) k)
                (λ k.
                  search-SearchOutcome fuel (left + (right - left) / 2 + 1) right (ground arith)
                    fits k))
        | inr e ↦ rw e (nothing_left left right around (ground arith))
      ]
