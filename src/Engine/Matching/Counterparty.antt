-- ===== src/Engine/Matching/Counterparty.antt =====
-- internal/engine/engine.go, `findCounterparty` and `canMatch`: which resting order is taken.
use golang_predix.Common.{
  ℕ, zero, suc, ◌≡◌, refl, ◌⊎◌, inl, inr, true, false, none, some, List, [], ◌∷◌, All, Text, arith,
  Bool-cases, get_elem?,
}
use golang_predix.Engine.Types.{Order, Heap}
use golang_predix.Engine.Matching.{is_eligible, find_counterparty}

-- None of the first `i` orders of a slice is eligible.
abbrev pub NoneBefore : Heap → Order → List Text → ℕ → Type 0
NoneBefore h incoming rs zero = Unit
NoneBefore h incoming [] (suc i) = Unit
NoneBefore h incoming (r ∷ rs) (suc i) =
    (is_eligible incoming (h r) ≡ false) × NoneBefore h incoming rs i

-- The index that is returned is that of an eligible order, and the first such.
pub record IsFirst (h : Heap) (incoming : Order) (rs : List Text) (i : ℕ) (r : Text) : Type 0 where
  pub there : get_elem? rs i ≡ some r
  pub fits : is_eligible incoming (h r) ≡ true
  pub before : NoneBefore h incoming rs i

-- `findCounterparty` returns -1 only where no resting order is eligible, and otherwise the index of the first that is.
pub find_counterparty-IsFirst :
    (h : Heap) (incoming : Order) (rs : List Text)
    → ((find_counterparty h incoming rs ≡ none) × All (λ r. is_eligible incoming (h r) ≡ false) rs)
      ⊎ ((i : ℕ) × (r : Text) × (find_counterparty h incoming rs ≡ some i)
          × IsFirst h incoming rs i r)
unfolding find_counterparty
find_counterparty-IsFirst h incoming [] = inl (refl, tt)
find_counterparty-IsFirst h incoming (r ∷ rs) = elim (Bool-cases (is_eligible incoming (h r))) [
  | inl fits ↦ inr (0, r, ground arith, record { there = refl; fits = fits; before = tt })
  | inr passed ↦ elim (find_counterparty-IsFirst h incoming rs) [
    | inl (nobody, others) ↦ inl (ground arith, (passed, others))
    | inr (i, q, found, first) ↦ inr (
      suc i,
      q,
      ground arith,
      record { there = first.there; fits = first.fits; before = (passed, first.before) },
    )
  ]
]
