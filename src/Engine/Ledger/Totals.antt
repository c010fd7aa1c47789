-- ===== src/Engine/Ledger/Totals.antt =====
-- The sum of the holdings of a map, and how one write changes it.
use golang_predix.Common.{ℕ, ◌+◌, ◌≤◌, ◌≡◌, [], ◌∷◌, All, Text, arith}
use golang_predix.Common.Int.{pos_part}
use golang_predix.Common.Int64.{IsNonneg}
use golang_predix.Common.Dict.{Dict, lookup, insert, value_or}
use golang_predix.Engine.Types.{Holding}
use golang_predix.Engine.Ledger.{no_balance}

-- What a holding is worth, where nothing is negative.
abbrev pub held : Holding → ℕ
held h = pos_part h.available + pos_part h.reserved

abbrev pub total : Dict Holding → ℕ
total [] = 0
total (e ∷ d) = held e.1 + total d

pub record IsSolvent (h : Holding) : Type 0 where
  pub spendable : IsNonneg h.available
  pub frozen : IsNonneg h.reserved

abbrev pub at : Text → Dict Holding → Holding
at k d = value_or no_balance k d

-- No holding of the map is negative.
abbrev pub AllSolvent : Dict Holding → Type 0
AllSolvent d = All (λ e. IsSolvent e.1) d

pub total-insert :
    (k : Text) (h : Holding) (d : Dict Holding)
    → total (insert k h d) + held (at k d) ≡ total d + held h
unfolding insert value_or lookup
total-insert k h [] = omega arith
total-insert k h (e ∷ d) = ground (arith, total-insert k h d)

pub held-le-total : (k : Text) (d : Dict Holding) → held (at k d) ≤ total d
unfolding value_or lookup
held-le-total k [] = omega arith
held-le-total k (e ∷ d) = ground (arith, held-le-total k d)

pub at-IsSolvent : (k : Text) (d : Dict Holding) → AllSolvent d → IsSolvent (at k d)
unfolding value_or lookup
at-IsSolvent k [] v = omega arith
at-IsSolvent k (e ∷ d) v = ground (arith, at-IsSolvent k d v.1, v.0)

pub insert-AllSolvent :
    (k : Text) (h : Holding) (d : Dict Holding)
    → AllSolvent d
    → IsSolvent h
    → AllSolvent (insert k h d)
unfolding insert
insert-AllSolvent k h [] v p = (p, tt)
insert-AllSolvent k h (e ∷ d) v p = ground (arith, insert-AllSolvent k h d v.1 p, v.0)
