-- ===== src/Engine/Ledger/Moves.antt =====
-- internal/engine/ledger.go: the four writes of a holding, and what each moves in or out of the sum.
use golang_predix.Common.{ℕ, ◌+◌, ◌≤◌, ◌<◌, ◌≡◌, Text, arith}
use golang_predix.Common.Int.{ℤ, pos, pos_part}
use golang_predix.Common.Int64.{int64_limit, IsNonneg, add64_nonneg, sub64_nonneg}
use golang_predix.Common.Dict.{Dict, insert, value_or-insert}
use golang_predix.Engine.Types.{Holding}
use golang_predix.Engine.Ledger.{no_balance, at_least_zero, freeze, thaw, debit, credit}
use golang_predix.Engine.Ledger.Totals.{
  held, total, IsSolvent, at, AllSolvent, total-insert, held-le-total, at-IsSolvent,
  insert-AllSolvent,
}

-- One write to a map of holdings that keeps the sum up to what goes in and out.
pub record Moves (d e : Dict Holding) (gain loss : ℕ) : Type 0 where
  pub sum : total e + loss ≡ total d + gain
  pub solvent : AllSolvent e

pub put-Moves :
    (k : Text) (h : Holding) (d : Dict Holding) (gain loss : ℕ)
    → AllSolvent d
    → IsSolvent h
    → held h + loss ≡ held (at k d) + gain
    → Moves d (insert k h d) gain loss
put-Moves k h d gain loss v p e = record {
  sum = omega (arith, total-insert k h d);
  solvent = insert-AllSolvent k h d v p;
}

-- The four writes on a holding that is in range.
module _ (n : ℤ) (h : Holding) (nonneg : IsNonneg n) (v : IsSolvent h) where
  pub freeze_lem :
      pos_part n ≤ pos_part h.available
      → held h < int64_limit
      → IsSolvent (freeze n h)
        × (held (freeze n h) ≡ held h)
        × (pos_part (freeze n h).reserved ≡ pos_part h.reserved + pos_part n)
  unfolding freeze
  freeze_lem enough small = ground (arith, sub64_nonneg h.available n, add64_nonneg h.reserved n)

  thaw_lem :
      pos_part n ≤ pos_part h.reserved
      → held h < int64_limit
      → IsSolvent (thaw n h) × (held (thaw n h) ≡ held h)
  unfolding thaw at_least_zero
  thaw_lem enough small = ground (arith, sub64_nonneg h.reserved n, add64_nonneg h.available n)

  debit_lem :
      pos_part n ≤ pos_part h.reserved
      → pos_part h.reserved < int64_limit
      → IsSolvent (debit n h) × (held (debit n h) + pos_part n ≡ held h)
  unfolding debit at_least_zero
  debit_lem enough small = ground (arith, sub64_nonneg h.reserved n)

  credit_lem :
      pos_part h.available + pos_part n < int64_limit
      → IsSolvent (credit n h) × (held (credit n h) ≡ held h + pos_part n)
  unfolding credit
  credit_lem small = ground (arith, add64_nonneg h.available n)

-- The same on the holding of one key.
module _ (k : Text) (n : ℤ) (d : Dict Holding) (nonneg : IsNonneg n) (v : AllSolvent d)
    (small : total d < int64_limit) where
  pub freeze-Moves :
      pos_part n ≤ pos_part (at k d).available → Moves d (insert k (freeze n (at k d)) d) 0 0
  freeze-Moves enough =
      let (p, e, _) =
        freeze_lem n (at k d) nonneg (at-IsSolvent k d v) enough
          (omega (arith, held-le-total k d)) in
      put-Moves k _ d 0 0 v p (omega arith)

  pub thaw-Moves :
      pos_part n ≤ pos_part (at k d).reserved → Moves d (insert k (thaw n (at k d)) d) 0 0
  thaw-Moves enough =
      let (p, e) =
        thaw_lem n (at k d) nonneg (at-IsSolvent k d v) enough (omega (arith, held-le-total k d)) in
      put-Moves k _ d 0 0 v p (omega arith)

-- Between the two halves of a settlement the sum may pass the range, so these ask less.
module _ (k : Text) (n : ℤ) (d : Dict Holding) (nonneg : IsNonneg n) (v : AllSolvent d) where
  pub debit-Moves :
      pos_part n ≤ pos_part (at k d).reserved
      → pos_part (at k d).reserved < int64_limit
      → Moves d (insert k (debit n (at k d)) d) 0 (pos_part n)
  debit-Moves enough small =
      let (p, e) = debit_lem n (at k d) nonneg (at-IsSolvent k d v) enough small in
      put-Moves k _ d 0 (pos_part n) v p (omega arith)

  pub credit-Moves :
      pos_part (at k d).available + pos_part n < int64_limit
      → Moves d (insert k (credit n (at k d)) d) (pos_part n) 0
  credit-Moves fits =
      let (p, e) = credit_lem n (at k d) nonneg (at-IsSolvent k d v) fits in
      put-Moves k _ d (pos_part n) 0 v p (omega arith)

-- A credit leaves what is frozen, at every key.
pub reserved-credit :
    (j k : Text) (n : ℤ) (d : Dict Holding)
    → (at j (insert k (credit n (at k d)) d)).reserved ≡ (at j d).reserved
unfolding credit
reserved-credit j k n d = ground (arith, value_or-insert j k (credit n (at k d)) no_balance d)

-- What one holding can spend and what another has frozen do not overlap.
pub available-reserved-le-total :
    (j k : Text) (d : Dict Holding)
    → pos_part (at j d).available + pos_part (at k d).reserved ≤ total d
available-reserved-le-total j k d =
    let h : Holding = record (at k d) { reserved = pos 0 } in
    ground (
      arith,
      total-insert k h d,
      held-le-total j (insert k h d),
      value_or-insert j k h no_balance d,
    )
