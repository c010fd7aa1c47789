-- ===== src/Partition/Router/Names.antt =====
-- internal/partition/router.go: no two partitions share a stream, a group or a key.
use golang_predix.Common.{
  ℕ, zero, suc, ◌+◌, ◌-◌, ◌*◌, ◌/◌, ◌≤◌, ◌≡◌, ◌≢◌, refl, sym, ap, ◌∙◌, [], ◌∷◌, ◌++◌, Text, codes,
  ltb, arith, Bool-cases, inl, inr,
}
use mathlib.Core.List.{append_cancel_left, append_cancel_right}
use golang_predix.Partition.Router.{
  Router, decimal_from, decimal, stream, group, sequence_key, fencing_key, lease_key,
}

-- The number that a text of digits stands for.
value_from : ℕ → Text → ℕ
value_from acc [] = acc
value_from acc (c ∷ s) = value_from (10 * acc + (c - 48)) s

value_from-push :
    (acc : ℕ) (s : Text) (c : ℕ) → value_from acc (s ++ c ∷ []) ≡ 10 * value_from acc s + (c - 48)
unfolding value_from
value_from-push acc [] c = refl
value_from-push acc (d ∷ s) c = value_from-push (10 * acc + (d - 48)) s c

value-decimal_from : (fuel n : ℕ) → n ≤ fuel → value_from 0 (decimal_from fuel n) ≡ n
unfolding decimal_from value_from
value-decimal_from zero n h = omega arith
value-decimal_from (suc fuel) n h = elim (Bool-cases (ltb n 10)) [
  | inl small ↦ rw small (ground arith)
  | inr large ↦
      rw (large, value_from-push, value-decimal_from fuel (n / 10) (ground arith)) (omega arith)
]

-- The decimal text of a number determines it.
pub decimal_injective : (m n : ℕ) → decimal m ≡ decimal n → m ≡ n
unfolding decimal
decimal_injective m n e =
    sym (value-decimal_from m m (omega arith))
    ∙ (ap (value_from 0) e ∙ value-decimal_from n n (omega arith))

-- Two different partitions have different streams, consumer groups, sequence keys, fencing keys and lease keys.
pub names_are_distinct :
    (r : Router) (p q : ℕ)
    → p ≢ q
    → (stream r p ≢ stream r q)
      × (group p ≢ group q)
      × (sequence_key r p ≢ sequence_key r q)
      × (fencing_key p ≢ fencing_key q)
      × (lease_key p ≢ lease_key q)
unfolding stream group sequence_key fencing_key lease_key
names_are_distinct r p q n =
    let after = λ (s : Text) (e : s ++ decimal p ≡ s ++ decimal q).
      decimal_injective p q (append_cancel_left s (decimal p) (decimal q) e) in
    (
      (λ e. n (after (codes ":partition:") (append_cancel_left r.stream_prefix _ _ e))),
      (λ e. n (after (codes "engines:p:") e)),
      (λ e. n (
          decimal_injective p q (
            append_cancel_right (decimal p) (decimal q) (codes ":sequence")
              (append_cancel_left (codes ":") _ _ (append_cancel_left r.stream_prefix _ _ e))))),
      (λ e. n (after (codes "engine:fencing:") e)),
      (λ e. n (after (codes "engine:lease:") e)),
    )
