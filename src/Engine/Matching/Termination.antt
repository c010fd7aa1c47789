-- ===== src/Engine/Matching/Termination.antt =====
-- internal/engine/engine.go, the loop of `matchAgainstBook`: the fuel given is enough, and the loop
-- ends where the incoming order is exhausted or no resting order can trade with it.
use golang_predix.Common.{
  ℕ, zero, suc, ◌+◌, ◌≤◌, ◌<◌, ◌≡◌, refl, ◌⊎◌, inl, inr, true, false, Bool, none, some, List, [],
  ◌∷◌, Text, arith, Bool-cases, if◌then◌else◌, get_elem?, length,
}
use golang_predix.Common.Int.{pos, ltb_ℤ, leb_ℤ}
use golang_predix.Common.Int64.{sub64_nonneg}
use golang_predix.Engine.Types.{Order, Heap, update, update_lem}
use golang_predix.Engine.Matching.{
  Env, MatchState, is_dead, is_eligible, halt, go_on, min64, fill, rest_after_fill, execute_pair,
  find_counterparty, remove_invalid, remove_order_index, round, trade_with, resume, match_loop,
}
use golang_predix.Engine.Matching.Counterparty.{find_counterparty-IsFirst}
use golang_predix.Engine.Matching.Loop.{Called, dropped}
use golang_predix.Engine.Matching.Fills.{
  IsBalanced, AllBalanced, execute_pair-Accounts, eligible-ne,
}

-- The loop of `matchAgainstBook` has nothing more to do.
abbrev pub IsFinished : Text → MatchState → Type 0
IsFinished incoming m =
    (ltb_ℤ (pos 0) (m.heap incoming).remaining_quantity ≡ false)
    ⊎ (find_counterparty m.heap (m.heap incoming) m.resting ≡ none)

-- The resting orders, and one more while the incoming order has something left.
abbrev pub measure : Text → MatchState → ℕ
measure incoming m =
    length m.resting + (if ltb_ℤ (pos 0) (m.heap incoming).remaining_quantity then 1 else 0)

remove_invalid_le : (h : Heap) (rs : List Text) → length (remove_invalid h rs) ≤ length rs
unfolding remove_invalid
remove_invalid_le h [] = omega arith
remove_invalid_le h (r ∷ rs) = ground (arith, remove_invalid_le h rs)

length-remove_order_index :
    (rs : List Text) (i : ℕ) {r : Text}
    → get_elem? rs i ≡ some r
    → length (remove_order_index rs i) + 1 ≡ length rs
unfolding remove_order_index
length-remove_order_index [] i h = cc
length-remove_order_index (q ∷ rs) zero h = omega arith
length-remove_order_index (q ∷ rs) (suc i) h = omega (arith, length-remove_order_index rs i h)

eligible_left : (i q : Order) → is_eligible i q ≡ true → leb_ℤ q.remaining_quantity (pos 0) ≡ false
unfolding is_eligible is_dead
eligible_left i q h = ground arith

-- The smaller of the two quantities is traded: one of the two orders has nothing left.
exhausts_one :
    (i q : Order)
    → IsBalanced i
    → IsBalanced q
    → ltb_ℤ (pos 0) i.remaining_quantity ≡ true
    → leb_ℤ q.remaining_quantity (pos 0) ≡ false
    → let n = min64 i.remaining_quantity q.remaining_quantity in
      (leb_ℤ n (pos 0) ≡ false)
      × ((ltb_ℤ (pos 0) (fill n i).remaining_quantity ≡ false)
          ⊎ (leb_ℤ (fill n q).remaining_quantity (pos 0) ≡ true))
unfolding min64 fill
exhausts_one i q bi bq hi hq = ground (
  arith,
  sub64_nonneg i.remaining_quantity i.remaining_quantity,
  sub64_nonneg q.remaining_quantity q.remaining_quantity,
)

-- What the two flags of a round make of the measure.
finish :
    (removed more : Bool) (rs rs' : List Text)
    → (more ≡ false) ⊎ (removed ≡ true)
    → length rs' + 1 ≡ length rs
    → length (if removed then rs' else rs) + (if more then 1 else 0) < length rs + 1
finish true true rs rs' one h = omega arith
finish true false rs rs' one h = omega arith
finish false true rs rs' one h = ground arith
finish false false rs rs' one h = omega arith

execute_pair_shrinks :
    (env : Env) (incoming : Text) (m : MatchState) (idx : ℕ) (r : Text)
    → Called incoming m idx r
    → AllBalanced m.heap
    → measure incoming (execute_pair env incoming r idx m) < measure incoming m
unfolding execute_pair
execute_pair_shrinks env incoming m idx r c all =
    let i = m.heap incoming in
    let q = m.heap r in
    let n = min64 i.remaining_quantity q.remaining_quantity in
    let h₁ = update incoming (fill n i) m.heap in
    let apart = eligible-ne m.heap incoming r c.fits in
    let same : h₁ r ≡ q = ground (arith, update_lem incoming r (fill n i) m.heap) in
    let o = rest_after_fill (fill n (h₁ r)) in
    let kept : update r o h₁ incoming ≡ fill n i =
      ground (arith, update_lem r incoming o h₁, update_lem incoming incoming (fill n i) m.heap) in
    let (some_traded, one) =
      exhausts_one i q (all incoming) (all r) c.some_left (eligible_left i q c.fits) in
    let shorter = length-remove_order_index m.resting idx c.there in
    rw (some_traded, kept, same, c.some_left)
      (finish (leb_ℤ (fill n q).remaining_quantity (pos 0))
        (ltb_ℤ (pos 0) (fill n i).remaining_quantity) m.resting (remove_order_index m.resting idx)
        one shorter)

-- A round that goes on has made progress.
round_shrinks :
    (env : Env) (incoming : Text) (m : MatchState)
    → AllBalanced m.heap
    → ((m' : MatchState) × (round env incoming m ≡ halt m') × IsFinished incoming m')
      ⊎ ((m' : MatchState) × (round env incoming m ≡ go_on m')
          × AllBalanced m'.heap
          × (measure incoming m' < measure incoming m))
unfolding round trade_with
round_shrinks env incoming m all =
    let d = dropped m in
    elim (Bool-cases (ltb_ℤ (pos 0) (m.heap incoming).remaining_quantity)) [
      | inr exhausted ↦ inl (m, ground arith, inl exhausted)
      | inl left ↦ elim (find_counterparty-IsFirst m.heap (m.heap incoming) d.resting) [
        | inl (nobody, _) ↦ inl (d, ground arith, inr nobody)
        | inr (i, r, found, first) ↦
            let c : Called incoming d i r = record {
              some_left = left;
              there = first.there;
              fits = first.fits;
            } in
            let there = first.there in
            let a =
              execute_pair-Accounts env _ incoming d i r c
                (record { balanced = all; sum = refl }) in
            inr (
              execute_pair env incoming r i d,
              ground arith,
              a.balanced,
              omega (
                arith,
                execute_pair_shrinks env incoming d i r c all,
                remove_invalid_le m.heap m.resting,
              ),
            )
      ]
    ]

pub match_loop_finishes :
    (fuel : ℕ) (env : Env) (incoming : Text) (m : MatchState)
    → AllBalanced m.heap
    → measure incoming m ≤ fuel
    → IsFinished incoming (match_loop fuel env incoming m)
unfolding match_loop resume
match_loop_finishes zero env incoming m all h =
    elim (Bool-cases (ltb_ℤ (pos 0) (m.heap incoming).remaining_quantity)) [
      | inl left ↦ absurd (omega (arith, rw left at h))
      | inr exhausted ↦ inl exhausted
    ]
match_loop_finishes (suc fuel) env incoming m all h = elim (round_shrinks env incoming m all) [
  | inl (m', e, done) ↦ rw (e, resume) done
  | inr (m', e, all', less) ↦
      rw (e, resume) (match_loop_finishes fuel env incoming m' all' (omega arith))
]
