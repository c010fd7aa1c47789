-- ===== src/Engine/Matching/Loop.antt =====
-- internal/engine/engine.go, the loop of `matchAgainstBook`: its invariant rule.
use golang_predix.Common.{ℕ, zero, suc, ◌≡◌, true, some, Text, Bool-cases, inl, inr, get_elem?}
use golang_predix.Common.Int.{pos, ltb_ℤ}
use golang_predix.Engine.Matching.{
  Env, MatchState, Progress, halt, go_on, is_eligible, remove_invalid, execute_pair, trade_with,
  round, resume, match_loop,
}
use golang_predix.Engine.Matching.Counterparty.{find_counterparty-IsFirst}

-- The state after the dead orders at the front are dropped.
abbrev pub dropped : MatchState → MatchState
dropped m = record m { resting = remove_invalid m.heap m.resting }

abbrev pub state_of : Progress → MatchState
state_of (halt m) = m
state_of (go_on m) = m

-- What holds when `executePair` is called.
pub record Called (incoming : Text) (m : MatchState) (idx : ℕ) (r : Text) : Type 0 where
  pub some_left : ltb_ℤ (pos 0) (m.heap incoming).remaining_quantity ≡ true
  pub there : get_elem? m.resting idx ≡ some r
  pub fits : is_eligible (m.heap incoming) (m.heap r) ≡ true

module _ {ℓ} (env : Env) (incoming : Text) (P : MatchState → Type ℓ)
    (keep_drop : (m : MatchState) → P m → P (dropped m))
    (keep_pair : (m : MatchState) (idx : ℕ) (r : Text)
      → Called incoming m idx r
      → P m
      → P (execute_pair env incoming r idx m)) where
  round_inv : (m : MatchState) → P m → P (state_of (round env incoming m))
  unfolding round trade_with
  round_inv m h = elim (Bool-cases (ltb_ℤ (pos 0) (m.heap incoming).remaining_quantity)) [
    | inr exhausted ↦ rw exhausted h
    | inl left ↦
        rw left (elim (find_counterparty-IsFirst m.heap (m.heap incoming) (dropped m).resting) [
          | inl (nobody, _) ↦ rw (nobody, trade_with) (keep_drop m h)
          | inr (i, r, found, first) ↦
              rw (found, trade_with, first.there)
                (keep_pair (dropped m) i r
                  (record { some_left = left; there = first.there; fits = first.fits })
                  (keep_drop m h))
        ])
  ]

  resume_inv :
      (rest : MatchState → MatchState) (p : Progress)
      → ((m : MatchState) → P m → P (rest m))
      → P (state_of p)
      → P (resume rest p)
  unfolding resume
  resume_inv rest (halt m) k h = h
  resume_inv rest (go_on m) k h = k m h

  -- What the two operations of a round keep, the loop keeps.
  pub match_loop_inv : (fuel : ℕ) (m : MatchState) → P m → P (match_loop fuel env incoming m)
  unfolding match_loop
  match_loop_inv zero m h = h
  match_loop_inv (suc fuel) m h =
      resume_inv (match_loop fuel env incoming) (round env incoming m) (match_loop_inv fuel)
        (round_inv m h)
