-- ===== src/Partition/Fencing.antt =====
-- internal/partition/fencing.go, and the rule of internal/dbworker/worker.go that reads its tokens.
use golang_predix.Common.{
  ℕ, zero, suc, ◌<◌, ◌≤◌, ◌≡◌, if◌then◌else◌, ltb, Text, arith, List, [], ◌∷◌,
}
use golang_predix.Partition.Redis.{Redis}

-- `fencingDecision`
pub data FencingDecision : Type 0 where
  fencing_accept fencing_stale : FencingDecision

-- `fencingDecisionForToken`
unfoldable pub fencing_decision_for_token : ℕ → ℕ → FencingDecision
fencing_decision_for_token zero current = fencing_accept
fencing_decision_for_token (suc t) current =
    if ltb (suc t) current then fencing_stale else fencing_accept

accepted : (n : ℕ) → fencing_decision_for_token (suc n) (suc n) ≡ fencing_accept
unfolding fencing_decision_for_token
accepted n = ground arith

overtaken : (n m : ℕ) → suc n < m → fencing_decision_for_token (suc n) m ≡ fencing_stale
unfolding fencing_decision_for_token
overtaken n m h = ground arith

module _ (redis : Redis) where
  -- `FencingTokens.Next`
  unfoldable pub next : Text → redis.State → ℕ × redis.State
  next key s = redis.incr key s

  -- `FencingTokens.Current`
  unfoldable pub current : Text → redis.State → ℕ
  current key s = redis.counter key s

  -- `fencingDecision`: a token against the one at the key.
  unfoldable pub fencing_decision : Text → ℕ → redis.State → FencingDecision
  fencing_decision key token s = fencing_decision_for_token token (current key s)

  -- Tokens that are drawn one after the other, each for a key.
  pub next_all : List Text → redis.State → redis.State
  next_all [] s = s
  next_all (k ∷ ks) s = next_all ks (next k s).1

  current_grows :
      (key : Text) (ks : List Text) (s : redis.State) → current key s ≤ current key (next_all ks s)
  unfolding next_all current next
  current_grows key [] s = omega arith
  current_grows key (k ∷ ks) s =
      ground (arith, redis.counter_incr k key s, current_grows key ks (next k s).1)

  -- A token that was just drawn is accepted. The next token for its key is greater, whatever tokens are drawn in
  -- between, and from then on the earlier token is stale, whatever tokens are drawn after it.
  pub token_is_fenced :
      (key : Text) (before after : List Text) (s : redis.State)
      → let t = next key s in
        let waiting = next_all before t.1 in
        let u = next key waiting in
        (fencing_decision key t.0 t.1 ≡ fencing_accept)
        × (t.0 < u.0)
        × (fencing_decision key t.0 (next_all after u.1) ≡ fencing_stale)
  unfolding fencing_decision next current
  token_is_fenced key before after s =
      let t = next key s in
      let u = next key (next_all before t.1) in
      let drawn = redis.incr_value key s in
      let again = redis.incr_value key (next_all before t.1) in
      let kept : current key t.1 ≡ t.0 = ground (arith, redis.counter_incr key key s, drawn) in
      let kept' : current key u.1 ≡ u.0 =
        ground (arith, redis.counter_incr key key (next_all before t.1), again) in
      let grown = current_grows key before t.1 in
      let grown' = current_grows key after u.1 in
      let later : t.0 < u.0 = omega (arith, kept, grown, again) in
      (
        rw (kept, drawn) (accepted (current key s)),
        later,
        rw drawn (
            overtaken (current key s) (current key (next_all after u.1))
              (omega (arith, drawn, later, kept', grown'))),
      )
