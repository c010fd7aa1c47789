-- ===== src/Database/Worker/Accept.antt =====
-- internal/engine/engine.go and internal/dbworker/worker.go: the worker accepts what the matching makes.
use golang_predix.Common.{
  ℕ, zero, suc, ◌≡◌, refl, ◌∙◌, sym, ap, subst, Bool, true, false, Option, none, some, List, [],
  ◌∷◌, All, All-append, length, get_elem?, Text, inl, inr, Bool-cases, if◌then◌else◌, arith,
}
use golang_predix.Common.Int.{ℤ, pos, leb_ℤ, ltb_ℤ}
use golang_predix.Engine.Types.{Outcome, OrderType, limit, Order, Heap, OrderBook, is_buy}
use golang_predix.Engine.Orders.{
  Failure, ◌orelse◌, when, is_empty, check_outcome, check_price, validate_order,
}
use golang_predix.Engine.Matching.{
  Env, is_invalid, min64, MatchState, build_trade, remove_invalid, execute_pair, opposing,
  match_against_book,
}
use golang_predix.Engine.Matching.Terms.{terms, SameTerms, execute_pair_terms}
use golang_predix.Engine.Matching.Loop.{Called, match_loop_inv}
use golang_predix.Engine.Orders.Resting.{All-remove}
use golang_predix.Database.Result.{ok}
use golang_predix.Database.Settlement.{is_unknown, validate_trade}

-- An order with an id that `validateOrder` has passed.
pub record IsPlaced (o : Order) : Type 0 where
  pub valid : validate_order o ≡ none
  pub named : is_empty o.id ≡ false

-- The same of a limit order.
pub record IsRestable (o : Order) : Type 0 where
  pub valid_order : IsPlaced o
  pub limited : o.order_type ≡ limit

IsPlaced-terms : (o q : Order) → terms o ≡ terms q → IsPlaced o → IsPlaced q
unfolding validate_order
IsPlaced-terms o q e p = record {
  valid = ap validate_order (sym e) ∙ p.valid;
  named = ap (λ x. is_empty x.id) (sym e) ∙ p.named;
}

orelse_none : (f g : Option Failure) → (f orelse g) ≡ none → (f ≡ none) × (g ≡ none)
orelse_none none g h = (refl, h)
orelse_none (some x) g h = absurd (ground arith)

when-none : (b : Bool) (x : Failure) → when b x ≡ none → b ≡ false
when-none true x h = absurd (ground arith)
when-none false x h = refl

check_outcome-none : (o : Outcome) → check_outcome o ≡ none → is_unknown o ≡ false
unfolding check_outcome is_unknown
check_outcome-none o h = ground arith

check_price_limit :
    (t : OrderType) (p : ℤ) → t ≡ limit → check_price t p ≡ none → ltb_ℤ p (pos 0) ≡ false
unfolding check_price
check_price_limit t p e h = ground arith

-- What `validateOrder` has seen.
record Checked (o : Order) : Type 0 where
  event : is_empty o.event_id ≡ false
  user : is_empty o.user_id ≡ false
  outcome : is_unknown o.outcome ≡ false
  price : check_price o.order_type o.price ≡ none

IsPlaced-Checked : (o : Order) → IsPlaced o → Checked o
unfolding validate_order
IsPlaced-Checked o p =
    let (event, a) = orelse_none _ _ p.valid in
    let (user, b) = orelse_none _ _ a in
    let (_, c) = orelse_none _ _ b in
    let (_, d) = orelse_none _ _ c in
    let (outcome, price) = orelse_none _ _ d in
    record {
      event = when-none _ _ event;
      user = when-none _ _ user;
      outcome = check_outcome-none o.outcome outcome;
      price = price;
    }

build_trade-accepted :
    (id : Text) (now : ℕ) (i r : Order) (n : ℤ)
    → is_empty id ≡ false
    → IsPlaced i
    → IsRestable r
    → leb_ℤ n (pos 0) ≡ false
    → validate_trade (build_trade id now i r n) ≡ ok tt
unfolding build_trade validate_trade
build_trade-accepted id now i r n named p q more =
    let a = IsPlaced-Checked i p in
    let b = IsPlaced-Checked r q.valid_order in
    let c = check_price_limit r.order_type r.price q.limited b.price in
    elim (Bool-cases (is_buy i.side)) [
      | inl buys ↦ ground (arith, a.event, a.user, a.outcome, b.user, p.named, q.valid_order.named)
      | inr sells ↦ ground (arith, a.event, a.user, a.outcome, b.user, p.named, q.valid_order.named)
    ]

-- The state of the loop: the terms are those of the start, the slice has orders that may rest, and
-- the worker accepts the trades.
abbrev AcceptedSoFar : Heap → MatchState → Type 0
AcceptedSoFar h m =
    SameTerms h m.heap
    × All (λ r. IsRestable (h r)) m.resting
    × All (λ t. validate_trade t ≡ ok tt) m.trades

remove_invalid-All :
    (P : Text → Type 0) (h : Heap) (rs : List Text) → All P rs → All P (remove_invalid h rs)
unfolding remove_invalid
remove_invalid-All P h [] a = a
remove_invalid-All P h (r ∷ rs) a = elim (Bool-cases (is_invalid (h r))) [
  | inl dead ↦ rw dead (remove_invalid-All P h rs a.1)
  | inr alive ↦ rw alive a
]

get_elem?-All :
    (P : Text → Type 0) (rs : List Text) (i : ℕ) (r : Text)
    → All P rs
    → get_elem? rs i ≡ some r
    → P r
get_elem?-All P [] i r a e = absurd (ground arith)
get_elem?-All P (q ∷ rs) zero r a e = subst P (ground arith) a.0
get_elem?-All P (q ∷ rs) (suc i) r a e = get_elem?-All P rs i r a.1 e

if-All :
    (P : Text → Type 0) (b : Bool) (xs ys : List Text)
    → All P xs
    → All P ys
    → All P (if b then xs else ys)
if-All P true xs ys a c = a
if-All P false xs ys a c = c

execute_pair-resting :
    (P : Text → Type 0) (env : Env) (incoming r : Text) (idx : ℕ) (m : MatchState)
    → All P m.resting
    → All P (execute_pair env incoming r idx m).resting
unfolding execute_pair
execute_pair-resting P env incoming r idx m a =
    let n = min64 (m.heap incoming).remaining_quantity (m.heap r).remaining_quantity in
    elim (Bool-cases (leb_ℤ n (pos 0))) [
      | inl nothing ↦ rw nothing a
      | inr something ↦ rw something (if-All P _ _ m.resting (All-remove P m.resting idx a) a)
    ]

execute_pair-trades :
    (env : Env) (incoming : Text) (h : Heap) (m : MatchState) (idx : ℕ) (r : Text)
    → ((n : ℕ) → is_empty (env.uuid n) ≡ false)
    → IsPlaced (m.heap incoming)
    → IsRestable (m.heap r)
    → All (λ t. validate_trade t ≡ ok tt) m.trades
    → All (λ t. validate_trade t ≡ ok tt) (execute_pair env incoming r idx m).trades
unfolding execute_pair
execute_pair-trades env incoming h m idx r named p q good =
    let n = min64 (m.heap incoming).remaining_quantity (m.heap r).remaining_quantity in
    elim (Bool-cases (leb_ℤ n (pos 0))) [
      | inl nothing ↦ rw nothing good
      | inr something ↦ rw something (
          All-append (λ t. validate_trade t ≡ ok tt) m.trades _ good
            (build_trade-accepted _ _ (m.heap incoming) (m.heap r) n (named _) p q something, tt))
    ]

execute_pair-AcceptedSoFar :
    (env : Env) (incoming : Text) (h : Heap) (m : MatchState) (idx : ℕ) (r : Text)
    → ((n : ℕ) → is_empty (env.uuid n) ≡ false)
    → IsPlaced (h incoming)
    → Called incoming m idx r
    → AcceptedSoFar h m
    → AcceptedSoFar h (execute_pair env incoming r idx m)
execute_pair-AcceptedSoFar env incoming h m idx r named p c (same, rest, good) =
    let q = get_elem?-All (λ x. IsRestable (h x)) m.resting idx r rest c.there in
    let maker : IsRestable (m.heap r) = record {
      valid_order = IsPlaced-terms (h r) (m.heap r) (sym (same r)) q.valid_order;
      limited = ap (λ o. o.order_type) (same r) ∙ q.limited;
    } in
    (
      execute_pair_terms env incoming h m idx r same,
      execute_pair-resting (λ x. IsRestable (h x)) env incoming r idx m rest,
      execute_pair-trades env incoming h m idx r named
          (IsPlaced-terms (h incoming) (m.heap incoming) (sym (same incoming)) p) maker good,
    )

-- An order with an id that `validateOrder` passes, matched against a slice of limit orders of which the
-- same holds, with uuids that are not empty: the worker's `validateTrade` passes every trade of the match.
pub match_against_book-accepted :
    (env : Env) (incoming : Text) (h : Heap) (b : OrderBook)
    → ((n : ℕ) → is_empty (env.uuid n) ≡ false)
    → IsPlaced (h incoming)
    → All (λ r. IsRestable (h r)) (opposing (h incoming).side b)
    → All (λ t. validate_trade t ≡ ok tt) (match_against_book env incoming h b).trades
unfolding match_against_book
match_against_book-accepted env incoming h b named p rest =
    let run =
      match_loop_inv env incoming (AcceptedSoFar h)
        (λ m k. (k.0, remove_invalid-All (λ r. IsRestable (h r)) m.heap m.resting k.1, k.2))
        (λ m idx r c k. execute_pair-AcceptedSoFar env incoming h m idx r named p c k)
        (suc (length (opposing (h incoming).side b))) _ ((λ r. refl), rest, tt) in
    run.2
