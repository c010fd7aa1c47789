-- ===== src/Engine/Matching/Terms.antt =====
-- internal/engine/engine.go, `executePair`: matching changes what is filled, and no order's terms.
use golang_predix.Common.{
  ℕ, ◌≡◌, refl, ◌≢◌, ◌⊎◌, ◌∙◌, ap, ap₂, if◌then◌else◌, true, false, List, [], All, All-append, Text,
  Text-discrete, arith, Bool-cases, inl, inr,
}
use mathlib.Core.Path.{subst₂}
use golang_predix.Common.Int.{ℤ, pos, ltb_ℤ, leb_ℤ, ◌≤ℤ◌}
use golang_predix.Engine.Types.{Order, Trade, Heap, pending, is_buy, is_market, update, update_lem}
use golang_predix.Engine.Matching.{
  Env, MatchState, can_match, is_eligible, min64, fill, rest_after_fill, build_trade, execute_pair,
  match_loop,
}
use golang_predix.Engine.Matching.Loop.{Called, match_loop_inv}

-- An order without what matching changes.
abbrev pub terms : Order → Order
terms o = record o { filled_quantity = pos 0; remaining_quantity = pos 0; status = pending }

abbrev pub SameTerms : Heap → Heap → Type 0
SameTerms h k = (r : Text) → terms (k r) ≡ terms (h r)

terms-fill : (n : ℤ) (o : Order) → terms (fill n o) ≡ terms o
unfolding fill
terms-fill n o = refl

rest_terms : (o : Order) → terms (rest_after_fill o) ≡ terms o
unfolding rest_after_fill
rest_terms o = ground arith

update-terms :
    (r : Text) (o : Order) (h k : Heap)
    → terms o ≡ terms (h r)
    → SameTerms h k
    → SameTerms h (update r o k)
update-terms r o h k e same q = elim (Text-discrete q r) [
  | yes here ↦ ground (arith, update_lem r q o k)
  | no there ↦ ground (arith, update_lem r q o k, same q)
]

pub execute_pair_terms :
    (env : Env) (incoming : Text) (h : Heap) (m : MatchState) (idx : ℕ) (r : Text)
    → SameTerms h m.heap
    → SameTerms h (execute_pair env incoming r idx m).heap
unfolding execute_pair
execute_pair_terms env incoming h m idx r same =
    let i = m.heap incoming in
    let n = min64 i.remaining_quantity (m.heap r).remaining_quantity in
    let once = update-terms incoming (fill n i) h m.heap (terms-fill n i ∙ same incoming) same in
    let rest = update incoming (fill n i) m.heap r in
    elim (Bool-cases (leb_ℤ n (pos 0))) [
      | inl nothing ↦ rw nothing same
      | inr something ↦
          rw something
            (update-terms r _ h _ (rest_terms (fill n rest) ∙ (terms-fill n rest ∙ once r)) once)
    ]

-- An eligible resting order belongs to another user and agrees with the terms of the incoming one.
pub record Agrees (incoming resting : Order) : Type 0 where
  pub other_user : resting.user_id ≢ incoming.user_id
  pub same_outcome : incoming.outcome ≡ resting.outcome
  pub within_limit :
      (is_market incoming.order_type ≡ true)
      ⊎ ((is_buy incoming.side ≡ true) × (resting.price ≤ℤ incoming.price))
      ⊎ ((is_buy incoming.side ≡ false) × (incoming.price ≤ℤ resting.price))

pub is_eligible-Agrees :
    (incoming resting : Order) → is_eligible incoming resting ≡ true → Agrees incoming resting
unfolding is_eligible can_match
is_eligible-Agrees incoming resting h = ground arith

-- Agreement is about the terms alone.
Agrees-terms : (i r j q : Order) → terms i ≡ terms j → terms r ≡ terms q → Agrees i r → Agrees j q
Agrees-terms i r j q e f a =
    let bare : Agrees (terms i) (terms r) = record {
      other_user = a.other_user;
      same_outcome = a.same_outcome;
      within_limit = a.within_limit;
    } in
    let moved = subst₂ Agrees e f bare in
    record {
      other_user = moved.other_user;
      same_outcome = moved.same_outcome;
      within_limit = moved.within_limit;
    }

-- A trade of the order `incoming` against an order of the heap, as the heap was before matching.
pub record IsFair (h : Heap) (incoming : Text) (t : Trade) : Type 0 where
  pub maker : Text
  pub agreed : Agrees (h incoming) (h maker)
  pub at_maker_price : t.price ≡ (h maker).price
  pub taker_order : t.order_id ≡ (h incoming).id
  pub maker_order : t.match_order_id ≡ (h maker).id
  pub in_event : t.event_id ≡ (h incoming).event_id
  pub in_outcome : t.outcome ≡ (h incoming).outcome
  pub buyer :
      t.buyer_id ≡ (if is_buy (h incoming).side then (h incoming).user_id else (h maker).user_id)
  pub seller :
      t.seller_id ≡ (if is_buy (h incoming).side then (h maker).user_id else (h incoming).user_id)
  pub some_quantity : ltb_ℤ (pos 0) t.quantity ≡ true

-- The heap has the terms of the start, and the trades so far are fair.
FairSoFar : Heap → Text → MatchState → Type 0
FairSoFar h incoming m = SameTerms h m.heap × All (IsFair h incoming) m.trades

build_trade-IsFair :
    (id : Text) (now : ℕ) (h k : Heap) (incoming r : Text) (n : ℤ)
    → SameTerms h k
    → is_eligible (k incoming) (k r) ≡ true
    → leb_ℤ n (pos 0) ≡ false
    → IsFair h incoming (build_trade id now (k incoming) (k r) n)
unfolding build_trade
build_trade-IsFair id now h k incoming r n same fits more = record {
  maker = r;
  agreed =
      Agrees-terms (k incoming) (k r) (h incoming) (h r) (same incoming) (same r)
        (is_eligible-Agrees (k incoming) (k r) fits);
  at_maker_price = ap (λ o. o.price) (same r);
  taker_order = ap (λ o. o.id) (same incoming);
  maker_order = ap (λ o. o.id) (same r);
  in_event = ap (λ o. o.event_id) (same incoming);
  in_outcome = ap (λ o. o.outcome) (same incoming);
  buyer = ap₂ (λ i q. if is_buy i.side then i.user_id else q.user_id) (same incoming) (same r);
  seller = ap₂ (λ i q. if is_buy i.side then q.user_id else i.user_id) (same incoming) (same r);
  some_quantity = ground arith;
}

execute_pair-FairSoFar :
    (env : Env) (incoming : Text) (h : Heap) (m : MatchState) (idx : ℕ) (r : Text)
    → Called incoming m idx r
    → FairSoFar h incoming m
    → FairSoFar h incoming (execute_pair env incoming r idx m)
unfolding FairSoFar
execute_pair-FairSoFar env incoming h m idx r c (same, fair) =
    (execute_pair_terms env incoming h m idx r same, trades)
  where
    trades : All (IsFair h incoming) (execute_pair env incoming r idx m).trades
    trades =
        unfold execute_pair in
        let n = min64 (m.heap incoming).remaining_quantity (m.heap r).remaining_quantity in
        elim (Bool-cases (leb_ℤ n (pos 0))) [
          | inl nothing ↦ rw nothing fair
          | inr something ↦ rw something (
              All-append (IsFair h incoming) m.trades _ fair
                (build_trade-IsFair _ _ h m.heap incoming r n same c.fits something, tt))
        ]

-- Every trade of a run of the loop is fair, and no order's terms change.
pub match_loop-FairSoFar :
    (fuel : ℕ) (env : Env) (incoming : Text) (h : Heap) (rs : List Text)
    → let m = match_loop fuel env incoming (record { heap = h; resting = rs; trades = [] }) in
      SameTerms h m.heap × All (IsFair h incoming) m.trades
unfolding FairSoFar
match_loop-FairSoFar fuel env incoming h rs =
    match_loop_inv env incoming (FairSoFar h incoming) (λ m k. k)
      (λ m idx r c k. execute_pair-FairSoFar env incoming h m idx r c k) fuel _ ((λ r. refl), tt)
