-- ===== src/Engine/Undated/Match.antt =====
-- internal/engine/engine.go: matching does not look at the times of orders and trades, nor at the ids of trades.
use golang_predix.Common.{
  ℕ, zero, suc, ◌≡◌, refl, sym, ◌∙◌, ap, Option, none, some, List, [], ◌∷◌, ◌++◌, map, Text,
  if◌then◌else◌, length, get_elem?, arith,
}
use golang_predix.Common.Int.{ℤ, pos, leb_ℤ, ltb_ℤ}
use golang_predix.Engine.Types.{Order, Trade, Heap, OrderBook, update}
use golang_predix.Engine.Matching.{
  Env, MatchState, Progress, halt, go_on, is_dead, can_match, is_eligible, is_invalid,
  find_counterparty, remove_order_index, remove_invalid, min64, build_trade, fill, rest_after_fill,
  execute_pair, trade_with, round, resume, match_loop, match_against_book,
}
use golang_predix.Engine.Undated.{if-apply, undated, undated_heap, undated_trade, update-undated}
use mathlib.Core.Option

-- The clock and the uuids of a match that is told of neither.
abbrev pub timeless : Env
timeless = record { uuid = λ n. []; now = 0 }

abbrev pub undated_state : MatchState → MatchState
undated_state m = record m { heap = undated_heap m.heap; trades = map undated_trade m.trades }

abbrev undated_progress : Progress → Progress
undated_progress (halt m) = halt (undated_state m)
undated_progress (go_on m) = go_on (undated_state m)

find_counterparty-undated :
    (h : Heap) (o : Order) (rs : List Text)
    → find_counterparty (undated_heap h) (undated o) rs ≡ find_counterparty h o rs
unfolding find_counterparty is_eligible is_dead can_match
find_counterparty-undated h o [] = refl
find_counterparty-undated h o (r ∷ rs) =
    ap (λ x. if is_eligible o (h r) then some 0 else Option.map suc x)
      (find_counterparty-undated h o rs)

remove_invalid-undated :
    (h : Heap) (rs : List Text) → remove_invalid (undated_heap h) rs ≡ remove_invalid h rs
unfolding remove_invalid is_invalid
remove_invalid-undated h [] = refl
remove_invalid-undated h (r ∷ rs) =
    ap (λ x. if is_invalid (h r) then x else r ∷ rs) (remove_invalid-undated h rs)

map-append_one :
    (ts : List Trade) (t : Trade)
    → map undated_trade (ts ++ t ∷ []) ≡ map undated_trade ts ++ undated_trade t ∷ []
map-append_one [] t = refl
map-append_one (x ∷ ts) t = ap (λ l. undated_trade x ∷ l) (map-append_one ts t)

-- The state behind the fill of the incoming order.
unfoldable filled_up : Text → ℕ → ℤ → List Text → List Trade → Heap → MatchState
filled_up resting idx n rs ts h =
    let r = fill n (h resting) in
    record {
      heap = update resting (rest_after_fill r) h;
      resting = if leb_ℤ r.remaining_quantity (pos 0) then remove_order_index rs idx else rs;
      trades = ts;
    }

rest_after_fill-undated :
    (n : ℤ) (o : Order)
    → undated (rest_after_fill (fill n o)) ≡ rest_after_fill (fill n (undated o))
unfolding rest_after_fill fill
rest_after_fill-undated n o = ground arith

filled_up-undated :
    (r : Text) (idx : ℕ) (n : ℤ) (rs : List Text) (ts : List Trade) (h : Heap)
    → undated_state (filled_up r idx n rs ts h)
      ≡ filled_up r idx n rs (map undated_trade ts) (undated_heap h)
unfolding filled_up fill
filled_up-undated r idx n rs ts h =
    let m = filled_up r idx n rs (map undated_trade ts) (undated_heap h) in
    ap (λ (g : Heap). record m { heap = g })
      (update-undated r (rest_after_fill (fill n (h r))) h
        ∙ ap (λ o. update r o (undated_heap h)) (rest_after_fill-undated n (h r)))

resume-undated :
    (f g : MatchState → MatchState)
    → ((m : MatchState) → undated_state (f m) ≡ g (undated_state m))
    → (x : Progress) → undated_state (resume f x) ≡ resume g (undated_progress x)
unfolding resume
resume-undated f g same (halt m) = refl
resume-undated f g same (go_on m) = same m

module _ (env : Env) (incoming : Text) where
  execute_pair-undated :
      (r : Text) (idx : ℕ) (m : MatchState)
      → undated_state (execute_pair env incoming r idx m)
        ≡ execute_pair timeless incoming r idx (undated_state m)
  unfolding execute_pair fill build_trade filled_up
  execute_pair-undated r idx m =
      let h = m.heap in
      let i = h incoming in
      let n = min64 i.remaining_quantity (h r).remaining_quantity in
      let t = build_trade (env.uuid (length m.trades)) env.now i (h r) n in
      let stays = undated_state m in
      let h₁ = update incoming (fill n i) h in
      if-apply (λ x. undated_state x) (leb_ℤ n (pos 0)) m
        (filled_up r idx n m.resting (m.trades ++ t ∷ []) h₁)
      ∙ ap (λ x. if leb_ℤ n (pos 0) then stays else x)
          (filled_up-undated r idx n m.resting (m.trades ++ t ∷ []) h₁
            ∙ (ap (λ ts. filled_up r idx n m.resting ts (undated_heap h₁))
                  (map-append_one m.trades t)
                ∙ ap
                    (filled_up r idx n m.resting
                      (map undated_trade m.trades ++ undated_trade t ∷ []))
                    (update-undated incoming (fill n i) h)))

  found-undated :
      (idx : ℕ) (m : MatchState) (found : Option Text)
      → undated_progress
          (elim found [ none ↦ halt m | some r ↦ go_on (execute_pair env incoming r idx m) ])
        ≡ elim found [
          | none ↦ halt (undated_state m)
          | some r ↦ go_on (execute_pair timeless incoming r idx (undated_state m))
        ]
  found-undated idx m none = refl
  found-undated idx m (some r) = ap (λ x. go_on x) (execute_pair-undated r idx m)

  trade_with-undated :
      (m : MatchState) (c : Option ℕ)
      → undated_progress (trade_with env incoming m c)
        ≡ trade_with timeless incoming (undated_state m) c
  unfolding trade_with
  trade_with-undated m none = refl
  trade_with-undated m (some idx) = found-undated idx m (get_elem? m.resting idx)

  round-undated :
      (m : MatchState)
      → undated_progress (round env incoming m) ≡ round timeless incoming (undated_state m)
  unfolding round
  round-undated m =
      let h = m.heap in
      let o = h incoming in
      let rs = remove_invalid h m.resting in
      let more = ltb_ℤ (pos 0) o.remaining_quantity in
      let m' : List Text → MatchState = λ l. record (undated_state m) { resting = l } in
      if-apply (λ x. undated_progress x) more
        (trade_with env incoming (record m { resting = rs }) (find_counterparty h o rs)) (halt m)
      ∙ ap (λ x. if more then x else halt (undated_state m))
          (trade_with-undated (record m { resting = rs }) (find_counterparty h o rs)
            ∙ (ap (trade_with timeless incoming (m' rs)) (sym (find_counterparty-undated h o rs))
                ∙ ap
                    (λ l.
                      trade_with timeless incoming (m' l)
                        (find_counterparty (undated_heap h) (undated o) l))
                    (sym (remove_invalid-undated h m.resting))))

  match_loop-undated :
      (fuel : ℕ) (m : MatchState)
      → undated_state (match_loop fuel env incoming m)
        ≡ match_loop fuel timeless incoming (undated_state m)
  unfolding match_loop
  match_loop-undated zero m = refl
  match_loop-undated (suc fuel) m =
      resume-undated (match_loop fuel env incoming) (match_loop fuel timeless incoming)
        (match_loop-undated fuel) (round env incoming m)
      ∙ ap (resume (match_loop fuel timeless incoming)) (round-undated m)

  pub match_against_book-undated :
      (h : Heap) (b : OrderBook)
      → undated_state (match_against_book env incoming h b)
        ≡ match_against_book timeless incoming (undated_heap h) b
  unfolding match_against_book
  match_against_book-undated h b = match_loop-undated _ _
