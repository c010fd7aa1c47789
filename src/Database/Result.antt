-- ===== src/Database/Result.antt =====
-- internal/dbworker/worker.go: what its functions return, and the statements that can fail.
use golang_predix.Common.{◌≡◌, refl, Bool, if◌then◌else◌}

-- The statements that the worker sends to the database, and its two commands to Redis.
pub data Statement : Type 0 where
  begin insert_trade_row load_taker fill_taker load_maker fill_maker : Statement
  deduct_buyer credit_seller move_buyer move_seller record_buyer record_seller : Statement
  add_volume commit insert_order_row set_order_status read_token acknowledge : Statement

-- The errors of `validateTrade`.
pub data TradeFault : Type 0 where
  no_trade_id no_event_id no_taker_id no_maker_id no_buyer_id no_seller_id : TradeFault
  bad_outcome bad_quantity bad_price : TradeFault

pub data WorkerError : Type 0 where
  bad_envelope bad_payload bad_uuid missing_order insufficient_balance : WorkerError
  bad_trade : TradeFault → WorkerError
  refused : Statement → WorkerError

-- What a Go function returns: an error, or else a value.
pub data Result (A : Type 0) : Type 0 where
  err : WorkerError → Result A
  ok : A → Result A

-- `if test { return why }`
abbrev pub refuse_if : Bool → WorkerError → Result (Unit {0})
refuse_if test why = if test then err why else ok tt

infixl 5 ◌>>=◌ ◌>>◌
-- A call whose error is returned at once.
abbrev pub ◌>>=◌ : {A B : Type 0} → Result A → (A → Result B) → Result B
err why >>= k = err why
ok x >>= k = k x

abbrev pub ◌>>◌ : {B : Type 0} → Result (Unit {0}) → Result B → Result B
call >> after = call >>= (λ u. after)

-- A chain that succeeds has a first call that does.
pub >>=-eq-ok :
    {A B : Type 0} (call : Result A) (k : A → Result B) {y : B}
    → call >>= k ≡ ok y
    → (x : A) × (call ≡ ok x) × (k x ≡ ok y)
>>=-eq-ok (err why) k h = cc
>>=-eq-ok (ok x) k h = (x, refl, h)
