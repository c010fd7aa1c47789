-- ===== src/Database/Worker/Sums.antt =====
-- internal/repository: the sums of the balances and of the shares, and what one statement does to them.
use golang_predix.Common.{
  ℕ, ◌+◌, ◌<◌, ◌≡◌, ◌∙◌, sym, ap, Bool, true, false, some, List, [], ◌∷◌, Text, Text-discrete, ite,
  inl, inr, Option-cases, arith, if◌then◌else◌,
}
use golang_predix.Common.Int.{
  ℤ, pos, pos_part, neg_part, ◌+ℤ◌, ◌-ℤ◌, +ℤ_parts, -ℤ_parts, +ℤ_comm, +ℤ_assoc, eq_of_parts,
}
use golang_predix.Common.Int64.{int64_limit, sub64}
use golang_predix.Common.Dict.{Dict, lookup, insert, value_or, lookup-insert}
use golang_predix.Engine.Types.{Outcome}
use golang_predix.Engine.Matching.{Outcome-discrete}
use golang_predix.Database.Rows.{PositionRow, Db, Server}
use golang_predix.Database.Queries.{
  deduct_balance, add_balance, same_position, merge_position, upsert_rows,
}

-- The sum of the balances.
abbrev pub cash_in : Dict ℤ → ℤ
cash_in [] = pos 0
cash_in (e ∷ d) = e.1 +ℤ cash_in d

-- The shares of one contract, over all its positions.
abbrev pub is_contract : Text → Outcome → PositionRow → Bool
is_contract event o p =
    ite (Text-discrete p.event_id event) (ite (Outcome-discrete p.outcome o) true false) false

abbrev pub shares_of : Text → Outcome → List PositionRow → ℤ
shares_of event o [] = pos 0
shares_of event o (p ∷ ps) =
    if is_contract event o p then p.shares +ℤ shares_of event o ps else shares_of event o ps

-- One write moves the sum by the change of its entry.
pub cash_in-insert :
    (k : Text) (v : ℤ) (d : Dict ℤ)
    → pos_part (cash_in (insert k v d))
        + neg_part (cash_in d)
        + pos_part (value_or (pos 0) k d)
        + neg_part v
      ≡ neg_part (cash_in (insert k v d))
        + pos_part (cash_in d)
        + neg_part (value_or (pos 0) k d)
        + pos_part v
unfolding insert value_or lookup
cash_in-insert k v [] = ground (arith, +ℤ_parts v (pos 0))
cash_in-insert k v (e ∷ d) = ground (
  arith,
  cash_in-insert k v d,
  +ℤ_parts v (cash_in d),
  +ℤ_parts e.1 (cash_in d),
  +ℤ_parts e.1 (cash_in (insert k v d)),
)

pub same_position-contract :
    (event : Text) (o : Outcome) (p q : PositionRow)
    → same_position p q ≡ true
    → is_contract event o q ≡ is_contract event o p
unfolding same_position
same_position-contract event o p q h = ground arith

pub upsert_rows-shares :
    (s : Server) (event : Text) (o : Outcome) (q : PositionRow) (ps : List PositionRow)
    → shares_of event o (upsert_rows s q ps)
      ≡ (if is_contract event o q then shares_of event o ps +ℤ q.shares else shares_of event o ps)
unfolding upsert_rows merge_position
upsert_rows-shares s event o q [] = ground (arith, +ℤ_comm q.shares (pos 0))
upsert_rows-shares s event o q (p ∷ ps) =
    let sum = shares_of event o ps in
    let moved =
      +ℤ_assoc p.shares q.shares sum
      ∙ (ap (λ x. p.shares +ℤ x) (+ℤ_comm q.shares sum) ∙ sym (+ℤ_assoc p.shares sum q.shares)) in
    ground (
      arith,
      upsert_rows-shares s event o q ps,
      same_position-contract event o p q,
      moved,
      sym (+ℤ_assoc p.shares sum q.shares),
    )

-- The int64 negation of a share count is exact.
pub sub64_parts :
    (n : ℕ)
    → n < int64_limit
    → (pos_part (sub64 (pos 0) (pos n)) ≡ 0) × (neg_part (sub64 (pos 0) (pos n)) ≡ n)
unfolding sub64
sub64_parts n h = ground arith

pub cancels : (n : ℕ) (a : ℤ) → n < int64_limit → a +ℤ pos n +ℤ sub64 (pos 0) (pos n) ≡ a
cancels n a h =
    let (p, q) = sub64_parts n h in
    eq_of_parts _ _
      (omega (arith, p, q, +ℤ_parts a (pos n), +ℤ_parts (a +ℤ pos n) (sub64 (pos 0) (pos n))))

pub deduct_balance-ok :
    (user : Text) (n : ℤ) (db : Db) {db' : Db}
    → deduct_balance user n db ≡ some db'
    → (b : ℤ) × (lookup user db.balances ≡ some b)
      × (db' ≡ record db { balances = insert user (b -ℤ n) db.balances })
unfolding deduct_balance
deduct_balance-ok user n db h = elim (Option-cases (lookup user db.balances)) [
  | inl e ↦ absurd (ground arith)
  | inr (b, e) ↦ (b, e, ground arith)
]

pub deduct_balance-moves :
    (user : Text) (n : ℤ) (db : Db) {db' : Db}
    → deduct_balance user n db ≡ some db'
    → cash_in db'.balances +ℤ n ≡ cash_in db.balances
unfolding value_or
deduct_balance-moves user n db {db' = db'} h =
    let (b, e, d) = deduct_balance-ok user n db h in
    let m = cash_in-insert user (b -ℤ n) db.balances in
    eq_of_parts _ _ (
      rw (d)
        (ground (arith, m, -ℤ_parts b n, +ℤ_parts (cash_in (insert user (b -ℤ n) db.balances)) n)))

-- Who has a balance keeps one.
pub deduct_balance-there :
    (user other : Text) (n c : ℤ) (db : Db) {db' : Db}
    → deduct_balance user n db ≡ some db'
    → lookup other db.balances ≡ some c
    → (c' : ℤ) × (lookup other db'.balances ≡ some c')
deduct_balance-there user other n c db h there =
    let (b, e, d) = deduct_balance-ok user n db h in
    let moved =
      ap (λ x. lookup other x.balances) d ∙ lookup-insert other user (b -ℤ n) db.balances in
    elim (Text-discrete other user) [
      | yes same ↦ (b -ℤ n, ground arith)
      | no differ ↦ (c, ground arith)
    ]

pub add_balance-moves :
    (user : Text) (n b : ℤ) (db : Db)
    → lookup user db.balances ≡ some b
    → cash_in (add_balance user n db).balances ≡ cash_in db.balances +ℤ n
unfolding add_balance value_or
add_balance-moves user n b db e =
    let m = cash_in-insert user (b +ℤ n) db.balances in
    eq_of_parts _ _ (ground (arith, m, +ℤ_parts b n, +ℤ_parts (cash_in db.balances) n))
