-- ===== src/Api/Tables.antt =====
-- internal/repository/users.sql.go, events.sql.go, orders.sql.go and db/migrations: the statements that the
-- API server sends, on the tables.
--
-- The rows of users and events have the columns that the API reads; the balances of users and the volumes of events
-- are those of Database/Rows. A time is a number of seconds.
use golang_predix.Common.{
  ℕ, ◌*◌, Bool, true, false, Option, none, some, List, [], ◌∷◌, ite, Text, Text-discrete, leb,
  if◌then◌else◌,
}
use golang_predix.Common.Int.{pos}
use golang_predix.Common.Dict.{Dict, insert, delete}
use golang_predix.Database.Rows.{OrderRow, TradeRow, PositionRow, Db}
use golang_predix.Manager.{Broker}

pub record UserRow : Type 0 where
  pub id : Text
  pub email : Text
  pub password_hash : Text
  pub created_at : ℕ

-- `is_active` may be NULL.
pub record EventRow : Type 0 where
  pub id : Text
  pub title : Text
  pub description : Text
  pub question : Text
  pub thumbnail : Text
  pub is_active : Option Bool
  pub expires_at : ℕ
  pub created_at : ℕ

pub record EventParams : Type 0 where
  pub title : Text
  pub description : Text
  pub question : Text
  pub thumbnail : Text
  pub expires_at : ℕ

-- What the handlers of the API act upon: the tables, and the streams of commands.
pub record Site : Type 0 where
  pub users : List UserRow
  pub events : List EventRow
  pub db : Db
  pub broker : Broker

unfoldable pub find_user : Text → List UserRow → Option UserRow
find_user email [] = none
find_user email (u ∷ us) = ite (Text-discrete u.email email) (some u) (find_user email us)

unfoldable pub find_event : Text → List EventRow → Option EventRow
find_event id [] = none
find_event id (v ∷ vs) = ite (Text-discrete v.id id) (some v) (find_event id vs)

-- The default of users.balance.
abbrev pub default_balance : ℕ
default_balance = 100 * 10000

-- `CreateUser`, where the server makes the id and the time; `none` is the violation of the unique email.
unfoldable pub create_user : Text → ℕ → Text → Text → Site → Option (UserRow × Site)
create_user id now email hash s = elim (find_user email s.users) [
  | some _ ↦ none
  | none ↦
      let row : UserRow = record {
        id = id;
        email = email;
        password_hash = hash;
        created_at = now;
      } in
      let balances = insert id (pos default_balance) s.db.balances in
      some (row, record s { users = row ∷ s.users; db = record (s.db) { balances = balances } })
]

-- `CreateEvent`
unfoldable pub create_event : Text → ℕ → EventParams → Site → EventRow × Site
create_event id now p s =
    let row : EventRow = record {
      id = id;
      title = p.title;
      description = p.description;
      question = p.question;
      thumbnail = p.thumbnail;
      is_active = some true;
      expires_at = p.expires_at;
      created_at = now;
    } in
    let volumes = insert id (pos 0) s.db.volumes in
    (row, record s { events = row ∷ s.events; db = record (s.db) { volumes = volumes } })

unfoldable pub drop_event : Text → List EventRow → List EventRow
drop_event id [] = []
drop_event id (v ∷ vs) = ite (Text-discrete v.id id) vs (v ∷ drop_event id vs)

-- `ON DELETE CASCADE` of orders.event_id
unfoldable pub drop_orders : Text → Dict OrderRow → Dict OrderRow
drop_orders event [] = []
drop_orders event ((id, row) ∷ d) =
    let rest = drop_orders event d in ite (Text-discrete row.event_id event) rest ((id, row) ∷ rest)

unfoldable pub trades_name : Text → List TradeRow → Bool
trades_name event [] = false
trades_name event (t ∷ ts) = ite (Text-discrete t.event_id event) true (trades_name event ts)

unfoldable pub positions_name : Text → List PositionRow → Bool
positions_name event [] = false
positions_name event (p ∷ ps) = ite (Text-discrete p.event_id event) true (positions_name event ps)

-- `DeleteEvent`: trades and positions that name the event forbid it, orders that name it go with it.
unfoldable pub delete_event : Text → Site → Site
delete_event id s =
    let left = record (s.db) {
      orders = drop_orders id s.db.orders;
      volumes = delete id s.db.volumes;
    } in
    if trades_name id s.db.trades
    then s
    else if positions_name id s.db.positions
    then s
    else record s { events = drop_event id s.events; db = left }

-- `is_active = true`
unfoldable pub is_true : Option Bool → Bool
is_true none = false
is_true (some b) = b

-- The place of a row in `ORDER BY expires_at ASC`.
unfoldable pub place_event : EventRow → List EventRow → List EventRow
place_event v [] = v ∷ []
place_event v (u ∷ us) =
    let rest = place_event v us in if leb v.expires_at u.expires_at then v ∷ u ∷ us else u ∷ rest

-- `GetActiveEvents`; the statement says nothing of rows that expire at the same time.
unfoldable pub active_events : List EventRow → List EventRow
active_events [] = []
active_events (v ∷ vs) =
    let rest = active_events vs in if is_true v.is_active then place_event v rest else rest
