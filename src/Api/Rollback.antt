-- ===== src/Api/Rollback.antt =====
-- internal/handler/event.go, `CreateEvent`: the row of an event is written before the engine is asked, and deleted again
-- where the engine does not confirm.
use golang_predix.Common.{
  ◌≤◌, ◌≡◌, refl, sym, ap, ap₂, subst, ◌⊎◌, inl, inr, Bool, true, false, not, Option, none, some,
  List, [], ◌∷◌, ite, Text, Text-discrete, arith,
}
use golang_predix.Common.Int.{ℤ, pos}
use golang_predix.Common.Dict.{Dict, lookup, insert, delete}
use golang_predix.Engine.Commands.{create_event_command, Response}
use golang_predix.Database.Rows.{OrderRow, Db}
use golang_predix.Manager.{Broker}
use golang_predix.Api.Tables.{
  EventRow, EventParams, Site, create_event, drop_event, drop_orders, trades_name, positions_name,
  delete_event,
}
use golang_predix.Api.Answers.{
  created_201, one_event, orderbook_silent, create_event_row, stop_if-stop, need-stop, error,
  Message, Answer, give, stop, Guarded-cases, delete_event_row, Outside,
}
use golang_predix.Api.Users.{payload_of, no_fields}
use golang_predix.Api.Orders.{send}
use golang_predix.Api.Events.{
  EventBody, binds_event, check_event, roll_back, conclude, open_event, create_event_handler,
}
use golang_predix.Api.Sent.{Sent, send-Sent}

unfoldable pub orders_name : Text → Dict OrderRow → Bool
orders_name event [] = false
orders_name event ((id, row) ∷ d) =
    let rest = orders_name event d in ite (Text-discrete row.event_id event) true rest

-- No row names the id.
pub record IsUnused (id : Text) (db : Db) : Type 0 where
  pub no_volume : lookup id db.volumes ≡ none
  pub no_order : orders_name id db.orders ≡ false
  pub no_trade : trades_name id db.trades ≡ false
  pub no_position : positions_name id db.positions ≡ false

drop_orders_unused :
    (event : Text) (d : Dict OrderRow) → orders_name event d ≡ false → drop_orders event d ≡ d
unfolding orders_name drop_orders
drop_orders_unused event [] h = refl
drop_orders_unused event ((id, row) ∷ d) h = ground (arith, drop_orders_unused event d)

delete-insert_new :
    (k : Text) (v : ℤ) (d : Dict ℤ) → lookup k d ≡ none → delete k (insert k v d) ≡ d
unfolding lookup insert delete
delete-insert_new k v [] h = ground arith
delete-insert_new k v (e ∷ d) h = ground (arith, delete-insert_new k v d)

drop_event_first : (v : EventRow) (vs : List EventRow) → drop_event v.id (v ∷ vs) ≡ vs
unfolding drop_event
drop_event_first v vs = ground arith

-- The tables, but not the streams.
abbrev pub SameTables : Site → Site → Type 0
SameTables s s' = (s'.users ≡ s.users) × (s'.events ≡ s.events) × (s'.db ≡ s.db)

module _ (o : Outside) (p : EventParams) (s : Site) where
  abbrev opened : EventRow × Site
  opened = create_event o.row_id o.now p s

  create_event-rows :
      (opened.0.id ≡ o.row_id)
      × (opened.1.events ≡ opened.0 ∷ s.events)
      × (opened.1.broker ≡ s.broker)
  unfolding create_event
  create_event-rows = (refl, refl, refl)

  undone :
      (b : Broker)
      → IsUnused o.row_id s.db
      → SameTables s (delete_event o.row_id (record (opened.1) { broker = b }))
  unfolding create_event delete_event
  undone b u = rw u.no_trade (
      rw u.no_position (
        refl,
        drop_event_first opened.0 s.events,
        ap₂ (λ os. λ vs. record (s.db) { orders = os; volumes = vs })
            (drop_orders_unused o.row_id s.db.orders u.no_order)
            (delete-insert_new o.row_id (pos 0) s.db.volumes u.no_volume),
      ))

abbrev pub IsError : Answer → Type 0
IsError a = (m : Message) × (a.body ≡ error m)

check_event-IsError :
    (o : Outside) (body : Option EventBody) (a : Answer) → check_event o body ≡ stop a → IsError a
unfolding check_event
check_event-IsError o body a h = elim (need-stop body _ _ h) [
  | inl e ↦ rw⁻¹ e (_, refl)
  | inr (b, h₁) ↦ elim (stop_if-stop (not (binds_event o b)) _ _ h₁) [
    | inl e ↦ rw⁻¹ e (_, refl)
    | inr h₂ ↦ elim (need-stop (o.parse_time b.expires_at) _ _ h₂) [
      | inl e ↦ rw⁻¹ e (_, refl)
      | inr (t, h₃) ↦ elim (stop_if-stop (o.refuses create_event_row) _ _ h₃) [
        | inl e ↦ rw⁻¹ e (_, refl)
        | inr h₄ ↦ cc
      ]
    ]
  ]
]

module _ (o : Outside) where
  -- A refused request: an error, and the tables as they were.
  abbrev pub Refused : Site → Option Answer × Site → Type 0
  Refused s r = SameTables s r.1 × (a : Answer) × (r.0 ≡ some a) × IsError a

  -- A request that has not been refused: the event has its row, and the answer, if there is one, follows a copy of the
  -- command at least.
  pub record Opened (s : Site) (r : Option Answer × Site) : Type 0 where
    pub row : EventRow
    pub its_id : row.id ≡ o.row_id
    pub exists : r.1.events ≡ row ∷ s.events
    pub sent :
        Sent o o.row_id create_event_command
          (payload_of (record no_fields { event_id = o.row_id }))
          s.broker
          r.1.broker
    pub answered :
        (r.0 ≡ none) ⊎ ((r.0 ≡ some (give created_201 (one_event row))) × (1 ≤ sent.count))

  roll_back_undone :
      (p : EventParams) (s s'' : Site)
      → o.refuses delete_event_row ≡ false
      → IsUnused o.row_id s.db
      → s'' ≡ record (opened o p s).1 { broker = s''.broker }
      → SameTables s (roll_back o o.row_id s'')
  unfolding roll_back
  roll_back_undone p s s'' deletes u same =
      rw deletes
        (subst (λ t. SameTables s (delete_event o.row_id t)) (sym same) (undone o p s s''.broker u))

  conclude_lem :
      (p : EventParams) (s s'' : Site) (result : Option (Option Response))
      → o.refuses delete_event_row ≡ false
      → IsUnused o.row_id s.db
      → s'' ≡ record (opened o p s).1 { broker = s''.broker }
      → (sent : Sent o o.row_id create_event_command
          (payload_of (record no_fields { event_id = o.row_id }))
          s.broker
          s''.broker)
      → ((x : Response) → result ≡ some (some x) → 1 ≤ sent.count)
      → Refused s (conclude o (opened o p s).0 result s'')
        ⊎ Opened s (conclude o (opened o p s).0 result s'')
  unfolding conclude create_event
  conclude_lem p s s'' none deletes u same sent count = inr (record {
    row = (opened o p s).0;
    its_id = refl;
    exists = ap (λ t. t.events) same;
    sent = sent;
    answered = inl refl;
  })
  conclude_lem p s s'' (some (some x)) deletes u same sent count = inr (record {
    row = (opened o p s).0;
    its_id = refl;
    exists = ap (λ t. t.events) same;
    sent = sent;
    answered = inr (refl, count x refl);
  })
  conclude_lem p s s'' (some none) deletes u same sent count =
      inl (roll_back_undone p s s'' deletes u same, _, refl, (orderbook_silent, refl))

  open_event_concludes :
      (p : EventParams) (s : Site)
      → o.refuses delete_event_row ≡ false
      → IsUnused o.row_id s.db
      → Refused s (open_event o p s) ⊎ Opened s (open_event o p s)
  unfolding open_event create_event
  open_event_concludes p s deletes u =
      let s' = (opened o p s).1 in
      let payload = payload_of (record no_fields { event_id = o.row_id }) in
      let (sent, count) = send-Sent o o.row_id create_event_command payload s' in
      let (result, s'') = send o o.row_id create_event_command payload s' in
      conclude_lem p s s'' result deletes u (unfold send in refl) sent count

  -- A request for an event, where nothing in the tables names the id that the database gives, and where the deletion of the row
  -- is not refused: it is answered with an error and leaves the tables as they were; or the event has its
  -- row, in front of the others, up to three copies of one command to open its market are in the stream of the event
  -- and nothing new in any other, and the request still waits or is answered with the row, the latter only where one copy
  -- at least was written.
  pub create_event_concludes :
      (body : Option EventBody) (s : Site)
      → o.refuses delete_event_row ≡ false
      → IsUnused o.row_id s.db
      → let r = create_event_handler o body s in Refused s r ⊎ Opened s r
  unfolding create_event_handler
  create_event_concludes body s deletes u = elim (Guarded-cases (check_event o body)) [
    | inl (a, e) ↦
        rw (e, create_event_handler)
          (inl ((refl, refl, refl), a, refl, check_event-IsError o body a e))
    | inr (p, e) ↦ rw (e, create_event_handler) (open_event_concludes p s deletes u)
  ]
