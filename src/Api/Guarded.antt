-- ===== src/Api/Guarded.antt =====
-- internal/handler/order.go: what an order or a cancellation that reaches the engine has passed.
use golang_predix.Common.{
  eq_true_of_not, ◌≡◌, refl, subst, ◌⊎◌, inl, inr, Bool, true, false, not, ◌&&◌, Option, some, Text,
  Text-discrete, ite, arith,
}
use golang_predix.Common.Int.{pos}
use golang_predix.Common.Dict.{lookup}
use golang_predix.Engine.Types.{is_limit}
use golang_predix.Engine.Orders.{CreateRequest, is_empty}
use golang_predix.Engine.Commands.{Payload, create_order_command, cancel_order_command}
use golang_predix.Database.Rows.{OrderRow}
use golang_predix.Api.Tables.{EventRow, Site, find_event, is_true}
use golang_predix.Api.Answers.{
  pass, >>=-eq-pass, need-eq-pass, stop_if-eq-pass, Guarded-cases, Floats, Outside,
}
use golang_predix.Api.Users.{payload_of, no_fields}
use golang_predix.Api.Orders.{
  OrderBody, get_event_by_id, get_order_by_id, send, send_and_relay, binds_order, request_of,
  scale_price, check_order, create_order, check_delete, delete_order,
}
use golang_predix.Api.Sent.{Sent, send-Sent}

get_event_by_id-some :
    (o : Outside) (id : Text) (s : Site) (row : EventRow)
    → get_event_by_id o id s ≡ some row
    → find_event id s.events ≡ some row
unfolding get_event_by_id
get_event_by_id-some o id s row h = ground arith

get_order_by_id-some :
    (o : Outside) (id : Text) (s : Site) (row : OrderRow)
    → get_order_by_id o id s ≡ some row
    → lookup id s.db.orders ≡ some row
unfolding get_order_by_id
get_order_by_id-some o id s row h = ground arith

pass_inj : {A : Type 0} {x y : A} → pass x ≡ pass y → x ≡ y
pass_inj h = cc

passes : (a b : Bool) → (a && not b) ≡ false → a ≡ true → b ≡ true
passes a true h e = refl
passes a false h e = ground arith

is_active-some : (x : Option Bool) → not (is_true x) ≡ false → x ≡ some true
unfolding is_true
is_active-some x h = ground arith

module _ {Float : Type 0} (fl : Floats Float) (o : Outside) where
  -- The command for the order of a body and a user: the price is the one of the body times 10000, rounded half up by
  -- the addition of one half and truncation, and an order without an id gets a fresh one.
  pub record IsFor (user_id : Text) (asked : OrderBody Float) (q : CreateRequest) : Type 0 where
    pub its_user : q.user_id ≡ user_id
    pub its_id : is_empty asked.order_id ≡ false → q.order_id ≡ asked.order_id
    pub fresh_id : is_empty asked.order_id ≡ true → q.order_id ≡ o.order_uuid
    pub its_event : q.event_id ≡ asked.event_id
    pub its_type : q.order_type ≡ asked.order_type
    pub its_outcome : q.outcome ≡ asked.outcome
    pub its_side : q.side ≡ asked.side
    pub its_quantity : q.quantity ≡ asked.quantity
    pub its_price :
        q.price ≡ fl.truncate (fl.add (fl.multiply asked.price (fl.of_int (pos 10000))) fl.one_half)

  request_of-IsFor :
      (user_id : Text) (asked : OrderBody Float)
      → IsFor user_id asked (request_of fl o user_id asked)
  unfolding request_of scale_price
  request_of-IsFor user_id asked = record {
    its_user = refl;
    its_id = λ e. ground arith;
    fresh_id = λ e. ground arith;
    its_event = refl;
    its_type = refl;
    its_outcome = refl;
    its_side = refl;
    its_quantity = refl;
    its_price = refl;
  }

  -- A request for an order that has passed the guards.
  pub record IsAdmissible (user : Option Text) (body : Option (OrderBody Float)) (s : Site)
      (q : CreateRequest) : Type 0 where
    pub user_id : Text
    pub by_user : user ≡ some user_id
    pub asked : OrderBody Float
    pub is_body : body ≡ some asked
    pub bound : binds_order fl asked ≡ true
    pub priced : is_limit asked.order_type ≡ true → fl.is_positive asked.price ≡ true
    pub event_id : Text
    pub is_uuid : o.parse_uuid asked.event_id ≡ some event_id
    pub event : EventRow
    pub exists : find_event event_id s.events ≡ some event
    pub active : event.is_active ≡ some true
    pub is_request : IsFor user_id asked q

  pub check_order-IsAdmissible :
      (user : Option Text) (body : Option (OrderBody Float)) (s : Site) (q : CreateRequest)
      → check_order fl o user body s ≡ pass q
      → IsAdmissible user body s q
  unfolding check_order
  check_order-IsAdmissible user body s q h =
      let (id, e₁, h₁) = >>=-eq-pass _ _ h in
      let (b, e₂, h₂) = >>=-eq-pass _ _ h₁ in
      let (u₃, e₃, h₃) = >>=-eq-pass _ _ h₂ in
      let (u₄, e₄, h₄) = >>=-eq-pass _ _ h₃ in
      let (event, e₅, h₅) = >>=-eq-pass _ _ h₄ in
      let (row, e₆, h₆) = >>=-eq-pass _ _ h₅ in
      let (u₇, e₇, h₇) = >>=-eq-pass _ _ h₆ in
      record {
        user_id = id;
        by_user = need-eq-pass user _ e₁;
        asked = b;
        is_body = need-eq-pass body _ e₂;
        bound = eq_true_of_not _ (stop_if-eq-pass _ _ e₃);
        priced = passes _ _ (stop_if-eq-pass _ _ e₄);
        event_id = event;
        is_uuid = need-eq-pass _ _ e₅;
        event = row;
        exists = get_event_by_id-some o event s row (need-eq-pass _ _ e₆);
        active = is_active-some row.is_active (stop_if-eq-pass _ _ e₇);
        is_request = subst (IsFor id b) (pass_inj h₇) (request_of-IsFor id b);
      }

  -- What an order that was sent leaves.
  pub record OrderSent (user : Option Text) (body : Option (OrderBody Float)) (s s' : Site)
      : Type 0 where
    pub request : CreateRequest
    pub admissible : IsAdmissible user body s request
    pub payload : Payload
    pub carried : payload.as_create ≡ some request
    pub sent : Sent o request.event_id create_order_command payload s.broker s'.broker
    pub tables : s' ≡ record s { broker = s'.broker }

  pub create_order-OrderSent :
      (user : Option Text) (body : Option (OrderBody Float)) (s : Site)
      → let s' = (create_order fl o user body s).1 in (s' ≡ s) ⊎ OrderSent user body s s'
  unfolding create_order
  create_order-OrderSent user body s = elim (Guarded-cases (check_order fl o user body s)) [
    | inl (a, e) ↦ rw (e, create_order) (inl refl)
    | inr (q, e) ↦
        rw (e, create_order)
          (inr (record {
            request = q;
            payload = payload_of q;
            carried = unfold payload_of in refl;
            admissible = check_order-IsAdmissible user body s q e;
            sent =
                unfold send_and_relay in
                (send-Sent o q.event_id create_order_command (payload_of q) s).0;
            tables = unfold send_and_relay in unfold send in refl;
          }))
  ]

module _ (o : Outside) where
  -- An order with a row, which is of the user.
  pub record IsOwn (user : Option Text) (order_id : Text) (s : Site) (event : Text) : Type 0 where
    pub user_id : Text
    pub by_user : user ≡ some user_id
    pub id : Text
    pub is_uuid : o.parse_uuid order_id ≡ some id
    pub row : OrderRow
    pub exists : lookup id s.db.orders ≡ some row
    pub owned : row.user_id ≡ user_id
    pub its_event : row.event_id ≡ event

  owned_by : (a b : Text) → ite (Text-discrete a b) false true ≡ false → a ≡ b
  owned_by a b h = ground arith

  check_delete-IsOwn :
      (user : Option Text) (order_id : Text) (s : Site) (event : Text)
      → check_delete o user order_id s ≡ pass event
      → IsOwn user order_id s event
  unfolding check_delete
  check_delete-IsOwn user order_id s event h =
      let (user_id, e₁, h₁) = >>=-eq-pass _ _ h in
      let (id, e₂, h₂) = >>=-eq-pass _ _ h₁ in
      let (row, e₃, h₃) = >>=-eq-pass _ _ h₂ in
      let (u, e₄, h₄) = >>=-eq-pass _ _ h₃ in
      record {
        user_id = user_id;
        by_user = need-eq-pass user _ e₁;
        id = id;
        is_uuid = need-eq-pass _ _ e₂;
        row = row;
        exists = get_order_by_id-some o id s row (need-eq-pass _ _ e₃);
        owned = owned_by row.user_id user_id (stop_if-eq-pass _ _ e₄);
        its_event = pass_inj h₄;
      }

  -- What a cancellation that was sent leaves.
  pub record CancelSent (user : Option Text) (order_id : Text) (s s' : Site) : Type 0 where
    pub event : Text
    pub own : IsOwn user order_id s event
    pub sent :
        Sent o event cancel_order_command
          (payload_of (record no_fields { order_id = order_id; event_id = event }))
          s.broker
          s'.broker
    pub tables : s' ≡ record s { broker = s'.broker }

  -- A cancellation changes nothing, or it is of an order with a row, whose user is the one who asks; then it changes no
  -- table, and writes up to three copies of one command, for this order, to the stream of the order's event and
  -- nothing to any other.
  pub delete_order-CancelSent :
      (user : Option Text) (order_id : Text) (s : Site)
      → let s' = (delete_order o user order_id s).1 in (s' ≡ s) ⊎ CancelSent user order_id s s'
  unfolding delete_order
  delete_order-CancelSent user order_id s = elim (Guarded-cases (check_delete o user order_id s)) [
    | inl (a, e) ↦ rw (e, delete_order) (inl refl)
    | inr (event, e) ↦
        rw (e, delete_order)
          (inr (record {
            event = event;
            own = check_delete-IsOwn user order_id s event e;
            sent = unfold send_and_relay in (send-Sent o event cancel_order_command _ s).0;
            tables = unfold send_and_relay in unfold send in refl;
          }))
  ]
