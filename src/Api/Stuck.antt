-- ===== src/Api/Stuck.antt =====
-- internal/handler/order.go, internal/engine/engine.go and internal/dbworker/worker.go: the id of an order, from the body
-- of a request to the tables. Only the worker, and a cancellation, read it as a uuid.
use golang_predix.Common.{
  ℕ, ◌≡◌, refl, ap, ◌∙◌, true, false, Bool-cases, Option-cases, none, some, List, ◌∷◌, ◌++◌, Text,
  inl, inr, arith,
}
use golang_predix.Engine.Types.{Order}
use golang_predix.Engine.Events.{order_created, Envelope, Engine, World, new_envelope}
use golang_predix.Engine.Orders.{CreateRequest, is_empty, new_order, admit}
use golang_predix.Engine.Handlers.{admit_and_announce, create_order_core, create_order}
use golang_predix.Engine.Handlers.Resubmit.{is_placed, core_passed, not_placed, new_order-id}
use golang_predix.Engine.Handlers.Stream.{announcement, create_order-announced, admit-id}
use golang_predix.Partition.Redis.{Redis}
use golang_predix.Partition.Router.{fencing_key}
use golang_predix.Partition.Fencing.{fencing_accept, fencing_decision}
use golang_predix.Database.Result.{WorkerError, bad_uuid, refused, err, read_token}
use golang_predix.Database.Rows.{Db, Server}
use golang_predix.Database.Settlement.{parse}
use golang_predix.Database.Worker.{
  Incoming, received, handle_order_created, dispatch, by_decision, handle_envelope,
  acknowledge_entry, process_event, Delivery, run_worker,
}
use golang_predix.Api.Tables.{Site}
use golang_predix.Api.Answers.{bad_request_400, invalid_order_id, deny, stop, pass, Floats, Outside}
use golang_predix.Api.Orders.{OrderBody, check_order, check_delete, delete_order}
use golang_predix.Api.Guarded.{check_order-IsAdmissible}

placed_admitted :
    (w : World) (p : ℕ) (q : CreateRequest) (e : Engine)
    → is_placed (create_order_core w p (some q) e).0 ≡ true
    → (admit (new_order w q) e.store).0 ≡ none
unfolding admit_and_announce
placed_admitted w p q e done =
    let (some_quantity, valid, ran) = core_passed w p q e done in
    let o = new_order w q in
    let placed : is_placed (admit_and_announce w p o e).0 ≡ true = rw ran at done in
    elim (Option-cases (admit o e.store).0) [
      | inl go ↦ go
      | inr (x, stopped) ↦
          absurd (not_placed o e.store x stopped (rw (stopped, admit_and_announce) at placed))
    ]

run_worker_stops :
    (redis : Redis) (d : Delivery redis) (ds : List (Delivery redis)) (db : Db) (x : WorkerError)
    → process_event d.server redis d.tokens d.event db ≡ (some x, db)
    → run_worker redis (d ∷ ds) db ≡ (d ∷ ds, db)
unfolding run_worker
run_worker_stops redis d ds db x failed = ground (arith, failed)

-- The order of the announcement of a request.
announced_order : World → CreateRequest → Engine → Order
announced_order w q e = (admit (new_order w q) e.store).1.heap (new_order w q).id

received-announcement :
    (w : World) (p : ℕ) (q : CreateRequest) (e : Engine)
    → let v = received (announcement w p (new_order w q) e) in
      (v.kind ≡ order_created) × (v.as_order ≡ some (announced_order w q e))
unfolding received announcement new_envelope announced_order
received-announcement w p q e = (refl, refl)

module _ (s : Server) where
  handle_order_created-unreadable :
      (o : Order) (db : Db)
      → s.parse_uuid o.id ≡ none
      → handle_order_created s (some o) db ≡ err bad_uuid
  unfolding handle_order_created parse
  handle_order_created-unreadable o db bad = ground (arith, bad)

  dispatch-unreadable :
      (v : Incoming) (o : Order) (db : Db)
      → v.kind ≡ order_created
      → v.as_order ≡ some o
      → s.parse_uuid o.id ≡ none
      → dispatch s v.kind v db ≡ err bad_uuid
  dispatch-unreadable v o db kind order bad =
      ap (λ k. dispatch s k v db) kind
      ∙ (unfold dispatch in
          ap (λ t. handle_order_created s t db) order ∙ handle_order_created-unreadable o db bad)

  module _ (redis : Redis) (tokens : redis.State) where
    process_event-unreadable :
        (v : Incoming) (o : Order) (db : Db)
        → v.kind ≡ order_created
        → v.as_order ≡ some o
        → s.parse_uuid o.id ≡ none
        → fencing_decision redis (fencing_key v.partition_id) v.fencing_token tokens
          ≡ fencing_accept
        → (x : WorkerError) × (process_event s redis tokens (some v) db ≡ (some x, db))
    unfolding process_event handle_envelope by_decision acknowledge_entry
    process_event-unreadable v o db kind order bad current =
        let fails = dispatch-unreadable v o db kind order bad in
        elim (Bool-cases (s.refuses read_token)) [
          | inl silent ↦ (refused read_token, ground (arith, silent))
          | inr read ↦ (bad_uuid, ground (arith, read, current, fails))
        ]

same_body : {A : Type 0} (body asked : A) → some body ≡ some asked → asked ≡ body
same_body body asked h = cc

request-order_id :
    {Float : Type 0} (fl : Floats Float) (o : Outside) (user : Text) (body : OrderBody Float)
    (site : Site) (q : CreateRequest)
    → check_order fl o (some user) (some body) site ≡ pass q
    → is_empty body.order_id ≡ false
    → q.order_id ≡ body.order_id
request-order_id fl o user body site q passed named =
    let k = check_order-IsAdmissible fl o (some user) (some body) site q passed in
    let same : k.asked ≡ body = same_body body k.asked k.is_body in
    k.is_request.its_id (ap (λ t. is_empty t.order_id) same ∙ named) ∙ ap (λ t. t.order_id) same

check_delete-unreadable :
    (o : Outside) (user order_id : Text) (site : Site)
    → o.parse_uuid order_id ≡ none
    → check_delete o (some user) order_id site ≡ stop (deny bad_request_400 invalid_order_id)
unfolding check_delete
check_delete-unreadable o user order_id site bad = ground (arith, bad)

delete_order-unreadable :
    (o : Outside) (user order_id : Text) (site : Site)
    → o.parse_uuid order_id ≡ none
    → delete_order o (some user) order_id site
      ≡ (some (deny bad_request_400 invalid_order_id), site)
unfolding delete_order
delete_order-unreadable o user order_id site bad =
    let stopped = check_delete-unreadable o user order_id site bad in
    rw (stopped, delete_order) refl

announced_order-id :
    (w : World) (p : ℕ) (q : CreateRequest) (e : Engine)
    → is_empty q.order_id ≡ false
    → is_placed (create_order_core w p (some q) e).0 ≡ true
    → (announced_order w q e).id ≡ q.order_id
unfolding announced_order
announced_order-id w p q e named done =
    admit-id (new_order w q) e.store (placed_admitted w p q e done) ∙ new_order-id w q named

-- An id of an order that is no uuid stops the database worker, and the order can never be canceled. A request for an order
-- that passes the guards of `CreateOrder`, with such an id, asks the engine for an order with this id; where an engine with
-- Redis places it outside a replay, its stream grows by the announcement of the order; and a run of the worker that comes to
-- this announcement, with a current fencing token, ends there at every attempt: the tables are as they were, and the
-- announcement and all entries behind it stay. A request of the user to cancel the order is refused, and changes nothing.
pub unreadable_id_stops_worker :
    {Float : Type 0} (fl : Floats Float) (o : Outside) (user : Text) (body : OrderBody Float)
    (site : Site) (q : CreateRequest) (w : World) (p : ℕ) (e : Engine) (redis : Redis)
    (d : Delivery redis) (ds : List (Delivery redis)) (db : Db)
    → check_order fl o (some user) (some body) site ≡ pass q
    → is_empty body.order_id ≡ false
    → o.parse_uuid body.order_id ≡ none
    → d.server.parse_uuid ≡ o.parse_uuid
    → e.replaying p ≡ false
    → e.has_redis ≡ true
    → is_placed (create_order_core w p (some q) e).0 ≡ true
    → d.event ≡ some (received (announcement w p (new_order w q) e))
    → fencing_decision redis
        (fencing_key (received (announcement w p (new_order w q) e)).partition_id)
        (received (announcement w p (new_order w q) e)).fencing_token
        d.tokens
      ≡ fencing_accept
    → (q.order_id ≡ body.order_id)
      × ((rest : List Envelope) × ((create_order w p (some q) e).1.stream
            ≡ e.stream ++ announcement w p (new_order w q) e ∷ rest))
      × (run_worker redis (d ∷ ds) db ≡ (d ∷ ds, db))
      × (delete_order o (some user) body.order_id site
          ≡ (some (deny bad_request_400 invalid_order_id), site))
unreadable_id_stops_worker fl o user body site q w p e redis d ds db passed named bad reads live
      has_redis done is_event current =
    let id = request-order_id fl o user body site q passed named in
    let named' : is_empty q.order_id ≡ false = ap is_empty id ∙ named in
    let v = received (announcement w p (new_order w q) e) in
    let (kind, order) = received-announcement w p q e in
    let unread : d.server.parse_uuid (announced_order w q e).id ≡ none =
      ap d.server.parse_uuid (announced_order-id w p q e named' done ∙ id)
      ∙ (ap (λ f. f body.order_id) reads ∙ bad) in
    let (x, stops) =
      process_event-unreadable d.server redis d.tokens v (announced_order w q e) db kind order
        unread current in
    let failed : process_event d.server redis d.tokens d.event db ≡ (some x, db) =
      ap (λ t. process_event d.server redis d.tokens t db) is_event ∙ stops in
    (
      id,
      create_order-announced w p q e live has_redis done,
      run_worker_stops redis d ds db x failed,
      delete_order-unreadable o user body.order_id site bad,
    )
