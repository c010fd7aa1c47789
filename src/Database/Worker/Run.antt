-- ===== src/Database/Worker/Run.antt =====
-- internal/dbworker/worker.go, `Run`: what a run of the worker keeps, and where it stops.
use golang_predix.Common.{
  ◌≡◌, refl, ◌∙◌, ap, Option, none, some, List, [], ◌∷◌, ◌++◌, All, inl, inr, Option-cases, arith,
}
use golang_predix.Partition.Redis.{Redis}
use golang_predix.Database.Result.{WorkerError}
use golang_predix.Database.Rows.{Db}
use golang_predix.Database.Worker.{process_event, Delivery, run_worker}
use golang_predix.Database.Worker.Says.{IsFilled}
use golang_predix.Database.Worker.Keeps.{IsFresh, process_event-IsFilled}

module _ (redis : Redis) where
  abbrev after : Delivery redis → Db → Option WorkerError × Db
  after d db = process_event d.server redis d.tokens d.event db

  run_worker_step :
      (d : Delivery redis) (ds : List (Delivery redis)) (db : Db)
      → (after d db).0 ≡ none
      → run_worker redis (d ∷ ds) db ≡ run_worker redis ds (after d db).1
  unfolding run_worker
  run_worker_step d ds db e = ground arith

  run_worker_stop :
      (d : Delivery redis) (ds : List (Delivery redis)) (db : Db) (x : WorkerError)
      → (after d db).0 ≡ some x
      → run_worker redis (d ∷ ds) db ≡ (d ∷ ds, (after d db).1)
  unfolding run_worker
  run_worker_stop d ds db x e = ground arith

  -- A run that goes through some entries, or else is left with entries, before it is given more.
  unfoldable pub resume :
      List (Delivery redis) × Db → List (Delivery redis) → List (Delivery redis) × Db
  resume ([], db) more = run_worker redis more db
  resume (d ∷ ds, db) more = ((d ∷ ds) ++ more, db)

  -- A run through entries and then more of them goes on where the first ones end, or stops there.
  pub run_worker-append :
      (ds more : List (Delivery redis)) (db : Db)
      → run_worker redis (ds ++ more) db ≡ resume (run_worker redis ds db) more
  unfolding run_worker resume
  run_worker-append [] more db = refl
  run_worker-append (d ∷ ds) more db = elim (Option-cases (after d db).0) [
    | inl e ↦
        rw (run_worker_step d ds db e)
          (run_worker_step d (ds ++ more) db e ∙ run_worker-append ds more (after d db).1)
    | inr (x, e) ↦ rw (run_worker_stop d ds db x e) (run_worker_stop d (ds ++ more) db x e)
  ]

  -- A run of the worker, on entries that announce unfilled orders only, from tables in which every trade's
  -- orders have a row and the row of every order has as filled quantity the sum of the trades that name it,
  -- and as remaining quantity what that leaves of the quantity, or zero: the tables are such again where it
  -- ends, whether it is through or stopped by an error, whatever the server refuses, and whichever entries
  -- are stale, malformed or delivered more than once.
  pub run_worker-IsFilled :
      (ds : List (Delivery redis)) (db : Db)
      → All (λ d. IsFresh d.event) ds
      → IsFilled db
      → IsFilled (run_worker redis ds db).1
  unfolding run_worker
  run_worker-IsFilled [] db fresh k = k
  run_worker-IsFilled (d ∷ ds) db fresh k =
      let next = process_event-IsFilled d.server redis d.tokens d.event db fresh.0 k in
      elim (Option-cases (process_event d.server redis d.tokens d.event db).0) [
        | inl e ↦ rw (run_worker_step d ds db e) (run_worker-IsFilled ds _ fresh.1 next)
        | inr (x, e) ↦ rw (run_worker_stop d ds db x e) next
      ]

  -- A list of entries at whose head the worker stops on some tables, or that is empty.
  abbrev pub StopsAt : List (Delivery redis) → Db → Db → Type 0
  StopsAt [] before db' = db' ≡ before
  StopsAt (d ∷ ds) before db' = (x : WorkerError) × (after d before ≡ (some x, db'))

  -- The entries are processed without an error one behind the other, from some tables to others.
  abbrev pub AllSucceed : List (Delivery redis) → Db → Db → Type 0
  AllSucceed [] db db' = db' ≡ db
  AllSucceed (d ∷ ds) db db' = ((after d db).0 ≡ none) × AllSucceed ds (after d db).1 db'

  -- Where a run ends: the entries it has done, and the tables they left.
  pub record Stops (ds rest : List (Delivery redis)) (db db' : Db) : Type 1 where
    pub done : List (Delivery redis)
    pub before : Db
    pub split : ds ≡ done ++ rest
    pub through : AllSucceed done db before
    pub stop : StopsAt rest before db'

  -- Any run of the worker does the entries in their order, none skipped: those in front of the ones that it
  -- leaves all succeed, and the first one that it leaves, if any, is one that fails on the tables that they
  -- left.
  pub run_worker-Stops :
      (ds : List (Delivery redis)) (db : Db)
      → Stops ds (run_worker redis ds db).0 db (run_worker redis ds db).1
  unfolding run_worker
  run_worker-Stops [] db = record {
    done = [];
    before = db;
    split = refl;
    through = refl;
    stop = refl;
  }
  run_worker-Stops (d ∷ ds) db = elim (Option-cases (after d db).0) [
    | inl e ↦
        let next = run_worker-Stops ds (after d db).1 in
        rw (run_worker_step d ds db e) (record {
          done = d ∷ next.done;
          before = next.before;
          split = ap (λ x. d ∷ x) next.split;
          through = (e, next.through);
          stop = next.stop;
        })
    | inr (x, e) ↦
        rw (run_worker_stop d ds db x e) (record {
          done = [];
          before = db;
          split = refl;
          through = refl;
          stop = (x, ground arith);
        })
  ]
