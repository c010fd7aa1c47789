-- ===== src/Database/Worker/Reads.antt =====
-- internal/dbworker/worker.go, `Run` and `ensureGroup`: from the stream of events to the handlers.
--
-- What Redis answers is given: the creation of the group, the claimed entries, and the reads one after the other.
use golang_predix.Common.{
  ◌≡◌, refl, sym, Bool, true, false, Option, none, some, List, [], ◌∷◌, ◌++◌, All, inl, inr,
  Bool-cases, subst,
}
use golang_predix.Partition.Redis.{Redis}
use golang_predix.Database.Rows.{Db}
use golang_predix.Database.Worker.{Delivery, run_worker}
use golang_predix.Database.Worker.Says.{IsFilled}
use golang_predix.Database.Worker.Keeps.{IsFresh}
use golang_predix.Database.Worker.Run.{
  Stops, resume, run_worker-IsFilled, run_worker-append, run_worker-Stops,
}

-- The answer to `XGROUP CREATE`: the group is new, there is one (`BUSYGROUP`), or another error.
pub data GroupAnswer : Type 0 where
  created_group busy_group refused_group : GroupAnswer

-- `ensureGroup`; `false` is that it returns an error.
unfoldable pub ensure_group : GroupAnswer → Bool
ensure_group created_group = true
ensure_group busy_group = true
ensure_group refused_group = false

module _ (redis : Redis) where
  -- The answer to an `XREADGROUP`: entries, that the context is done, or another error, with whether the
  -- context is done before the pause of a second ends.
  pub data EventRead : Type 1 where
    batch : List (Delivery redis) → EventRead
    canceled_read : EventRead
    failed_read : Bool → EventRead

  -- What has become of `Run`: an error of the group; an error of an entry, with the entries of its answer
  -- from there on; no error; or it waits for the next read.
  pub data RunOutcome : Type 1 where
    no_group : RunOutcome
    stopped : Delivery redis → List (Delivery redis) → RunOutcome
    finished : RunOutcome
    reading : RunOutcome

  -- What follows the entries of one answer.
  unfoldable pub after_batch : List (Delivery redis) × Db → RunOutcome × Db → RunOutcome × Db
  after_batch ([], db) next = next
  after_batch (d ∷ ds, db) next = (stopped d ds, db)

  -- The endless loop, on the reads that are made of it.
  unfoldable pub run_reads : List EventRead → Db → RunOutcome × Db
  run_reads [] db = (reading, db)
  run_reads (batch ds ∷ rs) db =
      let done = run_worker redis ds db in after_batch done (run_reads rs done.1)
  run_reads (canceled_read ∷ rs) db = (finished, db)
  run_reads (failed_read true ∷ rs) db = (finished, db)
  run_reads (failed_read false ∷ rs) db = run_reads rs db

  -- `Run`; `none` is that `XAUTOCLAIM` fails.
  unfoldable pub run_from :
      Bool → Option (List (Delivery redis)) → List EventRead → Db → RunOutcome × Db
  run_from false claimed rs db = (no_group, db)
  run_from true none rs db = run_reads rs db
  run_from true (some ds) rs db =
      let done = run_worker redis ds db in after_batch done (run_reads rs done.1)

  unfoldable pub run :
      GroupAnswer → Option (List (Delivery redis)) → List EventRead → Db → RunOutcome × Db
  run g = run_from (ensure_group g)

  -- The entries of the reads, up to the end of the context.
  unfoldable pub entries_of : List EventRead → List (Delivery redis)
  entries_of [] = []
  entries_of (batch ds ∷ rs) = ds ++ entries_of rs
  entries_of (canceled_read ∷ rs) = []
  entries_of (failed_read true ∷ rs) = []
  entries_of (failed_read false ∷ rs) = entries_of rs

  -- The entries that a call is given, the claimed ones first, if there is a group.
  unfoldable pub given :
      Bool → Option (List (Delivery redis)) → List EventRead → List (Delivery redis)
  given false claimed rs = []
  given true none rs = entries_of rs
  given true (some ds) rs = ds ++ entries_of rs

  -- An outcome that agrees with the entries that are left of all the ones given: only where it stopped at an entry, that
  -- entry is the first of them.
  abbrev pub Agrees : RunOutcome → List (Delivery redis) → Type 1
  Agrees (stopped d ds) rest = (more : List (Delivery redis)) × (rest ≡ (d ∷ ds) ++ more)
  Agrees no_group rest = rest ≡ []
  Agrees finished rest = rest ≡ []
  Agrees reading rest = rest ≡ []

  -- A result that agrees with a run through a list of entries.
  abbrev pub IsRunOf : RunOutcome × Db → List (Delivery redis) × Db → Type 1
  IsRunOf r (rest, db) = Agrees r.0 rest × (r.1 ≡ db)

  after_batch-resume :
      (done : List (Delivery redis) × Db) (more : List (Delivery redis)) (next : RunOutcome × Db)
      → IsRunOf next (run_worker redis more done.1)
      → IsRunOf (after_batch done next) (resume redis done more)
  unfolding after_batch resume
  after_batch-resume ([], db) more next k = k
  after_batch-resume (d ∷ ds, db) more next k = ((more, refl), refl)

  after_batch-IsRunOf :
      (ds more : List (Delivery redis)) (db : Db) (next : RunOutcome × Db)
      → IsRunOf next (run_worker redis more (run_worker redis ds db).1)
      → IsRunOf (after_batch (run_worker redis ds db) next) (run_worker redis (ds ++ more) db)
  after_batch-IsRunOf ds more db next k =
      subst (IsRunOf (after_batch (run_worker redis ds db) next))
        (sym (run_worker-append redis ds more db))
        (after_batch-resume (run_worker redis ds db) more next k)

  run_reads-IsRunOf :
      (rs : List EventRead) (db : Db)
      → IsRunOf (run_reads rs db) (run_worker redis (entries_of rs) db)
  unfolding run_reads entries_of
  run_reads-IsRunOf [] db = unfold run_worker in (refl, refl)
  run_reads-IsRunOf (batch ds ∷ rs) db =
      after_batch-IsRunOf ds (entries_of rs) db _ (run_reads-IsRunOf rs _)
  run_reads-IsRunOf (canceled_read ∷ rs) db = unfold run_worker in (refl, refl)
  run_reads-IsRunOf (failed_read true ∷ rs) db = unfold run_worker in (refl, refl)
  run_reads-IsRunOf (failed_read false ∷ rs) db = run_reads-IsRunOf rs db

  run_from-IsRunOf :
      (claimed : Option (List (Delivery redis))) (rs : List EventRead) (db : Db)
      → IsRunOf (run_from true claimed rs db) (run_worker redis (given true claimed rs) db)
  unfolding run_from given
  run_from-IsRunOf none rs db = run_reads-IsRunOf rs db
  run_from-IsRunOf (some ds) rs db =
      after_batch-IsRunOf ds (entries_of rs) db _ (run_reads-IsRunOf rs _)

  -- The worker goes through exactly the entries that it is given, the claimed ones first, whatever reads fail in
  -- between.
  pub run-IsRunOf :
      (g : GroupAnswer) (claimed : Option (List (Delivery redis))) (rs : List EventRead) (db : Db)
      → IsRunOf (run g claimed rs db) (run_worker redis (given (ensure_group g) claimed rs) db)
  unfolding run
  run-IsRunOf g claimed rs db = elim (Bool-cases (ensure_group g)) [
    | inl on ↦ rw on (run_from-IsRunOf claimed rs db)
    | inr off ↦ rw off (unfold run_from in unfold given in unfold run_worker in (refl, refl))
  ]

  -- Any run of the worker, from its start, whether or not pending entries can be claimed and whatever reads fail:
  -- of the entries that it is given it does the first ones in their order, none skipped, and all of these
  -- succeed; the first one that it does not do, if any, fails on the tables that they left, and it is then that
  -- the worker stops at this entry, and not otherwise.
  pub run-Stops :
      (g : GroupAnswer) (claimed : Option (List (Delivery redis))) (rs : List EventRead) (db : Db)
      → (rest : List (Delivery redis)) × Stops redis
          (given (ensure_group g) claimed rs)
          rest
          db
          (run g claimed rs db).1
        × Agrees (run g claimed rs db).0 rest
  run-Stops g claimed rs db =
      let ds = given (ensure_group g) claimed rs in
      let (agrees, same) = run-IsRunOf g claimed rs db in
      (
        (run_worker redis ds db).0,
        subst (Stops redis ds (run_worker redis ds db).0 db) (sym same)
            (run_worker-Stops redis ds db),
        agrees,
      )

  -- Any run of the worker, from its start, when the entries that it is given announce unfilled orders only, from tables
  -- in which every trade's orders have a row and the row of every order has as filled quantity the sum of
  -- the trades that name it, and as remaining quantity what that leaves of the quantity, or zero: the tables
  -- are such again wherever it is, whatever the server refuses, whichever reads fail, and whichever entries are stale,
  -- malformed or delivered more than once.
  pub run-IsFilled :
      (g : GroupAnswer) (claimed : Option (List (Delivery redis))) (rs : List EventRead) (db : Db)
      → All (λ d. IsFresh d.event) (given (ensure_group g) claimed rs)
      → IsFilled db
      → IsFilled (run g claimed rs db).1
  run-IsFilled g claimed rs db fresh k =
      subst IsFilled (sym (run-IsRunOf g claimed rs db).1)
        (run_worker-IsFilled redis (given (ensure_group g) claimed rs) db fresh k)
