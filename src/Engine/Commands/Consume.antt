-- ===== src/Engine/Commands/Consume.antt =====
-- internal/engine/engine.go, `consumeMessages`: from the stream of a partition to the handlers.
--
-- What Redis answers is given: the claimed entries, and the reads one after the other.
use golang_predix.Common.{
  ℕ, ◌≡◌, refl, sym, ◌∙◌, Bool, true, false, Option, none, some, List, [], ◌∷◌, ◌++◌, Text,
}
use golang_predix.Engine.Events.{Engine, World}
use golang_predix.Engine.Commands.{Command, process_entry}

-- An entry with its client, the world at its time, and its command where it can be read.
pub record Consumed : Type 0 where
  pub world : World
  pub client : Text
  pub command : Option Command

-- The answer to an `XREADGROUP`: entries, that the context is done, or another error, with whether the context is
-- done before the pause of a second ends.
pub data Read : Type 0 where
  batch : List Consumed → Read
  canceled_read : Read
  failed_read : Bool → Read

-- The loop over the entries of an answer.
unfoldable pub process_batch : ℕ → List Consumed → Engine → Engine
process_batch p [] e = e
process_batch p (c ∷ cs) e = process_batch p cs (process_entry c.world p c.client c.command e).1

-- The endless loop, on the reads that are made of it.
unfoldable pub consume_reads : ℕ → List Read → Engine → Engine
consume_reads p [] e = e
consume_reads p (batch cs ∷ rs) e = consume_reads p rs (process_batch p cs e)
consume_reads p (canceled_read ∷ rs) e = e
consume_reads p (failed_read true ∷ rs) e = e
consume_reads p (failed_read false ∷ rs) e = consume_reads p rs e

-- `consumeMessages`; `grouped` says whether `ensureCommandGroup` returns no error, and `none` is that nothing could be
-- claimed.
unfoldable pub consume_messages : ℕ → Bool → Option (List Consumed) → List Read → Engine → Engine
consume_messages p false claimed rs e = e
consume_messages p true none rs e = consume_reads p rs e
consume_messages p true (some cs) rs e = consume_reads p rs (process_batch p cs e)

-- The entries that a call gets, up to the end of its context.
unfoldable pub entries_of : List Read → List Consumed
entries_of [] = []
entries_of (batch cs ∷ rs) = cs ++ entries_of rs
entries_of (canceled_read ∷ rs) = []
entries_of (failed_read true ∷ rs) = []
entries_of (failed_read false ∷ rs) = entries_of rs

process_batch-append :
    (p : ℕ) (xs ys : List Consumed) (e : Engine)
    → process_batch p (xs ++ ys) e ≡ process_batch p ys (process_batch p xs e)
unfolding process_batch
process_batch-append p [] ys e = refl
process_batch-append p (x ∷ xs) ys e =
    process_batch-append p xs ys (process_entry x.world p x.client x.command e).1

-- The engine processes exactly the entries that it gets, in their order, whatever reads fail in between.
pub consume_reads_in_order :
    (p : ℕ) (rs : List Read) (e : Engine) → consume_reads p rs e ≡ process_batch p (entries_of rs) e
unfolding consume_reads entries_of
consume_reads_in_order p [] e = unfold process_batch in refl
consume_reads_in_order p (batch cs ∷ rs) e =
    consume_reads_in_order p rs (process_batch p cs e)
    ∙ sym (process_batch-append p cs (entries_of rs) e)
consume_reads_in_order p (canceled_read ∷ rs) e = unfold process_batch in refl
consume_reads_in_order p (failed_read true ∷ rs) e = unfold process_batch in refl
consume_reads_in_order p (failed_read false ∷ rs) e = consume_reads_in_order p rs e
