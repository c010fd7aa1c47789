-- ===== src/Engine/Commands/Silence.antt =====
-- internal/engine/engine.go: what the outside sees of an engine, and engines that agree in it.
use golang_predix.Common.{◌≡◌, refl, ◌∙◌}
use golang_predix.Engine.Types.{Store}
use golang_predix.Engine.Events.{Engine}
use golang_predix.Engine.Handlers.{set_store}

-- What the outside sees of an engine is as it was: the journal, the stream, the channel, the
-- sequence numbers, and the counters of the life of orders.
pub record Silent (e f : Engine) : Type 0 where
  pub outbox : f.outbox ≡ e.outbox
  pub stream : f.stream ≡ e.stream
  pub channel : f.channel ≡ e.channel
  pub sequences : f.partition_seq ≡ e.partition_seq
  pub accepted : f.metrics.orders_accepted ≡ e.metrics.orders_accepted
  pub rejected : f.metrics.orders_rejected ≡ e.metrics.orders_rejected
  pub canceled : f.metrics.orders_canceled ≡ e.metrics.orders_canceled
  pub filled : f.metrics.orders_filled ≡ e.metrics.orders_filled
  pub trades : f.metrics.trades_executed ≡ e.metrics.trades_executed

-- The same, and the same partitions replay.
pub record Quiet (e f : Engine) : Type 0 where
  pub silent : Silent e f
  pub mode : f.replaying ≡ e.replaying

pub Silent-refl : (e : Engine) → Silent e e
Silent-refl e = record {
  outbox = refl;
  stream = refl;
  channel = refl;
  sequences = refl;
  accepted = refl;
  rejected = refl;
  canceled = refl;
  filled = refl;
  trades = refl;
}

pub Silent-trans : {e f g : Engine} → Silent e f → Silent f g → Silent e g
Silent-trans a b = record {
  outbox = b.outbox ∙ a.outbox;
  stream = b.stream ∙ a.stream;
  channel = b.channel ∙ a.channel;
  sequences = b.sequences ∙ a.sequences;
  accepted = b.accepted ∙ a.accepted;
  rejected = b.rejected ∙ a.rejected;
  canceled = b.canceled ∙ a.canceled;
  filled = b.filled ∙ a.filled;
  trades = b.trades ∙ a.trades;
}

pub Quiet-refl : (e : Engine) → Quiet e e
Quiet-refl e = record { silent = Silent-refl e; mode = refl }

pub Quiet-trans : {e f g : Engine} → Quiet e f → Quiet f g → Quiet e g
Quiet-trans a b = record { silent = Silent-trans a.silent b.silent; mode = b.mode ∙ a.mode }

pub set_store-Quiet : (s : Store) (e : Engine) → Quiet e (set_store s e)
unfolding set_store
set_store-Quiet s e = record {
  silent = record {
    outbox = refl;
    stream = refl;
    channel = refl;
    sequences = refl;
    accepted = refl;
    rejected = refl;
    canceled = refl;
    filled = refl;
    trades = refl;
  };
  mode = refl;
}
