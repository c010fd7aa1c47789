-- ===== src/Engine/Commands/Restart.antt =====
-- internal/engine/replay.go: a replay of the commands, at another time, rebuilds the store that their live consumption
-- made.
use golang_predix.Common.{
  ℕ, ◌≡◌, sym, ◌∙◌, ap, Bool, true, Option, none, some, List, [], ◌∷◌, All, map, Text, arith,
  if◌then◌else◌,
}
use golang_predix.Engine.Types.{Store}
use golang_predix.Engine.Events.{Engine, World}
use golang_predix.Engine.Commands.{Command, process_entries, set_replaying, replay_command_log}
use golang_predix.Engine.Commands.Replay.{set_replaying_self}
use golang_predix.Engine.Commands.Rebuild.{
  effect, effects, IsUp, process_entries-store, replay_entries-store,
}
use golang_predix.Engine.Commands.Timeless.{IsNamed, effect_again}
use golang_predix.Engine.Undated.{undated_store}

-- An entry of the stream of a partition: the world when it is consumed, the world when it is replayed, and its command.
abbrev pub Logged : Type 0
Logged = World × World × Option Command

abbrev pub live_log : List Logged → List (World × Option Command)
live_log = map (λ (x : Logged). (x.0, x.2))

abbrev pub replay_log : List Logged → List (World × Option Command)
replay_log = map (λ (x : Logged). (x.1, x.2))

effects_again :
    (cs : List Logged) (s t : Store)
    → All (λ x. IsNamed x.2) cs
    → undated_store s ≡ undated_store t
    → undated_store (effects (live_log cs) s) ≡ undated_store (effects (replay_log cs) t)
unfolding effects
effects_again [] s t named same = same
effects_again ((w, w', none) ∷ cs) s t named same = effects_again cs s t named.1 same
effects_again ((w, w', some c) ∷ cs) s t named same =
    effects_again cs (effect w c.kind c.payload s) (effect w' c.kind c.payload t) named.1
      (effect_again w w' c.kind c.payload s t named.0 same)

live-IsUp :
    (p : ℕ) (cs : List Logged) → All (λ x. IsUp p x.0) cs → All (λ x. IsUp p x.0) (live_log cs)
live-IsUp p [] ups = tt
live-IsUp p (x ∷ cs) ups = (ups.0, live-IsUp p cs ups.1)

if_true : {b : Bool} {x : Engine} (y : Engine) → b ≡ true → (if b then x else y) ≡ x
if_true y h = ground arith

replayed_store :
    (p : ℕ) (cs : List (World × Option Command)) (e : Engine)
    → e.has_redis ≡ true
    → (replay_command_log p (some cs) e).store ≡ effects cs e.store
unfolding replay_command_log set_replaying
replayed_store p cs e redis =
    ap (λ (f : Engine). f.store) (if_true _ redis)
    ∙ replay_entries-store p cs (set_replaying p true e) (set_replaying_self p e)

-- A replay of the entries of a partition by an engine with Redis, at other times, with other uuids, and whatever the
-- outside does meanwhile, leaves the store that their live consumption left, but for the times at which orders were
-- created: the same markets with the same books in the same order, the same orders but for that time, and the same
-- cash and shares. Both start from one store, again but for these times; every entry that creates an order has an id
-- for it; and while the entries were consumed, the journal and the stream took what was emitted.
pub replay_rebuilds :
    (p : ℕ) (clients : ℕ → Text) (cs : List Logged) (live fresh : Engine)
    → All (λ x. IsUp p x.0) cs
    → All (λ x. IsNamed x.2) cs
    → fresh.has_redis ≡ true
    → undated_store live.store ≡ undated_store fresh.store
    → undated_store (process_entries p clients 0 (live_log cs) live).store
      ≡ undated_store (replay_command_log p (some (replay_log cs)) fresh).store
replay_rebuilds p clients cs live fresh ups named redis same =
    ap undated_store (process_entries-store p clients 0 (live_log cs) live (live-IsUp p cs ups))
    ∙ (effects_again cs live.store fresh.store named same
        ∙ ap undated_store (sym (replayed_store p (replay_log cs) fresh redis)))
