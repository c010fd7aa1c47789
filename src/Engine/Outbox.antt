-- ===== src/Engine/Outbox.antt =====
-- internal/engine/outbox.go, `Recover`: at a start the lines that are left in the journal are
-- published again. `Link` says what the outside does with each line.
--
-- The lines are envelopes that `Append` wrote whole; `marshal_ok` is false for a line that cannot
-- be decoded or encoded again.
pub mod Journal
use golang_predix.Common.{
  ℕ, ◌+◌, Bool, true, false, Option, none, some, List, [], ◌∷◌, ◌++◌, if◌then◌else◌,
}
use golang_predix.Engine.Events.{
  Envelope, Engine, Link, EmitError, add_failed, publish_failed, is_trade_executed,
}

pub data RecoverError : Type 0 where
  read_failed reset_failed : RecoverError
  republish_failed : EmitError → RecoverError

-- `publishEnvelope`
unfoldable pub publish_envelope : Link → Bool → Envelope → Engine → Option EmitError × Engine
publish_envelope l broadcast v e =
    let added = record e { stream = e.stream ++ v ∷ [] } in
    if l.add_ok
    then (if broadcast
        then (if l.publish_ok
            then (none, record added { channel = e.channel ++ v ∷ [] })
            else (some publish_failed, added))
        else (none, added))
    else (some add_failed, e)

-- `republishEnvelope`
unfoldable pub republish_envelope : Link → Envelope → Engine → Option EmitError × Engine
republish_envelope l v e =
    if l.marshal_ok then publish_envelope l (is_trade_executed v.kind) v e else (none, e)

-- The loop of `Recover`, from the i-th line on.
unfoldable pub republish_all : (ℕ → Link) → ℕ → List Envelope → Engine → Option EmitError × Engine
republish_all links i [] e = (none, e)
republish_all links i (v ∷ vs) e =
    let (err, e') = republish_envelope (links i) v e in
    let rest = republish_all links (i + 1) vs e' in elim err [ some x ↦ (some x, e') | none ↦ rest ]

-- The end of `Recover`: the reset, unless a line was refused.
unfoldable pub finish_recover : Bool → Option EmitError × Engine → Option RecoverError × Engine
finish_recover reset_ok (some x, e) = (some (republish_failed x), e)
finish_recover reset_ok (none, e) =
    if reset_ok then (none, record e { outbox = [] }) else (some reset_failed, e)

-- The part of `Recover` behind `ReadAll`.
unfoldable pub recover_lines :
    (ℕ → Link) → Bool → List Envelope → Engine → Option RecoverError × Engine
recover_lines links reset_ok [] e = (none, e)
recover_lines links reset_ok (v ∷ vs) e = finish_recover reset_ok (republish_all links 0 (v ∷ vs) e)

-- `Recover`
unfoldable pub recover : Bool → (ℕ → Link) → Bool → Engine → Option RecoverError × Engine
recover read_ok links reset_ok e =
    if read_ok then recover_lines links reset_ok e.outbox e else (some read_failed, e)
