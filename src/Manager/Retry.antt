-- ===== src/Manager/Retry.antt =====
-- pkg/redis/manager.go, `appendCommand`: how many copies of a command its attempts write.
use golang_predix.Common.{
  ℕ, zero, suc, ◌+◌, ◌≤◌, ◌≡◌, refl, sym, ◌≢◌, ◌⊎◌, inl, inr, true, false, Option, none, some, List,
  [], ◌∷◌, ◌++◌, Text, Bool-cases, if◌then◌else◌, arith,
}
use mathlib.Core.List.{append-nil, append_assoc}
use golang_predix.Partition.Router.{Router}
use golang_predix.Manager.{
  CommandEnvelope, Entry, Broker, Added, added, not_added, unanswered, Call, SendError,
  not_marshalled, context_canceled, stream_for, push, xadd, attempt, max_append_retries,
  append_command,
}

pub copies : ℕ → Entry → List Entry
copies zero x = []
copies (suc n) x = x ∷ copies n x

-- The broker with `n` more copies of an entry in one stream, and nothing else new.
pub record Wrote (key : Text) (x : Entry) (n : ℕ) (b b' : Broker) : Type 0 where
  pub here : b'.streams key ≡ b.streams key ++ copies n x
  pub elsewhere : (k : Text) → k ≢ key → b'.streams k ≡ b.streams k

pub Wrote-nothing : (key : Text) (x : Entry) (b : Broker) → Wrote key x 0 b b
unfolding copies
Wrote-nothing key x b = record {
  here = sym (append-nil (b.streams key));
  elsewhere = λ k. λ ne. refl;
}

pub Wrote-more :
    (key : Text) (x : Entry) (n : ℕ) (b b' : Broker)
    → Wrote key x n (push key x b) b'
    → Wrote key x (suc n) b b'
unfolding push copies
Wrote-more key x n b b' w = record {
  here = ground (arith, w.here, append_assoc (b.streams key) (x ∷ []) (copies n x));
  elsewhere = λ k. λ ne. ground (arith, w.elsewhere k ne);
}

-- What a number of attempts that are left do.
abbrev pub Attempted : Text → Entry → ℕ → Broker → Option SendError × Broker → Type 0
Attempted key x left b r = (k : ℕ) × (k ≤ left) × (r.0 ≡ none → 1 ≤ k) × Wrote key x k b r.1

pub attempt_accepted :
    (call : Call) (key : Text) (x : Entry) (left n : ℕ) (b : Broker)
    → call.xadd n ≡ added
    → attempt call key x (suc left) n b ≡ (none, push key x b)
unfolding attempt xadd
attempt_accepted call key x left n b e = ground arith

pub attempt_refused :
    (call : Call) (key : Text) (x : Entry) (left n : ℕ) (b : Broker)
    → call.xadd n ≡ not_added
    → attempt call key x (suc left) n b ≡ (
        if call.context_done n
        then (some context_canceled, b)
        else attempt call key x left (n + 1) b)
unfolding attempt xadd
attempt_refused call key x left n b e = ground arith

pub attempt_unanswered :
    (call : Call) (key : Text) (x : Entry) (left n : ℕ) (b : Broker)
    → call.xadd n ≡ unanswered
    → attempt call key x (suc left) n b ≡ (
        if call.context_done n
        then (some context_canceled, push key x b)
        else attempt call key x left (n + 1) (push key x b))
unfolding attempt xadd
attempt_unanswered call key x left n b e = ground arith

-- The attempts write no more copies than they are, and at least one where they succeed.
pub attempt-Wrote :
    (call : Call) (key : Text) (x : Entry) (left n : ℕ) (b : Broker)
    → Attempted key x left b (attempt call key x left n b)
unfolding attempt
attempt-Wrote call key x zero n b =
    (0, omega arith, (λ e. absurd (ground arith)), Wrote-nothing key x b)
attempt-Wrote call key x (suc left) n b =
    go (call.xadd n) refl (Bool-cases (call.context_done n))
      (attempt-Wrote call key x left (n + 1) b)
      (attempt-Wrote call key x left (n + 1) (push key x b))
  where
    once : Wrote key x 1 b (push key x b)
    once = Wrote-more key x 0 b (push key x b) (Wrote-nothing key x (push key x b))

    go :
        (a : Added)
        → call.xadd n ≡ a
        → (call.context_done n ≡ true) ⊎ (call.context_done n ≡ false)
        → Attempted key x left b (attempt call key x left (n + 1) b)
        → Attempted key x left (push key x b) (attempt call key x left (n + 1) (push key x b))
        → Attempted key x (suc left) b (attempt call key x (suc left) n b)
    go added e c r w =
        rw (attempt_accepted call key x left n b e) (1, omega arith, (λ h. omega arith), once)
    go not_added e (inl c) r w =
        rw (attempt_refused call key x left n b e, c)
          (0, omega arith, (λ h. absurd (ground arith)), Wrote-nothing key x b)
    go not_added e (inr c) (k, le, some_, r) w =
        rw (attempt_refused call key x left n b e, c) (k, omega arith, some_, r)
    go unanswered e (inl c) r w =
        rw (attempt_unanswered call key x left n b e, c) (1, omega arith, (λ h. omega arith), once)
    go unanswered e (inr c) r (k, le, some_, w) =
        rw (attempt_unanswered call key x left n b e, c)
          (suc k, omega arith, (λ h. omega arith), Wrote-more key x k b _ w)

pub append_command_encoded :
    (r : Option Router) (call : Call) (client : Text) (v : CommandEnvelope) (p : ℕ) (b : Broker)
    → call.marshal_ok ≡ true
    → append_command r call client v p b
      ≡ attempt call
          (stream_for r p)
          (record { client_id = client; command = v })
          max_append_retries
          0
          b
unfolding append_command
append_command_encoded r call client v p b e = ground arith

pub append_command_not_encoded :
    (r : Option Router) (call : Call) (client : Text) (v : CommandEnvelope) (p : ℕ) (b : Broker)
    → call.marshal_ok ≡ false
    → append_command r call client v p b ≡ (some not_marshalled, b)
unfolding append_command
append_command_not_encoded r call client v p b e = ground arith

pub append_command-Wrote :
    (r : Option Router) (call : Call) (client : Text) (v : CommandEnvelope) (p : ℕ) (b : Broker)
    → Attempted
        (stream_for r p)
        (record { client_id = client; command = v })
        max_append_retries
        b
        (append_command r call client v p b)
append_command-Wrote r call client v p b = elim (Bool-cases call.marshal_ok) [
  | inl fine ↦ rw (append_command_encoded r call client v p b fine) (
      attempt-Wrote call (stream_for r p) (record { client_id = client; command = v })
        max_append_retries 0 b)
  | inr bad ↦
      rw (append_command_not_encoded r call client v p b bad)
        (0, omega arith, (λ e. absurd (ground arith)), Wrote-nothing (stream_for r p) _ b)
]
