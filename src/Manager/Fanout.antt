-- ===== src/Manager/Fanout.antt =====
-- pkg/redis/manager.go, `SendCommandFanout`: which partitions a command for all of them reaches.
use golang_predix.Common.{
  ℕ, zero, suc, ◌+◌, ◌≤◌, ◌<◌, ◌≡◌, refl, ◌∙◌, sym, ap, subst, ◌≢◌, ◌⊎◌, inl, inr, true, false,
  Option, none, some, [], ◌∷◌, ◌++◌, ℕ_discrete, Bool-cases, arith,
}
use golang_predix.Engine.Commands.{CommandType, Payload}
use golang_predix.Partition.Router.{Router, stream}
use golang_predix.Partition.Router.Names.{names_are_distinct}
use golang_predix.Manager.{
  Entry, Broker, Added, added, not_added, unanswered, Call, SendError, not_appended, not_marshalled,
  next_number, create_envelope, push, xadd, fan_out, send_command_fanout,
}

module _ (r : Router) (calls : ℕ → Call) (kind : CommandType) (payload : Payload) where
  -- The stream of a partition has one more entry, which is the command.
  pub record Gained (q : ℕ) (b b' : Broker) : Type 0 where
    pub entry : Entry
    pub its_kind : entry.command.kind ≡ kind
    pub its_payload : entry.command.payload ≡ payload
    pub last : b'.streams (stream r q) ≡ b.streams (stream r q) ++ entry ∷ []

  -- The stream of a partition is as before.
  abbrev pub Untouched : ℕ → Broker → Broker → Type 0
  Untouched q b b' = b'.streams (stream r q) ≡ b.streams (stream r q)

  -- The stream of the partition at which a fan-out fails.
  abbrev pub AtMostGained : ℕ → Broker → Broker → Type 0
  AtMostGained q b b' = Untouched q b b' ⊎ Gained q b b'

  -- How far a fan-out from a partition on has come.
  pub record Reached (p left : ℕ) (b : Broker) (failed : Option SendError) (b' : Broker)
      : Type 0 where
    pub count : ℕ
    pub gained : (q : ℕ) → p ≤ q → q < p + count → Gained q b b'
    pub before : (q : ℕ) → q < p → b'.streams (stream r q) ≡ b.streams (stream r q)
    pub behind : (q : ℕ) → p + count < q → b'.streams (stream r q) ≡ b.streams (stream r q)
    pub through : failed ≡ none → count ≡ left
    pub stopped : failed ≢ none → count < left
    pub failing : failed ≢ none → AtMostGained (p + count) b b'

  abbrev entry_at : ℕ → Broker → Entry
  entry_at p b = record {
    client_id = [];
    command = (create_envelope (some r) (calls p) kind [] payload p b).0;
  }

  abbrev numbered : ℕ → Broker → Broker
  numbered p b = (create_envelope (some r) (calls p) kind [] payload p b).1

  numbered-streams : (p : ℕ) (b : Broker) → (numbered p b).streams ≡ b.streams
  unfolding create_envelope next_number
  numbered-streams p b = ground arith

  pushed : ℕ → Broker → Broker
  pushed p b = push (stream r p) (entry_at p b) (numbered p b)

  pushed_here :
      (p : ℕ) (b : Broker)
      → (pushed p b).streams (stream r p) ≡ b.streams (stream r p) ++ entry_at p b ∷ []
  unfolding pushed push
  pushed_here p b = ground (arith, ap (λ s. s (stream r p)) (numbered-streams p b))

  pushed_elsewhere :
      (p q : ℕ) (b : Broker) → q ≢ p → (pushed p b).streams (stream r q) ≡ b.streams (stream r q)
  unfolding pushed push
  pushed_elsewhere p q b ne =
      ground
        (arith, (names_are_distinct r q p ne).0, ap (λ s. s (stream r q)) (numbered-streams p b))

  entry_lem :
      (p : ℕ) (b : Broker)
      → ((entry_at p b).command.kind ≡ kind) × ((entry_at p b).command.payload ≡ payload)
  unfolding create_envelope
  entry_lem p b = (refl, refl)

  -- The stream of a partition is as a round that wrote to it leaves it.
  here :
      (p : ℕ) (b b' : Broker)
      → b'.streams (stream r p) ≡ (pushed p b).streams (stream r p)
      → Gained p b b'
  here p b b' same = record {
    entry = entry_at p b;
    its_kind = (entry_lem p b).0;
    its_payload = (entry_lem p b).1;
    last = same ∙ pushed_here p b;
  }

  -- A round that stops the fan-out.
  stops :
      (p left : ℕ) (b b' : Broker) (x : SendError)
      → ((q : ℕ) → q ≢ p → b'.streams (stream r q) ≡ b.streams (stream r q))
      → AtMostGained p b b'
      → Reached p (suc left) b (some x) b'
  stops p left b b' x same ends = record {
    count = 0;
    gained = λ q. λ le. λ lt. absurd (omega arith);
    before = λ q. λ lt. same q (λ e. omega arith);
    behind = λ q. λ lt. same q (λ e. omega arith);
    through = λ e. absurd (ground arith);
    stopped = λ ne. omega arith;
    failing = λ ne. subst (λ t. AtMostGained t b b') (omega arith) ends;
  }

  -- What a later round gives another partition.
  behind_push : (p q : ℕ) (b b' : Broker) → q ≢ p → Gained q (pushed p b) b' → Gained q b b'
  behind_push p q b b' ne g = record {
    entry = g.entry;
    its_kind = g.its_kind;
    its_payload = g.its_payload;
    last = g.last ∙ ap (λ t. t ++ g.entry ∷ []) (pushed_elsewhere p q b ne);
  }

  behind_ends :
      (p q : ℕ) (b b' : Broker) → q ≢ p → AtMostGained q (pushed p b) b' → AtMostGained q b b'
  behind_ends p q b b' ne (inl same) = inl (same ∙ pushed_elsewhere p q b ne)
  behind_ends p q b b' ne (inr g) = inr (behind_push p q b b' ne g)

  -- A round that goes on.
  goes_on :
      (p left : ℕ) (b b' : Broker) (failed : Option SendError)
      → Reached (p + 1) left (pushed p b) failed b'
      → Reached p (suc left) b failed b'
  goes_on p left b b' failed f = record {
    count = suc f.count;
    gained = λ q. λ le. λ lt. at q (ℕ_discrete q p) le lt;
    before = λ q. λ lt. f.before q (omega arith) ∙ pushed_elsewhere p q b (λ e. omega arith);
    behind = λ q. λ lt. f.behind q (omega arith) ∙ pushed_elsewhere p q b (λ e. omega arith);
    through = λ e. omega (arith, f.through e);
    stopped = λ ne. omega (arith, f.stopped ne);
    failing = λ ne.
        subst (λ t. AtMostGained t b b') (omega arith)
          (behind_ends p (p + 1 + f.count) b b' (λ e. omega arith) (f.failing ne));
  }
    where
      at : (q : ℕ) → Dec (q ≡ p) → p ≤ q → q < p + suc f.count → Gained q b b'
      at q (yes same) le lt =
          subst (λ t. Gained t b b') (sym same) (here p b b' (f.before p (omega arith)))
      at q (no differ) le lt = behind_push p q b b' differ (f.gained q (omega arith) (omega arith))

  fan_out_added :
      (left p : ℕ) (b : Broker)
      → (calls p).marshal_ok ≡ true
      → (calls p).xadd 0 ≡ added
      → fan_out r calls kind payload (suc left) p b
        ≡ fan_out r calls kind payload left (p + 1) (pushed p b)
  unfolding fan_out xadd pushed
  fan_out_added left p b m a = ground arith

  fan_out_not_added :
      (left p : ℕ) (b : Broker)
      → (calls p).marshal_ok ≡ true
      → (calls p).xadd 0 ≡ not_added
      → fan_out r calls kind payload (suc left) p b ≡ (some not_appended, numbered p b)
  unfolding fan_out xadd
  fan_out_not_added left p b m a = ground arith

  fan_out_unanswered :
      (left p : ℕ) (b : Broker)
      → (calls p).marshal_ok ≡ true
      → (calls p).xadd 0 ≡ unanswered
      → fan_out r calls kind payload (suc left) p b ≡ (some not_appended, pushed p b)
  unfolding fan_out xadd pushed
  fan_out_unanswered left p b m a = ground arith

  fan_out_not_marshalled :
      (left p : ℕ) (b : Broker)
      → (calls p).marshal_ok ≡ false
      → fan_out r calls kind payload (suc left) p b ≡ (some not_marshalled, numbered p b)
  unfolding fan_out
  fan_out_not_marshalled left p b m = ground arith

  fan_out-Reached :
      (left p : ℕ) (b : Broker)
      → Reached p left b
          (fan_out r calls kind payload left p b).0
          (fan_out r calls kind payload left p b).1
  unfolding fan_out
  fan_out-Reached zero p b = record {
    count = 0;
    gained = λ q. λ le. λ lt. absurd (omega arith);
    before = λ q. λ lt. refl;
    behind = λ q. λ lt. refl;
    through = λ e. refl;
    stopped = λ ne. absurd (ne refl);
    failing = λ ne. absurd (ne refl);
  }
  fan_out-Reached (suc left) p b =
      go (Bool-cases (calls p).marshal_ok) ((calls p).xadd 0) refl
        (fan_out-Reached left (p + 1) (pushed p b))
    where
      quiet : (q : ℕ) → q ≢ p → (numbered p b).streams (stream r q) ≡ b.streams (stream r q)
      quiet q ne = ap (λ s. s (stream r q)) (numbered-streams p b)

      unchanged : (numbered p b).streams (stream r p) ≡ b.streams (stream r p)
      unchanged = ap (λ s. s (stream r p)) (numbered-streams p b)

      go :
          ((calls p).marshal_ok ≡ true) ⊎ ((calls p).marshal_ok ≡ false)
          → (a : Added) → (calls p).xadd 0 ≡ a
          → Reached
              (p + 1)
              left
              (pushed p b)
              (fan_out r calls kind payload left (p + 1) (pushed p b)).0
              (fan_out r calls kind payload left (p + 1) (pushed p b)).1
          → Reached p
              (suc left)
              b
              (fan_out r calls kind payload (suc left) p b).0
              (fan_out r calls kind payload (suc left) p b).1
      go (inr m) a e rest =
          rw (fan_out_not_marshalled left p b m)
            (stops p left b _ not_marshalled quiet (inl unchanged))
      go (inl m) added e rest = rw (fan_out_added left p b m e) (goes_on p left b _ _ rest)
      go (inl m) not_added e rest =
          rw (fan_out_not_added left p b m e) (stops p left b _ not_appended quiet (inl unchanged))
      go (inl m) unanswered e rest = rw (fan_out_unanswered left p b m e) (
          stops p left b _ not_appended (λ q. pushed_elsewhere p q b)
            (inr (here p b (pushed p b) refl)))

  -- A command for all partitions is appended to the streams of an initial segment of them, once to each: of all
  -- of them where the call succeeds. Where it fails, it fails at the partition behind this segment, whose stream is
  -- as before or has the command as one more entry, and the streams of those behind it are as before.
  pub send_command_fanout-Reached :
      (b : Broker)
      → let (failed, b') = send_command_fanout (some r) calls kind payload b in
        Reached 0 r.partitions b failed b'
  unfolding send_command_fanout
  send_command_fanout-Reached b = fan_out-Reached r.partitions 0 b
