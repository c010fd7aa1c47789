-- ===== src/Partition/Redis.antt =====
-- What internal/partition uses of a Redis server. The server is not part of the program: it is a
-- parameter, with the documented behaviour of the five commands as laws.
use golang_predix.Common.{
  ℕ, suc, ◌≡◌, refl, ◌≢◌, Bool, true, false, Option, none, some, ite, Text, Text-discrete, arith,
}

pub record Redis : Type 1 where
  pub State : Type 0
  -- The string at a key, and the counter at a key, 0 where there is none.
  pub get : Text → State → Option Text
  pub counter : Text → State → ℕ
  -- `SET key value NX PX ttl`, `PEXPIRE`, `DEL`, `INCR`, and the expiry of a key at its time.
  pub set_nx : Text → Text → ℕ → State → Bool × State
  pub pexpire : Text → ℕ → State → State
  pub del : Text → State → State
  pub incr : Text → State → ℕ × State
  pub expire : Text → State → State
  pub set_nx_free :
      (k v : Text) (t : ℕ) (s : State)
      → get k s ≡ none
      → ((set_nx k v t s).0 ≡ true) × (get k (set_nx k v t s).1 ≡ some v)
  pub set_nx_taken :
      (k v u : Text) (t : ℕ) (s : State) → get k s ≡ some u → set_nx k v t s ≡ (false, s)
  pub set_nx_others :
      (k v j : Text) (t : ℕ) (s : State) → j ≢ k → get j (set_nx k v t s).1 ≡ get j s
  pub get_pexpire : (k j : Text) (t : ℕ) (s : State) → get j (pexpire k t s) ≡ get j s
  pub get_del : (k j : Text) (s : State) → get j (del k s) ≡ ite (Text-discrete j k) none (get j s)
  pub get_expire :
      (k j : Text) (s : State) → get j (expire k s) ≡ ite (Text-discrete j k) none (get j s)
  pub incr_value : (k : Text) (s : State) → (incr k s).0 ≡ suc (counter k s)
  pub counter_incr :
      (k j : Text) (s : State)
      → counter j (incr k s).1 ≡ ite (Text-discrete j k) (suc (counter j s)) (counter j s)
  pub counter_set_nx :
      (k v j : Text) (t : ℕ) (s : State) → j ≢ k → counter j (set_nx k v t s).1 ≡ counter j s
  pub counter_pexpire : (k j : Text) (t : ℕ) (s : State) → counter j (pexpire k t s) ≡ counter j s
  pub counter_del : (k j : Text) (s : State) → j ≢ k → counter j (del k s) ≡ counter j s
  pub counter_expire : (k j : Text) (s : State) → j ≢ k → counter j (expire k s) ≡ counter j s
  pub get_incr : (k j : Text) (s : State) → j ≢ k → get j (incr k s).1 ≡ get j s

-- A server of one string and one counter for each key, which keeps no times.
pub record Keys : Type 0 where
  pub strings : Text → Option Text
  pub counters : Text → ℕ

abbrev pub write : Text → Option Text → Keys → Keys
write k v s = record s { strings = λ j. ite (Text-discrete j k) v (s.strings j) }

abbrev pub try_set : Text → Text → Option Text → Keys → Bool × Keys
try_set k v none s = (true, write k (some v) s)
try_set k v (some u) s = (false, s)

abbrev pub count : Text → Keys → ℕ × Keys
count k s = (
  suc (s.counters k),
  record s { counters = λ j. ite (Text-discrete j k) (suc (s.counters j)) (s.counters j) },
)

pub try_set_free :
    (k v : Text) (s : Keys)
    → s.strings k ≡ none
    → ((try_set k v (s.strings k) s).0 ≡ true)
      × ((try_set k v (s.strings k) s).1.strings k ≡ some v)
try_set_free k v s h = rw h (refl, ground arith)

pub try_set_taken :
    (k v u : Text) (s : Keys) → s.strings k ≡ some u → try_set k v (s.strings k) s ≡ (false, s)
try_set_taken k v u s h = ground arith

pub try_set_others :
    (k v j : Text) (o : Option Text) (s : Keys)
    → j ≢ k
    → (try_set k v o s).1.strings j ≡ s.strings j
try_set_others k v j none s h = ground arith
try_set_others k v j (some u) s h = refl

pub try_set_counters :
    (k v j : Text) (o : Option Text) (s : Keys) → (try_set k v o s).1.counters j ≡ s.counters j
try_set_counters k v j none s = refl
try_set_counters k v j (some u) s = refl

abbrev pub simple_redis : Redis
simple_redis = record {
  State = Keys;
  get = λ k s. s.strings k;
  counter = λ k s. s.counters k;
  set_nx = λ k v t s. try_set k v (s.strings k) s;
  pexpire = λ k t s. s;
  del = λ k s. write k none s;
  incr = count;
  expire = λ k s. write k none s;
  set_nx_free = λ k v t s h. try_set_free k v s h;
  set_nx_taken = λ k v u t s h. try_set_taken k v u s h;
  set_nx_others = λ k v j t s h. try_set_others k v j (s.strings k) s h;
  get_pexpire = λ k j t s. refl;
  get_del = λ k j s. refl;
  get_expire = λ k j s. refl;
  incr_value = λ k s. refl;
  counter_incr = λ k j s. refl;
  counter_set_nx = λ k v j t s h. try_set_counters k v j (s.strings k) s;
  counter_pexpire = λ k j t s. refl;
  counter_del = λ k j s h. refl;
  counter_expire = λ k j s h. refl;
  get_incr = λ k j s h. refl;
}

abbrev pub empty_keys : Keys
empty_keys = record { strings = λ k. none; counters = λ k. 0 }
