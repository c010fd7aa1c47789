-- ===== src/Websocket/Hub/Tables.antt =====
-- internal/websocket/hub.go: the map from events to sets of clients, and what each write does to it.
use golang_predix.Common.{
  ℕ, ◌≡◌, refl, sym, subst, ◌≢◌, Bool, true, false, some, List, [], ◌∷◌, ite, All, Text,
  Text-discrete, ℕ_discrete, inl, inr, Bool-cases, arith,
}
use golang_predix.Common.Dict.{Dict, lookup, insert, delete, value_or, value_or-insert}
use golang_predix.Websocket.Sets.{has, put, drop, has-drop, IsOnce, drop-IsOnce}
use golang_predix.Websocket.Hub.{is_none, sweep, shrink}

-- Whether the set of an event has a client.
abbrev pub follows : ℕ → Text → Dict (List ℕ) → Bool
follows c event d = has ℕ_discrete c (value_or [] event d)

abbrev pub HasNot : Text → Dict (List ℕ) → Type 0
HasNot k d = All (λ e. k ≢ e.0) d

-- A set that has a client, and each once.
abbrev pub IsGoodSet : List ℕ → Type 0
IsGoodSet cs = (is_none cs ≡ false) × IsOnce ℕ_discrete cs

-- Each key once, and no empty set.
abbrev pub IsProper : Dict (List ℕ) → Type 0
IsProper [] = Unit
IsProper (e ∷ d) = HasNot e.0 d × IsGoodSet e.1 × IsProper d

insert-HasNot :
    (k j : Text) (cs : List ℕ) (d : Dict (List ℕ)) → k ≢ j → HasNot k d → HasNot k (insert j cs d)
unfolding insert
insert-HasNot k j cs [] ne h = (ne, tt)
insert-HasNot k j cs (e ∷ d) ne h = ground (arith, insert-HasNot k j cs d ne h.1, h.0)

pub insert-IsProper :
    (k : Text) (cs : List ℕ) (d : Dict (List ℕ))
    → IsGoodSet cs
    → IsProper d
    → IsProper (insert k cs d)
unfolding insert
insert-IsProper k cs [] some_left p = (tt, some_left, tt)
insert-IsProper k cs (e ∷ d) some_left p =
    go (insert-IsProper k cs d some_left p.2) (Text-discrete k e.0)
  where
    go :
        IsProper (insert k cs d)
        → (q : Dec (k ≡ e.0)) → IsProper (ite q ((k, cs) ∷ d) (e ∷ insert k cs d))
    go rest (yes same) = (subst (λ x. HasNot x d) (sym same) p.0, some_left, p.2)
    go rest (no differ) = (insert-HasNot e.0 k cs d (λ q. differ (sym q)) p.0, p.1, rest)

delete-HasNot : (k j : Text) (d : Dict (List ℕ)) → HasNot k d → HasNot k (delete j d)
unfolding delete
delete-HasNot k j [] h = tt
delete-HasNot k j (e ∷ d) h = ground (arith, delete-HasNot k j d h.1, h.0)

delete-IsProper : (k : Text) (d : Dict (List ℕ)) → IsProper d → IsProper (delete k d)
unfolding delete
delete-IsProper k [] p = tt
delete-IsProper k (e ∷ d) p = ground (arith, delete-IsProper k d p.2, delete-HasNot e.0 k d p.0)

HasNot-follows : (c : ℕ) (k : Text) (d : Dict (List ℕ)) → HasNot k d → follows c k d ≡ false
unfolding value_or lookup has
HasNot-follows c k [] h = refl
HasNot-follows c k (e ∷ d) h = ground (arith, HasNot-follows c k d h.1, h.0)

follows-delete :
    (c : ℕ) (j k : Text) (d : Dict (List ℕ))
    → IsProper d
    → follows c j (delete k d) ≡ ite (Text-discrete j k) false (follows c j d)
unfolding value_or lookup has delete
follows-delete c j k [] p = ground arith
follows-delete c j k (e ∷ d) p =
    ground (arith, follows-delete c j k d p.2, HasNot-follows c e.0 d p.0)

none_has : (j : ℕ) (cs : List ℕ) → is_none cs ≡ true → has ℕ_discrete j cs ≡ false
unfolding has
none_has j [] h = refl
none_has j (c ∷ cs) h = absurd (ground arith)

sweep-HasNot : (c : ℕ) (k : Text) (d : Dict (List ℕ)) → HasNot k d → HasNot k (sweep c d)
unfolding sweep
sweep-HasNot c k [] h = tt
sweep-HasNot c k (e ∷ d) h = ground (arith, sweep-HasNot c k d h.1, h.0)

pub sweep-IsProper : (c : ℕ) (d : Dict (List ℕ)) → IsProper d → IsProper (sweep c d)
unfolding sweep
sweep-IsProper c [] p = tt
sweep-IsProper c (e ∷ d) p =
    ground
      (arith, drop-IsOnce ℕ_discrete c e.1 p.1.1, sweep-IsProper c d p.2, sweep-HasNot c e.0 d p.0)

pub follows-sweep :
    (j c : ℕ) (event : Text) (d : Dict (List ℕ))
    → IsProper d
    → follows j event (sweep c d) ≡ ite (ℕ_discrete j c) false (follows j event d)
unfolding value_or lookup has sweep
follows-sweep j c event [] p = ground arith
follows-sweep j c event (e ∷ d) p = ground (
  arith,
  follows-sweep j c event d p.2,
  HasNot-follows j e.0 d p.0,
  has-drop ℕ_discrete j c e.1,
  none_has j (drop ℕ_discrete c e.1),
)

pub follows-insert :
    (j : ℕ) (event k : Text) (cs : List ℕ) (d : Dict (List ℕ))
    → follows j event (insert k cs d)
      ≡ ite (Text-discrete event k) (has ℕ_discrete j cs) (follows j event d)
follows-insert j event k cs d = ground (arith, value_or-insert event k cs [] d)

pub follows-shrink :
    (j c : ℕ) (event k : Text) (cs : List ℕ) (d : Dict (List ℕ))
    → IsProper d
    → lookup k d ≡ some cs
    → follows j event (shrink c k cs d)
      ≡ ite
          (Text-discrete event k)
          (ite (ℕ_discrete j c) false (follows j event d))
          (follows j event d)
unfolding shrink value_or
follows-shrink j c event k cs d p there = elim (Bool-cases (is_none (drop ℕ_discrete c cs))) [
  | inl empty ↦ rw empty (
      ground (
        arith,
        follows-delete j event k d p,
        has-drop ℕ_discrete j c cs,
        none_has j (drop ℕ_discrete c cs),
      ))
  | inr left ↦ rw left (
      ground (arith, follows-insert j event k (drop ℕ_discrete c cs) d, has-drop ℕ_discrete j c cs))
]

pub shrink-IsProper :
    (c : ℕ) (k : Text) (cs : List ℕ) (d : Dict (List ℕ))
    → IsOnce ℕ_discrete cs
    → IsProper d
    → IsProper (shrink c k cs d)
unfolding shrink
shrink-IsProper c k cs d once p = elim (Bool-cases (is_none (drop ℕ_discrete c cs))) [
  | inl empty ↦ rw empty (delete-IsProper k d p)
  | inr left ↦
      rw left
        (insert-IsProper k (drop ℕ_discrete c cs) d (left, drop-IsOnce ℕ_discrete c cs once) p)
]

pub put-some : (c : ℕ) (cs : List ℕ) → is_none (put ℕ_discrete c cs) ≡ false
unfolding put
put-some c [] = refl
put-some c (x ∷ cs) = ground arith

value_or-cons :
    (event : Text) (e : Text × List ℕ) (d : Dict (List ℕ))
    → value_or [] event (e ∷ d) ≡ ite (Text-discrete event e.0) e.1 (value_or [] event d)
unfolding value_or lookup
value_or-cons event e d = ground arith

value_or_found :
    (event : Text) (cs : List ℕ) (d : Dict (List ℕ))
    → lookup event d ≡ some cs
    → value_or [] event d ≡ cs
unfolding value_or
value_or_found event cs d e = ground arith

-- The set of an event, also where there is none.
pub IsProper-IsOnce :
    (event : Text) (d : Dict (List ℕ)) → IsProper d → IsOnce ℕ_discrete (value_or [] event d)
unfolding value_or lookup
IsProper-IsOnce event [] p = tt
IsProper-IsOnce event (e ∷ d) p =
    subst (IsOnce ℕ_discrete) (sym (value_or-cons event e d))
      (go (Text-discrete event e.0) (IsProper-IsOnce event d p.2))
  where
    go :
        (q : Dec (event ≡ e.0))
        → IsOnce ℕ_discrete (value_or [] event d)
        → IsOnce ℕ_discrete (ite q e.1 (value_or [] event d))
    go (yes same) rest = p.1.1
    go (no differ) rest = rest

pub found-IsOnce :
    (event : Text) (cs : List ℕ) (d : Dict (List ℕ))
    → IsProper d
    → lookup event d ≡ some cs
    → IsOnce ℕ_discrete cs
found-IsOnce event cs d p e =
    subst (IsOnce ℕ_discrete) (value_or_found event cs d e) (IsProper-IsOnce event d p)
