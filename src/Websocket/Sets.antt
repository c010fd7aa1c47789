-- ===== src/Websocket/Sets.antt =====
-- A Go `map[K]struct{}`, as a list that has each key at most once.
use golang_predix.Common.{◌≡◌, refl, sym, Bool, true, false, List, [], ◌∷◌, ite, All, ◌≢◌, arith}

module _ {A : Type 0} (eq : Discrete A) where
  -- `_, ok := m[k]`
  unfoldable pub has : A → List A → Bool
  has k [] = false
  has k (x ∷ xs) = ite (eq k x) true (has k xs)

  -- `m[k] = struct{}{}`
  unfoldable pub put : A → List A → List A
  put k [] = k ∷ []
  put k (x ∷ xs) = ite (eq k x) (x ∷ xs) (x ∷ put k xs)

  -- `delete(m, k)`
  unfoldable pub drop : A → List A → List A
  drop k [] = []
  drop k (x ∷ xs) = ite (eq k x) (drop k xs) (x ∷ drop k xs)

  pub has-put : (j k : A) (xs : List A) → has j (put k xs) ≡ ite (eq j k) true (has j xs)
  unfolding has put
  has-put j k [] = refl
  has-put j k (x ∷ xs) = ground (arith, has-put j k xs)

  pub has-drop : (j k : A) (xs : List A) → has j (drop k xs) ≡ ite (eq j k) false (has j xs)
  unfolding has drop
  has-drop j k [] = ground arith
  has-drop j k (x ∷ xs) = ground (arith, has-drop j k xs)

  -- Each key once.
  abbrev pub IsOnce : List A → Type 0
  IsOnce [] = Unit
  IsOnce (x ∷ xs) = All (λ y. x ≢ y) xs × IsOnce xs

  put-other : (x k : A) (xs : List A) → x ≢ k → All (λ y. x ≢ y) xs → All (λ y. x ≢ y) (put k xs)
  unfolding put
  put-other x k [] ne h = (ne, tt)
  put-other x k (y ∷ xs) ne h = ground (arith, put-other x k xs ne h.1, h.0)

  pub put-IsOnce : (k : A) (xs : List A) → IsOnce xs → IsOnce (put k xs)
  unfolding put
  put-IsOnce k [] h = (tt, tt)
  put-IsOnce k (x ∷ xs) h = go (put-IsOnce k xs h.1) (eq k x)
    where
      go : IsOnce (put k xs) → (q : Dec (k ≡ x)) → IsOnce (ite q (x ∷ xs) (x ∷ put k xs))
      go rest (yes same) = h
      go rest (no differ) = (put-other x k xs (λ q. differ (sym q)) h.0, rest)

  drop-other : (x k : A) (xs : List A) → All (λ y. x ≢ y) xs → All (λ y. x ≢ y) (drop k xs)
  unfolding drop
  drop-other x k [] h = tt
  drop-other x k (y ∷ xs) h = ground (arith, drop-other x k xs h.1, h.0)

  pub drop-IsOnce : (k : A) (xs : List A) → IsOnce xs → IsOnce (drop k xs)
  unfolding drop
  drop-IsOnce k [] h = tt
  drop-IsOnce k (x ∷ xs) h = ground (arith, drop-IsOnce k xs h.1, drop-other x k xs h.0)

  pub has_not : (k : A) (xs : List A) → All (λ y. k ≢ y) xs → has k xs ≡ false
  unfolding has
  has_not k [] h = refl
  has_not k (x ∷ xs) h = ground (arith, has_not k xs h.1, h.0)
