-- ===== src/Common/Dict.antt =====
-- A Go map from strings, as an association list with at most one entry for each key.
use golang_predix.Common.Bytes.{Text, Text-discrete}
use mathlib.Core.Path.{◌≡◌}
use mathlib.Core.Logic.{ite, ◌≢◌}
use mathlib.Core.Bool.{Bool, true, false}
use mathlib.Core.List.{List, [], ◌∷◌}
use mathlib.Core.Option.{Option, none, some}
use native.Mathlib.Omega.{arith}

abbrev pub Dict {ℓ} : Type ℓ → Type ℓ
Dict V = List (Text × V)

module _ {ℓ} {V : Type ℓ} where
  unfoldable pub lookup : Text → Dict V → Option V
  lookup k [] = none
  lookup k (e ∷ d) = ite (Text-discrete k e.0) (some e.1) (lookup k d)

  -- `_, exists := m[k]`
  unfoldable pub contains : Text → Dict V → Bool
  contains k d = elim (lookup k d) [ none ↦ false | some _ ↦ true ]

  -- `m[k] = v`
  unfoldable pub insert : Text → V → Dict V → Dict V
  insert k v [] = (k, v) ∷ []
  insert k v (e ∷ d) = ite (Text-discrete k e.0) ((k, v) ∷ d) (e ∷ insert k v d)

  -- `delete(m, k)`
  unfoldable pub delete : Text → Dict V → Dict V
  delete k [] = []
  delete k (e ∷ d) = ite (Text-discrete k e.0) d (e ∷ delete k d)

  -- The value at a key, or what a missing key stands for.
  unfoldable pub value_or : V → Text → Dict V → V
  value_or v k d = elim (lookup k d) [ none ↦ v | some w ↦ w ]

  pub lookup-insert :
      (j k : Text) (v : V) (d : Dict V)
      → lookup j (insert k v d) ≡ ite (Text-discrete j k) (some v) (lookup j d)
  unfolding lookup insert
  lookup-insert j k v [] = ground arith
  lookup-insert j k v (e ∷ d) = ground (arith, lookup-insert j k v d)

  pub lookup-insert_self : (k : Text) (v : V) (d : Dict V) → lookup k (insert k v d) ≡ some v
  lookup-insert_self k v d = ground (arith, lookup-insert k k v d)

  pub lookup-insert_ne :
      (j k : Text) (v : V) (d : Dict V) → j ≢ k → lookup j (insert k v d) ≡ lookup j d
  lookup-insert_ne j k v d h = ground (arith, lookup-insert j k v d)

  pub value_or-insert :
      (j k : Text) (v w : V) (d : Dict V)
      → value_or w j (insert k v d) ≡ ite (Text-discrete j k) v (value_or w j d)
  unfolding value_or
  value_or-insert j k v w d = ground (arith, lookup-insert j k v d)

  pub contains-insert_self : (k : Text) (v : V) (d : Dict V) → contains k (insert k v d) ≡ true
  unfolding contains
  contains-insert_self k v d = rw (lookup-insert_self k v d, contains)
