-- ===== src/Common/Bytes.antt =====
-- A Go string is a sequence of bytes: a list of numbers, each below 256.
use Prim.Native.Char.{code}
use Prim.Native.Nat.{ℕ}
use Prim.Native.String.{String}
use mathlib.Core.Path.{◌≡◌, refl}
use mathlib.Core.List.{List, [], ◌∷◌}
use native.Mathlib.Decide.{ℕ_discrete}

abbrev pub Text : Type 0
Text = List ℕ

-- A literal of the source, byte by byte; all of them are ASCII.
abbrev pub codes : String → Text
codes String.[] = []
codes (String.◌∷◌ c s) = code c ∷ codes s

heads : (x y : ℕ) (s t : Text) → Dec (x ≡ y) → Dec (s ≡ t) → Dec ((x ∷ s) ≡ (y ∷ t))
heads x y s t (yes p) (yes q) = yes (λ i. p i ∷ q i)
heads x y s t (yes p) (no q) = no (λ e. q (cc))
heads x y s t (no p) _ = no (λ e. p (cc))

unfoldable pub Text-discrete : Discrete Text
unfolding heads ℕ_discrete
Text-discrete [] [] = yes refl
Text-discrete [] (y ∷ t) = no (λ e. cc)
Text-discrete (x ∷ s) [] = no (λ e. cc)
Text-discrete (x ∷ s) (y ∷ t) = heads x y s t (ℕ_discrete x y) (Text-discrete s t)
