-- ===== src/Common/Panics.antt =====
-- Code that may panic: a slice expression or an index out of range ends the call with no value.
use Prim.Native.Nat.{ℕ, zero, suc, ◌+◌, ◌<◌}
use mathlib.Core.Path.{◌≡◌}
use mathlib.Core.List.{List, [], ◌∷◌}
use native.Mathlib.Omega.{arith}
use mx_chain_communication_g.Common.Tests.{ltb, if◌then◌else◌}
use mx_chain_communication_g.Common.Lists.{length, get_elem?}

pub data Outcome {ℓ} (A : Type ℓ) : Type ℓ where
  returns : A → Outcome A
  panics : Outcome A

infixl 5 ◌>>=◌
abbrev pub ◌>>=◌ {ℓ κ} : {A : Type ℓ} {B : Type κ} → Outcome A → (A → Outcome B) → Outcome B
returns a >>= f = f a
panics >>= f = panics

module _ {ℓ} {A : Type ℓ} where
  -- `append(s[:i], s[i+1:]...)`, which panics unless `i` is an index of `s`.
  unfoldable pub cut : List A → ℕ → Outcome (List A)
  cut [] i = panics
  cut (x ∷ xs) zero = returns xs
  cut (x ∷ xs) (suc i) = do rest ← cut xs i; returns (x ∷ rest)

  -- The list without its `i`-th element.
  unfoldable pub remove_at : List A → ℕ → List A
  remove_at [] i = []
  remove_at (x ∷ xs) zero = xs
  remove_at (x ∷ xs) (suc i) = x ∷ remove_at xs i

  pub cut_lem :
      (xs : List A) (i : ℕ)
      → cut xs i ≡ (if ltb i (length xs) then returns (remove_at xs i) else panics)
  unfolding cut remove_at
  cut_lem [] i = ground arith
  cut_lem (x ∷ xs) zero = ground arith
  cut_lem (x ∷ xs) (suc i) = ground (arith, cut_lem xs i)

  pub length-remove_at :
      (xs : List A) (i : ℕ) → i < length xs → length (remove_at xs i) + 1 ≡ length xs
  unfolding remove_at
  length-remove_at [] i h = absurd (omega arith)
  length-remove_at (x ∷ xs) zero h = omega arith
  length-remove_at (x ∷ xs) (suc i) h = omega (arith, length-remove_at xs i)

  -- Below the cut nothing moves, and from it on the elements move down by one place.
  pub get_elem?-remove_at :
      (xs : List A) (i j : ℕ)
      → get_elem? (remove_at xs i) j ≡ (if ltb j i then get_elem? xs j else get_elem? xs (suc j))
  unfolding remove_at
  get_elem?-remove_at [] i j = ground arith
  get_elem?-remove_at (x ∷ xs) zero j = ground arith
  get_elem?-remove_at (x ∷ xs) (suc i) zero = ground arith
  get_elem?-remove_at (x ∷ xs) (suc i) (suc j) = ground (arith, get_elem?-remove_at xs i j)
