-- ===== src/Common/Keys.antt =====
-- Types whose values the program compares with `==`. A Go string is a sequence of bytes.
use Prim.Native.Nat.{ℕ}
use mathlib.Core.Path.{◌≡◌}
use mathlib.Core.Bool.{Bool, true, false}
use mathlib.Core.List.{List}
use native.Mathlib.Decide.{ℕ_discrete}
use native.Mathlib.Omega.{arith}

abbrev pub Bytes : Type 0
Bytes = List ℕ

unfoldable pub bytes_discrete : Discrete Bytes
bytes_discrete = hlevel ℕ_discrete

pub record Key {ℓ} (K : Type ℓ) : Type ℓ where
  pub decide : Discrete K

instance abbrev pub nat_key : Key ℕ
nat_key = record { decide = ℕ_discrete }

instance abbrev pub bytes_key : Key Bytes
bytes_key = record { decide = bytes_discrete }

abbrev pub same {ℓ} : {K : Type ℓ} ⦃e : Key K⦄ → K → K → Bool
same ⦃e⦄ a b = elim (e.decide a b) [ yes _ ↦ true | no _ ↦ false ]

pub same_refl {ℓ} : {K : Type ℓ} ⦃e : Key K⦄ (a : K) → same a a ≡ true
same_refl a = ground arith

pub same→eq {ℓ} : {K : Type ℓ} ⦃e : Key K⦄ (a b : K) → same a b ≡ true → a ≡ b
same→eq a b h = ground arith
