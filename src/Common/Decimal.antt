-- ===== src/Common/Decimal.antt =====
-- Numbers as decimal text, and the text read again.
use Prim.Native.Nat.{ℕ, zero, suc, ◌+◌, ◌-◌, ◌*◌, ◌/◌, ◌%◌, ◌≤◌, ◌<◌}
use mathlib.Core.Path.{◌≡◌, refl, sym, subst}
use mathlib.Core.Bool.{Bool, ◌&&◌}
use mathlib.Core.Option.{Option, none, some}
use mathlib.Core.List.{[], ◌∷◌, ◌++◌}
use native.Mathlib.Omega.{arith}
use mx_chain_communication_g.Common.Keys.{Bytes}
use mx_chain_communication_g.Common.Tests.{ltb, leb, if◌then◌else◌, Bool-cases}
use mathlib.Core.Logic.{inl, inr}
use mx_chain_communication_g.Common.Lists.{All}

-- The decimal digits of a number, as "%d" prints them; a number has fewer digits than itself and one.
unfoldable pub digits_from : ℕ → ℕ → Bytes
digits_from zero n = []
digits_from (suc fuel) n =
    let rest = digits_from fuel (n / 10) in
    if ltb n 10 then (48 + n) ∷ [] else rest ++ (48 + n % 10) ∷ []

unfoldable pub decimal : ℕ → Bytes
decimal n = digits_from (suc n) n

-- The value of decimal digits after those that make up `value`; `none` for another byte.
unfoldable pub parse_digits : ℕ → Bytes → Option ℕ
parse_digits value [] = some value
parse_digits value (c ∷ s) =
    if leb 48 c && leb c 57 then parse_digits (value * 10 + (c - 48)) s else none

pub parse_digits-append :
    (v : ℕ) (s t : Bytes)
    → parse_digits v (s ++ t)
      ≡ elim (parse_digits v s) as (λ _. Option ℕ) [ none ↦ none | some w ↦ parse_digits w t ]
unfolding parse_digits
parse_digits-append v [] t = refl
parse_digits-append v (c ∷ s) t = ground (arith, parse_digits-append (v * 10 + (c - 48)) s t)

parse_digits-digits_from : (fuel n : ℕ) → n < fuel → parse_digits 0 (digits_from fuel n) ≡ some n
unfolding parse_digits digits_from
parse_digits-digits_from zero n h = absurd (omega arith)
parse_digits-digits_from (suc fuel) n h = elim (Bool-cases (ltb n 10)) [
  | inl e ↦ ground arith
  | inr e ↦ ground (
    arith,
    parse_digits-digits_from fuel (n / 10) (ground arith),
    parse_digits-append 0 (digits_from fuel (n / 10)) ((48 + n % 10) ∷ []),
  )
]

-- No byte of the text is below the digits, as a sign is.
abbrev pub AreDigits : Bytes → Type 0
AreDigits s = All (λ (c : ℕ). 48 ≤ c) s

AreDigits-append : (s : Bytes) (c : ℕ) → AreDigits s → 48 ≤ c → AreDigits (s ++ c ∷ [])
AreDigits-append [] c h le = (le, tt)
AreDigits-append (b ∷ s) c h le = (h.0, AreDigits-append s c h.1 le)

digits_from-AreDigits : (fuel n : ℕ) → AreDigits (digits_from fuel n)
unfolding digits_from
digits_from-AreDigits zero n = tt
digits_from-AreDigits (suc fuel) n = elim (Bool-cases (ltb n 10)) [
  | inl e ↦
      subst
        (λ (b : Bool).
          AreDigits (if b then (48 + n) ∷ [] else digits_from fuel (n / 10) ++ (48 + n % 10) ∷ []))
        (sym e) (omega arith, tt)
  | inr e ↦
      subst
        (λ (b : Bool).
          AreDigits (if b then (48 + n) ∷ [] else digits_from fuel (n / 10) ++ (48 + n % 10) ∷ []))
        (sym e)
        (AreDigits-append (digits_from fuel (n / 10)) (48 + n % 10)
          (digits_from-AreDigits fuel (n / 10)) (omega arith))
]

pub parse_digits-decimal : (n : ℕ) → parse_digits 0 (decimal n) ≡ some n
unfolding decimal
parse_digits-decimal n = parse_digits-digits_from (suc n) n (omega arith)

pub decimal-AreDigits : (n : ℕ) → AreDigits (decimal n)
unfolding decimal
decimal-AreDigits n = digits_from-AreDigits (suc n) n

cons-append : (s : Bytes) (c : ℕ) → (b : ℕ) × (t : Bytes) × (s ++ c ∷ [] ≡ b ∷ t)
cons-append [] c = (c, [], refl)
cons-append (b ∷ s) c = (b, s ++ c ∷ [], refl)

-- The text of a number is not empty.
pub decimal_cons : (n : ℕ) → (b : ℕ) × (t : Bytes) × (decimal n ≡ b ∷ t)
unfolding decimal digits_from
decimal_cons n = elim (Bool-cases (ltb n 10)) [
  | inl e ↦ (48 + n, [], ground arith)
  | inr e ↦
      let rest = cons-append (digits_from n (n / 10)) (48 + n % 10) in
      (rest.0, rest.1, ground (arith, rest.2))
]
