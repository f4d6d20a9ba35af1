-- ===== src/Common/Bits.antt =====
-- The binary digits of native numbers, high digit first, and `bit_xor` on them.
use Prim.Native.Nat.{
  ℕ, zero, suc, ◌+◌, ◌-◌, ◌*◌, ◌/◌, ◌%◌, ◌≤◌, ◌<◌, bit_xor, bit_xor-bitwise, digits, differ,
}
use mathlib.Core.Path.{◌≡◌, refl, sym, ap, ◌∙◌}
use mathlib.Core.Bool.{Bool, true, false, not}
use mathlib.Core.List.{List, [], ◌∷◌, ◌++◌}
use native.Mathlib.Omega.{arith}
use mx_chain_communication_g.Common.Tests.{◌==◌, if◌then◌else◌}
use mx_chain_communication_g.Common.Lists.{length, length-append}

-- `bit_xor` as the loop that it stands for, in a given number of rounds.
abbrev rounds : ℕ → ℕ → ℕ → ℕ
rounds n x y = digits (λ rest. rest) differ n x y

-- One round more than there are digits in the first number changes nothing.
one_round_more : (n x y : ℕ) → x ≤ n → rounds (suc n) x y ≡ rounds n x y
one_round_more zero zero y enough = refl
one_round_more (suc n) zero y enough = refl
one_round_more (suc n) (suc x) y enough =
    omega (arith, one_round_more n (suc x / 2) (y / 2) (omega arith))
one_round_more zero (suc x) y enough = absurd (omega arith)

-- `k` rounds more than `x`.
abbrev beyond : ℕ → ℕ → ℕ
beyond zero x = x
beyond (suc k) x = suc (beyond k x)

beyond_lem : (k x : ℕ) → beyond k x ≡ x + k
beyond_lem zero x = omega arith
beyond_lem (suc k) x = omega (arith, beyond_lem k x)

more_rounds : (k x y : ℕ) → rounds (beyond k x) x y ≡ rounds x x y
more_rounds zero x y = refl
more_rounds (suc k) x y =
    one_round_more (beyond k x) x y (omega (arith, beyond_lem k x)) ∙ more_rounds k x y

rounds_up_to : (n x y : ℕ) → x ≤ n → rounds n x y ≡ rounds x x y
rounds_up_to n x y enough =
    let same_count : n ≡ beyond (n - x) x = omega (arith, beyond_lem (n - x) x) in
    ap (λ count. rounds count x y) same_count ∙ more_rounds (n - x) x y

-- The low digits differ or not, and the rest is an exclusive or of the halves.
pub bit_xor_step : (x y : ℕ) → bit_xor x y ≡ bit_xor (x / 2) (y / 2) * 2 + differ (x % 2) (y % 2)
bit_xor_step zero y = omega (arith, bit_xor-bitwise 0 y, bit_xor-bitwise 0 (y / 2))
bit_xor_step (suc x) y =
    let halves = rounds_up_to x (suc x / 2) (y / 2) (omega arith) in
    omega (arith, halves, bit_xor-bitwise (suc x) y, bit_xor-bitwise (suc x / 2) (y / 2))

-- The `k` lowest digits, high one first.
abbrev pub bits : ℕ → ℕ → List Bool
bits zero n = []
bits (suc k) n = bits k (n / 2) ++ (n % 2 == 1) ∷ []

abbrev pub unequal : Bool → Bool → Bool
unequal true b = not b
unequal false b = b

-- Two lists of digits, place by place.
abbrev pub differences : List Bool → List Bool → List Bool
differences (a ∷ s) (b ∷ t) = unequal a b ∷ differences s t
differences _ _ = []

-- How many digits are set, how many places differ, and how many places agree at the start.
abbrev pub count_set : List Bool → ℕ
count_set [] = 0
count_set (b ∷ s) = (if b then 1 else 0) + count_set s

abbrev pub hamming : List Bool → List Bool → ℕ
hamming (a ∷ s) (b ∷ t) = (if unequal a b then 1 else 0) + hamming s t
hamming _ _ = 0

abbrev pub common_prefix : List Bool → List Bool → ℕ
common_prefix (a ∷ s) (b ∷ t) = let rest = common_prefix s t in if unequal a b then 0 else suc rest
common_prefix _ _ = 0

abbrev pub unset_prefix : List Bool → ℕ
unset_prefix [] = 0
unset_prefix (b ∷ s) = let rest = unset_prefix s in if b then 0 else suc rest

pub length-bits : (k n : ℕ) → length (bits k n) ≡ k
length-bits zero n = refl
length-bits (suc k) n =
    omega (arith, length-append {0} (bits k (n / 2)) ((n % 2 == 1) ∷ []), length-bits k (n / 2))

differ_digit : (x y : ℕ) → x < 2 → y < 2 → (differ x y == 1) ≡ unequal (x == 1) (y == 1)
differ_digit zero zero h k = refl
differ_digit zero (suc zero) h k = refl
differ_digit (suc zero) zero h k = refl
differ_digit (suc zero) (suc zero) h k = refl
differ_digit (suc (suc x)) y h k = absurd (omega arith)
differ_digit zero (suc (suc y)) h k = absurd (omega arith)
differ_digit (suc zero) (suc (suc y)) h k = absurd (omega arith)

differ_small : (x y : ℕ) → x < 2 → y < 2 → differ x y < 2
differ_small zero y h k = k
differ_small (suc x) zero h k = h
differ_small (suc zero) (suc y) h k = omega arith
differ_small (suc (suc x)) (suc y) h k = absurd (omega arith)

differences-append :
    (s t : List Bool) (a b : Bool)
    → length s ≡ length t
    → differences (s ++ a ∷ []) (t ++ b ∷ []) ≡ differences s t ++ unequal a b ∷ []
differences-append [] [] a b h = refl
differences-append [] (y ∷ t) a b h = absurd (omega arith)
differences-append (x ∷ s) [] a b h = absurd (omega arith)
differences-append (x ∷ s) (y ∷ t) a b h =
    ap (λ l. unequal x y ∷ l) (differences-append s t a b (omega arith))

-- The digits of an exclusive or.
pub bits-bit_xor : (k a b : ℕ) → bits k (bit_xor a b) ≡ differences (bits k a) (bits k b)
bits-bit_xor zero a b = refl
bits-bit_xor (suc k) a b =
    let r = bit_xor a b in
    let half : r / 2 ≡ bit_xor (a / 2) (b / 2) =
      omega (arith, bit_xor_step a b, differ_small (a % 2) (b % 2) (omega arith) (omega arith)) in
    let low : (r % 2 == 1) ≡ unequal (a % 2 == 1) (b % 2 == 1) =
      ap (λ d. d == 1)
        (omega (arith, bit_xor_step a b, differ_small (a % 2) (b % 2) (omega arith) (omega arith)))
      ∙ differ_digit (a % 2) (b % 2) (omega arith) (omega arith) in
    ap (λ n. bits k n ++ (r % 2 == 1) ∷ []) half
    ∙ ap (λ l. l ++ (r % 2 == 1) ∷ []) (bits-bit_xor k (a / 2) (b / 2))
    ∙ ap (λ d. differences (bits k (a / 2)) (bits k (b / 2)) ++ d ∷ []) low
    ∙ sym (
        differences-append (bits k (a / 2)) (bits k (b / 2)) (a % 2 == 1) (b % 2 == 1)
          (omega (arith, length-bits k (a / 2), length-bits k (b / 2))))

pub count_set-differences : (s t : List Bool) → count_set (differences s t) ≡ hamming s t
count_set-differences [] t = refl
count_set-differences (a ∷ s) [] = refl
count_set-differences (a ∷ s) (b ∷ t) = omega (arith, count_set-differences s t)

pub unset_prefix-differences :
    (s t : List Bool) → unset_prefix (differences s t) ≡ common_prefix s t
unset_prefix-differences [] t = refl
unset_prefix-differences (a ∷ s) [] = refl
unset_prefix-differences (a ∷ s) (b ∷ t) = ground (arith, unset_prefix-differences s t)

pub hamming-append :
    (xs ys s t : List Bool)
    → length xs ≡ length ys
    → hamming (xs ++ s) (ys ++ t) ≡ hamming xs ys + hamming s t
hamming-append [] [] s t h = omega arith
hamming-append [] (y ∷ ys) s t h = absurd (omega arith)
hamming-append (x ∷ xs) [] s t h = absurd (omega arith)
hamming-append (x ∷ xs) (y ∷ ys) s t h = omega (arith, hamming-append xs ys s t (omega arith))

pub common_prefix-append :
    (xs ys s t : List Bool)
    → length xs ≡ length ys
    → common_prefix (xs ++ s) (ys ++ t) ≡ (
        if common_prefix xs ys == length xs
        then length xs + common_prefix s t
        else common_prefix xs ys)
common_prefix-append [] [] s t h = ground arith
common_prefix-append [] (y ∷ ys) s t h = absurd (omega arith)
common_prefix-append (x ∷ xs) [] s t h = absurd (omega arith)
common_prefix-append (x ∷ xs) (y ∷ ys) s t h =
    ground (arith, common_prefix-append xs ys s t (omega arith))

-- 2 ^ k.
abbrev pub power : ℕ → ℕ
power zero = 1
power (suc k) = 2 * power k

pub bit_xor-lt-power : (k a b : ℕ) → a < power k → b < power k → bit_xor a b < power k
bit_xor-lt-power zero zero zero h l = omega (arith, bit_xor-bitwise 0 0)
bit_xor-lt-power zero zero (suc b) h l = absurd (omega arith)
bit_xor-lt-power zero (suc a) b h l = absurd (omega arith)
bit_xor-lt-power (suc k) a b h l = omega (
  arith,
  bit_xor_step a b,
  bit_xor-lt-power k (a / 2) (b / 2) (omega arith) (omega arith),
  differ_small (a % 2) (b % 2) (omega arith) (omega arith),
)
