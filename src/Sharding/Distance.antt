-- ===== src/Sharding/Distance.antt =====
-- The distances of p2p/libp2p/networksharding/listsSharder.go between two peers: differing bits, and
-- the place of the highest differing bit. `convert` is `kbucket.ConvertPeerID`, which gives the same
-- number of bytes for every peer; the loops stop where one of the two buffers ends.
use Prim.Native.Nat.{bit_xor}
use mx_chain_communication_g.Common.Bits.{
  bits, count_set, hamming, common_prefix, unset_prefix, length-bits, bits-bit_xor,
  count_set-differences, unset_prefix-differences, hamming-append, common_prefix-append,
  bit_xor-lt-power,
}
use mx_chain_communication_g.Common.{
  Bool-cases, inl, inr, false, ℕ, zero, suc, ◌+◌, ◌-◌, ◌*◌, ◌/◌, ◌%◌, ◌<◌, ◌≡◌, refl, sym, ap, ◌∙◌,
  Bool, true, none, some, List, [], ◌∷◌, ◌++◌, Bytes, get_elem?, length, length-append, ◌==◌,
  if◌then◌else◌, All, inl, inr, arith, leb,
}

abbrev repeat : ℕ → ℕ → List ℕ
repeat zero x = []
repeat (suc n) x = x ∷ repeat n x

-- `leadingZerosCount`.
unfoldable pub leading_zeros_count : List ℕ
leading_zeros_count =
    8 ∷ 7 ∷ 6 ∷ 6 ∷ repeat 4 5
    ++ (repeat 8 4 ++ (repeat 16 3 ++ (repeat 32 2 ++ (repeat 64 1 ++ repeat 128 0))))

-- An entry of the table; a byte is never out of range.
unfoldable pub leading_zeros : ℕ → ℕ
unfolding leading_zeros_count
leading_zeros byte = elim (get_elem? leading_zeros_count byte) [ none ↦ 0 | some n ↦ n ]

-- `bits.OnesCount8`.
unfoldable pub ones_count8 : ℕ → ℕ
ones_count8 byte =
    byte % 2
    + byte / 2 % 2
    + byte / 4 % 2
    + byte / 8 % 2
    + byte / 16 % 2
    + byte / 32 % 2
    + byte / 64 % 2
    + byte / 128 % 2

unfoldable pub cumulate_bits : Bytes → Bytes → ℕ
cumulate_bits (a ∷ src) (b ∷ dest) = ones_count8 (bit_xor a b) + cumulate_bits src dest
cumulate_bits _ _ = 0

unfoldable pub cumulate_zeros : Bytes → Bytes → ℕ
cumulate_zeros (a ∷ src) (b ∷ dest) =
    let rest = cumulate_zeros src dest in
    if bit_xor a b == 0 then leading_zeros (bit_xor a b) + rest else leading_zeros (bit_xor a b)
cumulate_zeros _ _ = 0

module _ (convert : Bytes → Bytes) where
  unfoldable pub compute_distance_by_counting_bits : Bytes → Bytes → ℕ
  compute_distance_by_counting_bits src dest = cumulate_bits (convert src) (convert dest)

  unfoldable pub compute_distance_log2_based : Bytes → Bytes → ℕ
  compute_distance_log2_based src dest =
      length (convert src) * 8 - cumulate_zeros (convert src) (convert dest)

-- The bits of a buffer, the high one of the first byte first.
unfoldable pub bits_of : Bytes → List Bool
bits_of [] = []
bits_of (b ∷ bytes) = bits 8 b ++ bits_of bytes

-- A test of each number below a bound.
passes : (ℕ → Bool) → ℕ → Bool
passes test zero = true
passes test (suc bound) = if test bound then passes test bound else false

passes_each : (test : ℕ → Bool) (bound r : ℕ) → passes test bound ≡ true → r < bound → test r ≡ true
unfolding passes
passes_each test zero r h below = absurd (omega arith)
passes_each test (suc bound) r h below = elim (Bool-cases (test bound)) [
  | inr fails ↦ absurd (ground arith)
  | inl good ↦ ground (arith, passes_each test bound r)
]

abbrev zeros_match : ℕ → Bool
zeros_match r = leading_zeros r == unset_prefix (bits 8 r)

abbrev zero_matches : ℕ → Bool
zero_matches r = if r == 0 then unset_prefix (bits 8 r) == 8 else leb (unset_prefix (bits 8 r)) 7

abbrev ones_match : ℕ → Bool
ones_match r = ones_count8 r == count_set (bits 8 r)

zeros_table : passes zeros_match 256 ≡ true
unfolding passes leading_zeros
zeros_table = refl

zero_table : passes zero_matches 256 ≡ true
unfolding passes
zero_table = refl

ones_table : passes ones_match 256 ≡ true
unfolding passes ones_count8
ones_table = refl

abbrev pub AreBytes : Bytes → Type 0
AreBytes bytes = All (λ (b : ℕ). b < 256) bytes

ones_count8-bits : (r : ℕ) → r < 256 → ones_count8 r ≡ count_set (bits 8 r)
ones_count8-bits r h = ground (arith, passes_each ones_match 256 r ones_table h)

leading_zeros-bits : (r : ℕ) → r < 256 → leading_zeros r ≡ unset_prefix (bits 8 r)
leading_zeros-bits r h = ground (arith, passes_each zeros_match 256 r zeros_table h)

-- All eight digits are unset exactly in the byte 0.
unset_prefix-zero : (r : ℕ) → r < 256 → (r == 0) ≡ (unset_prefix (bits 8 r) == 8)
unset_prefix-zero r h = ground (arith, passes_each zero_matches 256 r zero_table h)

unset_prefix-bit_xor :
    (a b : ℕ) → unset_prefix (bits 8 (bit_xor a b)) ≡ common_prefix (bits 8 a) (bits 8 b)
unset_prefix-bit_xor a b =
    ap unset_prefix (bits-bit_xor 8 a b) ∙ unset_prefix-differences (bits 8 a) (bits 8 b)

pub length-bits_of : (bytes : Bytes) → length (bits_of bytes) ≡ 8 * length bytes
unfolding bits_of
length-bits_of [] = refl
length-bits_of (b ∷ bytes) =
    omega
      (arith, length-bits_of bytes, length-append {0} (bits 8 b) (bits_of bytes), length-bits 8 b)

cumulate_bits-hamming :
    (src dest : Bytes)
    → AreBytes src
    → AreBytes dest
    → length src ≡ length dest
    → cumulate_bits src dest ≡ hamming (bits_of src) (bits_of dest)
unfolding cumulate_bits bits_of
cumulate_bits-hamming [] [] h k e = refl
cumulate_bits-hamming [] (b ∷ dest) h k e = absurd (omega arith)
cumulate_bits-hamming (a ∷ src) [] h k e = absurd (omega arith)
cumulate_bits-hamming (a ∷ src) (b ∷ dest) h k e =
    let digits : count_set (bits 8 (bit_xor a b)) ≡ hamming (bits 8 a) (bits 8 b) =
      ap count_set (bits-bit_xor 8 a b) ∙ count_set-differences (bits 8 a) (bits 8 b) in
    omega (
      arith,
      digits,
      ones_count8-bits (bit_xor a b) (bit_xor-lt-power 8 a b h.0 k.0),
      cumulate_bits-hamming src dest h.1 k.1 (omega arith),
      hamming-append (bits 8 a) (bits 8 b) (bits_of src) (bits_of dest)
          (omega (arith, length-bits 8 a, length-bits 8 b)),
    )

-- A byte of the log2 loop: a count of 8 lets the next byte add to it.
zeros_of_byte :
    (r l c n rest : ℕ)
    → l ≡ c
    → (r == 0) ≡ (c == 8)
    → n ≡ 8
    → (if r == 0 then l + rest else l) ≡ (if c == n then n + rest else c)
zeros_of_byte r l c n rest h k e = ground arith

cumulate_zeros-common_prefix :
    (src dest : Bytes)
    → AreBytes src
    → AreBytes dest
    → length src ≡ length dest
    → cumulate_zeros src dest ≡ common_prefix (bits_of src) (bits_of dest)
unfolding cumulate_zeros bits_of
cumulate_zeros-common_prefix [] [] h k e = refl
cumulate_zeros-common_prefix [] (b ∷ dest) h k e = absurd (omega arith)
cumulate_zeros-common_prefix (a ∷ src) [] h k e = absurd (omega arith)
cumulate_zeros-common_prefix (a ∷ src) (b ∷ dest) h k e =
    let r = bit_xor a b in
    let small : r < 256 = bit_xor-lt-power 8 a b h.0 k.0 in
    let x = bits 8 a in
    let y = bits 8 b in
    let next = common_prefix (bits_of src) (bits_of dest) in
    ap (λ rest. if r == 0 then leading_zeros r + rest else leading_zeros r)
      (cumulate_zeros-common_prefix src dest h.1 k.1 (omega arith))
    ∙ zeros_of_byte r (leading_zeros r) (common_prefix x y) (length x) next
        (leading_zeros-bits r small ∙ unset_prefix-bit_xor a b)
        (unset_prefix-zero r small ∙ ap (λ (c : ℕ). c == 8) (unset_prefix-bit_xor a b))
        (length-bits 8 a)
    ∙ sym (
        common_prefix-append x y (bits_of src) (bits_of dest)
          (omega (arith, length-bits 8 a, length-bits 8 b)))

module _ (convert : Bytes → Bytes) where
  -- When the identifiers of two peers are converted to equally many bytes, the distance by counting
  -- bits is the number of places in which their binary digits differ, and the distance based on the
  -- logarithm is the number of digits less the length of their longest common prefix.
  pub compute_distance_reference :
      (src dest : Bytes)
      → AreBytes (convert src)
      → AreBytes (convert dest)
      → length (convert src) ≡ length (convert dest)
      → (compute_distance_by_counting_bits convert src dest
          ≡ hamming (bits_of (convert src)) (bits_of (convert dest)))
        × (compute_distance_log2_based convert src dest
            ≡ length (bits_of (convert src))
              - common_prefix (bits_of (convert src)) (bits_of (convert dest)))
  unfolding compute_distance_by_counting_bits compute_distance_log2_based
  compute_distance_reference src dest h k e = (
    cumulate_bits-hamming (convert src) (convert dest) h k e,
    omega (
      arith,
      length-bits_of (convert src),
      cumulate_zeros-common_prefix (convert src) (convert dest) h k e,
    ),
  )
