-- ===== src/Ports/Text.antt =====
-- The text of ports.go: a number or a range, written and read again.
use mx_chain_communication_g.Common.Int.{ℤ, pos}
use mx_chain_communication_g.Common.{
  ℕ, ◌^◌, ◌≤◌, ◌<◌, ◌≡◌, refl, ap, subst, Bool, false, Option, none, some, List, [], ◌∷◌, ◌++◌,
  Bytes, arith, decimal, parse_digits, parse_digits-append, parse_digits-decimal, AreDigits,
  decimal-AreDigits, decimal_cons, ok, err, returns, ltb, if◌then◌else◌,
}
use mx_chain_communication_g.Errors.{invalid_value, end_port_is_smaller_than_start_port}
use mx_chain_communication_g.Ports.{
  parse_number, read_sign, signed, atoi, split, choose_port, port_in_range, port_of_parts, get_port,
}

atoi-digits :
    (c : ℕ) (s : Bytes)
    → 48 ≤ c
    → atoi (c ∷ s)
      ≡ elim (parse_digits 0 (c ∷ s)) as (λ _. Option ℤ) [ none ↦ none | some n ↦ signed false n ]
unfolding atoi read_sign parse_number
atoi-digits c s h = ground arith

atoi-decimal : (n : ℕ) → n < 2 ^ 63 → atoi (decimal n) ≡ some (pos n)
unfolding signed
atoi-decimal n h =
    let shape = decimal_cons n in
    let digits = decimal-AreDigits n in
    let first : 48 ≤ shape.0 = (subst AreDigits shape.2 digits).0 in
    ground (arith, shape.2, atoi-digits shape.0 shape.1 first, parse_digits-decimal n)

atoi-dash : (n : ℕ) (t : Bytes) → atoi (decimal n ++ 45 ∷ t) ≡ none
unfolding parse_digits
atoi-dash n t =
    let shape = decimal_cons n in
    let digits = decimal-AreDigits n in
    let first : 48 ≤ shape.0 = (subst AreDigits shape.2 digits).0 in
    let same_text : decimal n ++ 45 ∷ t ≡ shape.0 ∷ (shape.1 ++ 45 ∷ t) =
      ap (λ l. l ++ 45 ∷ t) shape.2 in
    ground (
      arith,
      same_text,
      atoi-digits shape.0 (shape.1 ++ 45 ∷ t) first,
      parse_digits-append 0 (decimal n) (45 ∷ t),
      parse_digits-decimal n,
    )

split_last : (t : Bytes) → AreDigits t → split 45 t ≡ t ∷ []
unfolding split
split_last [] h = refl
split_last (c ∷ t) h = ground (arith, split_last t h.1, h.0)

split-dash : (s t : Bytes) → AreDigits s → AreDigits t → split 45 (s ++ 45 ∷ t) ≡ s ∷ t ∷ []
unfolding split
split-dash [] t h k = ground (arith, split_last t k)
split-dash (c ∷ s) t h k = ground (arith, split-dash s t h.1 k, h.0)

module _ (shuffle : List ℕ → List ℕ) (is_free : ℕ → Bool) (slice_limit : ℕ)
    (has_logger : Bool) where
  -- The text of a number below 2 ^ 63 gives that number. The text of two such numbers with a `-` between
  -- them is refused when the first is below 1025, then when the second is below the first, and gives
  -- otherwise the choice of a port between them.
  pub get_port-decimal :
      (a b : ℕ)
      → a < 2 ^ 63
      → b < 2 ^ 63
      → (get_port shuffle is_free slice_limit has_logger (decimal a) ≡ returns (ok a))
        × (get_port shuffle is_free slice_limit has_logger (decimal a ++ 45 ∷ decimal b) ≡ (
            if ltb a 1025
            then returns (err invalid_value)
            else if ltb b a
            then returns (err end_port_is_smaller_than_start_port)
            else choose_port shuffle is_free slice_limit has_logger a b))
  unfolding get_port port_of_parts port_in_range
  get_port-decimal a b small_a small_b =
      let read_a = atoi-decimal a small_a in
      let read_b = atoi-decimal b small_b in
      (
        ground (arith, read_a),
        ground (
          arith,
          atoi-dash a (decimal b),
          split-dash (decimal a) (decimal b) (decimal-AreDigits a) (decimal-AreDigits b),
          read_a,
          read_b,
        ),
      )
