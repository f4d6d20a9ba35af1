-- ===== src/Ports/Choice.antt =====
-- Which port ports.go chooses.
use mx_chain_communication_g.Common.Int.{ℤ, pos, negsuc}
use mx_chain_communication_g.Common.{
  ℕ, zero, suc, ◌+◌, ◌-◌, ◌≤◌, ◌<◌, ◌≡◌, refl, Bool, true, ◌⊎◌, inl, inr, ltb, ◌==◌, some, List, [],
  ◌∷◌, Bytes, ok, returns, count_by, arith, Bool-cases, Option-cases,
}
use mx_chain_communication_g.Ports.{
  atoi, split, ports_from, min_range_port_value, first_free, choose_port, port_in_range,
  port_of_parts, get_port,
}

-- The shuffle only changes the order.
abbrev pub Shuffles : (List ℕ → List ℕ) → Type 0
Shuffles shuffle = (q : ℕ → Bool) (ports : List ℕ) → count_by q (shuffle ports) ≡ count_by q ports

-- The free ports of a range are counted port by port.
ports_from-counts :
    (q : ℕ → Bool) (start count p : ℕ)
    → q p ≡ true
    → start ≤ p
    → p < start + count
    → 1 ≤ count_by q (ports_from start count)
unfolding ports_from
ports_from-counts q start zero p h le lt = absurd (omega arith)
ports_from-counts q start (suc count) p h le lt = elim (Bool-cases (start == p)) [
  | inl e ↦ ground arith
  | inr e ↦ ground (arith, ports_from-counts q (suc start) count p h (ground arith) (omega arith))
]

ports_from-outside :
    (start count p : ℕ)
    → 1 ≤ count_by (λ q. q == p) (ports_from start count)
    → (start ≤ p) × (p < start + count)
unfolding ports_from
ports_from-outside start zero p h = absurd (omega arith)
ports_from-outside start (suc count) p h = elim (Bool-cases (start == p)) [
  | inl e ↦ (ground arith, ground arith)
  | inr e ↦
      let rest = ports_from-outside (suc start) count p (ground arith) in
      (omega (arith, rest.0), omega (arith, rest.1))
]

module _ (shuffle : List ℕ → List ℕ) (is_free : ℕ → Bool) (slice_limit : ℕ) where
  first_free-count :
      (ports : List ℕ)
      → 1 ≤ count_by is_free ports
      → (p : ℕ) × (first_free shuffle is_free slice_limit true ports ≡ ok p)
  unfolding first_free
  first_free-count [] h = absurd (omega arith)
  first_free-count (q ∷ ports) h = elim (Bool-cases (is_free q)) [
    | inl e ↦ (q, ground arith)
    | inr e ↦ let rest = first_free-count ports (ground arith) in (rest.0, ground (arith, rest.1))
  ]

  first_free_sound :
      (logger : Bool) (ports : List ℕ) (p : ℕ)
      → first_free shuffle is_free slice_limit logger ports ≡ ok p
      → (is_free p ≡ true) × (1 ≤ count_by (λ q. q == p) ports)
  unfolding first_free
  first_free_sound logger [] p h = absurd (ground arith)
  first_free_sound logger (q ∷ ports) p h = elim (Bool-cases (is_free q)) [
    | inl e ↦ (ground arith, ground arith)
    | inr e ↦
        let rest = first_free_sound logger ports p (ground arith) in
        (rest.0, ground (arith, rest.1))
  ]

  -- Where some port of a range that fits a slice is free, a free port of the range is chosen.
  choose_port_free :
      Shuffles shuffle
      → (a b p : ℕ) → suc b - a ≤ slice_limit
      → a ≤ p
      → p ≤ b
      → is_free p ≡ true
      → (q : ℕ) × (choose_port shuffle is_free slice_limit true a b ≡ returns (ok q))
        × (is_free q ≡ true)
        × (a ≤ q)
        × (q ≤ b)
  unfolding choose_port
  choose_port_free s a b p fits le ge free =
      let ports = ports_from a (suc b - a) in
      let some_free = ports_from-counts is_free a (suc b - a) p free le (omega arith) in
      let found = first_free-count (shuffle ports) (omega (arith, some_free, s is_free ports)) in
      let good = first_free_sound true (shuffle ports) found.0 found.1 in
      let inside =
        ports_from-outside a (suc b - a) found.0
          (omega (arith, good.1, s (λ q. q == found.0) ports)) in
      (found.0, ground (arith, found.1), good.0, inside.0, omega (arith, inside.1))

  -- A number of the range is chosen only when it is free.
  pub choose_port_sound :
      Shuffles shuffle
      → (logger : Bool) (a b p : ℕ) → a ≤ b
      → choose_port shuffle is_free slice_limit logger a b ≡ returns (ok p)
      → (is_free p ≡ true) × (a ≤ p) × (p ≤ b)
  unfolding choose_port
  choose_port_sound s logger a b p le h = elim (Bool-cases logger) [
    | inr e ↦ absurd (ground arith)
    | inl e ↦ elim (Bool-cases (ltb slice_limit (suc b - a))) [
      | inl k ↦ absurd (ground arith)
      | inr k ↦
          let ports = ports_from a (suc b - a) in
          let good = first_free_sound logger (shuffle ports) p (ground arith) in
          let inside =
            ports_from-outside a (suc b - a) p (omega (arith, good.1, s (λ q. q == p) ports)) in
          (good.0, inside.0, omega (arith, inside.1))
    ]
  ]

  -- What a range gives.
  abbrev pub IsChosen : ℤ → ℤ → ℕ → Type 0
  IsChosen x y p =
      (a : ℕ) × (b : ℕ) × (x ≡ pos a)
      × (y ≡ pos b)
      × (min_range_port_value ≤ a)
      × (a ≤ p)
      × (p ≤ b)
      × (is_free p ≡ true)

  port_in_range_sound :
      Shuffles shuffle
      → (logger : Bool) (x y : ℤ) (p : ℕ)
      → port_in_range shuffle is_free slice_limit logger x y ≡ returns (ok p)
      → IsChosen x y p
  unfolding port_in_range
  port_in_range_sound s logger (negsuc a) y p h = absurd (ground arith)
  port_in_range_sound s logger (pos a) (negsuc b) p h =
      elim (Bool-cases (ltb a min_range_port_value)) [
        | inl e ↦ absurd (ground arith)
        | inr e ↦ absurd (ground arith)
      ]
  port_in_range_sound s logger (pos a) (pos b) p h =
      elim (Bool-cases (ltb a min_range_port_value)) [
        | inl e ↦ absurd (ground arith)
        | inr e ↦ elim (Bool-cases (ltb b a)) [
          | inl k ↦ absurd (ground arith)
          | inr k ↦
              let good = choose_port_sound s logger a b p (ground arith) (ground arith) in
              (a, b, refl, refl, ground arith, good.1, good.2, good.0)
        ]
      ]

  port_of_parts_sound :
      Shuffles shuffle
      → (logger : Bool) (parts : List Bytes) (p : ℕ)
      → port_of_parts shuffle is_free slice_limit logger parts ≡ returns (ok p)
      → (first : Bytes) × (second : Bytes) × (x : ℤ) × (y : ℤ) × (parts ≡ first ∷ second ∷ [])
        × (atoi first ≡ some x)
        × (atoi second ≡ some y)
        × IsChosen x y p
  unfolding port_of_parts
  port_of_parts_sound s logger [] p h = absurd (ground arith)
  port_of_parts_sound s logger (f ∷ []) p h = absurd (ground arith)
  port_of_parts_sound s logger (f ∷ g ∷ t ∷ parts) p h = absurd (ground arith)
  port_of_parts_sound s logger (f ∷ g ∷ []) p h = elim (Option-cases (atoi f)) [
    | inl e ↦ absurd (ground arith)
    | inr (x, e) ↦ elim (Option-cases (atoi g)) [
      | inl k ↦ absurd (ground arith)
      | inr (y, k) ↦ (f, g, x, y, refl, e, k, port_in_range_sound s logger x y p (ground arith))
    ]
  ]

  -- A port that `getPort` returns is the number that the text is, which is not negative, or the text is
  -- two numbers with a `-` between them and the port is a free one of that range, which starts at 1025
  -- or above.
  pub get_port_sound :
      Shuffles shuffle
      → (logger : Bool) (port : Bytes) (p : ℕ)
      → get_port shuffle is_free slice_limit logger port ≡ returns (ok p)
      → (atoi port ≡ some (pos p))
        ⊎ ((first : Bytes) × (second : Bytes) × (x : ℤ) × (y : ℤ) × (split 45 port
              ≡ first ∷ second ∷ [])
            × (atoi first ≡ some x)
            × (atoi second ≡ some y)
            × IsChosen x y p)
  unfolding get_port
  get_port_sound s logger port p h = elim (Option-cases (atoi port)) [
    | inl e ↦ inr (port_of_parts_sound s logger (split 45 port) p (ground arith))
    | inr (pos n, e) ↦ inl (ground arith)
    | inr (negsuc n, e) ↦ absurd (ground arith)
  ]
