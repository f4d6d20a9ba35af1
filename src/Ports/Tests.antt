-- ===== src/Ports/Tests.antt =====
-- Runs of the choice of a port, and the theorems at concrete inputs.
use mx_chain_communication_g.Common.Int.{ℤ, pos}
use mx_chain_communication_g.Common.{
  ℕ, ◌≡◌, refl, returns, panics, ◌⊎◌, Bool, true, not, ◌==◌, some, List, [], ◌∷◌, ◌++◌, Bytes, ok,
  err, digits_from, decimal, parse_digits, arith,
}
use mx_chain_communication_g.Errors.{
  invalid_port_value, invalid_value, invalid_ports_range_string,
  end_port_is_smaller_than_start_port,
}
use mx_chain_communication_g.Ports.{
  parse_number, read_sign, signed, atoi, split, ports_from, first_free, choose_port, port_in_range,
  port_of_parts, get_port,
}
use mx_chain_communication_g.Ports.Choice
use mx_chain_communication_g.Ports.Choice.{Shuffles, IsChosen}
use mx_chain_communication_g.Ports.Text

-- A shuffle that swaps the first two ports.
abbrev swap : List ℕ → List ℕ
swap (p ∷ q ∷ ports) = q ∷ p ∷ ports
swap ports = ports

swap-Shuffles : Shuffles swap
swap-Shuffles q [] = refl
swap-Shuffles q (p ∷ []) = refl
swap-Shuffles q (p ∷ r ∷ ports) = omega arith

-- Only the port 3000 is taken.
abbrev is_free : ℕ → Bool
is_free p = not (p == 3000)

-- "3000-3002"
abbrev range_text : Bytes
range_text = decimal 3000 ++ 45 ∷ decimal 3002

program : Unit {0}
unfolding get_port port_of_parts port_in_range choose_port first_free ports_from split atoi signed
    read_sign parse_number decimal digits_from parse_digits
program = tt

a_range : get_port swap is_free 8 true range_text ≡ returns (ok 3001)
unfolding program
a_range = refl

-- "-1", "3000-3001-3002", "1000-3000" and "3002-3001".
refused_ports :
    (get_port swap is_free 8 true (45 ∷ decimal 1) ≡ returns (err invalid_port_value))
    × (get_port swap is_free 8 true (range_text ++ 45 ∷ decimal 3002)
        ≡ returns (err invalid_ports_range_string))
    × (get_port swap is_free 8 true (decimal 1000 ++ 45 ∷ decimal 3000)
        ≡ returns (err invalid_value))
    × (get_port swap is_free 8 true (decimal 3002 ++ 45 ∷ decimal 3001)
        ≡ returns (err end_port_is_smaller_than_start_port))
unfolding program
refused_ports = (refl, refl, refl, refl)

-- "3000-3008" does not fit a slice of eight.
too_many_ports : get_port swap is_free 8 true (decimal 3000 ++ 45 ∷ decimal 3008) ≡ panics
unfolding program
too_many_ports = refl

get_port_sound_example :
    (atoi range_text ≡ some (pos 3001))
    ⊎ ((first : Bytes) × (second : Bytes) × (x : ℤ) × (y : ℤ) × (split 45 range_text
          ≡ first ∷ second ∷ [])
        × (atoi first ≡ some x)
        × (atoi second ≡ some y)
        × IsChosen swap is_free 8 x y 3001)
unfolding program
get_port_sound_example =
    Choice.get_port_sound swap is_free 8 swap-Shuffles true range_text 3001 refl

get_port-decimal_example :
    (get_port swap is_free 8 true (decimal 3000) ≡ returns (ok 3000))
    × (get_port swap is_free 8 true range_text ≡ choose_port swap is_free 8 true 3000 3002)
get_port-decimal_example =
    Text.get_port-decimal swap is_free 8 true 3000 3002 (omega arith) (omega arith)
