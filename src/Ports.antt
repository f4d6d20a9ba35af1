-- ===== src/Ports.antt =====
-- p2p/libp2p/ports.go: the port of the host, from a number or a range `start-end` as text. The shuffle of
-- the ports and the attempt to listen on one are parameters; an int has 64 bits.
pub mod Choice
pub mod Text
mod Tests
use mx_chain_communication_g.Common.Int.{ℤ, pos, negsuc}
use mx_chain_communication_g.Common.{
  parse_digits, ℕ, zero, suc, ◌+◌, ◌-◌, ◌*◌, ◌^◌, Bool, true, false, not, ◌&&◌, ◌||◌, ◌==◌, ltb,
  leb, Option, none, some, List, [], ◌∷◌, Bytes, if◌then◌else◌, Result, ok, err, Outcome, returns,
  panics,
}
use mx_chain_communication_g.Errors.{
  P2pError, invalid_port_value, invalid_ports_range_string, invalid_starting_port_value,
  invalid_ending_port_value, invalid_value, end_port_is_smaller_than_start_port, nil_logger,
  no_free_port_in_range,
}

-- Digits, at least one of them.
unfoldable pub parse_number : Bytes → Option ℕ
unfolding parse_digits
parse_number [] = none
parse_number (c ∷ s) = parse_digits 0 (c ∷ s)

-- The sign in front of a number, true for minus, and what follows it.
unfoldable pub read_sign : Bytes → Bool × Bytes
read_sign [] = (false, [])
read_sign (c ∷ s) = if c == 45 then (true, s) else if c == 43 then (false, s) else (false, c ∷ s)

-- A number within the range of an int.
unfoldable pub signed : Bool → ℕ → Option ℤ
signed true zero = some (pos 0)
signed true (suc n) = if ltb n (2 ^ 63) then some (negsuc n) else none
signed false n = if ltb n (2 ^ 63) then some (pos n) else none

-- `strconv.Atoi`: `none` is an error.
unfoldable pub atoi : Bytes → Option ℤ
unfolding parse_number read_sign signed
atoi s =
    let read = read_sign s in elim (parse_number read.1) [ none ↦ none | some n ↦ signed read.0 n ]

-- `strings.Split` at one byte.
unfoldable pub split : ℕ → Bytes → List Bytes
split separator [] = [] ∷ []
split separator (c ∷ s) =
    if c == separator
    then [] ∷ split separator s
    else elim (split separator s) [ [] ↦ (c ∷ []) ∷ [] | part ∷ parts ↦ (c ∷ part) ∷ parts ]

-- The ports from `start`, `count` of them.
unfoldable pub ports_from : ℕ → ℕ → List ℕ
ports_from start zero = []
ports_from start (suc count) = start ∷ ports_from (suc start) count

-- `minRangePortValue`.
abbrev pub min_range_port_value : ℕ
min_range_port_value = 1025

-- `is_free` is whether the handler returns no error for a port. `slice_limit` is the greatest capacity
-- for which `make` gives a slice of ints: beyond it `make` panics. It is far below 2 ^ 63, so that the
-- loop that fills the slice never reaches the greatest int.
module _ (shuffle : List ℕ → List ℕ) (is_free : ℕ → Bool) (slice_limit : ℕ)
    (has_logger : Bool) where
  unfoldable pub first_free : List ℕ → Result P2pError ℕ
  first_free [] = err no_free_port_in_range
  first_free (p ∷ ports) = if is_free p then ok p else first_free ports

  unfoldable pub choose_port : ℕ → ℕ → Outcome (Result P2pError ℕ)
  unfolding first_free ports_from
  choose_port start_port end_port =
      if not has_logger
      then returns (err nil_logger)
      else if ltb slice_limit (suc end_port - start_port)
      then panics
      else returns (first_free (shuffle (ports_from start_port (suc end_port - start_port))))

  -- From the check of the starting port on.
  unfoldable pub port_in_range : ℤ → ℤ → Outcome (Result P2pError ℕ)
  unfolding choose_port
  port_in_range (negsuc start_port) end_port = returns (err invalid_value)
  port_in_range (pos start_port) (negsuc end_port) =
      if ltb start_port min_range_port_value
      then returns (err invalid_value)
      else returns (err end_port_is_smaller_than_start_port)
  port_in_range (pos start_port) (pos end_port) =
      if ltb start_port min_range_port_value
      then returns (err invalid_value)
      else if ltb end_port start_port
      then returns (err end_port_is_smaller_than_start_port)
      else choose_port start_port end_port

  -- A port given as a range; only two parts are one.
  unfoldable pub port_of_parts : List Bytes → Outcome (Result P2pError ℕ)
  unfolding port_in_range
  port_of_parts (first ∷ second ∷ []) = elim (atoi first) [
    | none ↦ returns (err invalid_starting_port_value)
    | some start_port ↦ elim (atoi second) [
      | none ↦ returns (err invalid_ending_port_value)
      | some end_port ↦ port_in_range start_port end_port
    ]
  ]
  port_of_parts _ = returns (err invalid_ports_range_string)

  unfoldable pub get_port : Bytes → Outcome (Result P2pError ℕ)
  unfolding port_of_parts
  get_port port = elim (atoi port) [
    | some (pos val) ↦ returns (ok val)
    | some (negsuc val) ↦ returns (err invalid_port_value)
    | none ↦ port_of_parts (split 45 port)
  ]
