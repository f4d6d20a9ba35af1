-- ===== src/Discovery/Seeders.antt =====
-- `tryConnectToSeeder` of continuousKadDhtDiscoverer.go: one seeder after the other, round and round.
-- `accepts j s` is whether the attempt `j` at the seeder `s` succeeds, and `done j` whether the context
-- is done before the pause after that attempt ends. The loop runs on fuel.
use native.Mathlib.Nat.{mod-eq_of_lt}
use mx_chain_communication_g.Common.{
  ℕ, zero, suc, ◌+◌, ◌%◌, ◌≤◌, ◌<◌, ◌≡◌, refl, Bool, true, false, Option, none, some, List, [], ◌∷◌,
  Bytes, length, get_elem?, if◌then◌else◌, arith, Bool-cases, inl, inr, get_elem?-lt-length,
}

-- How the loop ends: with a connection to a seeder, because the context is done, or by an index out of
-- range.
pub data Ending : Type 0 where
  connected_to : Bytes → Ending
  context_done : Ending
  index_out_of_range : Ending

get_elem?-some : (xs : List Bytes) (i : ℕ) → i < length xs → (x : Bytes) × (get_elem? xs i ≡ some x)
get_elem?-some [] i h = absurd (omega arith)
get_elem?-some (x ∷ xs) zero h = (x, refl)
get_elem?-some (x ∷ xs) (suc i) h = get_elem?-some xs i (omega arith)

module _ (accepts : ℕ → Bytes → Bool) (done : ℕ → Bool) where
  -- `next_index` is the value of `startIndex`.
  unfoldable pub try_connect_from : ℕ → ℕ → ℕ → List Bytes → Option Ending
  try_connect_from zero attempt next_index seeders = none
  try_connect_from (suc fuel) attempt next_index seeders =
      let again = try_connect_from fuel (suc attempt) ((next_index + 1) % length seeders) seeders in
      elim (get_elem? seeders next_index) [
        | none ↦ some index_out_of_range
        | some seeder ↦
            if accepts attempt seeder
            then some (connected_to seeder)
            else if done attempt
            then some context_done
            else again
      ]

  unfoldable pub try_connect_to_seeder : ℕ → List Bytes → Option Ending
  unfolding try_connect_from
  try_connect_to_seeder fuel seeders = try_connect_from fuel 0 0 seeders

  -- `connectToOnePeerFromInitialPeersList`: `none` as the ending of no loop at all.
  unfoldable pub connect_to_one_peer : ℕ → List Bytes → Option (Option Ending)
  unfolding try_connect_to_seeder
  connect_to_one_peer fuel [] = some none
  connect_to_one_peer fuel (s ∷ seeders) = elim (try_connect_to_seeder fuel (s ∷ seeders)) [
    | none ↦ none
    | some ending ↦ some (some ending)
  ]

  first_round :
      (seeders : List Bytes) (i : ℕ) (s : Bytes)
      → get_elem? seeders i ≡ some s
      → ((j : ℕ) → accepts j s ≡ true)
      → ((j : ℕ) → done j ≡ false)
      → (fuel a : ℕ) → a ≤ i
      → i < fuel + a
      → (p : Bytes) × (j : ℕ) × (try_connect_from fuel a a seeders ≡ some (connected_to p))
        × (get_elem? seeders j ≡ some p)
        × (accepts j p ≡ true)
        × (j ≤ i)
  unfolding try_connect_from
  first_round seeders i s at yes_s no_end zero a le lt = absurd (omega arith)
  first_round seeders i s at yes_s no_end (suc fuel) a le lt =
      let short = get_elem?-lt-length seeders i s at in
      let here = get_elem?-some seeders a (omega (arith, short)) in
      elim (Bool-cases (accepts a here.0)) [
        | inl yes_q ↦ (here.0, a, ground arith, here.1, yes_q, le)
        | inr no_q ↦
            let later : a < i = ground (arith, yes_s a) in
            let next : (a + 1) % length seeders ≡ a + 1 = mod-eq_of_lt (omega (arith, short)) in
            let rest =
              first_round seeders i s at yes_s no_end fuel (suc a) (omega arith) (omega arith) in
            (rest.0, rest.1, ground (arith, no_end a), rest.3, rest.4, rest.5)
      ]

  -- When some seeder of the list always accepts and the context is not done, the loop ends within one
  -- round, with a connection to a seeder that accepted, at the place of its attempt in the list.
  pub try_connect_to_seeder_ends :
      (seeders : List Bytes) (i : ℕ) (s : Bytes)
      → get_elem? seeders i ≡ some s
      → ((j : ℕ) → accepts j s ≡ true)
      → ((j : ℕ) → done j ≡ false)
      → (p : Bytes) × (j : ℕ) × (try_connect_to_seeder (length seeders) seeders
          ≡ some (connected_to p))
        × (get_elem? seeders j ≡ some p)
        × (accepts j p ≡ true)
        × (j ≤ i)
  unfolding try_connect_to_seeder
  try_connect_to_seeder_ends seeders i s at yes_s no_end =
      first_round seeders i s at yes_s no_end (length seeders) 0 (omega arith)
        (omega (arith, get_elem?-lt-length seeders i s at))
