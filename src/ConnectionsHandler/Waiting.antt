-- ===== src/ConnectionsHandler/Waiting.antt =====
-- `WaitForConnections` of connectionsHandler.go. A wait is the sequence of the timers that fire; that
-- of the interval comes with the number of peers connected at that moment.
use mx_chain_communication_g.Common.{
  ℕ, suc, ◌+◌, ◌≤◌, ◌<◌, sym, ◌≡◌, refl, Bool, true, false, Option, none, some, List, [], ◌∷◌, ◌++◌,
  if◌then◌else◌, leb, ltb, All, ◌==◌, arith, length, take, get_elem?, Bool-cases, inl, inr, subst,
}

pub data Timer : Type 0 where
  max_waiting_time_passed : Timer
  interval_passed : ℕ → Timer

-- How a wait ends, where the sequence of timers is long enough.
pub data Ending : Type 0 where
  after_sleep : Ending
  after_checks : ℕ → Ending

unfoldable pub should_stop_waiting : ℕ → Timer → Bool
should_stop_waiting min_num_of_peers max_waiting_time_passed = true
should_stop_waiting min_num_of_peers (interval_passed connected) = leb min_num_of_peers connected

-- The loop, with the number of calls of `shouldStopWaiting` that it made; `none` while it goes on.
unfoldable pub wait_from : ℕ → ℕ → List Timer → Option ℕ
wait_from min_num_of_peers calls [] = none
wait_from min_num_of_peers calls (t ∷ timers) =
    if should_stop_waiting min_num_of_peers t
    then some (suc calls)
    else wait_from min_num_of_peers (suc calls) timers

unfoldable pub wait_for_connections : ℕ → List Timer → Option Ending
wait_for_connections min_num_of_peers timers =
    if min_num_of_peers == 0 then some after_sleep else elim (wait_from min_num_of_peers 0 timers) [
      | none ↦ none
      | some calls ↦ some (after_checks calls)
    ]

-- A timer that ends the loop.
abbrev pub ends : ℕ → Timer → Bool
ends n max_waiting_time_passed = true
ends n (interval_passed connected) = leb n connected

-- How many timers come before the first one that ends the loop.
abbrev pub before : ℕ → List Timer → ℕ
before n [] = 0
before n (t ∷ timers) = let rest = before n timers in if ends n t then 0 else suc rest

wait_from-before :
    (n calls : ℕ) (timers : List Timer)
    → wait_from n calls timers ≡ (
        if ltb (before n timers) (length timers)
        then some (suc (calls + before n timers))
        else none)
unfolding wait_from should_stop_waiting
wait_from-before n calls [] = ground arith
wait_from-before n calls (max_waiting_time_passed ∷ timers) = ground arith
wait_from-before n calls (interval_passed connected ∷ timers) =
    ground (arith, wait_from-before n (suc calls) timers)

before-All :
    (n : ℕ) (timers : List Timer) → All (λ t. ends n t ≡ false) (take (before n timers) timers)
before-All n [] = tt
before-All n (t ∷ timers) = elim (Bool-cases (ends n t)) [
  | inl h ↦
      subst
        (λ (b : Bool).
          All (λ t. ends n t ≡ false) (take (if b then 0 else suc (before n timers)) (t ∷ timers)))
        (sym h) tt
  | inr h ↦
      subst
        (λ (b : Bool).
          All (λ t. ends n t ≡ false) (take (if b then 0 else suc (before n timers)) (t ∷ timers)))
        (sym h) (h, before-All n timers)
]

before-first :
    (n : ℕ) (timers : List Timer)
    → before n timers < length timers
    → (t : Timer) × (get_elem? timers (before n timers) ≡ some t) × (ends n t ≡ true)
before-first n [] h = absurd (omega arith)
before-first n (t ∷ timers) h = elim (Bool-cases (ends n t)) [
  | inl e ↦
      subst
        (λ (b : Bool).
          (u : Timer) × (get_elem? (t ∷ timers) (if b then 0 else suc (before n timers)) ≡ some u)
          × (ends n u ≡ true))
        (sym e) (t, refl, e)
  | inr e ↦
      subst
        (λ (b : Bool).
          (u : Timer) × (get_elem? (t ∷ timers) (if b then 0 else suc (before n timers)) ≡ some u)
          × (ends n u ≡ true))
        (sym e) (before-first n timers (ground arith))
]

before-le :
    (n : ℕ) (timers rest : List Timer)
    → before n (timers ++ max_waiting_time_passed ∷ rest) ≤ length timers
before-le n [] rest = ground arith
before-le n (t ∷ timers) rest = ground (arith, before-le n timers rest)

length-middle : (timers rest : List Timer) (t : Timer) → length timers < length (timers ++ t ∷ rest)
length-middle [] rest t = omega arith
length-middle (u ∷ timers) rest t = omega (arith, length-middle timers rest t)

-- For at least one wanted peer, the wait ends when that of the whole time has passed, at the latest.
-- It ends at the first timer that is that of the whole time or finds the wanted number of peers:
-- none of the timers before it is such a one.
wait_for_connections-ends :
    (n : ℕ) (timers rest : List Timer)
    → 1 ≤ n
    → (c : ℕ) × (t : Timer) × (wait_for_connections n (timers ++ max_waiting_time_passed ∷ rest)
        ≡ some (after_checks (suc c)))
      × (c ≤ length timers)
      × (get_elem? (timers ++ max_waiting_time_passed ∷ rest) c ≡ some t)
      × (ends n t ≡ true)
      × All (λ t. ends n t ≡ false) (take c (timers ++ max_waiting_time_passed ∷ rest))
unfolding wait_for_connections
wait_for_connections-ends n timers rest wanted =
    let all = timers ++ max_waiting_time_passed ∷ rest in
    let most = before-le n timers rest in
    let first =
      before-first n all (omega (arith, length-middle timers rest max_waiting_time_passed)) in
    let run : wait_from n 0 all ≡ some (suc (before n all)) =
      ground (arith, wait_from-before n 0 all, length-middle timers rest max_waiting_time_passed) in
    (before n all, first.0, ground arith, most, first.1, first.2, before-All n all)
