-- ===== src/Metrics.antt =====
-- p2p/libp2p/metrics/connections.go: counters of 32 bits that are read by swapping in zero.
mod Tests
use mx_chain_communication_g.Common.{
  ℕ, suc, ◌+◌, ◌*◌, ◌%◌, ◌/◌, ◌^◌, ◌≤◌, ◌<◌, ◌≡◌, refl, List, [], ◌∷◌, count_by, Bool, true, false,
  if◌then◌else◌, arith,
}

pub record ConnectionsMetric : Type 0 where
  pub num_connections : ℕ
  pub num_disconnections : ℕ

unfoldable pub new_connections_metric : ConnectionsMetric
new_connections_metric = record { num_connections = 0; num_disconnections = 0 }

-- `atomic.AddUint32` of 1.
abbrev pub add_one : ℕ → ℕ
add_one n = suc n % 2 ^ 32

unfoldable pub connected : ConnectionsMetric → ConnectionsMetric
connected cm = record cm { num_connections = add_one cm.num_connections }

unfoldable pub disconnected : ConnectionsMetric → ConnectionsMetric
disconnected cm = record cm { num_disconnections = add_one cm.num_disconnections }

unfoldable pub reset_num_connections : ConnectionsMetric → ConnectionsMetric × ℕ
reset_num_connections cm = (record cm { num_connections = 0 }, cm.num_connections)

unfoldable pub reset_num_disconnections : ConnectionsMetric → ConnectionsMetric × ℕ
reset_num_disconnections cm = (record cm { num_disconnections = 0 }, cm.num_disconnections)

pub data Event : Type 0 where
  opens closes reads_opened reads_closed : Event

-- A sequence of events, with the sums of the values read so far.
unfoldable pub run : ConnectionsMetric × ℕ × ℕ → List Event → ConnectionsMetric × ℕ × ℕ
unfolding connected disconnected reset_num_connections reset_num_disconnections
run s [] = s
run (cm, opened, closed) (opens ∷ events) = run (connected cm, opened, closed) events
run (cm, opened, closed) (closes ∷ events) = run (disconnected cm, opened, closed) events
run (cm, opened, closed) (reads_opened ∷ events) =
    run ((reset_num_connections cm).0, opened + (reset_num_connections cm).1, closed) events
run (cm, opened, closed) (reads_closed ∷ events) =
    run ((reset_num_disconnections cm).0, opened, closed + (reset_num_disconnections cm).1) events

abbrev pub is_opens : Event → Bool
is_opens opens = true
is_opens _ = false

abbrev pub is_closes : Event → Bool
is_closes closes = true
is_closes _ = false

run-conserves :
    (cm : ConnectionsMetric) (opened closed : ℕ) (events : List Event)
    → cm.num_connections + count_by is_opens events < 2 ^ 32
    → cm.num_disconnections + count_by is_closes events < 2 ^ 32
    → ((run (cm, opened, closed) events).1 + (run (cm, opened, closed) events).0.num_connections
        ≡ opened + cm.num_connections + count_by is_opens events)
      × ((run (cm, opened, closed) events).2
            + (run (cm, opened, closed) events).0.num_disconnections
          ≡ closed + cm.num_disconnections + count_by is_closes events)
unfolding run
run-conserves cm opened closed [] h k = (omega arith, omega arith)
run-conserves cm opened closed (opens ∷ events) h k =
    let rest = run-conserves (connected cm) opened closed events (omega arith) (omega arith) in
    (omega (arith, rest.0), omega (arith, rest.1))
run-conserves cm opened closed (closes ∷ events) h k =
    let rest = run-conserves (disconnected cm) opened closed events (omega arith) (omega arith) in
    (omega (arith, rest.0), omega (arith, rest.1))
run-conserves cm opened closed (reads_opened ∷ events) h k =
    let rest =
      run-conserves (reset_num_connections cm).0 (opened + cm.num_connections) closed events
        (omega arith) (omega arith) in
    (omega (arith, rest.0), omega (arith, rest.1))
run-conserves cm opened closed (reads_closed ∷ events) h k =
    let rest =
      run-conserves (reset_num_disconnections cm).0 opened (closed + cm.num_disconnections) events
        (omega arith) (omega arith) in
    (omega (arith, rest.0), omega (arith, rest.1))

-- Nothing is lost between the reads: in a sequence with fewer than 2 ^ 32 connections and fewer than
-- 2 ^ 32 disconnections from a new metric, the values read and what the counters still have add up to
-- the connections and the disconnections of the sequence.
new_connections_metric-run :
    (events : List Event)
    → count_by is_opens events < 2 ^ 32
    → count_by is_closes events < 2 ^ 32
    → ((run (new_connections_metric, 0, 0) events).1
          + (run (new_connections_metric, 0, 0) events).0.num_connections
        ≡ count_by is_opens events)
      × ((run (new_connections_metric, 0, 0) events).2
            + (run (new_connections_metric, 0, 0) events).0.num_disconnections
          ≡ count_by is_closes events)
unfolding new_connections_metric
new_connections_metric-run events h k =
    let all = run-conserves new_connections_metric 0 0 events (omega arith) (omega arith) in
    (omega (arith, all.0), omega (arith, all.1))
