-- ===== src/Metrics/Tests.antt =====
-- A run of the counters.
use mx_chain_communication_g.Common.{◌≡◌, refl, [], ◌∷◌}
use mx_chain_communication_g.Metrics.{
  opens, closes, reads_opened, run, new_connections_metric, connected, disconnected,
  reset_num_connections,
}

two_read_and_one_left :
    run (new_connections_metric, 0, 0) (opens ∷ opens ∷ closes ∷ reads_opened ∷ opens ∷ [])
    ≡ (record { num_connections = 1; num_disconnections = 1 }, 2, 0)
unfolding run new_connections_metric connected disconnected reset_num_connections
two_read_and_one_left = refl
