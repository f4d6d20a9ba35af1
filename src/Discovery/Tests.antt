-- ===== src/Discovery/Tests.antt =====
-- Runs of the discoverers, and the theorems at concrete inputs.
use mx_chain_communication_g.Common.Int.{pos}
use mx_chain_communication_g.Common.{
  ℕ, ◌*◌, ◌^◌, ◌≤◌, ◌≡◌, refl, Bool, true, false, Option, none, some, List, [], ◌∷◌, Bytes,
  bytes_key, same, bytes_discrete, ℕ_discrete, if◌then◌else◌, get_elem?, ok, err, returns,
}
use mx_chain_communication_g.Errors.{P2pError, foreign}
use mx_chain_communication_g.Discovery.{
  ArgKadDht, prepare_arguments, check_host_with_connection_management,
}
use mx_chain_communication_g.Discovery.Continuous
use mx_chain_communication_g.Discovery.Continuous.{
  ContinuousKadDhtDiscoverer, new_continuous_kad_dht_discoverer, start_dht, bootstrap, stop_dht,
  Call, start, stop, run,
}
use mx_chain_communication_g.Discovery.Seeders
use mx_chain_communication_g.Discovery.Seeders.{
  Ending, connected_to, try_connect_from, try_connect_to_seeder,
}
use mx_chain_communication_g.Discovery.Optimized.{
  OptimizedKadDhtDiscoverer, stat_not_initialized, Surroundings, new_optimized_kad_dht_discoverer,
  Event, chan_init, time_seeders_reconnect, time_find_peers, process_loop,
}
use mx_chain_communication_g.Discovery.Loop
use mx_chain_communication_g.Discovery.Loop.{IsSound, is_initialized, counts}
use mx_chain_communication_g.Discovery.Factory.{KadDhtPeerDiscoveryConfig, type_legacy}

abbrev arg : ArgKadDht
arg = record {
  context = true;
  host = true;
  kdd_sharder = true;
  is_discovery_sharder = true;
  connection_watcher = true;
  logger = true;
  peers_refresh_interval = pos (10 ^ 9);
  seeders_reconnection_interval = pos (5 * 10 ^ 9);
  routing_table_refresh = pos (10 ^ 9);
  protocol_id = [];
  initial_peers_list = (1 ∷ []) ∷ (2 ∷ []) ∷ [];
}

abbrev new : ContinuousKadDhtDiscoverer
new = record {
  kad_dht = none;
  refresh_cancel = false;
  initial_peers_list = (1 ∷ []) ∷ (2 ∷ []) ∷ [];
  protocol_id = [];
  streams_removed = 0;
}

abbrev calls : List Call
calls = start none (ok 7) ∷ stop none ∷ start none (err (foreign 1)) ∷ start none (ok 8) ∷ []

run_then_restart_example :
    (r : ContinuousKadDhtDiscoverer) × (stopped : ContinuousKadDhtDiscoverer) × (e : Option
      P2pError)
    × (run new calls ≡ returns r)
    × (stop_dht r none ≡ returns (stopped, e))
    × ((bootstrap stopped none (ok 9)).1 ≡ none)
    × ((bootstrap stopped none (ok 9)).0.kad_dht ≡ some 9)
unfolding new_continuous_kad_dht_discoverer prepare_arguments
run_then_restart_example = Continuous.run_then_restart arg new calls none 9 refl

-- Only the second seeder accepts.
abbrev accepts : ℕ → Bytes → Bool
accepts j s = same s (2 ∷ [])

abbrev never : ℕ → Bool
never j = false

try_connect_to_seeder_ends_example :
    (p : Bytes) × (j : ℕ) × (try_connect_to_seeder accepts never 2 arg.initial_peers_list
      ≡ some (connected_to p))
    × (get_elem? arg.initial_peers_list j ≡ some p)
    × (accepts j p ≡ true)
    × (j ≤ 1)
unfolding bytes_discrete ℕ_discrete
try_connect_to_seeder_ends_example =
    Seeders.try_connect_to_seeder_ends accepts never arg.initial_peers_list 1 (2 ∷ []) refl
      (λ j. refl) (λ j. refl)

abbrev new_optimized : OptimizedKadDhtDiscoverer
new_optimized = record {
  kad_dht = none;
  status = stat_not_initialized;
  initial_peers_list = (1 ∷ []) ∷ (2 ∷ []) ∷ [];
  peers_refresh_interval = pos (10 ^ 9);
  seeders_reconnection_interval = pos (5 * 10 ^ 9);
  wait = pos (5 * 10 ^ 9);
  replies = [];
  lookups = 0;
}

abbrev around : Surroundings
around = record {
  address_to_peer_info = λ a. ok a;
  is_connected = λ a. false;
  connect = λ a. if same a (2 ∷ []) then none else some (foreign 3);
  ended = λ a. false;
}

abbrev events : List (Surroundings × Event)
events =
    (around, time_find_peers)
    ∷ (around, chan_init (err (foreign 1)))
    ∷ (around, chan_init (ok 7))
    ∷ (around, chan_init (ok 8))
    ∷ (around, time_seeders_reconnect)
    ∷ []

new_discoverer-process_loop_example :
    (r : OptimizedKadDhtDiscoverer) × (process_loop new_optimized events ≡ returns r) × IsSound r
unfolding new_optimized_kad_dht_discoverer prepare_arguments check_host_with_connection_management
new_discoverer-process_loop_example = Loop.new_discoverer-process_loop arg new_optimized events refl

abbrev config : KadDhtPeerDiscoveryConfig
config = record {
  enabled = true;
  kind = type_legacy;
  refresh_interval_in_sec = 1;
  protocol_ids = (5 ∷ []) ∷ [];
  initial_peer_list = (1 ∷ []) ∷ (2 ∷ []) ∷ [];
  routing_table_refresh_interval_in_sec = 1;
}
