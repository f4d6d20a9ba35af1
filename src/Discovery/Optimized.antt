-- ===== src/Discovery/Optimized.antt =====
-- optimizedKadDhtDiscoverer.go: the loop that carries out all tasks one after the other. An event is
-- what the `select` of the loop receives, with what the host and the table answer then.
use mx_chain_communication_g.Common.Int.{ℤ, ltb_ℤ}
use mx_chain_communication_g.Common.{
  ℕ, suc, ◌==◌, Bool, true, false, Option, none, some, List, [], ◌∷◌, ◌++◌, Bytes, Result, ok, err,
  Outcome, returns, panics, ◌>>=◌, if◌then◌else◌, length,
}
use mx_chain_communication_g.Errors.{
  P2pError, peer_discovery_process_already_started, invalid_seeders_reconnection_interval,
}
use mx_chain_communication_g.Discovery.{
  ArgKadDht, prepare_arguments, second, check_host_with_connection_management,
}

pub data DiscovererStatus : Type 0 where
  stat_not_initialized stat_initialized : DiscovererStatus

-- `replies` are the values sent on `errChanInit`, `none` for nil, and `lookups` counts the calls of
-- `Bootstrap` of the table. `wait` is the time after which the seeders are tried again.
pub record OptimizedKadDhtDiscoverer : Type 0 where
  pub kad_dht : Option ℕ
  pub status : DiscovererStatus
  pub initial_peers_list : List Bytes
  pub peers_refresh_interval : ℤ
  pub seeders_reconnection_interval : ℤ
  pub wait : ℤ
  pub replies : List (Option P2pError)
  pub lookups : ℕ

-- What the host answers: the peer behind an address, whether it is connected, and the result of
-- `Connect`; `ended` is whether the context is done after the attempt at a seeder.
pub record Surroundings : Type 0 where
  pub address_to_peer_info : Bytes → Result P2pError Bytes
  pub is_connected : Bytes → Bool
  pub connect : Bytes → Option P2pError
  pub ended : Bytes → Bool

unfoldable pub new_optimized_kad_dht_discoverer :
    ArgKadDht → Result P2pError OptimizedKadDhtDiscoverer
new_optimized_kad_dht_discoverer arg = elim (prepare_arguments arg) [
  | some failed ↦ err failed
  | none ↦
      if ltb_ℤ arg.seeders_reconnection_interval second
      then err invalid_seeders_reconnection_interval
      else elim (check_host_with_connection_management arg.host arg.kdd_sharder
          arg.connection_watcher) [
            | some failed ↦ err failed
            | none ↦ ok (record {
              kad_dht = none;
              status = stat_not_initialized;
              initial_peers_list = arg.initial_peers_list;
              peers_refresh_interval = arg.peers_refresh_interval;
              seeders_reconnection_interval = arg.seeders_reconnection_interval;
              wait = arg.seeders_reconnection_interval;
              replies = [];
              lookups = 0;
            })
          ]
]

unfoldable pub create_ch_time_seeders_reconnect :
    OptimizedKadDhtDiscoverer → Bool → OptimizedKadDhtDiscoverer
create_ch_time_seeders_reconnect okdd is_connected_to_seeders = record okdd {
  wait =
      if is_connected_to_seeders
      then okdd.seeders_reconnection_interval
      else okdd.peers_refresh_interval;
}

-- `init`; `created` is what `createKadDhtHandler` returns.
unfoldable pub init :
    OptimizedKadDhtDiscoverer → Result P2pError ℕ → OptimizedKadDhtDiscoverer × Option P2pError
init okdd created = elim okdd.status [
  | stat_initialized ↦ (okdd, some peer_discovery_process_already_started)
  | stat_not_initialized ↦ elim created [
    | err failed ↦ (okdd, some failed)
    | ok dht ↦ (record okdd { kad_dht = some dht; status = stat_initialized }, none)
  ]
]

unfoldable pub connect_to_seeder : Surroundings → Bytes → Option P2pError
connect_to_seeder e seeder_address = elim (e.address_to_peer_info seeder_address) [
  | err failed ↦ some failed
  | ok seeder_info ↦ if e.is_connected seeder_info then none else e.connect seeder_info
]

-- The loop of `tryToReconnectAtLeastToASeeder`.
unfoldable pub reconnect_from : Surroundings → Bool → List Bytes → Bool
unfolding connect_to_seeder
reconnect_from e connected_to_one_seeder [] = connected_to_one_seeder
reconnect_from e connected_to_one_seeder (seeder_address ∷ seeders) =
    let connected : Bool = elim (connect_to_seeder e seeder_address) [
      | some failed ↦ connected_to_one_seeder
      | none ↦ true
    ] in
    let rest = reconnect_from e connected seeders in if e.ended seeder_address then true else rest

unfoldable pub try_to_reconnect_at_least_to_a_seeder :
    Surroundings → OptimizedKadDhtDiscoverer → Bool
unfolding reconnect_from
try_to_reconnect_at_least_to_a_seeder e okdd = elim okdd.status [
  | stat_not_initialized ↦ false
  | stat_initialized ↦
      if length okdd.initial_peers_list == 0
      then true
      else reconnect_from e false okdd.initial_peers_list
]

-- A nil table panics.
unfoldable pub find_peers : OptimizedKadDhtDiscoverer → Outcome OptimizedKadDhtDiscoverer
find_peers okdd = elim okdd.status [
  | stat_not_initialized ↦ returns okdd
  | stat_initialized ↦ elim okdd.kad_dht [
    | none ↦ panics
    | some _ ↦ returns (record okdd { lookups = suc okdd.lookups })
  ]
]

unfoldable pub process_seeders_reconnect :
    Surroundings → OptimizedKadDhtDiscoverer → OptimizedKadDhtDiscoverer
unfolding create_ch_time_seeders_reconnect try_to_reconnect_at_least_to_a_seeder
process_seeders_reconnect e okdd =
    create_ch_time_seeders_reconnect okdd (try_to_reconnect_at_least_to_a_seeder e okdd)

-- `processInit` after `init`, which `Bootstrap` waits for.
unfoldable pub answer_init :
    Surroundings → OptimizedKadDhtDiscoverer × Option P2pError → Outcome OptimizedKadDhtDiscoverer
unfolding create_ch_time_seeders_reconnect process_seeders_reconnect find_peers
answer_init e (okdd, some failed) = returns (
    create_ch_time_seeders_reconnect (record okdd { replies = okdd.replies ++ some failed ∷ [] })
      false)
answer_init e (okdd, none) =
    find_peers (process_seeders_reconnect e (record okdd { replies = okdd.replies ++ none ∷ [] }))

unfoldable pub process_init :
    Surroundings → OptimizedKadDhtDiscoverer → Result P2pError ℕ → Outcome OptimizedKadDhtDiscoverer
unfolding init answer_init
process_init e okdd created = answer_init e (init okdd created)

-- What the `select` receives; the end of the context is that of the list of events.
pub data Event : Type 0 where
  chan_init : Result P2pError ℕ → Event
  time_seeders_reconnect : Event
  chan_connect_to_seeders : Event
  time_find_peers : Event

unfoldable pub process_event :
    Surroundings → OptimizedKadDhtDiscoverer → Event → Outcome OptimizedKadDhtDiscoverer
unfolding process_init process_seeders_reconnect find_peers
process_event e okdd (chan_init created) = process_init e okdd created
process_event e okdd time_seeders_reconnect = returns (process_seeders_reconnect e okdd)
process_event e okdd chan_connect_to_seeders = returns (process_seeders_reconnect e okdd)
process_event e okdd time_find_peers = find_peers okdd

unfoldable pub process_loop :
    OptimizedKadDhtDiscoverer → List (Surroundings × Event) → Outcome OptimizedKadDhtDiscoverer
unfolding process_event
process_loop okdd [] = returns okdd
process_loop okdd ((e, event) ∷ events) =
    process_event e okdd event >>= λ next. process_loop next events
