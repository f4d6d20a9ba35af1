-- ===== src/Discovery.antt =====
-- p2p/libp2p/discovery: the discoverers of peers, over the Kademlia table of libp2p, which is a
-- parameter: what its creation, its `Bootstrap` and its `Close` return. A table is a number, its name.
pub mod Continuous
pub mod Seeders
pub mod Optimized
pub mod Loop
pub mod Factory
mod Tests
use mx_chain_communication_g.Common.Int.{ℤ, pos, ltb_ℤ}
use mx_chain_communication_g.Common.{
  ℕ, ◌^◌, Bool, true, false, not, Option, none, some, List, Bytes, if◌then◌else◌, Result, ok, err,
}
use mx_chain_communication_g.Errors.{
  P2pError, nil_context, nil_host, nil_sharder, nil_connections_watcher, wrong_type_assertion,
  invalid_value, nil_logger,
}

-- `ArgKadDht`: which interfaces are not nil, and the durations in nanoseconds, which may be negative.
-- `is_discovery_sharder` is whether the sharder has the methods of `discovery.Sharder`.
pub record ArgKadDht : Type 0 where
  pub context : Bool
  pub host : Bool
  pub kdd_sharder : Bool
  pub is_discovery_sharder : Bool
  pub connection_watcher : Bool
  pub logger : Bool
  pub peers_refresh_interval : ℤ
  pub seeders_reconnection_interval : ℤ
  pub routing_table_refresh : ℤ
  pub protocol_id : Bytes
  pub initial_peers_list : List Bytes

-- `time.Second`.
abbrev pub second : ℤ
second = pos (10 ^ 9)

unfoldable pub prepare_arguments : ArgKadDht → Option P2pError
prepare_arguments arg =
    if not arg.context
    then some nil_context
    else if not arg.host
    then some nil_host
    else if not arg.kdd_sharder
    then some nil_sharder
    else if not arg.connection_watcher
    then some nil_connections_watcher
    else if not arg.is_discovery_sharder
    then some wrong_type_assertion
    else if ltb_ℤ arg.peers_refresh_interval second
    then some invalid_value
    else if ltb_ℤ arg.routing_table_refresh second
    then some invalid_value
    else if not arg.logger
    then some nil_logger
    else none

-- `NewHostWithConnectionManagement`, of the file hostWithConnectionManagement.go.
unfoldable pub check_host_with_connection_management : Bool → Bool → Bool → Option P2pError
check_host_with_connection_management connectable_host sharder connections_watcher =
    if not connectable_host
    then some nil_host
    else if not sharder
    then some nil_sharder
    else if not connections_watcher
    then some nil_connections_watcher
    else none
