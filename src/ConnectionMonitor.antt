-- ===== src/ConnectionMonitor.antt =====
-- p2p/libp2p/connectionMonitor/libp2pConnectionMonitorSimple.go: what the node does when a connection
-- opens or closes, and its sweep over the connected peers.
-- The network, the sharder, the denial evaluator and the connections watcher are parameters or logs
-- of calls; the timers of `processLoop` are left out.
pub mod Sweep
mod Tests
use mx_chain_communication_g.Common.Int.{ℤ, pos, leb_ℤ}
use mx_chain_communication_g.Common.{
  ℕ, suc, Bool, true, false, Option, none, some, List, [], ◌∷◌, ◌++◌, Bytes, if◌then◌else◌, Outcome,
  returns, ◌>>=◌, length,
}
use mx_chain_communication_g.PeersHolder.{PeersHolder, put_connection_address, remove}

-- `id` is what libp2p's `Conn.ID` gives: a name of the connection, not of the peer.
pub record Conn : Type 0 where
  pub id : Bytes
  pub remote_peer : Bytes
  pub remote_multiaddr : Bytes

-- `known`, `closed_conns` and `closed_peers` have the calls of `NewKnownConnection`, `Close` and
-- `ClosePeer`, and `reconnects` counts those of `doReconn`.
pub record ConnectionMonitor : Type 0 where
  pub threshold_min_connected_peers : ℤ
  pub preferred_peers_holder : PeersHolder
  pub known : List (Bytes × Bytes)
  pub closed_conns : List Bytes
  pub closed_peers : List Bytes
  pub reconnects : ℕ

-- `peers` is what `Peers` of the network gives.
unfoldable pub is_connected_to_the_network : ConnectionMonitor → List Bytes → Bool
is_connected_to_the_network cm peers = leb_ℤ cm.threshold_min_connected_peers (pos (length peers))

unfoldable pub do_reconnection_if_needed : ConnectionMonitor → List Bytes → ConnectionMonitor
do_reconnection_if_needed cm peers =
    if is_connected_to_the_network cm peers
    then cm
    else record cm { reconnects = suc cm.reconnects }

unfoldable pub set_threshold_min_connected_peers :
    ConnectionMonitor → ℤ → List Bytes → ConnectionMonitor
set_threshold_min_connected_peers cm threshold peers =
    do_reconnection_if_needed (record cm { threshold_min_connected_peers = threshold }) peers

-- `conn` is `none` for nil.
unfoldable pub disconnected :
    ConnectionMonitor → List Bytes → Option Conn → Outcome ConnectionMonitor
disconnected cm peers none = returns (do_reconnection_if_needed cm peers)
disconnected cm peers (some conn) = remove cm.preferred_peers_holder conn.id >>= λ holder.
    returns (do_reconnection_if_needed (record cm { preferred_peers_holder = holder }) peers)

-- `all_shard_id` is the parameter of the same name of PeersHolder.antt.
module _ (all_shard_id : ℕ) (is_denied : Bytes → Bool)
    (compute_eviction_list : List Bytes → List Bytes) where
  unfoldable pub connected : ConnectionMonitor → List Bytes → Conn → ConnectionMonitor
  connected cm peers conn =
      if is_denied conn.remote_peer
      then record cm { closed_conns = conn.id ∷ cm.closed_conns }
      else record cm {
        known = (conn.remote_peer, conn.remote_multiaddr) ∷ cm.known;
        preferred_peers_holder =
            put_connection_address all_shard_id cm.preferred_peers_holder conn.remote_peer
              conn.remote_multiaddr;
        closed_peers = cm.closed_peers ++ compute_eviction_list peers;
      }

  -- The peers that the loop of `checkConnectionsBlocking` closes.
  unfoldable pub denied_peers : List Bytes → List Bytes
  denied_peers [] = []
  denied_peers (pid ∷ pids) =
      let rest = denied_peers pids in if is_denied pid then pid ∷ rest else rest

  unfoldable pub check_connections_blocking : ConnectionMonitor → List Bytes → ConnectionMonitor
  check_connections_blocking cm peers = record cm {
    closed_peers = cm.closed_peers ++ denied_peers peers;
  }
