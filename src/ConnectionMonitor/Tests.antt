-- ===== src/ConnectionMonitor/Tests.antt =====
-- The connection monitor with one preferred peer, and the theorems at concrete inputs.
use mx_chain_communication_g.Common.Int.{pos}
use mx_chain_communication_g.Common.{[], ◌∷◌, Bytes, bytes_key, lookup, bytes_discrete, ℕ_discrete}
use mx_chain_communication_g.PeersHolder.{contains_peer, empty_holder}
use mx_chain_communication_g.ConnectionMonitor.{
  Conn, ConnectionMonitor, check_connections_blocking, denied_peers,
}
use mx_chain_communication_g.ConnectionMonitor.Sweep

abbrev peer_a : Bytes
peer_a = 65 ∷ []

abbrev monitor : ConnectionMonitor
monitor = record {
  threshold_min_connected_peers = pos 3;
  preferred_peers_holder = record empty_holder {
    peer_ids = (peer_a, record { connection_address = []; shard_id = 0; index = 0 }) ∷ [];
  };
  known = [];
  closed_conns = [];
  closed_peers = [];
  reconnects = 0;
}

abbrev conn : Conn
conn = record { id = 99 ∷ []; remote_peer = peer_a; remote_multiaddr = [] }

program : Unit {0}
unfolding contains_peer lookup bytes_discrete ℕ_discrete check_connections_blocking denied_peers
program = tt
