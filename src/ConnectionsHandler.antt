-- ===== src/ConnectionsHandler.antt =====
-- p2p/libp2p/connectionsHandler.go: the connections that the messenger reports, and how it waits for
-- them. The host of libp2p, its peer store, the pretty print of a peer ID, the shard resolver, the
-- sharder and the holder of preferred peers are parameters; logging is left out.
pub mod Peers
pub mod Counts
pub mod Steps
pub mod Totals
pub mod Waiting
pub mod Histogram
mod Tests
use mx_chain_communication_g.Common.Int.{ℤ, pos, negsuc}
use mx_chain_communication_g.Common.{
  ℕ, suc, ◌+◌, Bool, true, false, not, Option, none, some, List, [], ◌∷◌, ◌++◌, map, Bytes,
  bytes_key, same, if◌then◌else◌, Result, ok, err, reject_if, and_then, length,
}
use mx_chain_communication_g.Errors.{
  P2pError, nil_host, nil_peers_on_channel, nil_peer_shard_resolver, nil_sharder,
  nil_preferred_peers_holder, nil_connection_monitor, nil_peer_discoverer, nil_connections_metric,
  nil_logger, invalid_value,
}
use mx_chain_communication_g.Sharding.{PeerShard}
use mx_chain_communication_g.ConnectionMonitor.{
  ConnectionMonitor, set_threshold_min_connected_peers, is_connected_to_the_network,
}

-- Which of the interfaces in the arguments are not nil; one flag for each discoverer.
pub record ArgConnectionsHandler : Type 0 where
  pub p2p_host : Bool
  pub peers_on_channel : Bool
  pub peer_shard_resolver : Bool
  pub sharder : Bool
  pub preferred_peers_holder : Bool
  pub conn_monitor : Bool
  pub peer_discoverers : List Bool
  pub connections_metric : Bool
  pub logger : Bool

unfoldable pub all_given : List Bool → Bool
all_given [] = true
all_given (given ∷ rest) = if given then all_given rest else false

unfoldable pub check_arg_connections_handler : ArgConnectionsHandler → Option P2pError
unfolding all_given
check_arg_connections_handler args =
    if not args.p2p_host
    then some nil_host
    else if not args.peers_on_channel
    then some nil_peers_on_channel
    else if not args.peer_shard_resolver
    then some nil_peer_shard_resolver
    else if not args.sharder
    then some nil_sharder
    else if not args.preferred_peers_holder
    then some nil_preferred_peers_holder
    else if not args.conn_monitor
    then some nil_connection_monitor
    else if not (all_given args.peer_discoverers)
    then some nil_peer_discoverer
    else if not args.connections_metric
    then some nil_connections_metric
    else if not args.logger
    then some nil_logger
    else none

-- A connection, with the peer and the address at its other end.
pub record Conn : Type 0 where
  pub remote_peer : Bytes
  pub remote_multiaddr : Bytes

-- What the host and its network answer at one moment. `connected` tells whether `Connectedness` gives
-- `network.Connected`.
pub record Host : Type 0 where
  pub conns : List Conn
  pub connected : Bytes → Bool
  pub peers : List Bytes
  pub conns_to_peer : Bytes → List Conn
  pub known_peers : List Bytes
  pub addrs : List Bytes
  pub known_addrs : Bytes → List Bytes
  pub address_to_peer_info : Bytes → Result P2pError Bytes
  pub get_protocols : Bytes → Result P2pError (List Bytes)

-- `closed` is whether the context is cancelled.
pub record ConnectionsHandler : Type 0 where
  pub peer_shard_resolver : Bytes → PeerShard
  pub peer_id : Bytes
  pub protocol_ids : List Bytes
  pub closed : Bool

-- "/kad/1.0.0" and "/p2p/".
abbrev pub kad_protocol : Bytes
kad_protocol = 47 ∷ 107 ∷ 97 ∷ 100 ∷ 47 ∷ 49 ∷ 46 ∷ 48 ∷ 46 ∷ 48 ∷ []

abbrev pub p2p_separator : Bytes
p2p_separator = 47 ∷ 112 ∷ 50 ∷ 112 ∷ 47 ∷ []

unfoldable pub new_connections_handler :
    ArgConnectionsHandler
    → (Bytes → PeerShard)
    → Bytes
    → List Bytes
    → Result P2pError ConnectionsHandler
unfolding check_arg_connections_handler
new_connections_handler args resolver self protocols = elim (check_arg_connections_handler args) [
  | some failed ↦ err failed
  | none ↦ ok (record {
    peer_shard_resolver = resolver;
    peer_id = self;
    protocol_ids = map (λ protocol. protocol ++ kad_protocol) protocols;
    closed = false;
  })
]

-- The loop of `Bootstrap`, over what the discoverers return; the last error is kept.
unfoldable pub bootstrap_from : Option P2pError → List (Option P2pError) → Option P2pError
bootstrap_from last_error [] = last_error
bootstrap_from last_error (none ∷ rest) = bootstrap_from last_error rest
bootstrap_from last_error (some failed ∷ rest) = bootstrap_from (some failed) rest

unfoldable pub bootstrap : List (Option P2pError) → Option P2pError
bootstrap results = bootstrap_from none results

unfoldable pub known : Bytes → List Bytes → Bool
known key [] = false
known key (k ∷ keys) = if same k key then true else known key keys

unfoldable pub any_known : List Bytes → List Bytes → Bool
any_known protocol_ids [] = false
any_known protocol_ids (protocol ∷ protocols) =
    if known protocol protocol_ids then true else any_known protocol_ids protocols

unfoldable pub has_compatible_protocol_id : ConnectionsHandler → Host → Bytes → Bool
has_compatible_protocol_id handler host address = elim (host.address_to_peer_info address) [
  | err failed ↦ false
  | ok id ↦ elim (host.get_protocols id) [
    | err failed ↦ false
    | ok protocols ↦ any_known handler.protocol_ids protocols
  ]
]

unfoldable pub addresses : (Bytes → Bytes) → ConnectionsHandler → Host → List Bytes
addresses pretty handler host =
    map (λ address. address ++ (p2p_separator ++ pretty handler.peer_id)) host.addrs

-- The loop of `ConnectedPeers`; `added` are the keys of its map.
unfoldable pub connected_peers_from : Host → List Bytes → List Conn → List Bytes
connected_peers_from host added [] = []
connected_peers_from host added (conn ∷ conns) =
    let skipped = connected_peers_from host added conns in
    let appended = connected_peers_from host (conn.remote_peer ∷ added) conns in
    if not (host.connected conn.remote_peer)
    then skipped
    else if known conn.remote_peer added
    then skipped
    else conn.remote_peer ∷ appended

unfoldable pub connected_peers : Host → List Bytes
connected_peers host = connected_peers_from host [] host.conns

unfoldable pub connected_addresses : (Bytes → Bytes) → Host → List Bytes
connected_addresses pretty host =
    map (λ c. c.remote_multiaddr ++ (p2p_separator ++ pretty c.remote_peer)) host.conns

-- The first connection to the peer, up to the `break`.
unfoldable pub first_address : Bytes → List Conn → List Bytes
first_address pid [] = []
first_address pid (c ∷ conns) =
    if same c.remote_peer pid then c.remote_multiaddr ∷ [] else first_address pid conns

unfoldable pub peer_addresses : Host → Bytes → List Bytes
peer_addresses host pid = first_address pid host.conns ++ host.known_addrs pid

-- `none` is a nil resolver; `sharder_result` is what `SetPeerShardResolver` of the sharder returns.
unfoldable pub set_peer_shard_resolver :
    ConnectionsHandler
    → Option (Bytes → PeerShard)
    → Option P2pError
    → Result P2pError ConnectionsHandler
set_peer_shard_resolver handler none sharder_result = err nil_peer_shard_resolver
set_peer_shard_resolver handler (some resolver) (some failed) = err failed
set_peer_shard_resolver handler (some resolver) none =
    ok (record handler { peer_shard_resolver = resolver })

unfoldable pub set_threshold : Host → ConnectionMonitor → ℤ → Result P2pError ConnectionMonitor
set_threshold host monitor (negsuc n) = err invalid_value
set_threshold host monitor (pos n) =
    ok (set_threshold_min_connected_peers monitor (pos n) host.peers)

unfoldable pub is_connected : Host → ConnectionMonitor → Bool
is_connected host monitor = is_connected_to_the_network monitor host.peers

-- `Close`, from what the two components return: the later error is the one that counts.
unfoldable pub close :
    ConnectionsHandler → Option P2pError → Option P2pError → ConnectionsHandler × Option P2pError
close handler err_poc none = (record handler { closed = true }, err_poc)
close handler err_poc (some failed) = (record handler { closed = true }, some failed)
