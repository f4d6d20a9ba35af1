-- ===== src/ConnectionsHandler/Peers.antt =====
-- What `ConnectedPeers` and `PeerAddresses` of connectionsHandler.go list.
use mx_chain_communication_g.Common.{
  ℕ, ◌≡◌, not, ◌&&◌, List, [], ◌∷◌, Bytes, bytes_key, same, if◌then◌else◌, count_by, arith, ltb,
  same→eq,
}
use mx_chain_communication_g.ConnectionsHandler.{
  Conn, Host, known, connected_peers_from, connected_peers,
}

-- How often a peer is at the other end of a connection.
abbrev pub times_listed : Bytes → List Conn → ℕ
times_listed p conns = count_by (λ (c : Conn). same c.remote_peer p) conns

abbrev pub times : Bytes → List Bytes → ℕ
times p peers = count_by (λ q. same q p) peers

connected_peers_from-count :
    (host : Host) (added : List Bytes) (conns : List Conn) (p : Bytes)
    → times p (connected_peers_from host added conns)
      ≡ (if host.connected p && not (known p added) && ltb 0 (times_listed p conns) then 1 else 0)
unfolding connected_peers_from known
connected_peers_from-count host added [] p = ground arith
connected_peers_from-count host added (c ∷ conns) p = ground (
  arith,
  connected_peers_from-count host added conns p,
  connected_peers_from-count host (c.remote_peer ∷ added) conns p,
  same→eq c.remote_peer p,
)

-- `ConnectedPeers` lists a peer once when the network calls it connected and some connection leads to
-- it, and not at all otherwise.
pub connected_peers-count :
    (host : Host) (p : Bytes)
    → times p (connected_peers host)
      ≡ (if host.connected p && ltb 0 (times_listed p host.conns) then 1 else 0)
unfolding connected_peers known
connected_peers-count host p = ground (arith, connected_peers_from-count host [] host.conns p)
