-- ===== src/ConnectionsHandler/Tests.antt =====
-- Runs of the connections handler, and the theorems at concrete inputs.
use mx_chain_communication_g.Common.{
  ℕ, digits_from, decimal, bytes_discrete, ℕ_discrete, lookup, ◌≡◌, refl, Bool, false, ◌&&◌, none,
  some, [], ◌∷◌, Bytes, bytes_key, nat_key, same, if◌then◌else◌, ltb, count_by, err,
}
use mx_chain_communication_g.Errors.{foreign}
use mx_chain_communication_g.Sharding.{PeerShard, validator_peer, observer_peer, unknown_peer}
use mx_chain_communication_g.ConnectionsHandler.{
  Conn, Host, ConnectionsHandler, known, connected_peers_from, connected_peers, bootstrap_from,
  bootstrap,
}
use mx_chain_communication_g.ConnectionsHandler.Peers
use mx_chain_communication_g.ConnectionsHandler.Peers.{times, times_listed}
use mx_chain_communication_g.ConnectionsHandler.Counts.{number_at, get_connected_peers_info}
use mx_chain_communication_g.ConnectionsHandler.Totals
use mx_chain_communication_g.ConnectionsHandler.Steps.{is_validator, is_observer}
use mx_chain_communication_g.ConnectionsHandler.Totals.{text_of, IsCounted}
use mx_chain_communication_g.ConnectionsHandler.Histogram.{
  place_key, sort_keys, join, histogram_entry, map_histogram,
}

abbrev peer : ℕ → Bytes
peer n = n ∷ []

abbrev conn : ℕ → ℕ → Conn
conn p address = record { remote_peer = peer p; remote_multiaddr = address ∷ [] }

-- Two connections to peer 2, and one to peer 3, which is no longer connected.
abbrev host : Host
host = record {
  conns = conn 2 20 ∷ conn 3 30 ∷ conn 2 21 ∷ [];
  connected = λ p. same p (peer 2);
  peers = peer 2 ∷ peer 4 ∷ peer 5 ∷ [];
  conns_to_peer = λ p. if same p (peer 2) then conn 2 20 ∷ [] else [];
  known_peers = [];
  addrs = [];
  known_addrs = λ p. [];
  address_to_peer_info = λ a. err (foreign 1);
  get_protocols = λ p. err (foreign 2);
}

-- Peer 2 validates in shard 0, peer 4 observes shard 1 and the others are unknown.
abbrev resolver : Bytes → PeerShard
resolver p =
    if same p (peer 2)
    then record { peer_type = validator_peer; shard_id = 0 }
    else if same p (peer 4)
    then record { peer_type = observer_peer; shard_id = 1 }
    else record { peer_type = unknown_peer; shard_id = 0 }

abbrev handler : ConnectionsHandler
handler = record {
  peer_shard_resolver = resolver;
  peer_id = peer 9;
  protocol_ids = [];
  closed = false;
}

abbrev nobody : Bytes → Bool
nobody p = false

abbrev pretty : Bytes → Bytes
pretty p = p

two_connections_count_once : connected_peers host ≡ peer 2 ∷ []
unfolding connected_peers connected_peers_from known bytes_discrete ℕ_discrete
two_connections_count_once = refl

last_error_of_bootstrap :
    bootstrap (some (foreign 1) ∷ none ∷ some (foreign 2) ∷ none ∷ []) ≡ some (foreign 2)
unfolding bootstrap bootstrap_from
last_error_of_bootstrap = refl

histogram_of_two_shards :
    map_histogram 7 ((12, 3) ∷ (7, 10) ∷ [])
    ≡ 109 ∷ 101 ∷ 116 ∷ 97 ∷ 58 ∷ 32 ∷ 49 ∷ 48 ∷ 44 ∷ 32 ∷ 115 ∷ 104 ∷ 97 ∷ 114 ∷ 100 ∷ 32 ∷ 49 ∷ 50
      ∷ 58 ∷ 32 ∷ 51 ∷ []
unfolding map_histogram histogram_entry join sort_keys place_key digits_from decimal number_at
    lookup ℕ_discrete
histogram_of_two_shards = refl

connected_peers-count_example :
    times (peer 2) (connected_peers host)
    ≡ (if host.connected (peer 2) && ltb 0 (times_listed (peer 2) host.conns) then 1 else 0)
connected_peers-count_example = Peers.connected_peers-count host (peer 2)

get_connected_peers_info_by_shard_example :
    IsCounted resolver 0 host.peers
      (text_of pretty host)
      is_validator
      0
      (get_connected_peers_info pretty nobody nobody handler host).num_validators_on_shard
      (get_connected_peers_info pretty nobody nobody handler host).intra_shard_validators
      (get_connected_peers_info pretty nobody nobody handler host).cross_shard_validators
    × IsCounted resolver 0 host.peers
        (text_of pretty host)
        is_observer
        0
        (get_connected_peers_info pretty nobody nobody handler host).num_observers_on_shard
        (get_connected_peers_info pretty nobody nobody handler host).intra_shard_observers
        (get_connected_peers_info pretty nobody nobody handler host).cross_shard_observers
    × (number_at 0
          (get_connected_peers_info pretty nobody nobody handler host).num_preferred_peers_on_shard
        ≡ count_by (λ p. nobody p && same (resolver p).shard_id 0) host.peers)
unfolding bytes_discrete get_connected_peers_info number_at ℕ_discrete
get_connected_peers_info_by_shard_example =
    Totals.get_connected_peers_info_by_shard pretty nobody nobody handler host 0
