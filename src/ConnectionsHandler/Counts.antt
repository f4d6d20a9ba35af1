-- ===== src/ConnectionsHandler/Counts.antt =====
-- `GetConnectedPeersInfo` of connectionsHandler.go: the connected peers by type and by shard.
-- The counters are Go ints of 64 bits; a node has fewer peers than that.
use mx_chain_communication_g.Common.{
  ℕ, suc, Bool, not, none, some, List, [], ◌∷◌, ◌++◌, Bytes, bytes_key, nat_key, same,
  if◌then◌else◌, Map, lookup, insert,
}
use mx_chain_communication_g.Sharding.{
  unknown_peer, validator_peer, observer_peer, other_peer, PeerShard,
}
use mx_chain_communication_g.ConnectionsHandler.{Host, ConnectionsHandler, p2p_separator}

-- p2p.ConnectedPeersInfo.
pub record ConnectedPeersInfo : Type 0 where
  pub self_shard_id : ℕ
  pub unknown_peers : List Bytes
  pub seeders : List Bytes
  pub intra_shard_validators : Map ℕ (List Bytes)
  pub intra_shard_observers : Map ℕ (List Bytes)
  pub cross_shard_validators : Map ℕ (List Bytes)
  pub cross_shard_observers : Map ℕ (List Bytes)
  pub num_validators_on_shard : Map ℕ ℕ
  pub num_observers_on_shard : Map ℕ ℕ
  pub num_preferred_peers_on_shard : Map ℕ ℕ
  pub num_intra_shard_validators : ℕ
  pub num_intra_shard_observers : ℕ
  pub num_cross_shard_validators : ℕ
  pub num_cross_shard_observers : ℕ

unfoldable pub empty_info : ℕ → ConnectedPeersInfo
empty_info self = record {
  self_shard_id = self;
  unknown_peers = [];
  seeders = [];
  intra_shard_validators = [];
  intra_shard_observers = [];
  cross_shard_validators = [];
  cross_shard_observers = [];
  num_validators_on_shard = [];
  num_observers_on_shard = [];
  num_preferred_peers_on_shard = [];
  num_intra_shard_validators = 0;
  num_intra_shard_observers = 0;
  num_cross_shard_validators = 0;
  num_cross_shard_observers = 0;
}

-- An entry of a map, the zero value where the shard has none.
unfoldable pub number_at : ℕ → Map ℕ ℕ → ℕ
number_at shard m = elim (lookup shard m) [ none ↦ 0 | some n ↦ n ]

unfoldable pub strings_at : ℕ → Map ℕ (List Bytes) → List Bytes
strings_at shard m = elim (lookup shard m) [ none ↦ [] | some l ↦ l ]

-- `m[shard]++` and `m[shard] = append(m[shard], s)`.
unfoldable pub increment : ℕ → Map ℕ ℕ → Map ℕ ℕ
unfolding number_at
increment shard m = insert shard (suc (number_at shard m)) m

unfoldable pub append_at : ℕ → Bytes → Map ℕ (List Bytes) → Map ℕ (List Bytes)
unfolding strings_at
append_at shard s m = insert shard (strings_at shard m ++ s ∷ []) m

-- "[invalid connection string]"
abbrev pub invalid_connection_string : Bytes
invalid_connection_string =
    91 ∷ 105 ∷ 110 ∷ 118 ∷ 97 ∷ 108 ∷ 105 ∷ 100 ∷ 32 ∷ 99 ∷ 111 ∷ 110 ∷ 110 ∷ 101 ∷ 99 ∷ 116 ∷ 105
    ∷ 111 ∷ 110 ∷ 32 ∷ 115 ∷ 116 ∷ 114 ∷ 105 ∷ 110 ∷ 103 ∷ 93 ∷ []

module _ (pretty : Bytes → Bytes) (is_seeder : Bytes → Bool) (preferred : Bytes → Bool) where
  unfoldable pub append_peer_info :
      PeerShard → PeerShard → Bytes → ConnectedPeersInfo → Bytes → ConnectedPeersInfo
  append_peer_info peer_info self_peer_info pid info conn_string =
      let shard = peer_info.shard_id in
      elim peer_info.peer_type [
        | unknown_peer ↦
            if is_seeder pid
            then record info { seeders = info.seeders ++ conn_string ∷ [] }
            else record info { unknown_peers = info.unknown_peers ++ conn_string ∷ [] }
        | validator_peer ↦
            if not (same self_peer_info.shard_id shard)
            then record info {
              num_validators_on_shard = increment shard info.num_validators_on_shard;
              cross_shard_validators = append_at shard conn_string info.cross_shard_validators;
              num_cross_shard_validators = suc info.num_cross_shard_validators;
            }
            else record info {
              num_validators_on_shard = increment shard info.num_validators_on_shard;
              intra_shard_validators = append_at shard conn_string info.intra_shard_validators;
              num_intra_shard_validators = suc info.num_intra_shard_validators;
            }
        | observer_peer ↦
            if not (same self_peer_info.shard_id shard)
            then record info {
              num_observers_on_shard = increment shard info.num_observers_on_shard;
              cross_shard_observers = append_at shard conn_string info.cross_shard_observers;
              num_cross_shard_observers = suc info.num_cross_shard_observers;
            }
            else record info {
              num_observers_on_shard = increment shard info.num_observers_on_shard;
              intra_shard_observers = append_at shard conn_string info.intra_shard_observers;
              num_intra_shard_observers = suc info.num_intra_shard_observers;
            }
        | other_peer ↦ info
      ]

  unfoldable pub connection_string : Host → Bytes → Bytes
  connection_string host p = elim (host.conns_to_peer p) [
    | [] ↦ invalid_connection_string
    | c ∷ _ ↦ c.remote_multiaddr ++ (p2p_separator ++ pretty p)
  ]

  -- The body of the loop.
  unfoldable pub add_peer :
      Host → (Bytes → PeerShard) → PeerShard → ConnectedPeersInfo → Bytes → ConnectedPeersInfo
  unfolding append_peer_info connection_string
  add_peer host get_peer_info self_peer_info info p =
      let peer_info = get_peer_info p in
      let appended = append_peer_info peer_info self_peer_info p info (connection_string host p) in
      if preferred p
      then record appended {
        num_preferred_peers_on_shard =
            increment peer_info.shard_id appended.num_preferred_peers_on_shard;
      }
      else appended

  unfoldable pub add_peers :
      Host → (Bytes → PeerShard) → PeerShard → ConnectedPeersInfo → List Bytes → ConnectedPeersInfo
  unfolding add_peer
  add_peers host get_peer_info self_peer_info info [] = info
  add_peers host get_peer_info self_peer_info info (p ∷ peers) =
      add_peers host get_peer_info self_peer_info
        (add_peer host get_peer_info self_peer_info info p) peers

  unfoldable pub get_connected_peers_info : ConnectionsHandler → Host → ConnectedPeersInfo
  unfolding add_peers
  get_connected_peers_info handler host =
      let self_peer_info = handler.peer_shard_resolver handler.peer_id in
      add_peers host handler.peer_shard_resolver self_peer_info (empty_info self_peer_info.shard_id)
        host.peers
