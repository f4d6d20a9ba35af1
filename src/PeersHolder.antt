-- ===== src/PeersHolder.antt =====
-- p2p/peersHolder/peersHolder.go: the preferred peers, by connection address and by shard.
-- Go maps are association lists, a nil slice is the empty list, and a call that would panic
-- yields `panics`. `net.ParseIP` and the decoder of peer IDs are parameters.
pub mod Registry
pub mod Removal
mod Tests
use mx_chain_communication_g.Common.{
  ℕ, ◌-◌, ◌≡◌, Bool, true, false, ◌||◌, Option, none, some, List, [], ◌∷◌, ◌++◌, Bytes, bytes_key,
  nat_key, Map, same, lookup, insert, delete, length, if◌then◌else◌, is_some, Outcome, contains,
  returns, panics, ◌>>=◌, cut,
}

pub record PeerInfo : Type 0 where
  pub pid : Bytes
  pub shard_id : ℕ

pub record PeerIdData : Type 0 where
  pub connection_address : Bytes
  pub shard_id : ℕ
  pub index : ℕ

pub record PeersHolder : Type 0 where
  pub preferred_conn_addresses : List Bytes
  pub conn_addr_to_peers_info : Map Bytes (List PeerInfo)
  pub temp_peer_ids_waiting_for_shard : Map Bytes Bytes
  pub peer_ids_per_shard : Map ℕ (List Bytes)
  pub peer_ids : Map Bytes PeerIdData

-- A read of a map whose values are slices: a missing key gives nil.
abbrev pub slice_of {ℓ} : {V : Type ℓ} → Option (List V) → List V
slice_of none = []
slice_of (some vs) = vs

-- `IsValid` of connectionStringValidator.go.
unfoldable pub is_valid : (Bytes → Bool) → (Bytes → Bool) → Bytes → Bool
is_valid is_valid_ip is_valid_peer_id conn_str = is_valid_ip conn_str || is_valid_peer_id conn_str

abbrev pub empty_holder : PeersHolder
empty_holder = record {
  preferred_conn_addresses = [];
  conn_addr_to_peers_info = [];
  temp_peer_ids_waiting_for_shard = [];
  peer_ids_per_shard = [];
  peer_ids = [];
}

-- The loop of `NewPeersHolder`; `none` is the error for an address that is not valid.
unfoldable pub add_preferred : (Bytes → Bool) → List Bytes → PeersHolder → Option PeersHolder
add_preferred valid [] h = some h
add_preferred valid (conn_addr ∷ rest) h =
    let added = add_preferred valid rest (record h {
      preferred_conn_addresses = h.preferred_conn_addresses ++ conn_addr ∷ [];
      conn_addr_to_peers_info = insert conn_addr [] h.conn_addr_to_peers_info;
    }) in
    if valid conn_addr then added else none

unfoldable pub new_peers_holder : (Bytes → Bool) → (Bytes → Bool) → List Bytes → Option PeersHolder
unfolding add_preferred is_valid
new_peers_holder is_valid_ip is_valid_peer_id addresses =
    add_preferred (is_valid is_valid_ip is_valid_peer_id) addresses empty_holder

-- The first preferred address inside the connection string, or the empty string.
unfoldable pub get_known_connection : List Bytes → Bytes → Bytes
get_known_connection [] connection_address = []
get_known_connection (preferred ∷ rest) connection_address =
    if contains connection_address preferred
    then preferred
    else get_known_connection rest connection_address

unfoldable pub get_peer_info_for_peer_id : Bytes → List PeerInfo → Option PeerInfo
get_peer_info_for_peer_id peer_id [] = none
get_peer_info_for_peer_id peer_id (info ∷ infos) =
    if same peer_id info.pid then some info else get_peer_info_for_peer_id peer_id infos

module _ (all_shard_id : ℕ) where
  unfoldable pub add_new_peer_info_to_maps : PeersHolder → Bytes → Bytes → PeersHolder
  add_new_peer_info_to_maps h peer_id known = record h {
    temp_peer_ids_waiting_for_shard = insert peer_id known h.temp_peer_ids_waiting_for_shard;
    conn_addr_to_peers_info =
        insert known
          (slice_of (lookup known h.conn_addr_to_peers_info)
            ++ record { pid = peer_id; shard_id = all_shard_id } ∷ [])
          h.conn_addr_to_peers_info;
  }

  -- The two `if` statements after the lookup: a nil slice holds no entry for the peer.
  unfoldable pub add_if_missing : PeersHolder → Bytes → Bytes → PeersHolder
  unfolding add_new_peer_info_to_maps
  add_if_missing h peer_id known =
      elim (get_peer_info_for_peer_id peer_id (slice_of (lookup known h.conn_addr_to_peers_info))) [
        | none ↦ add_new_peer_info_to_maps h peer_id known
        | some _ ↦ h
      ]

  unfoldable pub put_connection_address : PeersHolder → Bytes → Bytes → PeersHolder
  unfolding add_if_missing
  put_connection_address h peer_id connection_address =
      elim (get_known_connection h.preferred_conn_addresses connection_address) [
        | [] ↦ h
        | b ∷ bs ↦ add_if_missing h peer_id (b ∷ bs)
      ]

-- `pInfo.shardID = shardID` at the entry that `getPeerInfoForPeerID` found.
unfoldable pub set_shard_id : Bytes → ℕ → List PeerInfo → List PeerInfo
set_shard_id peer_id shard [] = []
set_shard_id peer_id shard (info ∷ infos) =
    if same peer_id info.pid
    then record info { shard_id = shard } ∷ infos
    else info ∷ set_shard_id peer_id shard infos

-- The end of `PutShardID`, once the entry for the peer is found at its known connection.
unfoldable pub register_shard : PeersHolder → Bytes → ℕ → Bytes → PeersHolder
unfolding set_shard_id
register_shard h peer_id shard known = record h {
  conn_addr_to_peers_info =
      insert known (set_shard_id peer_id shard (slice_of (lookup known h.conn_addr_to_peers_info)))
        h.conn_addr_to_peers_info;
  peer_ids_per_shard = insert shard in_shard h.peer_ids_per_shard;
  peer_ids =
      insert peer_id
        (record { connection_address = known; shard_id = shard; index = length in_shard - 1 })
        h.peer_ids;
  temp_peer_ids_waiting_for_shard = delete peer_id h.temp_peer_ids_waiting_for_shard;
}
  where
    in_shard : List Bytes
    in_shard = slice_of (lookup shard h.peer_ids_per_shard) ++ peer_id ∷ []

unfoldable pub put_shard_id : PeersHolder → Bytes → ℕ → PeersHolder
unfolding register_shard get_peer_info_for_peer_id
put_shard_id h peer_id shard = elim (lookup peer_id h.temp_peer_ids_waiting_for_shard) [
  | none ↦ h
  | some known ↦
      elim (get_peer_info_for_peer_id peer_id (slice_of (lookup known h.conn_addr_to_peers_info))) [
        | none ↦ h
        | some _ ↦ register_shard h peer_id shard known
      ]
]

unfoldable pub get : PeersHolder → Map ℕ (List Bytes)
get h = h.peer_ids_per_shard

unfoldable pub contains_peer : PeersHolder → Bytes → Bool
contains_peer h peer_id = is_some (lookup peer_id h.peer_ids)

-- `removePeerFromMapAtIndex`: the key goes with the last peer of the shard.
unfoldable pub remove_peer_from_map_at_index :
    Map ℕ (List Bytes) → ℕ → ℕ → Outcome (Map ℕ (List Bytes))
remove_peer_from_map_at_index per_shard shard index = do
  rest ← cut (slice_of (lookup shard per_shard)) index
  returns (elim rest [ [] ↦ delete shard per_shard | p ∷ ps ↦ insert shard (p ∷ ps) per_shard ])

-- `removePeerInfoAtConnectionAddress` drops the first entry for the peer.
unfoldable pub drop_peer_info : Bytes → List PeerInfo → List PeerInfo
drop_peer_info peer_id [] = []
drop_peer_info peer_id (info ∷ infos) =
    if same peer_id info.pid then infos else info ∷ drop_peer_info peer_id infos

unfoldable pub remove_peer_info_at_connection_address :
    Map Bytes (List PeerInfo) → Bytes → Bytes → Map Bytes (List PeerInfo)
unfolding drop_peer_info
remove_peer_info_at_connection_address infos peer_id conn_addr =
    elim (slice_of (lookup conn_addr infos)) [
      | [] ↦ infos
      | i ∷ is ↦ insert conn_addr (drop_peer_info peer_id (i ∷ is)) infos
    ]

unfoldable pub remove : PeersHolder → Bytes → Outcome PeersHolder
unfolding remove_peer_from_map_at_index remove_peer_info_at_connection_address
remove h peer_id = elim (lookup peer_id h.peer_ids) [
  | none ↦ returns h
  | some d ↦ do
    per_shard ← remove_peer_from_map_at_index h.peer_ids_per_shard d.shard_id d.index
    returns (record h {
      peer_ids_per_shard = per_shard;
      peer_ids = delete peer_id h.peer_ids;
      conn_addr_to_peers_info =
          remove_peer_info_at_connection_address h.conn_addr_to_peers_info peer_id
            d.connection_address;
      temp_peer_ids_waiting_for_shard = delete peer_id h.temp_peer_ids_waiting_for_shard;
    })
]

unfoldable pub clear : PeersHolder → PeersHolder
clear h = record h {
  conn_addr_to_peers_info = [];
  temp_peer_ids_waiting_for_shard = [];
  peer_ids_per_shard = [];
  peer_ids = [];
}
