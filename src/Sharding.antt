-- ===== src/Sharding.antt =====
-- p2p/libp2p/networksharding: which connected peers a node gives up.
-- The shard resolver, the holder of preferred peers, the distance and the pretty print of a peer
-- ID are parameters, and so is `sort.Sort`, which is not stable. Counts are Go ints of 64 bits
-- made from uint32 values, so their sums do not wrap.
pub mod Limits
pub mod Eviction
pub mod OneList
pub mod Admission
pub mod Distance
mod Tests
use mx_chain_communication_g.Common.Int.{ℤ, pos, negsuc}
use mx_chain_communication_g.Common.{
  ℕ, ◌+◌, ◌-◌, Bool, true, false, List, [], ◌∷◌, ◌++◌, map, Bytes, bytes_key, nat_key, same, length,
  drop, ltb, leb, not, if◌then◌else◌, contains, Result, ok, err, and_then, reject_if,
}
use mx_chain_communication_g.Errors.{
  P2pError, nil_peer_shard_resolver, invalid_value, nil_preferred_peers_holder, nil_logger,
}

-- `other_peer` is any value of core.P2PPeerType beside the three that the code names.
pub data PeerType : Type 0 where
  unknown_peer validator_peer observer_peer other_peer : PeerType

pub record PeerShard : Type 0 where
  pub peer_type : PeerType
  pub shard_id : ℕ

-- sorting.PeerDistance; the big.Int is never negative.
pub record PeerDistance : Type 0 where
  pub id : Bytes
  pub distance : ℕ

pub record ShardingConfig : Type 0 where
  pub target_peer_count : ℕ
  pub max_intra_shard_validators : ℕ
  pub max_cross_shard_validators : ℕ
  pub max_intra_shard_observers : ℕ
  pub max_cross_shard_observers : ℕ
  pub max_seeders : ℕ

pub record PeersConnections : Type 0 where
  pub max_peer_count : ℕ
  pub intra_shard_validators : ℕ
  pub cross_shard_validators : ℕ
  pub intra_shard_observers : ℕ
  pub cross_shard_observers : ℕ
  pub seeders : ℕ
  pub unknown : ℕ

abbrev pub min_unknown_peers : ℕ
min_unknown_peers = 1

unfoldable pub process_num_connections : ShardingConfig → Result P2pError PeersConnections
process_num_connections c =
    reject_if (ltb c.target_peer_count (provided + min_unknown_peers)) invalid_value (
      ok (record {
        max_peer_count = c.target_peer_count;
        intra_shard_validators = c.max_intra_shard_validators;
        cross_shard_validators = c.max_cross_shard_validators;
        intra_shard_observers = c.max_intra_shard_observers;
        cross_shard_observers = c.max_cross_shard_observers;
        seeders = c.max_seeders;
        unknown = c.target_peer_count - provided;
      }))
  where
    provided : ℕ
    provided =
        c.max_intra_shard_validators + c.max_cross_shard_validators + c.max_intra_shard_observers
        + c.max_cross_shard_observers + c.max_seeders

-- The limits and the seeders of a `listsSharder`; its collaborators are parameters below.
pub record ListsSharder : Type 0 where
  pub self_peer_id : Bytes
  pub limits : PeersConnections
  pub seeders : List Bytes

-- Which of the interfaces in `ArgListsSharder` are not nil.
pub record Provided : Type 0 where
  pub peer_resolver : Bool
  pub preferred_peers_holder : Bool
  pub logger : Bool

unfoldable pub new_lists_sharder : Provided → Bytes → ShardingConfig → Result P2pError ListsSharder
unfolding process_num_connections
new_lists_sharder given self c = reject_if (not given.peer_resolver) nil_peer_shard_resolver (
    reject_if (ltb c.target_peer_count 5) invalid_value (
      reject_if (ltb c.max_intra_shard_validators 1) invalid_value (
        reject_if (ltb c.max_cross_shard_validators 1) invalid_value (
          reject_if (ltb c.max_intra_shard_observers 1) invalid_value (
            reject_if (ltb c.max_cross_shard_observers 1) invalid_value (
              reject_if (not given.preferred_peers_holder) nil_preferred_peers_holder (
                reject_if (not given.logger) nil_logger (
                  and_then (process_num_connections c) λ limits.
                    ok (record { self_peer_id = self; limits = limits; seeders = [] })))))))))

unfoldable pub set_seeders : ListsSharder → List Bytes → ListsSharder
set_seeders ls addresses = record ls { seeders = addresses }

-- The values that `computeUsedAndSpare` returns.
unfoldable pub compute_used_and_spare : ℕ → ℕ → ℕ × ℕ
compute_used_and_spare existing maximum =
    if ltb existing maximum then (existing, maximum - existing) else (maximum, 0)

unfoldable pub has : Bytes → List Bytes → Bool
has pid [] = false
has pid (p ∷ ps) = if same p pid then true else has pid ps

-- The six lists of `splitPeerIds`.
pub record Buckets : Type 0 where
  pub intra_shard_validators : List PeerDistance
  pub intra_shard_observers : List PeerDistance
  pub cross_shard_validators : List PeerDistance
  pub cross_shard_observers : List PeerDistance
  pub seeders : List PeerDistance
  pub unknown : List PeerDistance

abbrev pub no_buckets : Buckets
no_buckets = record {
  intra_shard_validators = [];
  intra_shard_observers = [];
  cross_shard_validators = [];
  cross_shard_observers = [];
  seeders = [];
  unknown = [];
}

-- The loop of `IsSeeder`: some seeder address holds the pretty print of the peer ID.
unfoldable pub is_seeder_in : Bytes → List Bytes → Bool
is_seeder_in str_pretty [] = false
is_seeder_in str_pretty (seeder ∷ rest) =
    if contains seeder str_pretty then true else is_seeder_in str_pretty rest

-- The two `switch` statements, on the type of the peer and on whether its shard is another.
unfoldable pub place_by_type : Buckets → PeerType → Bool → PeerDistance → Buckets
place_by_type b unknown_peer cross pd = record b { unknown = b.unknown ++ pd ∷ [] }
place_by_type b validator_peer true pd = record b {
  cross_shard_validators = b.cross_shard_validators ++ pd ∷ [];
}
place_by_type b observer_peer true pd = record b {
  cross_shard_observers = b.cross_shard_observers ++ pd ∷ [];
}
place_by_type b validator_peer false pd = record b {
  intra_shard_validators = b.intra_shard_validators ++ pd ∷ [];
}
place_by_type b observer_peer false pd = record b {
  intra_shard_observers = b.intra_shard_observers ++ pd ∷ [];
}
place_by_type b other_peer cross pd = b

module _ (pretty : Bytes → Bytes) (get_peer_info : Bytes → PeerShard) (preferred : Bytes → Bool)
    (compute_distance : Bytes → Bytes → ℕ) where
  unfoldable pub is_seeder : ListsSharder → Bytes → Bool
  unfolding is_seeder_in
  is_seeder ls pid = is_seeder_in (pretty pid) ls.seeders

  -- The body of the loop of `splitPeerIds`, with the early `continue`s as branches.
  unfoldable pub place : ListsSharder → PeerShard → Buckets → Bytes → Buckets
  unfolding is_seeder place_by_type
  place ls self_info b p =
      let pd : PeerDistance = record { id = p; distance = compute_distance p ls.self_peer_id } in
      let info = get_peer_info p in
      if is_seeder ls p
      then record b { seeders = b.seeders ++ pd ∷ [] }
      else if preferred p
      then b
      else place_by_type b info.peer_type (not (same info.shard_id self_info.shard_id)) pd

  unfoldable pub split_from : ListsSharder → PeerShard → Buckets → List Bytes → Buckets
  split_from ls self_info b [] = b
  split_from ls self_info b (p ∷ ps) = split_from ls self_info (place ls self_info b p) ps

  unfoldable pub split_peer_ids : ListsSharder → List Bytes → Buckets
  unfolding split_from
  split_peer_ids ls peers = split_from ls (get_peer_info ls.self_peer_id) no_buckets peers

-- How many peers of each list stay.
pub record Kept : Type 0 where
  pub intra_shard_validators : ℕ
  pub cross_shard_validators : ℕ
  pub intra_shard_observers : ℕ
  pub cross_shard_observers : ℕ
  pub seeders : ℕ
  pub unknown : ℕ

-- The chain of `computeUsedAndSpare` calls: what one list does not use, the next one may.
unfoldable pub compute_kept : PeersConnections → Buckets → Kept
compute_kept l b =
    let (iv, spare_iv) =
      compute_used_and_spare (length b.intra_shard_validators) l.intra_shard_validators in
    let (cv, spare_cv) =
      compute_used_and_spare (length b.cross_shard_validators)
        (l.cross_shard_validators + spare_iv) in
    let (io, spare_io) =
      compute_used_and_spare (length b.intra_shard_observers)
        (l.intra_shard_observers + spare_cv) in
    let (co, spare_co) =
      compute_used_and_spare (length b.cross_shard_observers)
        (l.cross_shard_observers + spare_io) in
    let (se, _) = compute_used_and_spare (length b.seeders) l.seeders in
    let (un, _) = compute_used_and_spare (length b.unknown) (l.unknown + spare_co) in
    record {
      intra_shard_validators = iv;
      cross_shard_validators = cv;
      intra_shard_observers = io;
      cross_shard_observers = co;
      seeders = se;
      unknown = un;
    }

module _ (sort : List PeerDistance → List PeerDistance) where
  evict_from : List PeerDistance → ℕ → List Bytes
  evict_from distances num_keep =
      if leb (length distances) num_keep
      then []
      else map (λ pd. pd.id) (drop num_keep (sort distances))

  unfoldable pub evict : List PeerDistance → ℤ → List Bytes
  unfolding evict_from
  evict distances (negsuc _) = evict_from distances 0
  evict distances (pos num_keep) = evict_from distances num_keep

  -- The six calls of `evict`, appended in the order of the code.
  unfoldable pub evict_buckets : Buckets → Kept → List Bytes
  evict_buckets b k =
      evict b.intra_shard_validators (pos k.intra_shard_validators)
      ++ (evict b.cross_shard_validators (pos k.cross_shard_validators)
          ++ (evict b.intra_shard_observers (pos k.intra_shard_observers)
              ++ (evict b.cross_shard_observers (pos k.cross_shard_observers)
                  ++ (evict b.seeders (pos k.seeders) ++ evict b.unknown (pos k.unknown)))))

  unfoldable pub compute_eviction_list :
      (Bytes → Bytes)
      → (Bytes → PeerShard)
      → (Bytes → Bool)
      → (Bytes → Bytes → ℕ)
      → ListsSharder
      → List Bytes
      → List Bytes
  compute_eviction_list pretty get_peer_info preferred compute_distance ls pids =
      let b = split_peer_ids pretty get_peer_info preferred compute_distance ls pids in
      evict_buckets b (compute_kept ls.limits b)
