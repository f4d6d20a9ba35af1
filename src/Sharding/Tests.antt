-- ===== src/Sharding/Tests.antt =====
-- Runs of the sharders, and the theorems at concrete inputs, with insertion sort for `sort.Sort`.
use mx_chain_communication_g.Common.{
  ℕ, ◌+◌, ◌-◌, ◌≤◌, ◌≡◌, refl, Bool, true, ◌&&◌, List, [], ◌∷◌, Bytes, bytes_discrete, ℕ_discrete,
  length, All, count_by, same, bytes_key, leb, if◌then◌else◌, contains, arith, ok, Bool-cases, inl,
  inr, leb→le,
}
use mx_chain_communication_g.Sharding.{
  unknown_peer, validator_peer, observer_peer, PeerShard, PeerDistance, ShardingConfig, Provided,
  ListsSharder, new_lists_sharder, set_seeders, compute_used_and_spare, compute_kept, place,
  split_peer_ids, has, evict, evict_buckets, compute_eviction_list,
}
use mx_chain_communication_g.Common.Bits.{hamming, common_prefix}
use mx_chain_communication_g.Sharding.Distance
use mx_chain_communication_g.Sharding.Distance.{
  bits_of, compute_distance_by_counting_bits, compute_distance_log2_based,
}
use mx_chain_communication_g.Sharding.Limits.{skips}
use mx_chain_communication_g.Sharding.Eviction
use mx_chain_communication_g.Sharding.Eviction.{Ordered, Sorts}
use mx_chain_communication_g.Sharding.OneList.{new_one_list_sharder}
use mx_chain_communication_g.Sharding.Admission
use mx_chain_communication_g.Sharding.Admission.{
  lists_sharder, connect, concatenate_addresses, can_connect_to_peer, known_connection, dial,
}

place_in_order : PeerDistance → List PeerDistance → List PeerDistance
place_in_order d [] = d ∷ []
place_in_order d (e ∷ es) =
    if leb d.distance e.distance then d ∷ e ∷ es else e ∷ place_in_order d es

insertion_sort : List PeerDistance → List PeerDistance
unfolding place_in_order
insertion_sort [] = []
insertion_sort (d ∷ ds) = place_in_order d (insertion_sort ds)

place_in_order-keeps :
    (q : PeerDistance → Bool) (d : PeerDistance) (ds : List PeerDistance)
    → count_by q (place_in_order d ds) ≡ count_by q (d ∷ ds)
unfolding place_in_order
place_in_order-keeps q d [] = refl
place_in_order-keeps q d (e ∷ es) = ground (arith, place_in_order-keeps q d es)

All-le_trans :
    (a b : ℕ) (ds : List PeerDistance)
    → a ≤ b
    → All (λ e. b ≤ e.distance) ds
    → All (λ e. a ≤ e.distance) ds
All-le_trans a b [] h k = tt
All-le_trans a b (d ∷ ds) h k = (omega arith, All-le_trans a b ds h k.1)

place_in_order-All :
    (a : ℕ) (d : PeerDistance) (ds : List PeerDistance)
    → a ≤ d.distance
    → All (λ e. a ≤ e.distance) ds
    → All (λ e. a ≤ e.distance) (place_in_order d ds)
unfolding place_in_order
place_in_order-All a d [] h k = (h, tt)
place_in_order-All a d (e ∷ es) h k = elim (Bool-cases (leb d.distance e.distance)) [
  | inl y ↦ rw y (h, k)
  | inr n ↦ rw n (k.0, place_in_order-All a d es h k.1)
]

place_in_order-Ordered :
    (d : PeerDistance) (ds : List PeerDistance) → Ordered ds → Ordered (place_in_order d ds)
unfolding place_in_order
place_in_order-Ordered d [] o = (tt, tt)
place_in_order-Ordered d (e ∷ es) o = elim (Bool-cases (leb d.distance e.distance)) [
  | inl y ↦
      let below : d.distance ≤ e.distance = leb→le d.distance e.distance y in
      rw y ((below, All-le_trans d.distance e.distance es below o.0), o)
  | inr n ↦
      rw n (place_in_order-All e.distance d es (ground arith) o.0, place_in_order-Ordered d es o.1)
]

insertion_sort-keeps :
    (q : PeerDistance → Bool) (ds : List PeerDistance)
    → count_by q (insertion_sort ds) ≡ count_by q ds
unfolding insertion_sort
insertion_sort-keeps q [] = refl
insertion_sort-keeps q (d ∷ ds) =
    omega (arith, place_in_order-keeps q d (insertion_sort ds), insertion_sort-keeps q ds)

insertion_sort-Ordered : (ds : List PeerDistance) → Ordered (insertion_sort ds)
unfolding insertion_sort
insertion_sort-Ordered [] = tt
insertion_sort-Ordered (d ∷ ds) =
    place_in_order-Ordered d (insertion_sort ds) (insertion_sort-Ordered ds)

insertion_sort-Sorts : Sorts insertion_sort
insertion_sort-Sorts = record { keeps = insertion_sort-keeps; orders = insertion_sort-Ordered }

program : Unit {0}
unfolding insertion_sort new_lists_sharder set_seeders compute_used_and_spare compute_kept place
    split_peer_ids has evict evict_buckets compute_eviction_list contains bytes_discrete ℕ_discrete
    connect can_connect_to_peer new_one_list_sharder skips
program = tt

-- The first byte of a peer ID tells its type, the second its shard, and the last its distance.
abbrev peer_info : Bytes → PeerShard
peer_info [] = record { peer_type = unknown_peer; shard_id = 0 }
peer_info (b ∷ bs) = record {
  peer_type = if leb b 0 then unknown_peer else if leb b 1 then validator_peer else observer_peer;
  shard_id = length bs;
}

abbrev by_first : Bytes → Bytes → ℕ
by_first [] other = 0
by_first (b ∷ bs) other = b

abbrev pretty : Bytes → Bytes
pretty pid = b'p' ∷ pid

abbrev is_nine : Bytes → Bool
is_nine pid = same pid (9 ∷ [])

abbrev config : ShardingConfig
config = record {
  target_peer_count = 6;
  max_intra_shard_validators = 1;
  max_cross_shard_validators = 1;
  max_intra_shard_observers = 1;
  max_cross_shard_observers = 1;
  max_seeders = 1;
}

abbrev all_given : Provided
all_given = record { peer_resolver = true; preferred_peers_holder = true; logger = true }

abbrev sharder : ListsSharder
sharder = record {
  self_peer_id = 1 ∷ [];
  limits = record {
    max_peer_count = 6;
    intra_shard_validators = 1;
    cross_shard_validators = 1;
    intra_shard_observers = 1;
    cross_shard_observers = 1;
    seeders = 1;
    unknown = 1;
  };
  seeders = [];
}

new_sharder : new_lists_sharder all_given (1 ∷ []) config ≡ ok sharder
unfolding program
new_sharder = refl

-- Five observers of the own shard fill the spare places of the validators, and two go.
five_observers :
    compute_eviction_list insertion_sort pretty peer_info is_nine by_first sharder
      ((8 ∷ []) ∷ (4 ∷ []) ∷ (9 ∷ []) ∷ (5 ∷ []) ∷ (7 ∷ []) ∷ (6 ∷ []) ∷ [])
    ≡ (7 ∷ []) ∷ (8 ∷ []) ∷ []
unfolding program
five_observers = refl

abbrev distances : List PeerDistance
distances = record { id = 5 ∷ []; distance = 5 } ∷ record { id = 4 ∷ []; distance = 4 } ∷ []

compute_eviction_list-limit_example :
    4
    ≤ length (
        compute_eviction_list insertion_sort pretty peer_info is_nine by_first
          (set_seeders sharder [])
          ((4 ∷ []) ∷ (5 ∷ []) ∷ (6 ∷ []) ∷ (7 ∷ []) ∷ []))
      + 6
      + count_by
          (skips pretty peer_info is_nine by_first (set_seeders sharder []))
          ((4 ∷ []) ∷ (5 ∷ []) ∷ (6 ∷ []) ∷ (7 ∷ []) ∷ [])
compute_eviction_list-limit_example =
    Eviction.compute_eviction_list-limit insertion_sort insertion_sort-Sorts pretty peer_info
      is_nine by_first all_given (1 ∷ []) config [] ((4 ∷ []) ∷ (5 ∷ []) ∷ (6 ∷ []) ∷ (7 ∷ []) ∷ [])
      new_sharder

compute_eviction_list_sound_example :
    count_by is_nine (
        compute_eviction_list insertion_sort pretty peer_info is_nine by_first sharder
          ((9 ∷ []) ∷ (4 ∷ []) ∷ []))
      + count_by
          (λ p. is_nine p && skips pretty peer_info is_nine by_first sharder p)
          ((9 ∷ []) ∷ (4 ∷ []) ∷ [])
    ≤ count_by is_nine ((9 ∷ []) ∷ (4 ∷ []) ∷ [])
compute_eviction_list_sound_example =
    Eviction.compute_eviction_list_sound insertion_sort insertion_sort-Sorts pretty peer_info
      is_nine by_first sharder ((9 ∷ []) ∷ (4 ∷ []) ∷ []) is_nine

abbrev four_peers : List Bytes
four_peers = (4 ∷ []) ∷ (5 ∷ []) ∷ (6 ∷ []) ∷ (7 ∷ []) ∷ []

connect-skipped_example :
    connect
      (lists_sharder insertion_sort insertion_sort-Sorts pretty peer_info is_nine by_first sharder)
      four_peers
      (9 ∷ [])
      []
      (ok tt)
    ≡ (known_connection (9 ∷ []) (concatenate_addresses []) ∷ dial (9 ∷ []) ∷ [], ok tt)
unfolding program
connect-skipped_example =
    Admission.connect-skipped insertion_sort insertion_sort-Sorts pretty peer_info is_nine by_first
      sharder four_peers (9 ∷ []) [] (ok tt) refl

-- A conversion that puts one byte in front.
abbrev convert : Bytes → Bytes
convert peer = 7 ∷ peer

compute_distance_reference_example :
    (compute_distance_by_counting_bits convert (9 ∷ []) (4 ∷ [])
      ≡ hamming (bits_of (convert (9 ∷ []))) (bits_of (convert (4 ∷ []))))
    × (compute_distance_log2_based convert (9 ∷ []) (4 ∷ [])
        ≡ length (bits_of (convert (9 ∷ [])))
          - common_prefix (bits_of (convert (9 ∷ []))) (bits_of (convert (4 ∷ []))))
compute_distance_reference_example =
    Distance.compute_distance_reference convert (9 ∷ []) (4 ∷ []) (omega arith, (omega arith, tt))
      (omega arith, (omega arith, tt)) refl

distances_of_two_peers :
    (compute_distance_by_counting_bits convert (9 ∷ []) (4 ∷ []) ≡ 3)
    × (compute_distance_log2_based convert (9 ∷ []) (4 ∷ []) ≡ 4)
unfolding compute_distance_by_counting_bits compute_distance_log2_based Distance.cumulate_bits
    Distance.ones_count8 Distance.cumulate_zeros Distance.leading_zeros Distance.leading_zeros_count
distances_of_two_peers = (refl, refl)
