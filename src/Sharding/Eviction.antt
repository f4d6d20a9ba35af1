-- ===== src/Sharding/Eviction.antt =====
-- `evict` and `ComputeEvictionList`: how many peers are given up, and which.
use mx_chain_communication_g.Common.Int.{pos}
use mx_chain_communication_g.Common.{
  ℕ, zero, suc, ◌+◌, ◌≤◌, ◌≡◌, Bool, true, ◌&&◌, List, [], ◌∷◌, map, Bytes, length, take, drop,
  drop_all, All-drop, All, count_by, count_by-append, count_by-map, count_by-drop-le, count_by-true,
  length-drop, length-map, length-append, arith, ok,
}
use mx_chain_communication_g.Sharding.{
  PeerShard, PeerDistance, ShardingConfig, Provided, ListsSharder, new_lists_sharder, set_seeders,
  Buckets, Kept, compute_kept, split_peer_ids, evict, evict_buckets, compute_eviction_list,
}
use mx_chain_communication_g.Sharding.Limits.{
  kept_total, new_lists_sharder-limits, compute_kept-le-allowed, in_list, tally, skips,
  split_peer_ids-tally,
}

abbrev pub Ordered : List PeerDistance → Type 0
Ordered [] = Unit
Ordered (d ∷ ds) = All (λ e. d.distance ≤ e.distance) ds × Ordered ds

-- What `sort.Sort` does to the distances: it keeps the elements, and puts them in ascending order.
pub record Sorts (sort : List PeerDistance → List PeerDistance) : Type 0 where
  pub keeps :
      (q : PeerDistance → Bool) (ds : List PeerDistance) → count_by q (sort ds) ≡ count_by q ds
  pub orders : (ds : List PeerDistance) → Ordered (sort ds)

take-drop-Ordered :
    (n : ℕ) (ds : List PeerDistance)
    → Ordered ds
    → All (λ d. All (λ e. d.distance ≤ e.distance) (drop n ds)) (take n ds)
take-drop-Ordered zero ds o = tt
take-drop-Ordered (suc n) [] o = tt
take-drop-Ordered (suc n) (d ∷ ds) o =
    (All-drop (λ e. d.distance ≤ e.distance) n ds o.0, take-drop-Ordered n ds o.1)

module _ (sort : List PeerDistance → List PeerDistance) (s : Sorts sort) where
  pub length-sort : (ds : List PeerDistance) → length (sort ds) ≡ length ds
  length-sort ds = omega (arith, s.keeps (λ d. true) ds, count_by-true (sort ds), count_by-true ds)

  length-evict : (ds : List PeerDistance) (n : ℕ) → length ds ≤ length (evict sort ds (pos n)) + n
  unfolding evict
  length-evict ds n =
      ground
        (arith, length-map (drop n (sort ds)) (λ d. d.id), length-drop n (sort ds), length-sort ds)

  in_list-evict :
      (q : Bytes → Bool) (ds : List PeerDistance) (n : ℕ)
      → count_by q (evict sort ds (pos n)) ≤ in_list q ds
  unfolding evict
  in_list-evict q ds n = ground (
    arith,
    count_by-map q (λ d. d.id) (drop n (sort ds)),
    count_by-drop-le (λ d. q d.id) n (sort ds),
    s.keeps (λ d. q d.id) ds,
  )

  -- `evict` gives up what follows the `n` closest peers of the list, and no peer that stays is
  -- farther than one that goes.
  pub evict-keeps-closest :
      (ds : List PeerDistance) (n : ℕ)
      → (evict sort ds (pos n) ≡ map (λ d. d.id) (drop n (sort ds)))
        × All (λ d. All (λ e. d.distance ≤ e.distance) (drop n (sort ds))) (take n (sort ds))
  unfolding evict
  evict-keeps-closest ds n = (
    ground (arith, length-sort ds, drop_all n (sort ds)),
    take-drop-Ordered n (sort ds) (s.orders ds),
  )

  length-evict_buckets :
      (b : Buckets) (k : Kept)
      → tally (λ p. true) b ≤ length (evict_buckets sort b k) + kept_total k
  unfolding evict_buckets
  length-evict_buckets b k = omega (
    arith,
    length-append {0},
    count_by-true b.intra_shard_validators,
    count_by-true b.cross_shard_validators,
    count_by-true b.intra_shard_observers,
    count_by-true b.cross_shard_observers,
    count_by-true b.seeders,
    count_by-true b.unknown,
    length-evict,
  )

  count_by-evict_buckets :
      (q : Bytes → Bool) (b : Buckets) (k : Kept) → count_by q (evict_buckets sort b k) ≤ tally q b
  unfolding evict_buckets
  count_by-evict_buckets q b k = omega (arith, count_by-append {0} q, in_list-evict q)

  module _ (pretty : Bytes → Bytes) (get_peer_info : Bytes → PeerShard) (preferred : Bytes → Bool)
      (compute_distance : Bytes → Bytes → ℕ) where
    abbrev skipped : ListsSharder → Bytes → Bool
    skipped = skips pretty get_peer_info preferred compute_distance

    -- Of the peers that are on a list, at most as many stay as the target peer count says.
    pub compute_eviction_list-limit :
        (given : Provided) (self : Bytes) (c : ShardingConfig) (addrs pids : List Bytes)
        {ls : ListsSharder}
        → new_lists_sharder given self c ≡ ok ls
        → let ls' = set_seeders ls addrs in
          length pids
          ≤ length
              (compute_eviction_list sort pretty get_peer_info preferred compute_distance ls' pids)
            + c.target_peer_count
            + count_by (skipped ls') pids
    unfolding compute_eviction_list set_seeders
    compute_eviction_list-limit given self c addrs pids {ls} e =
        let ls' = set_seeders ls addrs in
        let b = split_peer_ids pretty get_peer_info preferred compute_distance ls' pids in
        omega (
          arith,
          new_lists_sharder-limits given self c e,
          length-evict_buckets b (compute_kept ls'.limits b),
          compute_kept-le-allowed ls'.limits b,
          split_peer_ids-tally pretty get_peer_info preferred compute_distance ls' (λ p. true) pids,
          count_by-true pids,
        )

    -- Only given peers are given up, none more often than it was given, and no skipped peer: a
    -- preferred peer that is no seeder always stays.
    pub compute_eviction_list_sound :
        (ls : ListsSharder) (pids : List Bytes) (q : Bytes → Bool)
        → count_by q
              (compute_eviction_list sort pretty get_peer_info preferred compute_distance ls pids)
            + count_by (λ p. q p && skipped ls p) pids
          ≤ count_by q pids
    unfolding compute_eviction_list
    compute_eviction_list_sound ls pids q =
        let b = split_peer_ids pretty get_peer_info preferred compute_distance ls pids in
        omega (
          arith,
          count_by-evict_buckets q b (compute_kept ls.limits b),
          split_peer_ids-tally pretty get_peer_info preferred compute_distance ls q pids,
        )
