-- ===== src/Sharding/Limits.antt =====
-- The numbers behind `ComputeEvictionList`: the limits of a sharder, what `computeUsedAndSpare`
-- shares out, and how many peers the six lists hold.
use mx_chain_communication_g.Common.{
  ℕ, ◌+◌, ◌≤◌, ◌≡◌, refl, Bool, true, false, not, ◌&&◌, ◌||◌, List, [], ◌∷◌, Bytes, same, nat_key,
  count_by, count_by-append, if◌then◌else◌, arith, ok,
}
use mx_chain_communication_g.Sharding.{
  PeerType, unknown_peer, validator_peer, observer_peer, other_peer, PeerShard, PeerDistance,
  ShardingConfig, PeersConnections, Provided, ListsSharder, new_lists_sharder, Buckets, Kept,
  compute_used_and_spare, compute_kept, place_by_type, is_seeder, place, split_from, split_peer_ids,
  no_buckets,
}

-- The connections that the limits allow together.
abbrev pub allowed : PeersConnections → ℕ
allowed l =
    l.intra_shard_validators + l.cross_shard_validators + l.intra_shard_observers
    + l.cross_shard_observers + l.seeders + l.unknown

abbrev pub kept_total : Kept → ℕ
kept_total k =
    k.intra_shard_validators + k.cross_shard_validators + k.intra_shard_observers
    + k.cross_shard_observers + k.seeders + k.unknown

-- The limits of a sharder that the constructor accepts add up to the target peer count, and each of
-- the four validator and observer limits and the limit of unknown peers is at least one.
pub new_lists_sharder-limits :
    (given : Provided) (self : Bytes) (c : ShardingConfig) {ls : ListsSharder}
    → new_lists_sharder given self c ≡ ok ls
    → (allowed ls.limits ≡ c.target_peer_count)
      × (1 ≤ ls.limits.unknown)
      × (1 ≤ ls.limits.intra_shard_validators)
      × (1 ≤ ls.limits.cross_shard_validators)
      × (1 ≤ ls.limits.intra_shard_observers)
      × (1 ≤ ls.limits.cross_shard_observers)
unfolding new_lists_sharder
new_lists_sharder-limits given self c e = ground arith

used_and_spare :
    (existing maximum : ℕ) → let r = compute_used_and_spare existing maximum in r.0 + r.1 ≡ maximum
unfolding compute_used_and_spare
used_and_spare existing maximum = ground arith

-- However the spare places are handed on, the lists keep no more peers than the limits allow.
pub compute_kept-le-allowed :
    (l : PeersConnections) (b : Buckets) → kept_total (compute_kept l b) ≤ allowed l
unfolding compute_kept
compute_kept-le-allowed l b = omega (arith, used_and_spare)

-- How many peers of the lists pass a test.
abbrev pub in_list : (Bytes → Bool) → List PeerDistance → ℕ
in_list q ds = count_by (λ pd. q pd.id) ds

abbrev pub tally : (Bytes → Bool) → Buckets → ℕ
tally q b =
    in_list q b.intra_shard_validators
    + in_list q b.cross_shard_validators
    + in_list q b.intra_shard_observers
    + in_list q b.cross_shard_observers
    + in_list q b.seeders
    + in_list q b.unknown

is_other : PeerType → Bool
is_other other_peer = true
is_other unknown_peer = false
is_other validator_peer = false
is_other observer_peer = false

place_by_type-tally :
    (q : Bytes → Bool) (b : Buckets) (t : PeerType) (cross : Bool) (pd : PeerDistance)
    → tally q (place_by_type b t cross pd)
      ≡ tally q b + (if is_other t then 0 else if q pd.id then 1 else 0)
unfolding place_by_type is_other
place_by_type-tally q b unknown_peer cross pd =
    omega (arith, count_by-append (λ d. q d.id) b.unknown (pd ∷ []))
place_by_type-tally q b validator_peer true pd =
    omega (arith, count_by-append (λ d. q d.id) b.cross_shard_validators (pd ∷ []))
place_by_type-tally q b observer_peer true pd =
    omega (arith, count_by-append (λ d. q d.id) b.cross_shard_observers (pd ∷ []))
place_by_type-tally q b validator_peer false pd =
    omega (arith, count_by-append (λ d. q d.id) b.intra_shard_validators (pd ∷ []))
place_by_type-tally q b observer_peer false pd =
    omega (arith, count_by-append (λ d. q d.id) b.intra_shard_observers (pd ∷ []))
place_by_type-tally q b other_peer cross pd = omega arith

module _ (pretty : Bytes → Bytes) (get_peer_info : Bytes → PeerShard) (preferred : Bytes → Bool)
    (compute_distance : Bytes → Bytes → ℕ) (ls : ListsSharder) where
  -- A peer that stands in none of the lists: no seeder, and preferred or of another type.
  unfoldable pub skips : Bytes → Bool
  unfolding is_other
  skips p =
      not (is_seeder pretty get_peer_info preferred compute_distance ls p)
      && (preferred p || is_other (get_peer_info p).peer_type)

  place-tally :
      (q : Bytes → Bool) (self_info : PeerShard) (b : Buckets) (p : Bytes)
      → tally q (place pretty get_peer_info preferred compute_distance ls self_info b p)
        ≡ tally q b + (if skips p then 0 else if q p then 1 else 0)
  unfolding place skips
  place-tally q self_info b p = ground (
    arith,
    place_by_type-tally q b (get_peer_info p).peer_type
        (not (same (get_peer_info p).shard_id self_info.shard_id))
        (record { id = p; distance = compute_distance p ls.self_peer_id }),
    count_by-append (λ d. q d.id) b.seeders
        (record { id = p; distance = compute_distance p ls.self_peer_id } ∷ []),
  )

  split_from-tally :
      (q : Bytes → Bool) (self_info : PeerShard) (b : Buckets) (ps : List Bytes)
      → tally q (split_from pretty get_peer_info preferred compute_distance ls self_info b ps)
          + count_by (λ p. q p && skips p) ps
        ≡ tally q b + count_by q ps
  unfolding split_from
  split_from-tally q self_info b [] = refl
  split_from-tally q self_info b (p ∷ ps) =
      let placed = place pretty get_peer_info preferred compute_distance ls self_info b p in
      ground (arith, place-tally q self_info b p, split_from-tally q self_info placed ps)

  -- Each peer is put on exactly one of the six lists, as often as it was given, unless it is
  -- skipped: a seeder never is, another peer is when it is preferred.
  pub split_peer_ids-tally :
      (q : Bytes → Bool) (ps : List Bytes)
      → tally q (split_peer_ids pretty get_peer_info preferred compute_distance ls ps)
          + count_by (λ p. q p && skips p) ps
        ≡ count_by q ps
  unfolding split_peer_ids
  split_peer_ids-tally q ps =
      omega (arith, split_from-tally q (get_peer_info ls.self_peer_id) no_buckets ps)
