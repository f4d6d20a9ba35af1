-- ===== src/Discovery/Factory.antt =====
-- networksharding/factory/sharderFactory.go and discovery/factory/peerDiscovererFactory.go: the sharder
-- and the discoverers that a configuration selects. A duration of fewer than 2 ^ 32 seconds is less
-- than 2 ^ 63 nanoseconds, so the products do not wrap.
use mx_chain_communication_g.Common.Int.{ℤ, pos}
use mx_chain_communication_g.Common.{
  ℕ, ◌≤◌, ◌==◌, ◌*◌, ◌^◌, ◌≡◌, refl, Bool, true, false, not, ◌||◌, List, [], ◌∷◌, Bytes, bytes_key,
  same, Result, ok, err, and_then, reject_if, if◌then◌else◌, length, All, arith, Result-cases,
  Bool-cases, inl, inr, subst, sym,
}
use mx_chain_communication_g.Errors.{P2pError, nil_logger, invalid_value, invalid_config}
use mx_chain_communication_g.Sharding.{Provided, ShardingConfig, ListsSharder, new_lists_sharder}
use mx_chain_communication_g.Sharding.OneList.{OneListSharder, new_one_list_sharder}
use mx_chain_communication_g.Discovery.{ArgKadDht}
use mx_chain_communication_g.Discovery.Continuous.{
  ContinuousKadDhtDiscoverer, new_continuous_kad_dht_discoverer,
}
use mx_chain_communication_g.Discovery.Optimized.{
  OptimizedKadDhtDiscoverer, new_optimized_kad_dht_discoverer,
}

-- The names "ListsSharder", "OneListSharder", "NilListSharder", "legacy" and "optimized".
abbrev pub lists_sharder : Bytes
lists_sharder = 76 ∷ 105 ∷ 115 ∷ 116 ∷ 115 ∷ 83 ∷ 104 ∷ 97 ∷ 114 ∷ 100 ∷ 101 ∷ 114 ∷ []

abbrev pub one_list_sharder : Bytes
one_list_sharder =
    79 ∷ 110 ∷ 101 ∷ 76 ∷ 105 ∷ 115 ∷ 116 ∷ 83 ∷ 104 ∷ 97 ∷ 114 ∷ 100 ∷ 101 ∷ 114 ∷ []

abbrev pub nil_list_sharder : Bytes
nil_list_sharder =
    78 ∷ 105 ∷ 108 ∷ 76 ∷ 105 ∷ 115 ∷ 116 ∷ 83 ∷ 104 ∷ 97 ∷ 114 ∷ 100 ∷ 101 ∷ 114 ∷ []

abbrev pub type_legacy : Bytes
type_legacy = 108 ∷ 101 ∷ 103 ∷ 97 ∷ 99 ∷ 121 ∷ []

abbrev pub type_optimized : Bytes
type_optimized = 111 ∷ 112 ∷ 116 ∷ 105 ∷ 109 ∷ 105 ∷ 122 ∷ 101 ∷ 100 ∷ []

pub data AnySharder : Type 0 where
  lists : ListsSharder → AnySharder
  one_list : OneListSharder → AnySharder
  nil_list : AnySharder

unfoldable pub new_sharder : Provided → Bytes → Bytes → ShardingConfig → Result P2pError AnySharder
new_sharder given sharding_type pid c =
    if not given.logger
    then err nil_logger
    else if same sharding_type lists_sharder
    then and_then (new_lists_sharder given pid c) (λ ls. ok (lists ls))
    else if same sharding_type one_list_sharder
    then and_then (new_one_list_sharder pid (pos c.target_peer_count)) (λ ols. ok (one_list ols))
    else if same sharding_type nil_list_sharder
    then ok nil_list
    else err invalid_value

-- The parts of the configuration that the factory reads; `args` has the collaborators.
pub record KadDhtPeerDiscoveryConfig : Type 0 where
  pub enabled : Bool
  pub kind : Bytes
  pub refresh_interval_in_sec : ℕ
  pub protocol_ids : List Bytes
  pub initial_peer_list : List Bytes
  pub routing_table_refresh_interval_in_sec : ℕ

pub data PeerDiscoverer : Type 0 where
  nil_discoverer : PeerDiscoverer
  continuous : ContinuousKadDhtDiscoverer → PeerDiscoverer
  optimized : OptimizedKadDhtDiscoverer → PeerDiscoverer

unfoldable pub create_kad_dht_discoverer :
    KadDhtPeerDiscoveryConfig → ArgKadDht → Result P2pError PeerDiscoverer
create_kad_dht_discoverer c arg =
    if same c.kind type_legacy
    then and_then (new_continuous_kad_dht_discoverer arg) (λ d. ok (continuous d))
    else if same c.kind type_optimized
    then and_then (new_optimized_kad_dht_discoverer arg) (λ d. ok (optimized d))
    else err invalid_value

-- `defaultSeedersReconnectionInterval`, five minutes.
abbrev pub default_seeders_reconnection_interval : ℤ
default_seeders_reconnection_interval = pos (300 * 10 ^ 9)

abbrev pub kad_dht_arg : KadDhtPeerDiscoveryConfig → ArgKadDht → Bytes → ArgKadDht
kad_dht_arg c args protocol_id = record args {
  peers_refresh_interval = pos (10 ^ 9 * c.refresh_interval_in_sec);
  seeders_reconnection_interval = default_seeders_reconnection_interval;
  routing_table_refresh = pos (10 ^ 9 * c.routing_table_refresh_interval_in_sec);
  protocol_id = protocol_id;
  initial_peers_list = c.initial_peer_list;
}

unfoldable pub create_kad_dht_peer_discoverer :
    KadDhtPeerDiscoveryConfig → Bytes → ArgKadDht → Bytes → Result P2pError PeerDiscoverer
unfolding create_kad_dht_discoverer
create_kad_dht_peer_discoverer c sharding_type args protocol_id =
    if same sharding_type lists_sharder
      || same sharding_type one_list_sharder
      || same sharding_type nil_list_sharder
    then create_kad_dht_discoverer c (kad_dht_arg c args protocol_id)
    else err invalid_value

-- The loop over the protocol IDs.
unfoldable pub create_all :
    KadDhtPeerDiscoveryConfig
    → Bytes
    → ArgKadDht
    → List Bytes
    → Result P2pError (List PeerDiscoverer)
unfolding create_kad_dht_peer_discoverer
create_all c sharding_type args [] = ok []
create_all c sharding_type args (protocol_id ∷ rest) =
    and_then (create_kad_dht_peer_discoverer c sharding_type args protocol_id) (λ instance_of.
      and_then (create_all c sharding_type args rest) (λ instances. ok (instance_of ∷ instances)))

unfoldable pub new_peer_discoverers :
    KadDhtPeerDiscoveryConfig → Bytes → ArgKadDht → Result P2pError (List PeerDiscoverer)
unfolding create_all
new_peer_discoverers c sharding_type args =
    if not args.logger
    then err nil_logger
    else if c.enabled
    then reject_if (length c.protocol_ids == 0) invalid_config
        (create_all c sharding_type args c.protocol_ids)
    else ok (nil_discoverer ∷ [])

-- Whether a discoverer works, that is, is not the nil one.
abbrev pub works : PeerDiscoverer → Bool
works nil_discoverer = false
works _ = true

create_kad_dht_discoverer-works :
    (c : KadDhtPeerDiscoveryConfig) (arg : ArgKadDht) (d : PeerDiscoverer)
    → create_kad_dht_discoverer c arg ≡ ok d
    → works d ≡ true
unfolding create_kad_dht_discoverer
create_kad_dht_discoverer-works c arg nil_discoverer h =
    elim (Result-cases (new_continuous_kad_dht_discoverer arg)) [
      | inl (x, e) ↦ elim (Result-cases (new_optimized_kad_dht_discoverer arg)) [
        | inl (y, k) ↦ absurd (ground arith)
        | inr (y, k) ↦ absurd (ground arith)
      ]
      | inr (x, e) ↦ elim (Result-cases (new_optimized_kad_dht_discoverer arg)) [
        | inl (y, k) ↦ absurd (ground arith)
        | inr (y, k) ↦ absurd (ground arith)
      ]
    ]
create_kad_dht_discoverer-works c arg (continuous x) h = refl
create_kad_dht_discoverer-works c arg (optimized x) h = refl

create_kad_dht_peer_discoverer-works :
    (c : KadDhtPeerDiscoveryConfig) (t : Bytes) (args : ArgKadDht) (i : Bytes) (d : PeerDiscoverer)
    → create_kad_dht_peer_discoverer c t args i ≡ ok d
    → works d ≡ true
unfolding create_kad_dht_peer_discoverer
create_kad_dht_peer_discoverer-works c t args i d h =
    elim (Bool-cases (same t lists_sharder || same t one_list_sharder || same t nil_list_sharder)) [
      | inl e ↦ create_kad_dht_discoverer-works c (kad_dht_arg c args i) d (ground arith)
      | inr e ↦ absurd (ground arith)
    ]

create_all-All :
    (c : KadDhtPeerDiscoveryConfig) (t : Bytes) (args : ArgKadDht) (ids : List Bytes)
    (ds : List PeerDiscoverer)
    → create_all c t args ids ≡ ok ds
    → (length ds ≡ length ids) × All (λ d. works d ≡ true) ds
unfolding create_all create_kad_dht_peer_discoverer
create_all-All c t args [] [] h = (refl, tt)
create_all-All c t args [] (d ∷ ds) h = absurd (ground arith)
create_all-All c t args (i ∷ ids) [] h =
    elim (Result-cases (create_kad_dht_peer_discoverer c t args i)) [
      | inr (x, e) ↦ absurd (ground arith)
      | inl (x, e) ↦ elim (Result-cases (create_all c t args ids)) [
        | inr (y, k) ↦ absurd (ground arith)
        | inl (y, k) ↦ absurd (ground arith)
      ]
    ]
create_all-All c t args (i ∷ ids) (d ∷ ds) h =
    elim (Result-cases (create_kad_dht_peer_discoverer c t args i)) [
      | inr (x, e) ↦ absurd (ground arith)
      | inl (x, e) ↦ elim (Result-cases (create_all c t args ids)) [
        | inr (y, k) ↦ absurd (ground arith)
        | inl (y, k) ↦
            let rest = create_all-All c t args ids ds (ground arith) in
            let first = create_kad_dht_peer_discoverer-works c t args i d (ground arith) in
            (omega (arith, rest.0), (first, rest.1))
      ]
    ]

-- The discoverers of an accepted configuration: one for each protocol ID, none of them the nil one,
-- where discovery is enabled, and the nil one alone otherwise. There is always at least one.
new_peer_discoverers-All :
    (c : KadDhtPeerDiscoveryConfig) (t : Bytes) (args : ArgKadDht) (ds : List PeerDiscoverer)
    → new_peer_discoverers c t args ≡ ok ds
    → (length ds ≡ (if c.enabled then length c.protocol_ids else 1))
      × (1 ≤ length ds)
      × All (λ d. works d ≡ c.enabled) ds
unfolding new_peer_discoverers
new_peer_discoverers-All c t args ds h = elim (Bool-cases args.logger) [
  | inr no_logger ↦ absurd (ground arith)
  | inl logger ↦ elim (Bool-cases c.enabled) [
    | inr disabled ↦
        let alone : nil_discoverer ∷ [] ≡ ds = ground arith in
        subst
          (λ (l : List PeerDiscoverer).
            (length l ≡ (if c.enabled then length c.protocol_ids else 1))
            × (1 ≤ length l)
            × All (λ d. works d ≡ c.enabled) l)
          alone (ground arith, omega arith, (sym disabled, tt))
    | inl enabled ↦
        let all = create_all-All c t args c.protocol_ids ds (ground arith) in
        (
          ground (arith, all.0),
          ground (arith, all.0),
          subst (λ (b : Bool). All (λ d. works d ≡ b) ds) (sym enabled) all.1,
        )
  ]
]
