-- ===== src/ConnectionMonitor/Sweep.antt =====
-- Whom p2p/libp2p/connectionMonitor/libp2pConnectionMonitorSimple.go closes, and which preferred
-- peers it keeps.
use mx_chain_communication_g.Common.{
  ℕ, ◌+◌, ◌≡◌, refl, Bool, ◌&&◌, List, [], ◌∷◌, Bytes, bytes_key, count_by, count_by-append, arith,
  ap, ◌∙◌,
}
use mx_chain_communication_g.ConnectionMonitor.{
  ConnectionMonitor, denied_peers, check_connections_blocking,
}

module _ (all_shard_id : ℕ) (is_denied : Bytes → Bool)
    (compute_eviction_list : List Bytes → List Bytes) where
  denied_peers-count :
      (q : Bytes → Bool) (peers : List Bytes)
      → count_by q (denied_peers all_shard_id is_denied compute_eviction_list peers)
        ≡ count_by (λ p. is_denied p && q p) peers
  unfolding denied_peers
  denied_peers-count q [] = refl
  denied_peers-count q (p ∷ peers) = ground (arith, denied_peers-count q peers)

  -- The sweep closes exactly the denied ones among the connected peers, each as often as it is
  -- listed, after what was closed before.
  check_connections_blocking-count :
      (cm : ConnectionMonitor) (peers : List Bytes) (q : Bytes → Bool)
      → count_by q
          (check_connections_blocking all_shard_id is_denied compute_eviction_list cm
            peers).closed_peers
        ≡ count_by q cm.closed_peers + count_by (λ p. is_denied p && q p) peers
  unfolding check_connections_blocking
  check_connections_blocking-count cm peers q =
      count_by-append q cm.closed_peers
        (denied_peers all_shard_id is_denied compute_eviction_list peers)
      ∙ ap (λ n. count_by q cm.closed_peers + n) (denied_peers-count q peers)
