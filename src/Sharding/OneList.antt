-- ===== src/Sharding/OneList.antt =====
-- oneListSharder.go and nilListSharder.go of p2p/libp2p/networksharding: one list for all peers,
-- and no limit at all.
use mx_chain_communication_g.Common.Int.{ℤ, pos, negsuc, leb_ℤ}
use mx_chain_communication_g.Common.{
  ℕ, ◌-◌, ◌≤◌, ◌≡◌, refl, ap, Bool, false, not, List, [], ◌∷◌, Bytes, length, length-map,
  length-drop, drop, arith, Result, ok, reject_if,
}
use mx_chain_communication_g.Errors.{P2pError, invalid_value}
use mx_chain_communication_g.Sharding.{PeerDistance, evict}
use mx_chain_communication_g.Sharding.Eviction.{Sorts, length-sort, evict-keeps-closest}

pub record OneListSharder : Type 0 where
  pub self_peer_id : Bytes
  pub max_peer_count : ℤ

unfoldable pub new_one_list_sharder : Bytes → ℤ → Result P2pError OneListSharder
new_one_list_sharder self max_peer_count =
    reject_if (not (leb_ℤ (pos 3) max_peer_count)) invalid_value
      (ok (record { self_peer_id = self; max_peer_count = max_peer_count }))

module _ (compute_distance : Bytes → Bytes → ℕ) where
  unfoldable pub convert_list : OneListSharder → List Bytes → List PeerDistance
  convert_list ols [] = []
  convert_list ols (p ∷ ps) =
      record { id = p; distance = compute_distance p ols.self_peer_id } ∷ convert_list ols ps

  module _ (sort : List PeerDistance → List PeerDistance) where
    unfoldable pub one_list_eviction : OneListSharder → List Bytes → List Bytes
    one_list_eviction ols pids = evict sort (convert_list ols pids) ols.max_peer_count

  length-convert_list :
      (ols : OneListSharder) (pids : List Bytes) → length (convert_list ols pids) ≡ length pids
  unfolding convert_list
  length-convert_list ols [] = refl
  length-convert_list ols (p ∷ ps) = omega (arith, length-convert_list ols ps)

  -- A sharder with one list has a limit of at least three, and gives up exactly the peers above
  -- it: none of `n` peers within the limit, and all but `limit` of them otherwise.
  one_list_eviction-exact :
      (sort : List PeerDistance → List PeerDistance)
      → Sorts sort
      → (self : Bytes) (limit : ℤ) (pids : List Bytes) {ols : OneListSharder}
      → new_one_list_sharder self limit ≡ ok ols
      → (n : ℕ) × (limit ≡ pos n)
        × (3 ≤ n)
        × (length (one_list_eviction sort ols pids) ≡ length pids - n)
  unfolding new_one_list_sharder one_list_eviction
  one_list_eviction-exact sort s self (negsuc n) pids e = absurd (ground arith)
  one_list_eviction-exact sort s self (pos n) pids {ols} e =
      let ds = convert_list ols pids in
      (
        n,
        refl,
        ground arith,
        ground (
          arith,
          ap length ((evict-keeps-closest sort s ds n).0),
          length-map (drop n (sort ds)) (λ d. d.id),
          length-drop n (sort ds),
          length-sort sort s ds,
          length-convert_list ols pids,
        ),
      )

-- `nilListSharder` gives up nobody and says of nobody that it is on a list.
unfoldable pub nil_list_eviction : List Bytes → List Bytes
nil_list_eviction pids = []

unfoldable pub nil_list_has : Bytes → List Bytes → Bool
nil_list_has pid list = false
