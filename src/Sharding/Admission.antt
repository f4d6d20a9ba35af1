-- ===== src/Sharding/Admission.antt =====
-- p2p/libp2p/discovery/hostWithConnectionManagement.go: the host asks the sharder before it dials.
use mx_chain_communication_g.Common.{
  ℕ, ◌≡◌, refl, Bool, true, false, not, ◌&&◌, List, [], ◌∷◌, ◌++◌, Bytes, bytes_key, same, same→eq,
  count_by, if◌then◌else◌, arith, ◌==◌, Result, ok, err,
}
use mx_chain_communication_g.Errors.{P2pError, unwanted_peer}
use mx_chain_communication_g.Sharding.{
  PeerShard, PeerDistance, ListsSharder, has, compute_eviction_list,
}
use mx_chain_communication_g.Sharding.Limits.{skips}
use mx_chain_communication_g.Sharding.Eviction.{Sorts, compute_eviction_list_sound}

-- The methods of a sharder that the host calls.
pub record Sharder : Type 0 where
  pub evicts : List Bytes → List Bytes
  pub has_peer : Bytes → List Bytes → Bool

unfoldable pub can_connect_to_peer : Sharder → List Bytes → Bytes → Result P2pError (Unit {0})
can_connect_to_peer sharder peers pid =
    let all_peers = if sharder.has_peer pid peers then peers else peers ++ pid ∷ [] in
    if sharder.has_peer pid (sharder.evicts all_peers) then err unwanted_peer else ok tt

-- What the host does to its collaborators.
pub data HostEvent : Type 0 where
  known_connection : Bytes → Bytes → HostEvent
  dial : Bytes → HostEvent

-- `concatenateAddresses`: each address, followed by a space.
unfoldable pub concatenate_addresses : List Bytes → Bytes
concatenate_addresses [] = []
concatenate_addresses (a ∷ rest) = a ++ b' ' ∷ concatenate_addresses rest

-- `Connect`; `dialled` is what the connectable host answers.
unfoldable pub connect :
    Sharder
    → List Bytes
    → Bytes
    → List Bytes
    → Result P2pError (Unit {0})
    → List HostEvent × Result P2pError (Unit {0})
unfolding concatenate_addresses
connect sharder peers pid addresses dialled =
    let known = known_connection pid (concatenate_addresses addresses) in
    elim (can_connect_to_peer sharder peers pid) [
      | err e ↦ (known ∷ [], err e)
      | ok _ ↦ (known ∷ dial pid ∷ [], dialled)
    ]

has_iff_count : (p : Bytes) (xs : List Bytes) → has p xs ≡ not (count_by (λ x. same x p) xs == 0)
unfolding has
has_iff_count p [] = refl
has_iff_count p (x ∷ xs) = ground (arith, has_iff_count p xs)

count_by-skipped :
    (p : Bytes) (skip : Bytes → Bool) (xs : List Bytes)
    → skip p ≡ true
    → count_by (λ x. same x p && skip x) xs ≡ count_by (λ x. same x p) xs
count_by-skipped p skip [] h = refl
count_by-skipped p skip (x ∷ xs) h = ground (arith, count_by-skipped p skip xs h, same→eq x p)

module _ (sort : List PeerDistance → List PeerDistance) (s : Sorts sort) (pretty : Bytes → Bytes)
    (get_peer_info : Bytes → PeerShard) (preferred : Bytes → Bool)
    (compute_distance : Bytes → Bytes → ℕ) where
  -- The sharder that a `listsSharder` is to its host.
  abbrev pub lists_sharder : ListsSharder → Sharder
  lists_sharder ls = record {
    evicts = compute_eviction_list sort pretty get_peer_info preferred compute_distance ls;
    has_peer = has;
  }

  -- The host of a `listsSharder` always dials a peer that the sharder skips, such as a preferred
  -- peer that is no seeder, however many peers are connected.
  pub connect-skipped :
      (ls : ListsSharder) (peers : List Bytes) (pid : Bytes) (addresses : List Bytes)
      (dialled : Result P2pError (Unit {0}))
      → skips pretty get_peer_info preferred compute_distance ls pid ≡ true
      → connect (lists_sharder ls) peers pid addresses dialled
        ≡ (known_connection pid (concatenate_addresses addresses) ∷ dial pid ∷ [], dialled)
  unfolding connect can_connect_to_peer
  connect-skipped ls peers pid addresses dialled h =
      ground (arith, none_evicted (if has pid peers then peers else peers ++ pid ∷ []))
    where
      none_evicted : (ps : List Bytes) → has pid ((lists_sharder ls).evicts ps) ≡ false
      none_evicted ps = ground (
        arith,
        has_iff_count pid ((lists_sharder ls).evicts ps),
        compute_eviction_list_sound sort s pretty get_peer_info preferred compute_distance ls ps
            (λ x. same x pid),
        count_by-skipped pid (skips pretty get_peer_info preferred compute_distance ls) ps h,
      )
