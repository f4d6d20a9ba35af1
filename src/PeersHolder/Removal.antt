-- ===== src/PeersHolder/Removal.antt =====
-- `Remove` of p2p/peersHolder/peersHolder.go: what it does to the peer that it is called for, and
-- what the indices that it leaves behind do to the later peers of the shard.
use mx_chain_communication_g.Common.{
  ℕ, suc, ◌+◌, ◌<◌, ◌-◌, ◌∙◌, same_refl, ◌≡◌, refl, false, ◌&&◌, not, if◌then◌else◌, some, List, [],
  ◌∷◌, Bytes, bytes_key, nat_key, Map, same, lookup, insert, delete, length, get_elem?, ltb, arith,
  lookup-insert, lookup-delete, get_elem?-lt-length, returns, panics, ◌>>=◌, remove_at, cut_lem,
  length-remove_at, get_elem?-remove_at,
}
use mx_chain_communication_g.PeersHolder.{
  PeerInfo, drop_peer_info, PeersHolder, PeerIdData, slice_of, contains_peer, remove,
  remove_peer_info_at_connection_address,
}
use mx_chain_communication_g.PeersHolder.Registry.{
  has_info, has_info-drop_peer_info, in_shard, IsConsistent,
}

-- The shard lists once the peer at `index` of `shard` is gone.
unfoldable pub without : Map ℕ (List Bytes) → ℕ → ℕ → Map ℕ (List Bytes)
without m shard index = elim (remove_at (slice_of (lookup shard m)) index) [
  | [] ↦ delete shard m
  | p ∷ ps ↦ insert shard (p ∷ ps) m
]

slice_of-without :
    (m : Map ℕ (List Bytes)) (shard index other : ℕ)
    → slice_of (lookup other (without m shard index)) ≡ (
        if same shard other
        then remove_at (slice_of (lookup shard m)) index
        else slice_of (lookup other m))
unfolding without
slice_of-without m shard index other = go (remove_at (slice_of (lookup shard m)) index)
  where
    go :
        (rest : List Bytes)
        → slice_of
            (lookup other (elim rest [ [] ↦ delete shard m | p ∷ ps ↦ insert shard (p ∷ ps) m ]))
          ≡ (if same shard other then rest else slice_of (lookup other m))
    go [] = ground (arith, lookup-delete shard other m)
    go (p ∷ ps) = ground (arith, lookup-insert shard other (p ∷ ps) m)

-- The holder after a `Remove` that found the data `d`.
unfoldable pub removed : PeersHolder → Bytes → PeerIdData → PeersHolder
removed h p d = record h {
  peer_ids_per_shard = without h.peer_ids_per_shard d.shard_id d.index;
  peer_ids = delete p h.peer_ids;
  conn_addr_to_peers_info =
      remove_peer_info_at_connection_address h.conn_addr_to_peers_info p d.connection_address;
  temp_peer_ids_waiting_for_shard = delete p h.temp_peer_ids_waiting_for_shard;
}

remove_lem :
    (h : PeersHolder) (p : Bytes) (d : PeerIdData)
    → lookup p h.peer_ids ≡ some d
    → remove h p
      ≡ (if ltb d.index (length (in_shard h d.shard_id)) then returns (removed h p d) else panics)
unfolding remove removed without
remove_lem h p d e = ground (arith, cut_lem (in_shard h d.shard_id) d.index)

-- In a consistent holder `Remove` of a registered peer does not panic. It makes that peer, and no
-- other, no preferred peer, and takes the recorded index out of its shard's list and of no other.
pub remove-registered :
    (h : PeersHolder) (p q : Bytes) (d : PeerIdData) (shard : ℕ)
    → IsConsistent h
    → lookup p h.peer_ids ≡ some d
    → (remove h p ≡ returns (removed h p d))
      × (contains_peer (removed h p d) q ≡ (contains_peer h q && not (same p q)))
      × (in_shard (removed h p d) shard ≡ (
          if same d.shard_id shard then remove_at (in_shard h shard) d.index else in_shard h shard))
unfolding contains_peer removed
remove-registered h p q d shard v e = (
  ground (
    arith,
    remove_lem h p d e,
    get_elem?-lt-length (in_shard h d.shard_id) d.index p (v.indexed p d e),
  ),
  ground (arith, lookup-delete p q h.peer_ids),
  ground (arith, slice_of-without h.peer_ids_per_shard d.shard_id d.index shard),
)

-- Two peers of one shard, `p` before `q`.
pub record Before (h : PeersHolder) (p q : Bytes) (d e : PeerIdData) : Type 0 where
  pub first : lookup p h.peer_ids ≡ some d
  pub second : lookup q h.peer_ids ≡ some e
  pub one_shard : e.shard_id ≡ d.shard_id
  pub earlier : d.index < e.index

module _ (h : PeersHolder) (p q : Bytes) (d e : PeerIdData) (v : IsConsistent h)
    (b : Before h p q d e) where
  first_index : d.index < length (in_shard h d.shard_id)
  first_index = get_elem?-lt-length (in_shard h d.shard_id) d.index p (v.indexed p d b.first)

  list_after_first : in_shard (removed h p d) e.shard_id ≡ remove_at (in_shard h e.shard_id) d.index
  list_after_first =
      (remove-registered h p q d e.shard_id v b.first).2
      ∙ ground (arith, same_refl d.shard_id, b.one_shard)

  second_after_first : lookup q (removed h p d).peer_ids ≡ some e
  unfolding removed
  second_after_first = ground (arith, lookup-delete p q h.peer_ids, b.first, b.second)

  length_after_first :
      length (in_shard (removed h p d) e.shard_id) + 1 ≡ length (in_shard h e.shard_id)
  length_after_first =
      rw list_after_first
        (length-remove_at (in_shard h e.shard_id) d.index (rw b.one_shard first_index))

  -- When a peer of a shard is removed, the index of the shard's last peer is out of range, and its
  -- own removal panics.
  pub remove_then_last_panics :
      e.index + 1 ≡ length (in_shard h e.shard_id) → (remove h p >>= λ h'. remove h' q) ≡ panics
  remove_then_last_panics last =
      rw (remove-registered h p q d e.shard_id v b.first).0
        (ground (arith, remove_lem (removed h p d) q e second_after_first, length_after_first))

  twice : PeersHolder
  twice = removed (removed h p d) q e

  list_after_second :
      in_shard twice e.shard_id ≡ remove_at (remove_at (in_shard h e.shard_id) d.index) e.index
  unfolding twice removed
  list_after_second =
      slice_of-without (removed h p d).peer_ids_per_shard e.shard_id e.index e.shard_id
      ∙ ground (arith, list_after_first, same_refl e.shard_id)

  still_there : get_elem? (in_shard twice e.shard_id) (e.index - 1) ≡ some q
  still_there = rw list_after_second (
      ground (
        arith,
        b.earlier,
        v.indexed q e b.second,
        suc-pred,
        get_elem?-remove_at (remove_at (in_shard h e.shard_id) d.index) e.index (e.index - 1),
        get_elem?-remove_at (in_shard h e.shard_id) d.index (e.index - 1),
      ))
    where
      suc-pred : suc (e.index - 1) ≡ e.index
      suc-pred = omega (arith, b.earlier)

  -- When a peer of a shard is removed, the removal of a later peer that is not the last takes
  -- another peer out of the list: the later one is no preferred peer any more, but still listed.
  pub remove_then_later_stays :
      e.index + 1 < length (in_shard h e.shard_id)
      → let h' = removed (removed h p d) q e in
        ((remove h p >>= λ h'. remove h' q) ≡ returns h')
        × (contains_peer h' q ≡ false)
        × (get_elem? (in_shard h' e.shard_id) (e.index - 1) ≡ some q)
  unfolding contains_peer twice removed
  remove_then_later_stays inner = (
    rw (remove-registered h p q d e.shard_id v b.first).0
        (ground (arith, remove_lem (removed h p d) q e second_after_first, length_after_first)),
    ground (arith, lookup-delete q q (removed h p d).peer_ids, same_refl q),
    still_there,
  )

has_info-removed :
    (p q addr known : Bytes) (m : Map Bytes (List PeerInfo))
    → same p q ≡ false
    → has_info q (slice_of (lookup known (remove_peer_info_at_connection_address m p addr)))
      ≡ has_info q (slice_of (lookup known m))
unfolding remove_peer_info_at_connection_address
has_info-removed p q addr known m ne = go (slice_of (lookup addr m)) refl
  where
    go :
        (is : List PeerInfo)
        → slice_of (lookup addr m) ≡ is
        → has_info q (
            slice_of (
              lookup known
                (elim is [ [] ↦ m | j ∷ js ↦ insert addr (drop_peer_info p (j ∷ js)) m ])))
          ≡ has_info q (slice_of (lookup known m))
    go [] e = refl
    go (j ∷ js) e = ground (
      arith,
      e,
      lookup-insert addr known (drop_peer_info p (j ∷ js)) m,
      has_info-drop_peer_info q p (j ∷ js) ne,
    )

-- The removal of the last peer of a shard's list keeps every index right, and the holder consistent.
remove_last-IsConsistent :
    (h : PeersHolder) (p : Bytes) (d : PeerIdData)
    → IsConsistent h
    → lookup p h.peer_ids ≡ some d
    → d.index + 1 ≡ length (in_shard h d.shard_id)
    → IsConsistent (removed h p d)
unfolding removed
remove_last-IsConsistent h p d v e last = record {
  indexed = λ q c f. ground (
    arith,
    lookup-delete p q h.peer_ids,
    v.indexed p d e,
    v.indexed q c,
    slice_of-without h.peer_ids_per_shard d.shard_id d.index c.shard_id,
    get_elem?-remove_at (in_shard h d.shard_id) d.index c.index,
    get_elem?-lt-length (in_shard h c.shard_id) c.index q,
  );
  waiting = λ q known f. ground (
    arith,
    lookup-delete p q h.temp_peer_ids_waiting_for_shard,
    v.waiting q known,
    has_info-removed p q d.connection_address known h.conn_addr_to_peers_info,
  );
}
