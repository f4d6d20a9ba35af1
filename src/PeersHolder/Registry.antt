-- ===== src/PeersHolder/Registry.antt =====
-- What `PutConnectionAddress`, `PutShardID` and `Clear` of p2p/peersHolder/peersHolder.go keep.
use mx_chain_communication_g.Common.{
  ℕ, ◌-◌, ◌≡◌, refl, inl, inr, Bool, true, false, ◌&&◌, ◌||◌, if◌then◌else◌, none, some, List, [],
  ◌∷◌, ◌++◌, Bytes, bytes_key, nat_key, same, lookup, insert, length, get_elem?, is_some, arith,
  lookup-insert, lookup-delete, length-append, get_elem?-append_left, get_elem?-append_end,
  Option-cases, Bool-cases, All, ◌∙◌,
}
use mathlib.Core.List.{append-nil, append_assoc}
use mx_chain_communication_g.PeersHolder.{
  is_valid, empty_holder, add_preferred, new_peers_holder, PeerInfo, PeerIdData, PeersHolder,
  slice_of, get_known_connection, get_peer_info_for_peer_id, add_new_peer_info_to_maps,
  add_if_missing, put_connection_address, set_shard_id, register_shard, put_shard_id, clear,
  contains_peer, drop_peer_info,
}

-- The peers of a shard, and the entries at a connection address.
abbrev pub in_shard : PeersHolder → ℕ → List Bytes
in_shard h shard = slice_of (lookup shard h.peer_ids_per_shard)

abbrev pub infos_at : PeersHolder → Bytes → List PeerInfo
infos_at h addr = slice_of (lookup addr h.conn_addr_to_peers_info)

abbrev pub has_info : Bytes → List PeerInfo → Bool
has_info peer_id infos = is_some (get_peer_info_for_peer_id peer_id infos)

pub record IsConsistent (h : PeersHolder) : Type 0 where
  -- A peer stands in the list of its shard, at its recorded index.
  pub indexed :
      (p : Bytes) (d : PeerIdData)
      → lookup p h.peer_ids ≡ some d
      → get_elem? (in_shard h d.shard_id) d.index ≡ some p
  -- A peer that waits for its shard has an entry at its known connection.
  pub waiting :
      (p known : Bytes)
      → lookup p h.temp_peer_ids_waiting_for_shard ≡ some known
      → has_info p (infos_at h known) ≡ true

has_info-append :
    (p : Bytes) (i : PeerInfo) (is : List PeerInfo)
    → has_info p (is ++ i ∷ []) ≡ (has_info p is || same p i.pid)
unfolding get_peer_info_for_peer_id
has_info-append p i [] = ground arith
has_info-append p i (j ∷ is) = ground (arith, has_info-append p i is)

has_info-set_shard_id :
    (p q : Bytes) (shard : ℕ) (is : List PeerInfo)
    → has_info p (set_shard_id q shard is) ≡ has_info p is
unfolding get_peer_info_for_peer_id set_shard_id
has_info-set_shard_id p q shard [] = refl
has_info-set_shard_id p q shard (j ∷ is) = ground (arith, has_info-set_shard_id p q shard is)

pub has_info-drop_peer_info :
    (p q : Bytes) (is : List PeerInfo)
    → same q p ≡ false
    → has_info p (drop_peer_info q is) ≡ has_info p is
unfolding get_peer_info_for_peer_id drop_peer_info
has_info-drop_peer_info p q [] h = refl
has_info-drop_peer_info p q (j ∷ is) h = ground (arith, has_info-drop_peer_info p q is)

clear-IsConsistent : (h : PeersHolder) → IsConsistent (clear h)
unfolding clear lookup
clear-IsConsistent h = record { indexed = λ p d e. cc; waiting = λ p known e. cc }

module _ (all_shard_id : ℕ) where
  add_new_peer_info_to_maps-IsConsistent :
      (h : PeersHolder) (p known : Bytes)
      → IsConsistent h
      → IsConsistent (add_new_peer_info_to_maps all_shard_id h p known)
  unfolding add_new_peer_info_to_maps
  add_new_peer_info_to_maps-IsConsistent h p known v = record {
    indexed = v.indexed;
    waiting = λ q k e. ground (
      arith,
      v.waiting q k,
      lookup-insert p q known h.temp_peer_ids_waiting_for_shard,
      lookup-insert known k (infos_at h known ++ record { pid = p; shard_id = all_shard_id } ∷ [])
          h.conn_addr_to_peers_info,
      has_info-append q (record { pid = p; shard_id = all_shard_id }) (infos_at h known),
    );
  }

  add_if_missing_cases :
      (P : PeersHolder → Type 0) (h : PeersHolder) (p known : Bytes)
      → P h
      → P (add_new_peer_info_to_maps all_shard_id h p known)
      → P (add_if_missing all_shard_id h p known)
  unfolding add_if_missing
  add_if_missing_cases P h p known same_state added =
      elim (Option-cases (get_peer_info_for_peer_id p (infos_at h known))) [
        | inl e ↦ rw (e, add_if_missing) added
        | inr (i, e) ↦ rw (e, add_if_missing) same_state
      ]

  put_connection_address-IsConsistent :
      (h : PeersHolder) (p addr : Bytes)
      → IsConsistent h
      → IsConsistent (put_connection_address all_shard_id h p addr)
  unfolding put_connection_address
  put_connection_address-IsConsistent h p addr v =
      go (get_known_connection h.preferred_conn_addresses addr)
    where
      go :
          (known : Bytes)
          → IsConsistent (elim known [ [] ↦ h | b ∷ bs ↦ add_if_missing all_shard_id h p (b ∷ bs) ])
      go [] = v
      go (b ∷ bs) =
          add_if_missing_cases IsConsistent h p (b ∷ bs) v
            (add_new_peer_info_to_maps-IsConsistent h p (b ∷ bs) v)

register_shard-IsConsistent :
    (h : PeersHolder) (p known : Bytes) (shard : ℕ)
    → IsConsistent h
    → IsConsistent (register_shard h p shard known)
unfolding register_shard
register_shard-IsConsistent h p known shard v = record {
  indexed = λ q d e. ground (
    arith,
    v.indexed q d,
    lookup-insert p q
        (record {
          connection_address = known;
          shard_id = shard;
          index = length (in_shard h shard ++ p ∷ []) - 1;
        })
        h.peer_ids,
    lookup-insert shard d.shard_id (in_shard h shard ++ p ∷ []) h.peer_ids_per_shard,
    length-append (in_shard h shard) (p ∷ []),
    get_elem?-append_left (in_shard h shard) (p ∷ []) d.index q,
    get_elem?-append_end (in_shard h shard) p,
  );
  waiting = λ q k e. ground (
    arith,
    v.waiting q k,
    lookup-delete p q h.temp_peer_ids_waiting_for_shard,
    lookup-insert known k (set_shard_id p shard (infos_at h known)) h.conn_addr_to_peers_info,
    has_info-set_shard_id q p shard (infos_at h known),
  );
}

put_shard_id_cases :
    (P : PeersHolder → Type 0) (h : PeersHolder) (p : Bytes) (shard : ℕ)
    → P h
    → ((known : Bytes) → P (register_shard h p shard known))
    → P (put_shard_id h p shard)
unfolding put_shard_id
put_shard_id_cases P h p shard kept registered =
    elim (Option-cases (lookup p h.temp_peer_ids_waiting_for_shard)) [
      | inl e ↦ rw (e, put_shard_id) kept
      | inr (known, e) ↦ elim (Option-cases (get_peer_info_for_peer_id p (infos_at h known))) [
        | inl f ↦ rw (e, put_shard_id) (rw (f, put_shard_id) kept)
        | inr (i, f) ↦ rw (e, put_shard_id) (rw (f, put_shard_id) (registered known))
      ]
    ]

-- The calls that fill the holder, and the one that empties it.
pub data Call : Type 0 where
  put_connection : Bytes → Bytes → Call
  put_shard : Bytes → ℕ → Call
  clear_all : Call

module _ (all_shard_id : ℕ) where
  unfoldable pub step : PeersHolder → Call → PeersHolder
  step h (put_connection p addr) = put_connection_address all_shard_id h p addr
  step h (put_shard p shard) = put_shard_id h p shard
  step h clear_all = clear h

  unfoldable pub run : PeersHolder → List Call → PeersHolder
  unfolding step
  run h [] = h
  run h (c ∷ cs) = run (step h c) cs

  step-IsConsistent : (h : PeersHolder) (c : Call) → IsConsistent h → IsConsistent (step h c)
  unfolding step
  step-IsConsistent h (put_connection p addr) v =
      put_connection_address-IsConsistent all_shard_id h p addr v
  step-IsConsistent h (put_shard p shard) v =
      put_shard_id_cases IsConsistent h p shard v
        (λ known. register_shard-IsConsistent h p known shard v)
  step-IsConsistent h clear_all v = clear-IsConsistent h

  pub run-IsConsistent :
      (h : PeersHolder) (cs : List Call) → IsConsistent h → IsConsistent (run h cs)
  unfolding run
  run-IsConsistent h [] v = v
  run-IsConsistent h (c ∷ cs) v = run-IsConsistent (step h c) cs (step-IsConsistent h c v)

add_preferred-keeps :
    (valid : Bytes → Bool) (addrs : List Bytes) (h : PeersHolder) {h' : PeersHolder}
    → add_preferred valid addrs h ≡ some h'
    → (h'.preferred_conn_addresses ≡ h.preferred_conn_addresses ++ addrs)
      × (h'.peer_ids ≡ h.peer_ids)
      × (h'.temp_peer_ids_waiting_for_shard ≡ h.temp_peer_ids_waiting_for_shard)
      × All (λ a. valid a ≡ true) addrs
unfolding add_preferred
add_preferred-keeps valid [] h e = ground (arith, append-nil h.preferred_conn_addresses)
add_preferred-keeps valid (a ∷ addrs) h {h'} e =
    let added = record h {
      preferred_conn_addresses = h.preferred_conn_addresses ++ a ∷ [];
      conn_addr_to_peers_info = insert a [] h.conn_addr_to_peers_info;
    } in
    elim (Bool-cases (valid a)) [
      | inl ok ↦
          let rest = add_preferred-keeps valid addrs added (rw ok at e) in
          (
            rest.0 ∙ append_assoc h.preferred_conn_addresses (a ∷ []) addrs,
            rest.1,
            rest.2,
            (ok, rest.3),
          )
      | inr bad ↦ absurd (ground arith)
    ]

-- `NewPeersHolder` succeeds only on valid addresses, keeps them in order, and after any sequence
-- of `PutConnectionAddress`, `PutShardID` and `Clear` calls on its result each registered peer
-- stands in the list of its shard at its recorded index, and each peer that waits for its shard
-- has an entry at its known connection.
pub new_peers_holder-IsConsistent :
    (valid_ip valid_id : Bytes → Bool) (addrs : List Bytes) (all_shard_id : ℕ) (cs : List Call)
    {h : PeersHolder}
    → new_peers_holder valid_ip valid_id addrs ≡ some h
    → All (λ a. is_valid valid_ip valid_id a ≡ true) addrs
      × (h.preferred_conn_addresses ≡ addrs)
      × IsConsistent (run all_shard_id h cs)
unfolding new_peers_holder lookup
new_peers_holder-IsConsistent valid_ip valid_id addrs all_shard_id cs {h} e =
    let kept = add_preferred-keeps (is_valid valid_ip valid_id) addrs empty_holder e in
    (
      kept.3,
      kept.0,
      run-IsConsistent all_shard_id h cs (record {
        indexed = λ p d f. ground (arith, kept.1);
        waiting = λ p known f. ground (arith, kept.2);
      }),
    )

-- In a consistent holder `PutShardID` makes exactly the peer that waits for its shard a preferred
-- peer, at the end of the shard's list and no longer waiting; it changes nothing for any other.
put_shard_id-registers :
    (h : PeersHolder) (p q : Bytes) (shard : ℕ)
    → IsConsistent h
    → let h' = put_shard_id h p shard in
      let waits = is_some (lookup p h.temp_peer_ids_waiting_for_shard) in
      (contains_peer h' q ≡ (contains_peer h q || (same p q && waits)))
      × (in_shard h' shard ≡ (if waits then in_shard h shard ++ p ∷ [] else in_shard h shard))
      × (lookup p h'.temp_peer_ids_waiting_for_shard ≡ none)
unfolding put_shard_id register_shard contains_peer
put_shard_id-registers h p q shard v =
    elim (Option-cases (lookup p h.temp_peer_ids_waiting_for_shard)) [
      | inl e ↦ (ground arith, ground arith, ground arith)
      | inr (known, e) ↦
          let entry = v.waiting p known e in
          let in_order = in_shard h shard ++ p ∷ [] in
          let info : PeerIdData = record {
            connection_address = known;
            shard_id = shard;
            index = length in_order - 1;
          } in
          (
            ground (arith, lookup-insert p q info h.peer_ids),
            ground (arith, lookup-insert shard shard in_order h.peer_ids_per_shard),
            ground (arith, lookup-delete p p h.temp_peer_ids_waiting_for_shard),
          )
    ]
