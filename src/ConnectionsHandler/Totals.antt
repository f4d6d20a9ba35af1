-- ===== src/ConnectionsHandler/Totals.antt =====
-- What `GetConnectedPeersInfo` counts and lists, against counts over the connected peers.
use mx_chain_communication_g.Common.{
  ℕ, ◌+◌, ◌≡◌, refl, ap, ◌++◌, ◌∙◌, sym, Bool, ◌&&◌, not, List, [], ◌∷◌, Bytes, bytes_key, nat_key,
  same, if◌then◌else◌, length, count_by, Map, lookup, arith,
}
use mx_chain_communication_g.Sharding.{PeerType, PeerShard}
use mx_chain_communication_g.ConnectionsHandler.{Host, ConnectionsHandler, p2p_separator}
use mx_chain_communication_g.ConnectionsHandler.Counts.{
  ConnectedPeersInfo, empty_info, number_at, strings_at, add_peer, connection_string,
  invalid_connection_string, get_connected_peers_info,
}
use mx_chain_communication_g.ConnectionsHandler.Steps.{
  is_validator, is_observer, is_other, all_reported, add_peers-measure, add_peers-texts, texts,
  validators_step, intra_validators_step, cross_validators_step, observers_step,
  intra_observers_step, cross_observers_step, preferred_step, reported_step,
  intra_validators_number_step, intra_observers_number_step,
}

count_by-not :
    (q : Bytes → Bool) (peers : List Bytes)
    → count_by (λ p. not (q p)) peers + count_by q peers ≡ length peers
count_by-not q [] = refl
count_by-not q (p ∷ peers) = ground (arith, count_by-not q peers)

count_by-same_sym :
    (q : Bytes → Bool) (f : Bytes → ℕ) (s : ℕ) (peers : List Bytes)
    → count_by (λ p. q p && same s (f p)) peers ≡ count_by (λ p. q p && same (f p) s) peers
count_by-same_sym q f s [] = refl
count_by-same_sym q f s (p ∷ peers) = ground (arith, count_by-same_sym q f s peers)

-- A condition that does not depend on the peer.
texts_and :
    (text : Bytes → Bytes) (q : Bytes → Bool) (b : Bool) (peers : List Bytes)
    → texts text (λ p. q p && b) peers ≡ (if b then texts text q peers else [])
unfolding texts
texts_and text q b [] = ground arith
texts_and text q b (p ∷ peers) = ground (arith, texts_and text q b peers)

-- The text of a peer: its first address, the separator and its printed name, or that it has none.
abbrev pub text_of : (Bytes → Bytes) → Host → Bytes → Bytes
text_of pretty host p = elim (host.conns_to_peer p) [
  | [] ↦ invalid_connection_string
  | c ∷ _ ↦ c.remote_multiaddr ++ (p2p_separator ++ pretty p)
]

-- What is counted and listed by shard of the peers of one type.
module _ (get : Bytes → PeerShard) (self : ℕ) (peers : List Bytes) where
  abbrev of_type : (PeerType → Bool) → ℕ → ℕ
  of_type kind s = count_by (λ p. kind (get p).peer_type && same (get p).shard_id s) peers

  -- The counter has the number of the peers of that type and shard. Their texts, in the order of the
  -- peers, are listed as intra shard for the own shard, and as cross shard for the others.
  abbrev pub IsCounted :
      (Bytes → Bytes)
      → (PeerType → Bool)
      → ℕ
      → Map ℕ ℕ
      → Map ℕ (List Bytes)
      → Map ℕ (List Bytes)
      → Type 0
  IsCounted text kind s numbers intra cross =
      (number_at s numbers ≡ of_type kind s)
      × (strings_at s intra ≡ (
          if same self s
          then texts text (λ p. kind (get p).peer_type && same (get p).shard_id s) peers
          else []))
      × (strings_at s cross ≡ (
          if same self s
          then []
          else texts text (λ p. kind (get p).peer_type && same (get p).shard_id s) peers))

module _ (pretty : Bytes → Bytes) (is_seeder : Bytes → Bool) (preferred : Bytes → Bool)
    (handler : ConnectionsHandler) (host : Host) where
  abbrev info : ConnectedPeersInfo
  info = get_connected_peers_info pretty is_seeder preferred handler host

  abbrev self_shard : ℕ
  self_shard = (handler.peer_shard_resolver handler.peer_id).shard_id

  measured :
      (measure : ConnectedPeersInfo → ℕ) (q : Bytes → Bool)
      → ((i : ConnectedPeersInfo) (p : Bytes)
          → measure (
              add_peer pretty is_seeder preferred host handler.peer_shard_resolver
                (handler.peer_shard_resolver handler.peer_id)
                i
                p)
            ≡ measure i + (if q p then 1 else 0))
      → measure (empty_info self_shard) ≡ 0
      → measure info ≡ count_by q host.peers
  unfolding get_connected_peers_info
  measured measure q h e = omega (
    arith,
    e,
    add_peers-measure pretty is_seeder preferred host handler.peer_shard_resolver
        (handler.peer_shard_resolver handler.peer_id) measure q h (empty_info self_shard)
        host.peers,
  )

  -- A list of the peers of a shard on one side, intra or cross.
  listed_where :
      (view : ConnectedPeersInfo → List Bytes) (q : Bytes → Bool) (b : Bool)
      → ((i : ConnectedPeersInfo) (p : Bytes)
          → view (
              add_peer pretty is_seeder preferred host handler.peer_shard_resolver
                (handler.peer_shard_resolver handler.peer_id)
                i
                p)
            ≡ (if q p && b
                then view i ++ connection_string pretty is_seeder preferred host p ∷ []
                else view i))
      → view (empty_info self_shard) ≡ []
      → view info ≡ (if b then texts (text_of pretty host) q host.peers else [])
  unfolding get_connected_peers_info connection_string
  listed_where view q b h e =
      add_peers-texts pretty is_seeder preferred host handler.peer_shard_resolver
        (handler.peer_shard_resolver handler.peer_id) view (λ p. q p && b) h (empty_info self_shard)
        host.peers
      ∙ ap (λ l. l ++ texts (text_of pretty host) (λ p. q p && b) host.peers) e
      ∙ texts_and (text_of pretty host) q b host.peers

  -- For every shard, the counters of validators and of observers have the numbers of the connected peers
  -- of that type and shard, and the texts of those peers are listed in their order, as intra shard
  -- for the own shard and as cross shard for the others. A text is the first address of the peer,
  -- the separator and its printed name. The counter of preferred peers has the number of those of
  -- that shard.
  pub get_connected_peers_info_by_shard :
      (s : ℕ)
      → IsCounted handler.peer_shard_resolver self_shard host.peers
          (text_of pretty host)
          is_validator
          s
          info.num_validators_on_shard
          info.intra_shard_validators
          info.cross_shard_validators
        × IsCounted handler.peer_shard_resolver self_shard host.peers
            (text_of pretty host)
            is_observer
            s
            info.num_observers_on_shard
            info.intra_shard_observers
            info.cross_shard_observers
        × (number_at s info.num_preferred_peers_on_shard
            ≡ count_by
                (λ p. preferred p && same (handler.peer_shard_resolver p).shard_id s)
                host.peers)
  unfolding number_at strings_at empty_info lookup
  get_connected_peers_info_by_shard s =
      let get = handler.peer_shard_resolver in
      let self = get handler.peer_id in
      let here = same self.shard_id s in
      (
        (
          measured (λ (i : ConnectedPeersInfo). number_at s i.num_validators_on_shard)
              (λ p. is_validator (get p).peer_type && same (get p).shard_id s)
              (validators_step pretty is_seeder preferred host get self s) refl,
          listed_where (λ (i : ConnectedPeersInfo). strings_at s i.intra_shard_validators)
              (λ p. is_validator (get p).peer_type && same (get p).shard_id s) here
              (intra_validators_step pretty is_seeder preferred host get self s) refl,
          ground (
            arith,
            listed_where (λ (i : ConnectedPeersInfo). strings_at s i.cross_shard_validators)
                (λ p. is_validator (get p).peer_type && same (get p).shard_id s) (not here)
                (cross_validators_step pretty is_seeder preferred host get self s) refl,
          ),
        ),
        (
          measured (λ (i : ConnectedPeersInfo). number_at s i.num_observers_on_shard)
              (λ p. is_observer (get p).peer_type && same (get p).shard_id s)
              (observers_step pretty is_seeder preferred host get self s) refl,
          listed_where (λ (i : ConnectedPeersInfo). strings_at s i.intra_shard_observers)
              (λ p. is_observer (get p).peer_type && same (get p).shard_id s) here
              (intra_observers_step pretty is_seeder preferred host get self s) refl,
          ground (
            arith,
            listed_where (λ (i : ConnectedPeersInfo). strings_at s i.cross_shard_observers)
                (λ p. is_observer (get p).peer_type && same (get p).shard_id s) (not here)
                (cross_observers_step pretty is_seeder preferred host get self s) refl,
          ),
        ),
        measured (λ (i : ConnectedPeersInfo). number_at s i.num_preferred_peers_on_shard)
            (λ p. preferred p && same (get p).shard_id s)
            (preferred_step pretty is_seeder preferred host get self s) refl,
      )

  -- The four totals, the unknown peers and the seeders make up all the connected peers whose type is one
  -- of the three that the code names; the intra shard totals are the counters of the own shard.
  get_connected_peers_info_in_all :
      (all_reported info
          + count_by (λ p. is_other (handler.peer_shard_resolver p).peer_type) host.peers
        ≡ length host.peers)
      × (info.num_intra_shard_validators ≡ number_at self_shard info.num_validators_on_shard)
      × (info.num_intra_shard_observers ≡ number_at self_shard info.num_observers_on_shard)
  unfolding empty_info
  get_connected_peers_info_in_all =
      let get = handler.peer_shard_resolver in
      let self = get handler.peer_id in
      let counted = get_connected_peers_info_by_shard self.shard_id in
      (
        omega (
          arith,
          measured all_reported (λ p. not (is_other (get p).peer_type))
              (reported_step pretty is_seeder preferred host get self) refl,
          count_by-not (λ p. is_other (get p).peer_type) host.peers,
        ),
        measured (λ (i : ConnectedPeersInfo). i.num_intra_shard_validators)
              (λ p. is_validator (get p).peer_type && same self.shard_id (get p).shard_id)
              (intra_validators_number_step pretty is_seeder preferred host get self) refl
            ∙ count_by-same_sym (λ p. is_validator (get p).peer_type) (λ p. (get p).shard_id)
                self.shard_id host.peers
            ∙ sym counted.0.0,
        measured (λ (i : ConnectedPeersInfo). i.num_intra_shard_observers)
              (λ p. is_observer (get p).peer_type && same self.shard_id (get p).shard_id)
              (intra_observers_number_step pretty is_seeder preferred host get self) refl
            ∙ count_by-same_sym (λ p. is_observer (get p).peer_type) (λ p. (get p).shard_id)
                self.shard_id host.peers
            ∙ sym counted.1.0,
      )
