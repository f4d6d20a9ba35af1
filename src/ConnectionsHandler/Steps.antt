-- ===== src/ConnectionsHandler/Steps.antt =====
-- What one connected peer adds to the counters and the lists of `GetConnectedPeersInfo`.
use mx_chain_communication_g.Common.{
  ℕ, suc, refl, ap, sym, same→eq, ◌+◌, ◌≡◌, Bool, true, false, ◌&&◌, not, List, [], ◌∷◌, ◌++◌,
  Bytes, bytes_key, nat_key, same, if◌then◌else◌, length, length-append, count_by, Map,
  lookup-insert, arith,
}
use mx_chain_communication_g.Sharding.{
  PeerType, unknown_peer, validator_peer, observer_peer, other_peer, PeerShard,
}
use mx_chain_communication_g.ConnectionsHandler.{Host}
use mx_chain_communication_g.ConnectionsHandler.Counts.{
  ConnectedPeersInfo, number_at, strings_at, increment, append_at, append_peer_info,
  connection_string, add_peer, add_peers,
}

number_at-increment :
    (s shard : ℕ) (m : Map ℕ ℕ)
    → number_at s (increment shard m) ≡ number_at s m + (if same shard s then 1 else 0)
unfolding number_at increment
number_at-increment s shard m = ground (arith, lookup-insert shard s (suc (number_at shard m)) m)

strings_at-append_at :
    (s shard : ℕ) (t : Bytes) (m : Map ℕ (List Bytes))
    → strings_at s (append_at shard t m)
      ≡ (if same shard s then strings_at s m ++ t ∷ [] else strings_at s m)
unfolding strings_at append_at
strings_at-append_at s shard t m =
    ground (arith, lookup-insert shard s (strings_at shard m ++ t ∷ []) m, same→eq shard s)

append_nil : (xs : List Bytes) → xs ++ [] ≡ xs
append_nil [] = refl
append_nil (x ∷ xs) = ap (λ l. x ∷ l) (append_nil xs)

append_cons : (xs : List Bytes) (x : Bytes) (ys : List Bytes) → (xs ++ x ∷ []) ++ ys ≡ xs ++ x ∷ ys
append_cons [] x ys = refl
append_cons (z ∷ xs) x ys = ap (λ l. z ∷ l) (append_cons xs x ys)

-- The texts of the peers that pass a test, in the order of the peers.
unfoldable pub texts : (Bytes → Bytes) → (Bytes → Bool) → List Bytes → List Bytes
texts text q [] = []
texts text q (p ∷ peers) = let rest = texts text q peers in if q p then text p ∷ rest else rest

abbrev pub is_validator : PeerType → Bool
is_validator validator_peer = true
is_validator _ = false

abbrev pub is_observer : PeerType → Bool
is_observer observer_peer = true
is_observer _ = false

abbrev pub is_other : PeerType → Bool
is_other other_peer = true
is_other _ = false

abbrev pub is_unknown : PeerType → Bool
is_unknown unknown_peer = true
is_unknown _ = false

-- All peers that are in some list.
abbrev pub all_reported : ConnectedPeersInfo → ℕ
all_reported info =
    info.num_intra_shard_validators
    + info.num_cross_shard_validators
    + info.num_intra_shard_observers
    + info.num_cross_shard_observers
    + length info.unknown_peers
    + length info.seeders

module _ (pretty : Bytes → Bytes) (is_seeder : Bytes → Bool) (preferred : Bytes → Bool)
    (host : Host) (get : Bytes → PeerShard) (self : PeerShard) where
  -- A measure that each peer raises by one when it passes a test counts the peers that pass it.
  pub add_peers-measure :
      (measure : ConnectedPeersInfo → ℕ) (q : Bytes → Bool)
      → ((info : ConnectedPeersInfo) (p : Bytes)
          → measure (add_peer pretty is_seeder preferred host get self info p)
            ≡ measure info + (if q p then 1 else 0))
      → (info : ConnectedPeersInfo) (peers : List Bytes)
      → measure (add_peers pretty is_seeder preferred host get self info peers)
        ≡ measure info + count_by q peers
  unfolding add_peers
  add_peers-measure measure q h info [] = omega arith
  add_peers-measure measure q h info (p ∷ peers) = omega (
    arith,
    h info p,
    add_peers-measure measure q h (add_peer pretty is_seeder preferred host get self info p) peers,
  )

  -- A list to which the connection string of each peer that passes a test is appended has those of all.
  pub add_peers-texts :
      (view : ConnectedPeersInfo → List Bytes) (q : Bytes → Bool)
      → ((info : ConnectedPeersInfo) (p : Bytes)
          → view (add_peer pretty is_seeder preferred host get self info p) ≡ (
              if q p
              then view info ++ connection_string pretty is_seeder preferred host p ∷ []
              else view info))
      → (info : ConnectedPeersInfo) (peers : List Bytes)
      → view (add_peers pretty is_seeder preferred host get self info peers)
        ≡ view info ++ texts (λ p. connection_string pretty is_seeder preferred host p) q peers
  unfolding add_peers texts
  add_peers-texts view q h info [] = sym (append_nil (view info))
  add_peers-texts view q h info (p ∷ peers) =
      let info' = add_peer pretty is_seeder preferred host get self info p in
      let rest = add_peers-texts view q h info' peers in
      ground (
        arith,
        h info p,
        rest,
        append_cons (view info) (connection_string pretty is_seeder preferred host p)
            (texts (λ p'. connection_string pretty is_seeder preferred host p') q peers),
      )

  abbrev pub of_shard : (PeerType → Bool) → ℕ → Bytes → Bool
  of_shard kind s p = kind (get p).peer_type && same (get p).shard_id s

  abbrev pub of_intra_shard : (PeerType → Bool) → ℕ → Bytes → Bool
  of_intra_shard kind s p = of_shard kind s p && same self.shard_id s

  abbrev pub of_cross_shard : (PeerType → Bool) → ℕ → Bytes → Bool
  of_cross_shard kind s p = of_shard kind s p && not (same self.shard_id s)

  pub validators_step :
      (s : ℕ) (info : ConnectedPeersInfo) (p : Bytes)
      → number_at s
          (add_peer pretty is_seeder preferred host get self info p).num_validators_on_shard
        ≡ number_at s info.num_validators_on_shard + (if of_shard is_validator s p then 1 else 0)
  unfolding add_peer append_peer_info
  validators_step s info p =
      ground (arith, number_at-increment s (get p).shard_id info.num_validators_on_shard)

  pub intra_validators_step :
      (s : ℕ) (info : ConnectedPeersInfo) (p : Bytes)
      → strings_at s
          (add_peer pretty is_seeder preferred host get self info p).intra_shard_validators
        ≡ (if of_intra_shard is_validator s p
            then strings_at s info.intra_shard_validators
              ++ connection_string pretty is_seeder preferred host p ∷ []
            else strings_at s info.intra_shard_validators)
  unfolding add_peer append_peer_info
  intra_validators_step s info p = ground (
    arith,
    strings_at-append_at s (get p).shard_id (connection_string pretty is_seeder preferred host p)
        info.intra_shard_validators,
    same→eq (get p).shard_id s,
  )

  pub cross_validators_step :
      (s : ℕ) (info : ConnectedPeersInfo) (p : Bytes)
      → strings_at s
          (add_peer pretty is_seeder preferred host get self info p).cross_shard_validators
        ≡ (if of_cross_shard is_validator s p
            then strings_at s info.cross_shard_validators
              ++ connection_string pretty is_seeder preferred host p ∷ []
            else strings_at s info.cross_shard_validators)
  unfolding add_peer append_peer_info
  cross_validators_step s info p = ground (
    arith,
    strings_at-append_at s (get p).shard_id (connection_string pretty is_seeder preferred host p)
        info.cross_shard_validators,
    same→eq (get p).shard_id s,
  )

  pub observers_step :
      (s : ℕ) (info : ConnectedPeersInfo) (p : Bytes)
      → number_at s
          (add_peer pretty is_seeder preferred host get self info p).num_observers_on_shard
        ≡ number_at s info.num_observers_on_shard + (if of_shard is_observer s p then 1 else 0)
  unfolding add_peer append_peer_info
  observers_step s info p =
      ground (arith, number_at-increment s (get p).shard_id info.num_observers_on_shard)

  pub intra_observers_step :
      (s : ℕ) (info : ConnectedPeersInfo) (p : Bytes)
      → strings_at s
          (add_peer pretty is_seeder preferred host get self info p).intra_shard_observers
        ≡ (if of_intra_shard is_observer s p
            then strings_at s info.intra_shard_observers
              ++ connection_string pretty is_seeder preferred host p ∷ []
            else strings_at s info.intra_shard_observers)
  unfolding add_peer append_peer_info
  intra_observers_step s info p = ground (
    arith,
    strings_at-append_at s (get p).shard_id (connection_string pretty is_seeder preferred host p)
        info.intra_shard_observers,
    same→eq (get p).shard_id s,
  )

  pub cross_observers_step :
      (s : ℕ) (info : ConnectedPeersInfo) (p : Bytes)
      → strings_at s
          (add_peer pretty is_seeder preferred host get self info p).cross_shard_observers
        ≡ (if of_cross_shard is_observer s p
            then strings_at s info.cross_shard_observers
              ++ connection_string pretty is_seeder preferred host p ∷ []
            else strings_at s info.cross_shard_observers)
  unfolding add_peer append_peer_info
  cross_observers_step s info p = ground (
    arith,
    strings_at-append_at s (get p).shard_id (connection_string pretty is_seeder preferred host p)
        info.cross_shard_observers,
    same→eq (get p).shard_id s,
  )

  pub preferred_step :
      (s : ℕ) (info : ConnectedPeersInfo) (p : Bytes)
      → number_at s
          (add_peer pretty is_seeder preferred host get self info p).num_preferred_peers_on_shard
        ≡ number_at s info.num_preferred_peers_on_shard
          + (if preferred p && same (get p).shard_id s then 1 else 0)
  unfolding add_peer append_peer_info
  preferred_step s info p =
      ground (arith, number_at-increment s (get p).shard_id info.num_preferred_peers_on_shard)

  pub reported_step :
      (info : ConnectedPeersInfo) (p : Bytes)
      → all_reported (add_peer pretty is_seeder preferred host get self info p)
        ≡ all_reported info + (if not (is_other (get p).peer_type) then 1 else 0)
  unfolding add_peer append_peer_info
  reported_step info p = ground (
    arith,
    length-append {0} info.seeders ((connection_string pretty is_seeder preferred host p) ∷ []),
    length-append {0} info.unknown_peers
        ((connection_string pretty is_seeder preferred host p) ∷ []),
  )

  pub intra_validators_number_step :
      (info : ConnectedPeersInfo) (p : Bytes)
      → (add_peer pretty is_seeder preferred host get self info p).num_intra_shard_validators
        ≡ info.num_intra_shard_validators
          + (if is_validator (get p).peer_type && same self.shard_id (get p).shard_id then 1 else 0)
  unfolding add_peer append_peer_info
  intra_validators_number_step info p = ground (arith)

  pub intra_observers_number_step :
      (info : ConnectedPeersInfo) (p : Bytes)
      → (add_peer pretty is_seeder preferred host get self info p).num_intra_shard_observers
        ≡ info.num_intra_shard_observers
          + (if is_observer (get p).peer_type && same self.shard_id (get p).shard_id then 1 else 0)
  unfolding add_peer append_peer_info
  intra_observers_number_step info p = ground (arith)
