-- ===== src/Rating/Monitor.antt =====
-- p2p/rating/peersRatingMonitor.go: the ratings of the connected peers. `core.PeerID.Pretty` and the
-- printing of a number are parameters; the JSON text around the map is left out.
use mx_chain_communication_g.Common.Int.{ℤ}
use mx_chain_communication_g.Common.{
  inl, inr, ◌≡◌, ◌∙◌, ap, Option, none, some, List, [], ◌∷◌, Bytes, bytes_key, Map, lookup, insert,
  lookup-insert, same, same_refl, arith, All, Bool-cases, same→eq,
}
use mx_chain_communication_g.Cacher.{Cacher, IsCache}
use mx_chain_communication_g.Rating.{PeersRatingHandler}
use mx_chain_communication_g.Rating.Ranking.{rating_of}

-- "unknown"
abbrev pub unknown_rating : Bytes
unknown_rating = 117 ∷ 110 ∷ 107 ∷ 110 ∷ 111 ∷ 119 ∷ 110 ∷ []

module _ (c : Cacher ℤ) (laws : IsCache c) (pretty : Bytes → Bytes) (print : ℤ → Bytes) where
  unfoldable pub fetch_rating : PeersRatingHandler c → Bytes → Bytes
  fetch_rating m pid = elim (c.get m.top_rated_cache pid) [
    | some rating ↦ print rating
    | none ↦ elim (c.get m.bad_rated_cache pid) [
      | some rating ↦ print rating
      | none ↦ unknown_rating
    ]
  ]

  unfoldable pub extract_from :
      PeersRatingHandler c → Map Bytes Bytes → List Bytes → Map Bytes Bytes
  extract_from m ratings [] = ratings
  extract_from m ratings (peer ∷ peers) =
      extract_from m (insert (pretty peer) (fetch_rating m peer) ratings) peers

  unfoldable pub extract_connected_peers_ratings :
      PeersRatingHandler c → List Bytes → Map Bytes Bytes
  extract_connected_peers_ratings m connected = extract_from m [] connected

  -- What the monitor writes for a rating.
  abbrev pub describe : Option ℤ → Bytes
  describe none = unknown_rating
  describe (some rating) = print rating

  fetch_rating-describe :
      (m : PeersRatingHandler c) (p : Bytes) → fetch_rating m p ≡ describe (rating_of c laws m p)
  unfolding fetch_rating rating_of
  fetch_rating-describe m p = ground arith

  extract_from-keeps :
      (m : PeersRatingHandler c) (ratings : Map Bytes Bytes) (peers : List Bytes) (p : Bytes)
      → ((a b : Bytes) → pretty a ≡ pretty b → a ≡ b)
      → lookup (pretty p) ratings ≡ some (fetch_rating m p)
      → lookup (pretty p) (extract_from m ratings peers) ≡ some (fetch_rating m p)
  unfolding extract_from
  extract_from-keeps m ratings [] p injective known = known
  extract_from-keeps m ratings (peer ∷ peers) p injective known =
      extract_from-keeps m (insert (pretty peer) (fetch_rating m peer) ratings) peers p injective (
        lookup-insert (pretty peer) (pretty p) (fetch_rating m peer) ratings
        ∙ elim (Bool-cases (same (pretty peer) (pretty p))) [
          | inl e ↦ ground (
            arith,
            injective peer p (same→eq (pretty peer) (pretty p) e),
            ap (fetch_rating m) (injective peer p (same→eq (pretty peer) (pretty p) e)),
          )
          | inr e ↦ ground arith
        ])

  extract_from-All :
      (m : PeersRatingHandler c) (ratings : Map Bytes Bytes) (peers : List Bytes)
      → ((a b : Bytes) → pretty a ≡ pretty b → a ≡ b)
      → All
          (λ p.
            lookup (pretty p) (extract_from m ratings peers)
            ≡ some (describe (rating_of c laws m p)))
          peers
  unfolding extract_from
  extract_from-All m ratings [] injective = tt
  extract_from-All m ratings (peer ∷ peers) injective = (
    extract_from-keeps m _ peers peer injective (
          lookup-insert (pretty peer) (pretty peer) (fetch_rating m peer) ratings
          ∙ ground (arith, same_refl (pretty peer)))
        ∙ ap some (fetch_rating-describe m peer),
    extract_from-All m (insert (pretty peer) (fetch_rating m peer) ratings) peers injective,
  )

  -- Where no two peers are printed alike, the monitor's map has for every connected peer the printed
  -- form of its rating, or "unknown" when it has none.
  extract_connected_peers_ratings-All :
      (m : PeersRatingHandler c) (connected : List Bytes)
      → ((a b : Bytes) → pretty a ≡ pretty b → a ≡ b)
      → All
          (λ p.
            lookup (pretty p) (extract_connected_peers_ratings m connected)
            ≡ some (describe (rating_of c laws m p)))
          connected
  unfolding extract_connected_peers_ratings
  extract_connected_peers_ratings-All m connected injective =
      extract_from-All m [] connected injective
