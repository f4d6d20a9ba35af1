-- ===== src/Rating/Ranking.antt =====
-- What the rating calls of p2p/rating/peersRatingHandler.go store, and which peers
-- `GetTopRatedPeersFromList` returns.
use mx_chain_communication_g.Common.Int.{ℤ, pos, negsuc, leb_ℤ, ◌+ℤ◌, ◌≤ℤ◌, to_int32_id}
use mx_chain_communication_g.Common.{
  ◌≡◌, ◌⊎◌, refl, inl, inr, ◌∙◌, ap, if◌then◌else◌, Option, none, some, Bytes, bytes_key, same_refl,
  arith,
}
use mx_chain_communication_g.Cacher.{Cacher, IsCache}
use mx_chain_communication_g.Rating.{
  default_rating, min_rating, max_rating, Tier, top_rated_tier, bad_rated_tier, limit_rating,
  compute_rating_tier, PeersRatingHandler, put_top, put_bad, move_peer_to_new_tier, store_rating,
  update_rating_cacher, update_rating, increase_rating, decrease_rating, increase_factor,
  decrease_factor,
}
use mx_chain_communication_g.Rating.Tiers.{
  IsTop, IsRated, updated, touched_top, touched_both, update_rating_cases,
}

-- A rating brought into the range from -100 to 100.
abbrev pub held : ℤ → ℤ
held r = if leb_ℤ (pos 100) r then pos 100 else if leb_ℤ r (negsuc 99) then negsuc 99 else r

limit_rating-held : (r : ℤ) → limit_rating r ≡ held r
unfolding limit_rating
limit_rating-held (pos n) = ground arith
limit_rating-held (negsuc n) = ground arith

-- The rating after an update: a new peer starts at zero.
abbrev pub next_rating : Option ℤ → ℤ → ℤ
next_rating none factor = pos 0
next_rating (some old) factor = held (old +ℤ factor)

updated_in_range :
    (old factor : ℤ)
    → min_rating ≤ℤ old
    → old ≤ℤ max_rating
    → negsuc 99 ≤ℤ factor
    → factor ≤ℤ pos 100
    → updated old factor ≡ held (old +ℤ factor)
unfolding ◌+ℤ◌
updated_in_range old factor low high below above =
    ap limit_rating (to_int32_id (old +ℤ factor) (ground arith) (ground arith))
    ∙ limit_rating-held (old +ℤ factor)

module _ (c : Cacher ℤ) (laws : IsCache c) where
  -- The rating of a peer, in whichever cache it stands.
  unfoldable pub rating_of : PeersRatingHandler c → Bytes → Option ℤ
  rating_of h k = elim (c.get h.top_rated_cache k) [
    | some rating ↦ some rating
    | none ↦ c.get h.bad_rated_cache k
  ]

  rating_of-store_rating :
      (h : PeersRatingHandler c) (k : Bytes) (old new : Tier) (r : ℤ)
      → (old ≡ bad_rated_tier → c.get h.top_rated_cache k ≡ none)
      → rating_of (store_rating c h k old new r) k ≡ some r
  unfolding rating_of store_rating move_peer_to_new_tier put_top put_bad
  rating_of-store_rating h k top_rated_tier top_rated_tier r none_top =
      ground (arith, laws.get-put_self h.top_rated_cache k r)
  rating_of-store_rating h k bad_rated_tier bad_rated_tier r none_top =
      ground (arith, none_top refl, laws.get-put_self h.bad_rated_cache k r)
  rating_of-store_rating h k top_rated_tier bad_rated_tier r none_top = ground (
    arith,
    laws.get-remove h.top_rated_cache k k,
    same_refl k,
    laws.get-put_self h.bad_rated_cache k r,
  )
  rating_of-store_rating h k bad_rated_tier top_rated_tier r none_top =
      ground (arith, laws.get-put_self h.top_rated_cache k r)

  bad_has_none_on_top :
      (h : PeersRatingHandler c) (k : Bytes) (old : ℤ)
      → (IsTop old ⊎ (c.get h.top_rated_cache k ≡ none))
      → compute_rating_tier old ≡ bad_rated_tier
      → c.get h.top_rated_cache k ≡ none
  unfolding compute_rating_tier
  bad_has_none_on_top h k old found e = ground arith

  rating_of-update_rating_cacher :
      (h : PeersRatingHandler c) (k : Bytes) (old factor : ℤ)
      → min_rating ≤ℤ old
      → old ≤ℤ max_rating
      → negsuc 99 ≤ℤ factor
      → factor ≤ℤ pos 100
      → (IsTop old ⊎ (c.get h.top_rated_cache k ≡ none))
      → rating_of (update_rating_cacher c h k old (updated old factor)) k
        ≡ some (held (old +ℤ factor))
  unfolding update_rating_cacher
  rating_of-update_rating_cacher h k old factor low high below above found = ground (
    arith,
    rating_of-store_rating h k (compute_rating_tier old) (compute_rating_tier (updated old factor))
        (updated old factor) (λ e. bad_has_none_on_top h k old found e),
    updated_in_range old factor low high below above,
  )

  rating_of-update_top :
      (h : PeersRatingHandler c) (k : Bytes) (old factor : ℤ)
      → IsRated c laws h
      → negsuc 99 ≤ℤ factor
      → factor ≤ℤ pos 100
      → c.get h.top_rated_cache k ≡ some old
      → rating_of (update_rating_cacher c (touched_top c laws h k) k old (updated old factor)) k
        ≡ some (next_rating (rating_of h k) factor)
  unfolding rating_of
  rating_of-update_top h k old factor v below above e =
      rating_of-update_rating_cacher (touched_top c laws h k) k old factor
        (omega (arith, v.top k old e)) (omega (arith, v.top k old e)) below above
        (inl (v.top k old e))
      ∙ ground arith

  rating_of-update_bad :
      (h : PeersRatingHandler c) (k : Bytes) (old factor : ℤ)
      → IsRated c laws h
      → negsuc 99 ≤ℤ factor
      → factor ≤ℤ pos 100
      → c.get h.top_rated_cache k ≡ none
      → c.get h.bad_rated_cache k ≡ some old
      → rating_of (update_rating_cacher c (touched_both c laws h k) k old (updated old factor)) k
        ≡ some (next_rating (rating_of h k) factor)
  unfolding rating_of touched_both
  rating_of-update_bad h k old factor v below above e f =
      rating_of-update_rating_cacher (touched_both c laws h k) k old factor
        (omega (arith, v.bad k old f)) (omega (arith, v.bad k old f)) below above
        (inr (laws.get-touch h.top_rated_cache k k ∙ e))
      ∙ ground arith

  rating_of-update_new :
      (h : PeersRatingHandler c) (k : Bytes) (factor : ℤ)
      → c.get h.top_rated_cache k ≡ none
      → c.get h.bad_rated_cache k ≡ none
      → rating_of (put_top c (touched_both c laws h k) k default_rating) k
        ≡ some (next_rating (rating_of h k) factor)
  unfolding rating_of put_top touched_both
  rating_of-update_new h k factor e f =
      ground (arith, laws.get-put_self (touched_both c laws h k).top_rated_cache k default_rating)

  rating_of-update_rating :
      (h : PeersRatingHandler c) (k : Bytes) (factor : ℤ)
      → IsRated c laws h
      → negsuc 99 ≤ℤ factor
      → factor ≤ℤ pos 100
      → rating_of (update_rating c h k factor) k ≡ some (next_rating (rating_of h k) factor)
  rating_of-update_rating h k factor v below above =
      update_rating_cases c laws (λ h'. rating_of h' k ≡ some (next_rating (rating_of h k) factor))
        h k factor (λ old e. rating_of-update_top h k old factor v below above e)
        (λ old e f. rating_of-update_bad h k old factor v below above e f)
        (λ e f. rating_of-update_new h k factor e f)

  -- In a well-formed handler IncreaseRating and DecreaseRating store for their peer its old rating
  -- plus 2, or less 1, held within -100 and 100; a peer that had none gets 0.
  pub increase_decrease_rating :
      (h : PeersRatingHandler c) (k : Bytes)
      → IsRated c laws h
      → (rating_of (increase_rating c h k) k ≡ some (next_rating (rating_of h k) (pos 2)))
        × (rating_of (decrease_rating c h k) k ≡ some (next_rating (rating_of h k) (negsuc 0)))
  unfolding increase_rating decrease_rating
  increase_decrease_rating h k v = (
    rating_of-update_rating h k increase_factor v (omega arith) (omega arith),
    rating_of-update_rating h k decrease_factor v (omega arith) (omega arith),
  )
