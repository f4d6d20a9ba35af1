-- ===== src/Rating/Tiers.antt =====
-- The tiers of p2p/rating/peersRatingHandler.go: every rating is in the range of its cache, and no
-- peer has two ratings.
use mx_chain_communication_g.Common.Int.{ℤ, negsuc, ◌+ℤ◌, ◌≤ℤ◌, to_int32}
use mx_chain_communication_g.Common.{
  ◌≡◌, ◌⊎◌, refl, inl, inr, true, false, Option, none, some, Bytes, bytes_key, same, same_refl,
  same→eq, subst, arith, Bool-cases, Option-cases,
}
use mx_chain_communication_g.Cacher.{Cacher, IsCache}
use mx_chain_communication_g.Rating.{
  default_rating, min_rating, max_rating, Tier, top_rated_tier, bad_rated_tier, limit_rating,
  compute_rating_tier, PeersRatingHandler, get_old_rating, put_top, put_bad, move_peer_to_new_tier,
  store_rating, update_rating_cacher, update_rating,
}

abbrev pub IsTop : ℤ → Type 0
IsTop r = (default_rating ≤ℤ r) × (r ≤ℤ max_rating)

abbrev pub IsBad : ℤ → Type 0
IsBad r = (min_rating ≤ℤ r) × (r ≤ℤ negsuc 0)

-- The value that an update stores for a peer that had the rating `old`.
abbrev pub updated : ℤ → ℤ → ℤ
updated old factor = limit_rating (to_int32 (old +ℤ factor))

module _ (c : Cacher ℤ) (laws : IsCache c) where
  -- `apart`: a peer is rated in one cache at most.
  pub record IsRated (h : PeersRatingHandler c) : Type 0 where
    pub top : (k : Bytes) (r : ℤ) → c.get h.top_rated_cache k ≡ some r → IsTop r
    pub bad : (k : Bytes) (r : ℤ) → c.get h.bad_rated_cache k ≡ some r → IsBad r
    pub apart :
        (k : Bytes) (r : ℤ) → c.get h.top_rated_cache k ≡ some r → c.get h.bad_rated_cache k ≡ none

  -- What a put can leave for a key.
  get-put_cases :
      (s : c.Store) (k j : Bytes) (v r : ℤ)
      → c.get (c.put s k v) j ≡ some r
      → ((same k j ≡ true) × (v ≡ r)) ⊎ ((same k j ≡ false) × (c.get s j ≡ some r))
  get-put_cases s k j v r e = elim (Bool-cases (same k j)) [
    | inl here ↦ inl (here, ground (arith, same→eq k j here, laws.get-put_self s k v))
    | inr there ↦ inr (there, ground (arith, laws.get-put_ne s k j v there))
  ]

  pub put_top-IsRated :
      (h : PeersRatingHandler c) (k : Bytes) (r : ℤ)
      → IsRated h
      → c.get h.bad_rated_cache k ≡ none
      → IsTop r
      → IsRated (put_top c h k r)
  unfolding put_top
  put_top-IsRated h k r v absent good = record {
    top = λ j q e. ground (arith, get-put_cases h.top_rated_cache k j r q, v.top j q);
    bad = v.bad;
    apart =
        λ j q e. ground (arith, get-put_cases h.top_rated_cache k j r q, v.apart j q, same→eq k j);
  }

  put_bad-IsRated :
      (h : PeersRatingHandler c) (k : Bytes) (r : ℤ)
      → IsRated h
      → c.get h.top_rated_cache k ≡ none
      → IsBad r
      → IsRated (put_bad c h k r)
  unfolding put_bad
  put_bad-IsRated h k r v absent poor = record {
    top = v.top;
    bad = λ j q e. ground (arith, get-put_cases h.bad_rated_cache k j r q, v.bad j q);
    apart = λ j q e. elim (Option-cases (c.get (c.put h.bad_rated_cache k r) j)) [
      | inl gone ↦ gone
      | inr (p, f) ↦
          absurd (ground (arith, get-put_cases h.bad_rated_cache k j r p, v.apart j q, same→eq k j))
    ];
  }

  move_peer_to_new_tier-IsRated :
      (h : PeersRatingHandler c) (r : ℤ) (tier : Tier) (k : Bytes)
      → IsRated h
      → (compute_rating_tier r ≡ tier)
      → min_rating ≤ℤ r
      → r ≤ℤ max_rating
      → IsRated (move_peer_to_new_tier c h r tier k)
  unfolding move_peer_to_new_tier compute_rating_tier
  move_peer_to_new_tier-IsRated h r top_rated_tier k v e low high =
      put_top-IsRated (record h { bad_rated_cache = c.remove h.bad_rated_cache k }) k r
        (record {
          top = v.top;
          bad = λ j q f. ground (arith, laws.get-remove h.bad_rated_cache k j, v.bad j q);
          apart = λ j q f. ground (arith, laws.get-remove h.bad_rated_cache k j, v.apart j q);
        })
        (ground (arith, laws.get-remove h.bad_rated_cache k k, same_refl k)) (ground arith)
  move_peer_to_new_tier-IsRated h r bad_rated_tier k v e low high =
      put_bad-IsRated (record h { top_rated_cache = c.remove h.top_rated_cache k }) k r
        (record {
          top = λ j q f. ground (arith, laws.get-remove h.top_rated_cache k j, v.top j q);
          bad = v.bad;
          apart = λ j q f. ground (arith, laws.get-remove h.top_rated_cache k j, v.apart j q);
        })
        (ground (arith, laws.get-remove h.top_rated_cache k k, same_refl k)) (ground arith)

  touched_top-IsRated :
      (h : PeersRatingHandler c) (k : Bytes)
      → IsRated h
      → IsRated (record h { top_rated_cache = c.touch h.top_rated_cache k })
  touched_top-IsRated h k v = record {
    top = λ j q e. ground (arith, laws.get-touch h.top_rated_cache k j, v.top j q);
    bad = v.bad;
    apart = λ j q e. ground (arith, laws.get-touch h.top_rated_cache k j, v.apart j q);
  }

  touched_bad-IsRated :
      (h : PeersRatingHandler c) (k : Bytes)
      → IsRated h
      → IsRated (record h { bad_rated_cache = c.touch h.bad_rated_cache k })
  touched_bad-IsRated h k v = record {
    top = v.top;
    bad = λ j q e. ground (arith, laws.get-touch h.bad_rated_cache k j, v.bad j q);
    apart = λ j q e. ground (arith, laws.get-touch h.bad_rated_cache k j, v.apart j q);
  }

  store_rating-IsRated :
      (h : PeersRatingHandler c) (k : Bytes) (old new : Tier) (r : ℤ)
      → IsRated h
      → (old ≡ top_rated_tier → c.get h.bad_rated_cache k ≡ none)
      → (old ≡ bad_rated_tier → c.get h.top_rated_cache k ≡ none)
      → compute_rating_tier r ≡ new
      → min_rating ≤ℤ r
      → r ≤ℤ max_rating
      → IsRated (store_rating c h k old new r)
  unfolding store_rating compute_rating_tier
  store_rating-IsRated h k top_rated_tier top_rated_tier r v no_bad no_top e low high =
      put_top-IsRated h k r v (no_bad refl) (ground arith)
  store_rating-IsRated h k bad_rated_tier bad_rated_tier r v no_bad no_top e low high =
      put_bad-IsRated h k r v (no_top refl) (ground arith)
  store_rating-IsRated h k top_rated_tier bad_rated_tier r v no_bad no_top e low high =
      move_peer_to_new_tier-IsRated h r bad_rated_tier k v e low high
  store_rating-IsRated h k bad_rated_tier top_rated_tier r v no_bad no_top e low high =
      move_peer_to_new_tier-IsRated h r top_rated_tier k v e low high

  limit_rating_range : (r : ℤ) → (min_rating ≤ℤ limit_rating r) × (limit_rating r ≤ℤ max_rating)
  unfolding limit_rating
  limit_rating_range r = ground arith

  update_rating_cacher-IsRated :
      (h : PeersRatingHandler c) (k : Bytes) (old factor : ℤ)
      → IsRated h
      → (IsTop old × (c.get h.bad_rated_cache k ≡ none))
        ⊎ (IsBad old × (c.get h.top_rated_cache k ≡ none))
      → IsRated (update_rating_cacher c h k old (updated old factor))
  unfolding update_rating_cacher compute_rating_tier
  update_rating_cacher-IsRated h k old factor v found =
      store_rating-IsRated h k (compute_rating_tier old) (compute_rating_tier (updated old factor))
        (updated old factor) v (λ e. ground arith) (λ e. ground arith) refl
        (limit_rating_range (to_int32 (old +ℤ factor))).0
        (limit_rating_range (to_int32 (old +ℤ factor))).1

  unfoldable pub touched_top : PeersRatingHandler c → Bytes → PeersRatingHandler c
  touched_top h k = record h { top_rated_cache = c.touch h.top_rated_cache k }

  unfoldable pub touched_both : PeersRatingHandler c → Bytes → PeersRatingHandler c
  touched_both h k = record h {
    top_rated_cache = c.touch h.top_rated_cache k;
    bad_rated_cache = c.touch h.bad_rated_cache k;
  }

  touched_both-IsRated :
      (h : PeersRatingHandler c) (k : Bytes) → IsRated h → IsRated (touched_both h k)
  unfolding touched_both
  touched_both-IsRated h k v = touched_bad-IsRated _ k (touched_top-IsRated h k v)

  get_old_rating_top :
      (h : PeersRatingHandler c) (k : Bytes) {old : ℤ}
      → c.get h.top_rated_cache k ≡ some old
      → get_old_rating c h k ≡ (touched_top h k, some old)
  unfolding get_old_rating touched_top
  get_old_rating_top h k e = ground arith

  get_old_rating_bad :
      (h : PeersRatingHandler c) (k : Bytes) {found : Option ℤ}
      → c.get h.top_rated_cache k ≡ none
      → c.get h.bad_rated_cache k ≡ found
      → get_old_rating c h k ≡ (touched_both h k, found)
  unfolding get_old_rating touched_both
  get_old_rating_bad h k e f = ground arith

  pub update_rating_cases :
      (P : PeersRatingHandler c → Type 0) (h : PeersRatingHandler c) (k : Bytes) (factor : ℤ)
      → ((old : ℤ)
          → c.get h.top_rated_cache k ≡ some old
          → P (update_rating_cacher c (touched_top h k) k old (updated old factor)))
      → ((old : ℤ)
          → c.get h.top_rated_cache k ≡ none
          → c.get h.bad_rated_cache k ≡ some old
          → P (update_rating_cacher c (touched_both h k) k old (updated old factor)))
      → (c.get h.top_rated_cache k ≡ none
          → c.get h.bad_rated_cache k ≡ none
          → P (put_top c (touched_both h k) k default_rating))
      → P (update_rating c h k factor)
  unfolding update_rating
  update_rating_cases P h k factor top bad new = elim (Option-cases (c.get h.top_rated_cache k)) [
    | inr (old, e) ↦ subst P (ground (arith, get_old_rating_top h k e)) (top old e)
    | inl e ↦ elim (Option-cases (c.get h.bad_rated_cache k)) [
      | inr (old, f) ↦ subst P (ground (arith, get_old_rating_bad h k e f)) (bad old e f)
      | inl f ↦ subst P (ground (arith, get_old_rating_bad h k e f)) (new e f)
    ]
  ]

  pub update_rating-IsRated :
      (h : PeersRatingHandler c) (k : Bytes) (factor : ℤ)
      → IsRated h
      → IsRated (update_rating c h k factor)
  unfolding touched_top touched_both
  update_rating-IsRated h k factor v =
      update_rating_cases IsRated h k factor
        (λ old e.
          update_rating_cacher-IsRated _ k old factor (touched_top-IsRated h k v)
            (inl (v.top k old e, v.apart k old e)))
        (λ old e f.
          update_rating_cacher-IsRated _ k old factor (touched_both-IsRated h k v)
            (inr (v.bad k old f, ground (arith, laws.get-touch h.top_rated_cache k k))))
        (λ e f.
          put_top-IsRated _ k default_rating (touched_both-IsRated h k v)
            (ground (arith, laws.get-touch h.bad_rated_cache k k)) (omega arith, omega arith))
