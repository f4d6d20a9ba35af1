-- ===== src/LoadBalancer/Channels.antt =====
-- Which channels p2p/libp2p/outgoingChannelLoadBalancer.go gives out.
use mx_chain_communication_g.Common.{
  ℕ, zero, suc, true, false, Option, none, some, List, [], ◌∷◌, Bytes, bytes_key, lookup, delete,
  lookup-delete, is_some, same, same_refl, same→eq, remove_at, cut_lem, get_elem?, returns, Outcome,
  ◌>>=◌, ◌≡◌, ◌⊎◌, inl, inr, refl, sym, ◌∙◌, subst, arith, Option-cases, Bool-cases,
  get_elem?-lt-length, get_elem?-remove_at, length-remove_at, All, ltb,
}
use mx_chain_communication_g.Errors.{P2pError, channel_can_not_be_deleted, channel_does_not_exist}
use mx_chain_communication_g.LoadBalancer.{
  default_send_channel, OutgoingChannelLoadBalancer, add_channel, index_from, remove_index,
  remove_channel, get_channel_or_default,
}
use mx_chain_communication_g.LoadBalancer.Order.{
  IsBalanced, is_some→eq, index_from_finds, index_from_present, named_has_channel,
  append_channel-IsBalanced,
}

-- The balancer without the channel at an index.
abbrev pub without : OutgoingChannelLoadBalancer → Bytes → ℕ → ℕ → OutgoingChannelLoadBalancer
without b channel k gone = record b {
  chans = remove_at b.chans k;
  names = remove_at b.names k;
  closed = gone ∷ b.closed;
  names_chans = delete channel b.names_chans;
}

without-mapped :
    (b : OutgoingChannelLoadBalancer) (channel : Bytes) (k gone : ℕ)
    → IsBalanced b
    → get_elem? b.names k ≡ some channel
    → (ch : ℕ) (name : Bytes) → lookup name (delete channel b.names_chans) ≡ some ch
    → is_some (index_from 0 name (remove_at b.names k)) ≡ true
without-mapped b channel k gone v here ch name e =
    let known : lookup name b.names_chans ≡ some ch =
      ground (arith, lookup-delete channel name b.names_chans) in
    let (i, q) = is_some→eq (index_from 0 name b.names) (v.mapped ch name known) in
    let (j, r, g) = index_from_finds 0 i name b.names q in
    elim (Bool-cases (ltb j k)) [
      | inl before ↦
          index_from_present 0 j name (remove_at b.names k)
            (ground (arith, get_elem?-remove_at b.names k j))
      | inr after ↦
          go j g (ground (arith, lookup-delete channel name b.names_chans, same_refl channel)) after
    ]
  where
    go :
        (j : ℕ)
        → get_elem? b.names j ≡ some name
        → (j ≡ k → channel ≡ name → ⊥)
        → ltb j k ≡ false
        → is_some (index_from 0 name (remove_at b.names k)) ≡ true
    go zero g apart after = absurd (ground (arith, apart))
    go (suc j) g apart after =
        index_from_present 0 j name (remove_at b.names k)
          (ground (arith, apart, get_elem?-remove_at b.names k j))

same_false→ne : (a b : Bytes) → same a b ≡ false → a ≡ b → ⊥
same_false→ne a b h e =
    absurd (ground (arith, same_refl a, subst (λ x. same a x ≡ false) (sym e) h))

-- The default channel stays the first.
remove_at-first :
    (names : List Bytes) (channel : Bytes) (k : ℕ)
    → same channel default_send_channel ≡ false
    → get_elem? names k ≡ some channel
    → get_elem? names 0 ≡ some default_send_channel
    → get_elem? (remove_at names k) 0 ≡ some default_send_channel
remove_at-first names channel zero other here first =
    let equal : channel ≡ default_send_channel = ground (arith, sym here ∙ first) in
    absurd (same_false→ne channel default_send_channel other equal)
remove_at-first names channel (suc k) other here first =
    ground (arith, get_elem?-remove_at names (suc k) 0)

without-IsBalanced :
    (b : OutgoingChannelLoadBalancer) (channel : Bytes) (k gone : ℕ)
    → IsBalanced b
    → same channel default_send_channel ≡ false
    → get_elem? b.names k ≡ some channel
    → get_elem? b.chans k ≡ some gone
    → IsBalanced (without b channel k gone)
without-IsBalanced b channel k gone v other here there = record {
  lengths = omega (
    arith,
    v.lengths,
    length-remove_at {0} b.names k (get_elem?-lt-length b.names k channel here),
    length-remove_at {0} b.chans k (get_elem?-lt-length b.chans k gone there),
  );
  listed = λ i ch name e f. ground (
    arith,
    get_elem?-remove_at b.names k i,
    get_elem?-remove_at b.chans k i,
    lookup-delete channel name b.names_chans,
    same→eq channel name,
    v.listed i ch name,
    v.listed (suc i) ch name,
    v.distinct i k name,
    v.distinct (suc i) k name,
  );
  distinct = λ i j name e f. ground (
    arith,
    get_elem?-remove_at b.names k i,
    get_elem?-remove_at b.names k j,
    v.distinct i j name,
    v.distinct (suc i) j name,
    v.distinct i (suc j) name,
    v.distinct (suc i) (suc j) name,
  );
  mapped = without-mapped b channel k gone v here;
  first = remove_at-first b.names channel k other here v.first;
  old = λ ch name e. ground (arith, lookup-delete channel name b.names_chans, v.old ch name);
  apart = λ ch m n e f. ground (
    arith,
    lookup-delete channel m b.names_chans,
    lookup-delete channel n b.names_chans,
    v.apart ch m n,
  );
  past = (v.old gone channel (v.listed k gone channel here there), v.past);
  open_kept = λ ch name e. (
    ground (
      arith,
      lookup-delete channel name b.names_chans,
      v.listed k gone channel here there,
      v.apart ch channel name,
      same_refl channel,
    ),
    v.open_kept ch name (ground (arith, lookup-delete channel name b.names_chans)),
  );
}

-- The calls that change the balancer; their errors leave it as it was.
pub data Call : Type 0 where
  add remove : Bytes → Call

unfoldable pub step : OutgoingChannelLoadBalancer → Call → Outcome OutgoingChannelLoadBalancer
step b (add channel) = returns (add_channel b channel).0
step b (remove channel) = remove_channel b channel >>= λ r. returns r.0

unfoldable pub run : OutgoingChannelLoadBalancer → List Call → Outcome OutgoingChannelLoadBalancer
run b [] = returns b
run b (call ∷ calls) = step b call >>= λ b'. run b' calls

-- The three ways in which RemoveChannel ends.
pub remove_channel_cases :
    (b : OutgoingChannelLoadBalancer) (channel : Bytes)
    → IsBalanced b
    → ((same channel default_send_channel ≡ true)
        × (remove_channel b channel ≡ returns (b, some channel_can_not_be_deleted)))
      ⊎ ((same channel default_send_channel ≡ false)
          × (lookup channel b.names_chans ≡ none)
          × (remove_channel b channel ≡ returns (b, some channel_does_not_exist)))
      ⊎ ((k : ℕ) × (gone : ℕ) × (same channel default_send_channel ≡ false)
          × (lookup channel b.names_chans ≡ some gone)
          × (remove_channel b channel ≡ returns (without b channel k gone, none))
          × IsBalanced (without b channel k gone))
unfolding remove_channel remove_index
remove_channel_cases b channel v = elim (Bool-cases (same channel default_send_channel)) [
  | inl q ↦ inl (q, ground arith)
  | inr q ↦ elim (Option-cases (index_from 0 channel b.names)) [
    | inl f ↦ elim (Option-cases (lookup channel b.names_chans)) [
      | inl g ↦ inr (inl (q, g, ground arith))
      | inr (ch, g) ↦ absurd (ground (arith, v.mapped ch channel g))
    ]
    | inr (i, f) ↦
        let (k, r, here) = index_from_finds 0 i channel b.names f in
        let (gone, there, known) = named_has_channel b k channel v here in
        inr (
          inr (
            k,
            gone,
            q,
            known,
            ground (
              arith,
              cut_lem b.chans k,
              cut_lem b.names k,
              get_elem?-lt-length b.names k channel here,
              v.lengths,
            ),
            without-IsBalanced b channel k gone v q here there,
          ))
  ]
]

remove_channel_returns :
    (b : OutgoingChannelLoadBalancer) (channel : Bytes)
    → IsBalanced b
    → (b' : OutgoingChannelLoadBalancer) × (failed : Option P2pError) × (remove_channel b channel
        ≡ returns (b', failed))
      × IsBalanced b'
remove_channel_returns b channel v = elim (remove_channel_cases b channel v) [
  | inl (q, e) ↦ (b, some channel_can_not_be_deleted, e, v)
  | inr (inl (q, g, e)) ↦ (b, some channel_does_not_exist, e, v)
  | inr (inr (k, gone, q, g, e, w)) ↦ (without b channel k gone, none, e, w)
]

pub add_channel-IsBalanced :
    (b : OutgoingChannelLoadBalancer) (channel : Bytes)
    → IsBalanced b
    → IsBalanced (add_channel b channel).0
unfolding add_channel
add_channel-IsBalanced b channel v = elim (Bool-cases (same channel default_send_channel)) [
  | inl q ↦ subst IsBalanced (ground arith) v
  | inr q ↦ elim (Option-cases (lookup channel b.names_chans)) [
    | inr (ch, f) ↦ subst IsBalanced (ground arith) v
    | inl f ↦ subst IsBalanced (ground arith) (append_channel-IsBalanced b channel v f)
  ]
]

step-IsBalanced :
    (b : OutgoingChannelLoadBalancer) (call : Call)
    → IsBalanced b
    → (b' : OutgoingChannelLoadBalancer) × (step b call ≡ returns b') × IsBalanced b'
unfolding step
step-IsBalanced b (add channel) v =
    ((add_channel b channel).0, refl, add_channel-IsBalanced b channel v)
step-IsBalanced b (remove channel) v =
    let (b', failed, e, v') = remove_channel_returns b channel v in (b', ground arith, v')

-- Any sequence of AddChannel and RemoveChannel on a balancer in order runs without a panic and leaves
-- it in order: names and channels agree place by place and with the map, no name or channel is there
-- twice, the default channel is the first one, and no channel of the map has been closed.
pub run-IsBalanced :
    (b : OutgoingChannelLoadBalancer) (calls : List Call)
    → IsBalanced b
    → (b' : OutgoingChannelLoadBalancer) × (run b calls ≡ returns b') × IsBalanced b'
unfolding run
run-IsBalanced b [] v = (b, refl, v)
run-IsBalanced b (call ∷ calls) v =
    let (b', e, v') = step-IsBalanced b call v in
    let (b'', e', v'') = run-IsBalanced b' calls v' in (b'', ground arith, v'')

-- In a balancer in order GetChannelOrDefault returns without a panic the channel of the name, or the
-- default one when the name has none, and the channel has not been closed.
pub get_channel_or_default_open :
    (b : OutgoingChannelLoadBalancer) (channel : Bytes)
    → IsBalanced b
    → (ch : ℕ) × (get_channel_or_default b channel ≡ returns ch)
      × ((lookup channel b.names_chans ≡ some ch)
          ⊎ ((lookup channel b.names_chans ≡ none)
              × (lookup default_send_channel b.names_chans ≡ some ch)))
      × All (λ gone. ltb gone ch ≡ true ⊎ ltb ch gone ≡ true) b.closed
unfolding get_channel_or_default
get_channel_or_default_open b channel v = elim (Option-cases (lookup channel b.names_chans)) [
  | inr (ch, e) ↦ (ch, ground arith, inl e, v.open_kept ch channel e)
  | inl e ↦
      let (ch, there, known) = named_has_channel b 0 default_send_channel v v.first in
      (ch, ground arith, inr (e, known), v.open_kept ch default_send_channel known)
]
