-- ===== src/LoadBalancer/Order.antt =====
-- The order of the channels in p2p/libp2p/outgoingChannelLoadBalancer.go, and how a new one keeps it.
use mx_chain_communication_g.Common.{
  ℕ, zero, suc, ◌+◌, ◌<◌, true, Option, none, some, List, [], ◌∷◌, ◌++◌, Bytes, bytes_key, lookup,
  bytes_discrete, ℕ_discrete, insert, lookup-insert, is_some, same, same_refl, same→eq, get_elem?,
  ◌≡◌, ◌⊎◌, inl, inr, refl, subst, arith, Option-cases, Bool-cases, length, length-append,
  get_elem?-append_left, get_elem?-append_end, get_elem?-lt-length, All, ltb,
}
use mx_chain_communication_g.LoadBalancer.{
  default_send_channel, OutgoingChannelLoadBalancer, append_channel,
  new_outgoing_channel_load_balancer, index_from,
}

-- The list of channels and the map agree, name by name, and no open channel has been closed.
pub record IsBalanced (b : OutgoingChannelLoadBalancer) : Type 0 where
  pub lengths : length b.names ≡ length b.chans
  pub listed :
      (i ch : ℕ) (name : Bytes)
      → get_elem? b.names i ≡ some name
      → get_elem? b.chans i ≡ some ch
      → lookup name b.names_chans ≡ some ch
  pub distinct :
      (i j : ℕ) (name : Bytes)
      → get_elem? b.names i ≡ some name
      → get_elem? b.names j ≡ some name
      → i ≡ j
  pub mapped :
      (ch : ℕ) (name : Bytes)
      → lookup name b.names_chans ≡ some ch
      → is_some (index_from 0 name b.names) ≡ true
  pub first : get_elem? b.names 0 ≡ some default_send_channel
  pub old : (ch : ℕ) (name : Bytes) → lookup name b.names_chans ≡ some ch → ch < b.made
  pub apart :
      (ch : ℕ) (m n : Bytes)
      → lookup m b.names_chans ≡ some ch
      → lookup n b.names_chans ≡ some ch
      → m ≡ n
  pub past : All (λ ch. ch < b.made) b.closed
  pub open_kept :
      (ch : ℕ) (name : Bytes)
      → lookup name b.names_chans ≡ some ch
      → All (λ gone. ltb gone ch ≡ true ⊎ ltb ch gone ≡ true) b.closed

pub get_elem?-end_cases :
    {A : Type 0} (xs : List A) (x a : A) (i : ℕ)
    → get_elem? (xs ++ x ∷ []) i ≡ some a
    → (get_elem? xs i ≡ some a) ⊎ ((i ≡ length xs) × (x ≡ a))
get_elem?-end_cases [] x a zero h = inr (refl, ground arith)
get_elem?-end_cases [] x a (suc i) h = absurd (ground arith)
get_elem?-end_cases (y ∷ xs) x a zero h = inl h
get_elem?-end_cases (y ∷ xs) x a (suc i) h = elim (get_elem?-end_cases xs x a i h) [
  | inl k ↦ inl k
  | inr (k, l) ↦ inr (omega arith, l)
]

pub is_some→eq : {A : Type 0} (o : Option A) → is_some o ≡ true → (a : A) × (o ≡ some a)
is_some→eq none h = absurd (ground arith)
is_some→eq (some a) h = (a, refl)

-- What the search finds.
pub index_from_finds :
    (n i : ℕ) (channel : Bytes) (names : List Bytes)
    → index_from n channel names ≡ some i
    → (k : ℕ) × (i ≡ n + k) × (get_elem? names k ≡ some channel)
unfolding index_from
index_from_finds n i channel [] h = absurd (ground arith)
index_from_finds n i channel (name ∷ names) h = elim (Bool-cases (same name channel)) [
  | inl q ↦ (0, ground arith, ground (arith, same→eq name channel q))
  | inr q ↦
      let (k, e, f) = index_from_finds (suc n) i channel names (ground arith) in
      (suc k, omega arith, f)
]

pub index_from_present :
    (n k : ℕ) (channel : Bytes) (names : List Bytes)
    → get_elem? names k ≡ some channel
    → is_some (index_from n channel names) ≡ true
unfolding index_from
index_from_present n k channel [] h = absurd (ground arith)
index_from_present n zero channel (name ∷ names) h = ground (arith, same_refl channel)
index_from_present n (suc k) channel (name ∷ names) h =
    ground (arith, index_from_present (suc n) k channel names h)

pub past-suc : (made : ℕ) (chs : List ℕ) → All (λ ch. ch < made) chs → All (λ ch. ch < suc made) chs
past-suc made [] h = tt
past-suc made (ch ∷ chs) h = (omega (arith, h.0), past-suc made chs h.1)

pub past-open :
    (made : ℕ) (chs : List ℕ)
    → All (λ ch. ch < made) chs
    → All (λ gone. ltb gone made ≡ true ⊎ ltb made gone ≡ true) chs
past-open made [] h = tt
past-open made (ch ∷ chs) h = (inl (ground (arith, h.0)), past-open made chs h.1)

pub get_elem?-in :
    {A : Type 0} (xs : List A) (i : ℕ) → i < length xs → (a : A) × (get_elem? xs i ≡ some a)
get_elem?-in [] i h = absurd (omega arith)
get_elem?-in (x ∷ xs) zero h = (x, refl)
get_elem?-in (x ∷ xs) (suc i) h = get_elem?-in xs i (omega arith)

pub named_has_channel :
    (b : OutgoingChannelLoadBalancer) (i : ℕ) (name : Bytes)
    → IsBalanced b
    → get_elem? b.names i ≡ some name
    → (ch : ℕ) × (get_elem? b.chans i ≡ some ch) × (lookup name b.names_chans ≡ some ch)
named_has_channel b i name v e =
    let (ch, f) =
      get_elem?-in b.chans i (omega (arith, get_elem?-lt-length b.names i name e, v.lengths)) in
    (ch, f, v.listed i ch name e f)

pub append_channel-IsBalanced :
    (b : OutgoingChannelLoadBalancer) (channel : Bytes)
    → IsBalanced b
    → lookup channel b.names_chans ≡ none
    → IsBalanced (append_channel channel b)
unfolding append_channel
append_channel-IsBalanced b channel v fresh = record {
  lengths = omega (
    arith,
    v.lengths,
    length-append {0} b.names (channel ∷ []),
    length-append {0} b.chans (b.made ∷ []),
  );
  listed = λ i ch name e f. ground (
    arith,
    lookup-insert channel name b.made b.names_chans,
    get_elem?-end_cases b.names channel name i e,
    get_elem?-end_cases b.chans b.made ch i f,
    v.lengths,
    v.listed i ch name,
    get_elem?-lt-length b.names i name,
    get_elem?-lt-length b.chans i ch,
    same→eq channel name,
    same_refl channel,
  );
  distinct = λ i j name e f. ground (
    arith,
    get_elem?-end_cases b.names channel name i e,
    get_elem?-end_cases b.names channel name j f,
    v.distinct i j name,
    named_has_channel b i name v,
    named_has_channel b j name v,
  );
  mapped = λ ch name e. elim (Option-cases (lookup name b.names_chans)) [
    | inr (old, f) ↦
        let (i, q) = is_some→eq (index_from 0 name b.names) (v.mapped old name f) in
        let (k, r, g) = index_from_finds 0 i name b.names q in
        index_from_present 0 k name (b.names ++ channel ∷ [])
          (get_elem?-append_left b.names (channel ∷ []) k name g)
    | inl f ↦
        subst (λ n. is_some (index_from 0 n (b.names ++ channel ∷ [])) ≡ true)
          (same→eq channel name (ground (arith, lookup-insert channel name b.made b.names_chans)))
          (index_from_present 0 (length b.names) channel (b.names ++ channel ∷ [])
            (get_elem?-append_end b.names channel))
  ];
  first = get_elem?-append_left b.names (channel ∷ []) 0 default_send_channel v.first;
  old = λ ch name e. ground (arith, lookup-insert channel name b.made b.names_chans, v.old ch name);
  apart = λ ch m n e f. ground (
    arith,
    lookup-insert channel m b.made b.names_chans,
    lookup-insert channel n b.made b.names_chans,
    v.old ch m,
    v.old ch n,
    v.apart ch m n,
    same→eq channel m,
    same→eq channel n,
  );
  past = past-suc b.made b.closed v.past;
  open_kept = λ ch name e. elim (Bool-cases (same channel name)) [
    | inl q ↦
        subst (λ c. All (λ gone. ltb gone c ≡ true ⊎ ltb c gone ≡ true) b.closed)
          (ground (arith, lookup-insert channel name b.made b.names_chans))
          (past-open b.made b.closed v.past)
    | inr q ↦ v.open_kept ch name (ground (arith, lookup-insert channel name b.made b.names_chans))
  ];
}

pub new_outgoing_channel_load_balancer-IsBalanced : IsBalanced new_outgoing_channel_load_balancer
unfolding new_outgoing_channel_load_balancer append_channel lookup index_from insert bytes_discrete
    ℕ_discrete
new_outgoing_channel_load_balancer-IsBalanced = record {
  lengths = refl;
  listed = go_listed;
  distinct = go_distinct;
  mapped = λ ch name e. ground arith;
  first = refl;
  old = λ ch name e. ground arith;
  apart =
      λ ch m n e f. ground (arith, same→eq default_send_channel m, same→eq default_send_channel n);
  past = tt;
  open_kept = λ ch name e. tt;
}
  where
    go_listed :
        (i ch : ℕ) (name : Bytes)
        → get_elem? (default_send_channel ∷ []) i ≡ some name
        → get_elem? (0 ∷ []) i ≡ some ch
        → lookup name ((default_send_channel, 0) ∷ []) ≡ some ch
    go_listed zero ch name e f =
        let q : default_send_channel ≡ name = ground (arith, e) in
        subst (λ n. lookup n ((default_send_channel, 0) ∷ []) ≡ some ch) q f
    go_listed (suc i) ch name e f = absurd (ground arith)

    go_distinct :
        (i j : ℕ) (name : Bytes)
        → get_elem? (default_send_channel ∷ []) i ≡ some name
        → get_elem? (default_send_channel ∷ []) j ≡ some name
        → i ≡ j
    go_distinct zero zero name e f = refl
    go_distinct zero (suc j) name e f = absurd (ground arith)
    go_distinct (suc i) j name e f = absurd (ground arith)
