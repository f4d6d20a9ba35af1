-- ===== src/LoadBalancer/Forwarding.antt =====
-- The goroutines of p2p/libp2p/outgoingChannelLoadBalancer.go: each forwards what its channel receives to
-- the main channel. The channels have no buffer, so that a sender and a receiver meet in one step; the
-- steps of the goroutines come in any order. A channel is closed by RemoveChannel.
use mx_chain_communication_g.Common.{
  ℕ, zero, suc, ◌+◌, ◌≡◌, refl, ap, Bool, true, false, ◌==◌, Option, none, some, List, [], ◌∷◌,
  ◌++◌, Bytes, if◌then◌else◌, arith, Bool-cases, inl, inr, count_by, count_by-append,
}

-- The type of the same name in p2p/libp2p/interface.go.
pub record SendableData : Type 0 where
  pub buff : Bytes
  pub topic : Bytes
  pub sk : Option Bytes
  pub id : Bytes

-- A goroutine waits on its channel, or for the main channel with the pointer that it read; `none` is nil.
pub data Forwarder : Type 0 where
  waiting : Forwarder
  holding : Option SendableData → Forwarder

-- `sent` and `collected` have what went into the channels and out of the main channel so far, each with
-- its channel.
pub record Pipes : Type 0 where
  pub forwarder : ℕ → Forwarder
  pub is_closed : ℕ → Bool
  pub sent : List (ℕ × SendableData)
  pub collected : List (ℕ × Option SendableData)

abbrev pub update : {A : Type 0} → (ℕ → A) → ℕ → A → ℕ → A
update f ch a = λ c. if c == ch then a else f c

abbrev pub no_data : Pipes
no_data = record { forwarder = λ ch. waiting; is_closed = λ ch. false; sent = []; collected = [] }

-- A send on a channel meets its goroutine; a goroutine reads nil from a closed channel; what a goroutine
-- holds meets `CollectOneElementFromChannels`; `RemoveChannel` closes a channel.
pub data Step (p : Pipes) : Pipes → Type 0 where
  send :
      (ch : ℕ) (data_in : SendableData)
      → p.forwarder ch ≡ waiting
      → p.is_closed ch ≡ false
      → Step p (record p {
        forwarder = update p.forwarder ch (holding (some data_in));
        sent = p.sent ++ (ch, data_in) ∷ [];
      })
  read_closed :
      (ch : ℕ)
      → p.forwarder ch ≡ waiting
      → p.is_closed ch ≡ true
      → Step p (record p { forwarder = update p.forwarder ch (holding none) })
  collect :
      (ch : ℕ) (obj : Option SendableData)
      → p.forwarder ch ≡ holding obj
      → Step p (record p {
        forwarder = update p.forwarder ch waiting;
        collected = p.collected ++ (ch, obj) ∷ [];
      })
  close : (ch : ℕ) → Step p (record p { is_closed = update p.is_closed ch true })

pub data Reach (p : Pipes) : Pipes → Type 0 where
  here : Reach p p
  later : {q r : Pipes} → Reach p q → Step q r → Reach p r

-- What was sent on a channel, what was collected from it, and what its goroutine holds.
abbrev pub sent_on : ℕ → List (ℕ × SendableData) → List SendableData
sent_on ch [] = []
sent_on ch ((c, d) ∷ l) = let rest = sent_on ch l in if c == ch then d ∷ rest else rest

abbrev pub given : Option SendableData → List SendableData
given none = []
given (some d) = d ∷ []

abbrev pub collected_on : ℕ → List (ℕ × Option SendableData) → List SendableData
collected_on ch [] = []
collected_on ch ((c, o) ∷ l) =
    let rest = collected_on ch l in if c == ch then given o ++ rest else rest

abbrev pub held : Forwarder → List SendableData
held waiting = []
held (holding o) = given o

sent_on-append :
    (ch c : ℕ) (d : SendableData) (l : List (ℕ × SendableData))
    → sent_on ch (l ++ (c, d) ∷ []) ≡ sent_on ch l ++ (if c == ch then d ∷ [] else [])
sent_on-append ch c d [] = refl
sent_on-append ch c d ((e, f) ∷ l) = ground (arith, sent_on-append ch c d l)

append_assoc : (a b c : List SendableData) → (a ++ b) ++ c ≡ a ++ (b ++ c)
append_assoc [] b c = refl
append_assoc (x ∷ a) b c = ap (λ l. x ∷ l) (append_assoc a b c)

append_nil : (a : List SendableData) → a ++ [] ≡ a
append_nil [] = refl
append_nil (x ∷ a) = ap (λ l. x ∷ l) (append_nil a)

collected_on-append :
    (ch c : ℕ) (o : Option SendableData) (l : List (ℕ × Option SendableData))
    → collected_on ch (l ++ (c, o) ∷ []) ≡ collected_on ch l ++ (if c == ch then given o else [])
collected_on-append ch c o [] = ground (arith, append_nil (given o))
collected_on-append ch c o ((e, f) ∷ l) = ground (
  arith,
  collected_on-append ch c o l,
  append_assoc (given f) (collected_on ch l) (if c == ch then given o else []),
)

-- What was sent on a channel is what was collected from it, and then what its goroutine holds.
abbrev pub IsInOrder : Pipes → ℕ → Type 0
IsInOrder p ch = sent_on ch p.sent ≡ collected_on ch p.collected ++ held (p.forwarder ch)

Step-IsInOrder : {p q : Pipes} (ch : ℕ) → Step p q → IsInOrder p ch → IsInOrder q ch
Step-IsInOrder {p} ch (send c d free is_open) v = elim (Bool-cases (c == ch)) [
  | inl e ↦ ground (arith, sent_on-append ch c d p.sent, append_nil (collected_on ch p.collected))
  | inr e ↦ ground (arith, sent_on-append ch c d p.sent, append_nil (sent_on ch p.sent))
]
Step-IsInOrder {p} ch (read_closed c free shut) v = elim (Bool-cases (c == ch)) [
  | inl e ↦ ground arith
  | inr e ↦ ground arith
]
Step-IsInOrder {p} ch (collect c o there) v = elim (Bool-cases (c == ch)) [
  | inl e ↦ ground (
    arith,
    collected_on-append ch c o p.collected,
    append_nil (collected_on ch p.collected ++ given o),
  )
  | inr e ↦
      ground
        (arith, collected_on-append ch c o p.collected, append_nil (collected_on ch p.collected))
]
Step-IsInOrder {p} ch (close c) v = v

-- From no data, whatever the order of the steps, the data of each channel is collected in the order in
-- which it was sent on it, none of it twice and none lost: all of it but what the goroutine of the
-- channel still holds. That covers channels that were closed.
pub Reach-IsInOrder : {p : Pipes} (ch : ℕ) → Reach no_data p → IsInOrder p ch
Reach-IsInOrder ch here = refl
Reach-IsInOrder ch (later reached step) = Step-IsInOrder ch step (Reach-IsInOrder ch reached)

abbrev pub is_nil : ℕ × Option SendableData → Bool
is_nil (c, none) = true
is_nil (c, some d) = false

update_at : {A : Type 0} (f : ℕ → A) (ch : ℕ) (a : A) → update f ch a ch ≡ a
update_at f ch a = ground arith

-- Once a channel is closed and its goroutine waits, no send is needed for any number of nil pointers to
-- come out of the main channel: the goroutine goes on reading nil and forwarding it.
pub closed_channel_endless :
    (p : Pipes) (ch n : ℕ)
    → p.forwarder ch ≡ waiting
    → p.is_closed ch ≡ true
    → (q : Pipes) × Reach p q
      × (q.sent ≡ p.sent)
      × (count_by is_nil q.collected ≡ count_by is_nil p.collected + n)
      × (q.forwarder ch ≡ waiting)
      × (q.is_closed ch ≡ true)
closed_channel_endless p ch zero free shut = (p, here, refl, omega arith, free, shut)
closed_channel_endless p ch (suc n) free shut =
    let (q, reached, same_sent, nils, free', shut') = closed_channel_endless p ch n free shut in
    let read = record q { forwarder = update q.forwarder ch (holding none) } in
    let there : read.forwarder ch ≡ holding none = update_at q.forwarder ch (holding none) in
    (
      record read {
        forwarder = update read.forwarder ch waiting;
        collected = read.collected ++ (ch, none) ∷ [];
      },
      later (later reached (read_closed ch free' shut')) (collect ch none there),
      same_sent,
      omega (arith, nils, count_by-append {0} is_nil q.collected ((ch, none) ∷ [])),
      update_at read.forwarder ch waiting,
      shut',
    )
