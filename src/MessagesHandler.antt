-- ===== src/MessagesHandler.antt =====
-- p2p/libp2p/messagesHandler.go and p2p/libp2p/topicProcessors.go: the state of the messages
-- handler, and the registration of message processors.
-- The pubsub library is a parameter; each of these calls runs under the handler's lock and is one
-- step. A Go map is iterated in any order, which a call that iterates over one takes as an argument.
pub mod Delivery
pub mod Registration
pub mod LastProcessor
pub mod Topics
pub mod Filtering
pub mod Equivalent
pub mod Direct
pub mod Broadcast
mod Tests
use mx_chain_communication_g.Common.{
  ℕ, Bool, true, false, ◌||◌, not, Option, none, some, List, [], ◌∷◌, ◌++◌, Bytes, bytes_key, Map,
  lookup, insert, delete, is_some, if◌then◌else◌, Result, ok, err, same, ◌≡◌,
}
use mx_chain_communication_g.Errors.{
  P2pError, nil_validator, message_processor_already_defined, message_processor_does_not_exist,
}
use mx_chain_communication_g.Cacher.{Cacher}

-- What the handler calls of go-libp2p-pubsub. `registered` is only read by the laws.
pub record PubSub : Type 1 where
  pub State : Type 0
  pub registered : State → Bytes → Bool
  pub register_topic_validator : State → Bytes → State × Option P2pError
  pub unregister_topic_validator : State → Bytes → State × Option P2pError

-- The documented behaviour: one validator for each topic, and an error for a second one and for the
-- removal of one that is not there.
pub record IsPubSub (p : PubSub) : Type 0 where
  pub register_free :
      (s : p.State) (t : Bytes)
      → p.registered s t ≡ false
      → (p.register_topic_validator s t).1 ≡ none
  pub registered-register :
      (s : p.State) (t j : Bytes)
      → p.registered s t ≡ false
      → p.registered (p.register_topic_validator s t).0 j
        ≡ (if same t j then true else p.registered s j)
  pub unregister_present :
      (s : p.State) (t : Bytes)
      → p.registered s t ≡ true
      → (p.unregister_topic_validator s t).1 ≡ none
  pub unregister_missing :
      (s : p.State) (t : Bytes)
      → p.registered s t ≡ false
      → is_some (p.unregister_topic_validator s t).1 ≡ true
  pub registered-unregister :
      (s : p.State) (t j : Bytes)
      → p.registered (p.unregister_topic_validator s t).0 j
        ≡ (if same t j then false else p.registered s j)

-- A call of the debugger.
pub record DebugMessage : Type 0 where
  pub topic : Bytes
  pub size : ℕ
  pub is_outgoing : Bool
  pub is_rejected : Bool

-- The processors of one topic by their identifiers, see topicProcessors.go.
abbrev pub TopicProcessors : Type 0 → Type 0
TopicProcessors P = Map Bytes P

unfoldable pub add_topic_processor :
    {P : Type 0} → Bytes → P → TopicProcessors P → Result P2pError (TopicProcessors P)
add_topic_processor identifier processor procs =
    if is_some (lookup identifier procs)
    then err message_processor_already_defined
    else ok (insert identifier processor procs)

unfoldable pub remove_topic_processor :
    {P : Type 0} → Bytes → TopicProcessors P → Result P2pError (TopicProcessors P)
remove_topic_processor identifier procs =
    if is_some (lookup identifier procs)
    then ok (delete identifier procs)
    else err message_processor_does_not_exist

unfoldable pub get_list : {P : Type 0} → TopicProcessors P → List Bytes × List P
get_list [] = ([], [])
get_list ((identifier, processor) ∷ procs) =
    let rest = get_list procs in (identifier ∷ rest.0, processor ∷ rest.1)

module _ (p : PubSub) (c : Cacher Unit) (P : Type 0) where
  -- An entry `none` of `processors` is the nil that `UnregisterMessageProcessor` leaves there.
  pub record MessagesHandler : Type 0 where
    pub pub_sub : p.State
    pub processors : Map Bytes (Option (TopicProcessors P))
    pub equivalent_messages : Map Bytes c.Store

  -- `handler.processors[topic]`, with nil for a missing key.
  unfoldable pub processors_of : MessagesHandler → Bytes → Option (TopicProcessors P)
  processors_of h topic = elim (lookup topic h.processors) [ none ↦ none | some procs ↦ procs ]

  unfoldable pub set_processors :
      MessagesHandler → Bytes → Option (TopicProcessors P) → MessagesHandler
  set_processors h topic procs = record h { processors = insert topic procs h.processors }

  -- The end of `RegisterMessageProcessor`.
  unfoldable pub add_processor :
      MessagesHandler → Bytes → Bytes → P → TopicProcessors P → MessagesHandler × Option P2pError
  add_processor h topic identifier processor procs =
      elim (add_topic_processor identifier processor procs) [
        | ok added ↦ (set_processors h topic (some added), none)
        | err e ↦ (h, some e)
      ]

  -- The start for a topic that has no processors: `new_cache` is what `lrucache.NewCache` gave.
  unfoldable pub open_topic :
      MessagesHandler → Bytes → Result P2pError c.Store → MessagesHandler × Option P2pError
  open_topic h topic new_cache =
      let h' = set_processors h topic (some []) in
      let (pub_sub, failed) = p.register_topic_validator h.pub_sub topic in
      let h'' = record h' { pub_sub = pub_sub } in
      elim failed [
        | some e ↦ (h'', some e)
        | none ↦ elim new_cache [
          | err e ↦ (h'', some e)
          | ok cache ↦
              (record h'' { equivalent_messages = insert topic cache h.equivalent_messages }, none)
        ]
      ]

  -- `processor` is `none` for nil.
  unfoldable pub register_message_processor :
      MessagesHandler
      → Result P2pError c.Store
      → Bytes
      → Bytes
      → Option P
      → MessagesHandler × Option P2pError
  register_message_processor h new_cache topic identifier none = (h, some nil_validator)
  register_message_processor h new_cache topic identifier (some processor) =
      elim (processors_of h topic) [
        | some procs ↦ add_processor h topic identifier processor procs
        | none ↦
            let (h', failed) = open_topic h topic new_cache in
            elim failed [
              | some e ↦ (h', some e)
              | none ↦ add_processor h' topic identifier processor []
            ]
      ]

  -- The end of `UnregisterMessageProcessor`: the last processor of a topic takes the validator away.
  unfoldable pub close_if_empty :
      MessagesHandler → Bytes → TopicProcessors P → MessagesHandler × Option P2pError
  close_if_empty h topic [] =
      let (pub_sub, failed) = p.unregister_topic_validator h.pub_sub topic in
      (record (set_processors h topic none) { pub_sub = pub_sub }, failed)
  close_if_empty h topic (entry ∷ procs) = (set_processors h topic (some (entry ∷ procs)), none)

  unfoldable pub unregister_message_processor :
      MessagesHandler → Bytes → Bytes → MessagesHandler × Option P2pError
  unregister_message_processor h topic identifier = elim (processors_of h topic) [
    | none ↦ (h, none)
    | some procs ↦ elim (remove_topic_processor identifier procs) [
      | err e ↦ (h, some e)
      | ok left ↦ close_if_empty h topic left
    ]
  ]

  -- Over the topics in the order of the iteration.
  unfoldable pub unregister_all_message_processors :
      MessagesHandler → List Bytes → MessagesHandler × Option P2pError
  unregister_all_message_processors h [] = (h, none)
  unregister_all_message_processors h (topic ∷ topics) =
      let (pub_sub, failed) = p.unregister_topic_validator h.pub_sub topic in
      elim failed [
        | some e ↦ (record h { pub_sub = pub_sub }, some e)
        | none ↦
            unregister_all_message_processors
              (record h { pub_sub = pub_sub; processors = delete topic h.processors }) topics
      ]
