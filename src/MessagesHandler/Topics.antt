-- ===== src/MessagesHandler/Topics.antt =====
-- The topics that p2p/libp2p/messagesHandler.go joins: `CreateTopic`, `HasTopic`, `UnJoinAllTopics`.
-- The pubsub library is a parameter; the goroutine that drains a subscription is left out. Topics
-- are closed in the order in which they were joined, where Go takes any.
use mx_chain_communication_g.Common.{
  ◌≡◌, Bool, true, false, ◌||◌, Option, none, some, List, [], ◌∷◌, ◌++◌, Bytes, bytes_key, lookup,
  insert, lookup-insert, is_some, if◌then◌else◌, same, same_refl, arith, Option-cases, Bool-cases,
  inl, inr, ◌∙◌,
}
use mx_chain_communication_g.Errors.{P2pError}
use mx_chain_communication_g.LoadBalancer.{
  default_send_channel, OutgoingChannelLoadBalancer, append_channel, add_channel,
}

-- What the handler calls of the pubsub library and of its topics.
pub record TopicLibrary : Type 1 where
  pub State : Type 0
  pub join : State → Bytes → State × Option P2pError
  pub subscribe : State → Bytes → State × Option P2pError
  pub close_topic : State → Bytes → State × Option P2pError

module _ (p : TopicLibrary) where
  -- `subscriptions` has the names of the topics that were subscribed to.
  pub record JoinedTopics : Type 0 where
    pub pub_sub : p.State
    pub topics : List Bytes
    pub subscriptions : List Bytes
    pub outgoing_clb : OutgoingChannelLoadBalancer

  unfoldable pub listed : Bytes → List Bytes → Bool
  listed name [] = false
  listed name (n ∷ names) = same n name || listed name names

  unfoldable pub has_topic : JoinedTopics → Bytes → Bool
  has_topic h name = listed name h.topics

  -- The end of `CreateTopic`, with a topic that was joined.
  unfoldable pub subscribe_topic : JoinedTopics → Bytes → Bool → JoinedTopics × Option P2pError
  subscribe_topic h name create_channel_for_topic =
      let (pub_sub, failed) = p.subscribe h.pub_sub name in
      let h' = record h { pub_sub = pub_sub } in
      elim failed [
        | some e ↦ (h', some e)
        | none ↦
            let h'' = record h' { subscriptions = name ∷ h.subscriptions } in
            if create_channel_for_topic
            then (
              record h'' { outgoing_clb = (add_channel h.outgoing_clb name).0 },
              (add_channel h.outgoing_clb name).1,
            )
            else (h'', none)
      ]

  unfoldable pub create_topic : JoinedTopics → Bytes → Bool → JoinedTopics × Option P2pError
  create_topic h name create_channel_for_topic =
      if has_topic h name
      then (h, none)
      else let (pub_sub, failed) = p.join h.pub_sub name in
        elim failed [
          | some e ↦ (record h { pub_sub = pub_sub }, some e)
          | none ↦
              subscribe_topic (record h { pub_sub = pub_sub; topics = h.topics ++ name ∷ [] }) name
                create_channel_for_topic
        ]

  -- The loop of `UnJoinAllTopics` over the topics that are left; the last error counts.
  unfoldable pub close_topics : p.State → List Bytes → Option P2pError → p.State × Option P2pError
  close_topics s [] found = (s, found)
  close_topics s (topic ∷ topics) found =
      let (s', failed) = p.close_topic s topic in
      close_topics s' topics (if is_some failed then failed else found)

  unfoldable pub un_join_all_topics : JoinedTopics → JoinedTopics × Option P2pError
  un_join_all_topics h =
      let (s, found) = close_topics h.pub_sub h.topics none in
      (record h { pub_sub = s; topics = [] }, found)

  listed-end : (name : Bytes) (names : List Bytes) → listed name (names ++ name ∷ []) ≡ true
  unfolding listed
  listed-end name [] = ground (arith, same_refl name)
  listed-end name (n ∷ names) = ground (arith, listed-end name names)

  add_channel-has :
      (b : OutgoingChannelLoadBalancer) (name : Bytes)
      → (add_channel b name).1 ≡ none
      → is_some (lookup name (add_channel b name).0.names_chans) ≡ true
  unfolding add_channel append_channel
  add_channel-has b name h = elim (Bool-cases (same name default_send_channel)) [
    | inl q ↦ absurd (ground arith)
    | inr q ↦ elim (Option-cases (lookup name b.names_chans)) [
      | inr (ch, f) ↦ ground arith
      | inl f ↦
          let added : lookup name (insert name b.made b.names_chans) ≡ some b.made =
            lookup-insert name name b.made b.names_chans ∙ ground (arith, same_refl name) in
          ground arith
    ]
  ]

  subscribe_topic-ready :
      (h : JoinedTopics) (name : Bytes)
      → (subscribe_topic h name true).1 ≡ none
      → ((subscribe_topic h name true).0.topics ≡ h.topics)
        × (listed name (subscribe_topic h name true).0.subscriptions ≡ true)
        × (is_some (lookup name (subscribe_topic h name true).0.outgoing_clb.names_chans) ≡ true)
  unfolding subscribe_topic listed
  subscribe_topic-ready h name q = elim (Option-cases (p.subscribe h.pub_sub name).1) [
    | inr (failed, f) ↦ absurd (ground arith)
    | inl f ↦ (
      ground arith,
      ground (arith, same_refl name),
      ground (arith, add_channel-has h.outgoing_clb name),
    )
  ]

  -- A call of CreateTopic with a channel, for a name that is no topic yet, that reports no error
  -- leaves the topic joined and subscribed to, and a channel of its name in the load balancer.
  create_topic-ready :
      (h : JoinedTopics) (name : Bytes)
      → has_topic h name ≡ false
      → (create_topic h name true).1 ≡ none
      → let h' = (create_topic h name true).0 in
        (has_topic h' name ≡ true)
        × (listed name h'.subscriptions ≡ true)
        × (is_some (lookup name h'.outgoing_clb.names_chans) ≡ true)
  unfolding create_topic has_topic
  create_topic-ready h name new q = elim (Option-cases (p.join h.pub_sub name).1) [
    | inr (failed, f) ↦ absurd (ground arith)
    | inl f ↦
        let joined : JoinedTopics = record h {
          pub_sub = (p.join h.pub_sub name).0;
          topics = h.topics ++ name ∷ [];
        } in
        ground (arith, subscribe_topic-ready joined name, listed-end name h.topics)
  ]

  -- After a CreateTopic whose subscription failed, a second call for the same name reports no error
  -- and changes nothing: the topic has neither a subscription nor a channel from these calls.
  pub create_topic_retry :
      (h : JoinedTopics) (name : Bytes) (channel : Bool) (failed : P2pError)
      → has_topic h name ≡ false
      → (p.join h.pub_sub name).1 ≡ none
      → (p.subscribe (p.join h.pub_sub name).0 name).1 ≡ some failed
      → let first = create_topic h name channel in
        (first.1 ≡ some failed)
        × (create_topic first.0 name channel ≡ (first.0, none))
        × (first.0.subscriptions ≡ h.subscriptions)
        × (first.0.outgoing_clb ≡ h.outgoing_clb)
  unfolding create_topic has_topic subscribe_topic
  create_topic_retry h name channel failed new joined refused =
      (ground arith, ground (arith, listed-end name h.topics), ground arith, ground arith)
