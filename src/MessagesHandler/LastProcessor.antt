-- ===== src/MessagesHandler/LastProcessor.antt =====
-- What p2p/libp2p/messagesHandler.go does when the last processor of a topic goes.
use mx_chain_communication_g.Common.{
  ◌≤◌, count_by, true, false, Option, none, some, List, [], ◌∷◌, Bytes, bytes_key, lookup, delete,
  lookup-insert, is_some, same, same_refl, same→eq, ◌≡◌, inl, inr, subst, arith, Bool-cases,
}
use mx_chain_communication_g.Cacher.{Cacher}
use mx_chain_communication_g.MessagesHandler.{
  PubSub, IsPubSub, remove_topic_processor, processors_of, set_processors, close_if_empty,
  unregister_message_processor, unregister_all_message_processors,
}
use mx_chain_communication_g.MessagesHandler.Registration.{IsRegistered, Handler, without}

module _ (p : PubSub) (laws : IsPubSub p) (c : Cacher Unit) (P : Type 0) where
  -- A listed topic without p laws c P a validator stops the removal of all.
  unregister_all-stops :
      (h : Handler p laws c P) (order : List Bytes) (t : Bytes)
      → p.registered h.pub_sub t ≡ false
      → 1 ≤ count_by (λ u. same u t) order
      → is_some (unregister_all_message_processors p c P h order).1 ≡ true
  unfolding unregister_all_message_processors
  unregister_all-stops h [] t free m = absurd (omega arith)
  unregister_all-stops h (u ∷ order) t free m = elim (Bool-cases (same u t)) [
    | inl e ↦ ground (
      arith,
      same→eq u t e,
      laws.unregister_missing h.pub_sub u,
      laws.unregister_missing h.pub_sub t free,
    )
    | inr e ↦ ground (
      arith,
      unregister_all-stops (without p laws c P h u) order t
          (ground (arith, laws.registered-unregister h.pub_sub u t)) (ground arith),
    )
  ]

  -- The processor of a topic with an identifier.
  abbrev pub processor_at : Handler p laws c P → Bytes → Bytes → Option P
  processor_at h t i = elim (processors_of p c P h t) [ none ↦ none | some procs ↦ lookup i procs ]

  unregister_last :
      (h : Handler p laws c P) (t i : Bytes) {q : P}
      → processors_of p c P h t ≡ some ((i, q) ∷ [])
      → unregister_message_processor p c P h t i ≡ close_if_empty p c P h t []
  unfolding unregister_message_processor remove_topic_processor lookup delete
  unregister_last h t i e = ground (arith, same_refl i)

  -- In a handler whose registrations agree with the pubsub library, UnregisterMessageProcessor of
  -- the only processor of a topic succeeds, and keeps a nil entry for the topic in the map; the call
  -- of UnregisterAllMessageProcessors after it fails, in whichever order it visits the topics of the
  -- map.
  pub unregister_last_then_all_fails :
      (h : Handler p laws c P) (t i : Bytes) (q : P) (order : List Bytes)
      → IsRegistered p laws c P h
      → processors_of p c P h t ≡ some ((i, q) ∷ [])
      → 1 ≤ count_by (λ u. same u t) order
      → let h' = unregister_message_processor p c P h t i in
        (h'.1 ≡ none)
        × (is_some (lookup t h'.0.processors) ≡ true)
        × (is_some (unregister_all_message_processors p c P h'.0 order).1 ≡ true)
  unfolding close_if_empty set_processors
  unregister_last_then_all_fails h t i q order v e m =
      let closed = close_if_empty p c P h t [] in
      let fails =
        unregister_all-stops closed.0 order t
          (ground (arith, laws.registered-unregister h.pub_sub t t, same_refl t)) m in
      (
        ground (arith, unregister_last h t i e, v t, laws.unregister_present h.pub_sub t),
        ground (arith, unregister_last h t i e, lookup-insert t t none h.processors, same_refl t),
        subst (λ r. is_some (unregister_all_message_processors p c P r order).1 ≡ true)
            (ground (arith, unregister_last h t i e)) fails,
      )
