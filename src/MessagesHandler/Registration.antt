-- ===== src/MessagesHandler/Registration.antt =====
-- What the registering calls of p2p/libp2p/messagesHandler.go keep, and which processors they leave.
use mx_chain_communication_g.Common.{
  true, Option, none, some, List, [], ◌∷◌, Bytes, bytes_key, lookup, insert, delete, lookup-insert,
  lookup-delete, is_some, if◌then◌else◌, Result, ok, err, same, same_refl, same→eq, ◌≡◌, inl, inr,
  sym, subst, arith, Option-cases,
}
use mx_chain_communication_g.Errors.{P2pError, message_processor_already_defined}
use mx_chain_communication_g.Cacher.{Cacher}
use mx_chain_communication_g.MessagesHandler.{
  PubSub, IsPubSub, TopicProcessors, add_topic_processor, remove_topic_processor, MessagesHandler,
  processors_of, set_processors, add_processor, open_topic, register_message_processor,
  close_if_empty, unregister_message_processor, unregister_all_message_processors,
}

-- The calls that change the registrations.
pub data Call (P : Type 0) : Type 0 where
  register : Bytes → Bytes → Option P → Call P
  unregister : Bytes → Bytes → Call P
  unregister_all : List Bytes → Call P

module _ (p : PubSub) (laws : IsPubSub p) (c : Cacher Unit) (P : Type 0) where
  abbrev pub Handler : Type 0
  Handler = MessagesHandler p c P

  -- The library has a validator for exactly the topics that have processors.
  abbrev pub IsRegistered : Handler → Type 0
  IsRegistered h = (t : Bytes) → p.registered h.pub_sub t ≡ is_some (processors_of p c P h t)

  processors_of-set :
      (h : Handler) (t j : Bytes) (v : Option (TopicProcessors P))
      → processors_of p c P (set_processors p c P h t v) j
        ≡ (if same t j then v else processors_of p c P h j)
  unfolding processors_of set_processors
  processors_of-set h t j v = ground (arith, lookup-insert t j v h.processors)

  processors_of-delete :
      (h : Handler) (s : p.State) (t j : Bytes)
      → processors_of p c P (record h { pub_sub = s; processors = delete t h.processors }) j
        ≡ (if same t j then none else processors_of p c P h j)
  unfolding processors_of
  processors_of-delete h s t j = ground (arith, lookup-delete t j h.processors)

  -- Putting processors where some are keeps the registrations.
  set_processors-IsRegistered :
      (h : Handler) (t : Bytes) (procs : TopicProcessors P)
      → IsRegistered h
      → p.registered h.pub_sub t ≡ true
      → IsRegistered (set_processors p c P h t (some procs))
  unfolding set_processors
  set_processors-IsRegistered h t procs v there j =
      ground (arith, v j, v t, processors_of-set h t j (some procs), same→eq t j)

  add_processor_new :
      (h : Handler) (t i : Bytes) (q : P) (procs : TopicProcessors P)
      → lookup i procs ≡ none
      → add_processor p c P h t i q procs
        ≡ (set_processors p c P h t (some (insert i q procs)), none)
  unfolding add_processor add_topic_processor
  add_processor_new h t i q procs e = ground arith

  add_processor_old :
      (h : Handler) (t i : Bytes) (q : P) (procs : TopicProcessors P) {old : P}
      → lookup i procs ≡ some old
      → add_processor p c P h t i q procs ≡ (h, some message_processor_already_defined)
  unfolding add_processor add_topic_processor
  add_processor_old h t i q procs e = ground arith

  add_processor-IsRegistered :
      (h : Handler) (t i : Bytes) (q : P) (procs : TopicProcessors P)
      → IsRegistered h
      → p.registered h.pub_sub t ≡ true
      → IsRegistered (add_processor p c P h t i q procs).0
  add_processor-IsRegistered h t i q procs v there = elim (Option-cases (lookup i procs)) [
    | inl e ↦
        subst (λ r. IsRegistered r.0) (sym (add_processor_new h t i q procs e))
          (set_processors-IsRegistered h t (insert i q procs) v there)
    | inr (old, e) ↦ subst (λ r. IsRegistered r.0) (sym (add_processor_old h t i q procs e)) v
  ]

  open_topic-IsRegistered :
      (h : Handler) (t : Bytes) (new_cache : Result P2pError c.Store)
      → IsRegistered h
      → processors_of p c P h t ≡ none
      → IsRegistered (open_topic p c P h t new_cache).0
        × (p.registered (open_topic p c P h t new_cache).0.pub_sub t ≡ true)
  unfolding open_topic set_processors processors_of
  open_topic-IsRegistered h t (ok cache) v absent = (
    λ j. ground (
      arith,
      v j,
      v t,
      laws.register_free h.pub_sub t,
      laws.registered-register h.pub_sub t j,
      lookup-insert t j (some []) h.processors,
    ),
    ground (
      arith,
      v t,
      laws.register_free h.pub_sub t,
      laws.registered-register h.pub_sub t t,
      same_refl t,
    ),
  )
  open_topic-IsRegistered h t (err e) v absent = (
    λ j. ground (
      arith,
      v j,
      v t,
      laws.register_free h.pub_sub t,
      laws.registered-register h.pub_sub t j,
      lookup-insert t j (some []) h.processors,
    ),
    ground (
      arith,
      v t,
      laws.register_free h.pub_sub t,
      laws.registered-register h.pub_sub t t,
      same_refl t,
    ),
  )

  register_known :
      (h : Handler) (new_cache : Result P2pError c.Store) (t i : Bytes) (q : P)
      {procs : TopicProcessors P}
      → processors_of p c P h t ≡ some procs
      → register_message_processor p c P h new_cache t i (some q)
        ≡ add_processor p c P h t i q procs
  unfolding register_message_processor
  register_known h new_cache t i q e = ground arith

  register_fresh :
      (h : Handler) (new_cache : Result P2pError c.Store) (t i : Bytes) (q : P)
      → processors_of p c P h t ≡ none
      → (open_topic p c P h t new_cache).1 ≡ none
      → register_message_processor p c P h new_cache t i (some q)
        ≡ add_processor p c P (open_topic p c P h t new_cache).0 t i q []
  unfolding register_message_processor
  register_fresh h new_cache t i q e f = ground arith

  register_stopped :
      (h : Handler) (new_cache : Result P2pError c.Store) (t i : Bytes) (q : P) {e : P2pError}
      → processors_of p c P h t ≡ none
      → (open_topic p c P h t new_cache).1 ≡ some e
      → register_message_processor p c P h new_cache t i (some q)
        ≡ ((open_topic p c P h t new_cache).0, some e)
  unfolding register_message_processor
  register_stopped h new_cache t i q e f = ground arith

  register-IsRegistered :
      (h : Handler) (new_cache : Result P2pError c.Store) (t i : Bytes) (q : Option P)
      → IsRegistered h
      → IsRegistered (register_message_processor p c P h new_cache t i q).0
  unfolding register_message_processor
  register-IsRegistered h new_cache t i none v = v
  register-IsRegistered h new_cache t i (some q) v = elim (Option-cases (processors_of p c P h t)) [
    | inr (procs, e) ↦
        subst (λ r. IsRegistered r.0) (sym (register_known h new_cache t i q e))
          (add_processor-IsRegistered h t i q procs v (ground (arith, v t)))
    | inl e ↦
        let (kept, there) = open_topic-IsRegistered h t new_cache v e in
        elim (Option-cases (open_topic p c P h t new_cache).1) [
          | inl f ↦
              subst (λ r. IsRegistered r.0) (sym (register_fresh h new_cache t i q e f))
                (add_processor-IsRegistered (open_topic p c P h t new_cache).0 t i q [] kept there)
          | inr (failure, f) ↦
              subst (λ r. IsRegistered r.0) (sym (register_stopped h new_cache t i q e f)) kept
        ]
  ]

  close_if_empty-IsRegistered :
      (h : Handler) (t : Bytes) (procs : TopicProcessors P)
      → IsRegistered h
      → p.registered h.pub_sub t ≡ true
      → IsRegistered (close_if_empty p c P h t procs).0
  unfolding close_if_empty processors_of set_processors
  close_if_empty-IsRegistered h t (entry ∷ procs) v there j =
      set_processors-IsRegistered h t (entry ∷ procs) v there j
  close_if_empty-IsRegistered h t [] v there j =
      ground
        (arith, v j, laws.registered-unregister h.pub_sub t j, lookup-insert t j none h.processors)

  unregister-IsRegistered :
      (h : Handler) (t i : Bytes)
      → IsRegistered h
      → IsRegistered (unregister_message_processor p c P h t i).0
  unfolding unregister_message_processor remove_topic_processor
  unregister-IsRegistered h t i v = elim (Option-cases (processors_of p c P h t)) [
    | inl e ↦ subst IsRegistered (ground arith) v
    | inr (procs, e) ↦ elim (Option-cases (lookup i procs)) [
      | inl f ↦ subst IsRegistered (ground arith) v
      | inr (q, f) ↦
          subst IsRegistered (ground arith)
            (close_if_empty-IsRegistered h t (delete i procs) v (ground (arith, v t)))
    ]
  ]

  -- The handler after the removal of all processors of a topic.
  abbrev pub without : Handler → Bytes → Handler
  without h t = record h {
    pub_sub = (p.unregister_topic_validator h.pub_sub t).0;
    processors = delete t h.processors;
  }

  without-IsRegistered : (h : Handler) (t : Bytes) → IsRegistered h → IsRegistered (without h t)
  unfolding processors_of
  without-IsRegistered h t v j =
      ground (arith, v j, laws.registered-unregister h.pub_sub t j, lookup-delete t j h.processors)

  stopped-IsRegistered :
      (h : Handler) (t : Bytes) {e : P2pError}
      → IsRegistered h
      → (p.unregister_topic_validator h.pub_sub t).1 ≡ some e
      → IsRegistered (record h { pub_sub = (p.unregister_topic_validator h.pub_sub t).0 })
  unfolding processors_of
  stopped-IsRegistered h t v e j = ground (
    arith,
    v j,
    v t,
    laws.registered-unregister h.pub_sub t j,
    laws.unregister_present h.pub_sub t,
    same→eq t j,
  )

  unregister_all-IsRegistered :
      (h : Handler) (order : List Bytes)
      → IsRegistered h
      → IsRegistered (unregister_all_message_processors p c P h order).0
  unfolding unregister_all_message_processors
  unregister_all-IsRegistered h [] v = v
  unregister_all-IsRegistered h (t ∷ order) v =
      elim (Option-cases (p.unregister_topic_validator h.pub_sub t).1) [
        | inl e ↦
            subst IsRegistered (ground arith)
              (unregister_all-IsRegistered (without h t) order (without-IsRegistered h t v))
        | inr (failure, e) ↦ subst IsRegistered (ground arith) (stopped-IsRegistered h t v e)
      ]

  unfoldable pub run : Result P2pError c.Store → Handler → List (Call P) → Handler
  run new_cache h [] = h
  run new_cache h (register t i q ∷ calls) =
      run new_cache (register_message_processor p c P h new_cache t i q).0 calls
  run new_cache h (unregister t i ∷ calls) =
      run new_cache (unregister_message_processor p c P h t i).0 calls
  run new_cache h (unregister_all order ∷ calls) =
      run new_cache (unregister_all_message_processors p c P h order).0 calls

  -- Whatever sequence of RegisterMessageProcessor, UnregisterMessageProcessor and
  -- UnregisterAllMessageProcessors runs, failing calls included, the pubsub library goes on having a
  -- validator for exactly the topics for which the handler holds processors.
  pub run-IsRegistered :
      (new_cache : Result P2pError c.Store) (h : Handler) (calls : List (Call P))
      → IsRegistered h
      → IsRegistered (run new_cache h calls)
  unfolding run
  run-IsRegistered new_cache h [] v = v
  run-IsRegistered new_cache h (register t i q ∷ calls) v =
      run-IsRegistered new_cache (register_message_processor p c P h new_cache t i q).0 calls
        (register-IsRegistered h new_cache t i q v)
  run-IsRegistered new_cache h (unregister t i ∷ calls) v =
      run-IsRegistered new_cache (unregister_message_processor p c P h t i).0 calls
        (unregister-IsRegistered h t i v)
  run-IsRegistered new_cache h (unregister_all order ∷ calls) v =
      run-IsRegistered new_cache (unregister_all_message_processors p c P h order).0 calls
        (unregister_all-IsRegistered h order v)
