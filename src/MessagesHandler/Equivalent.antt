-- ===== src/MessagesHandler/Equivalent.antt =====
-- Which equivalent messages the callback of p2p/libp2p/messagesHandler.go passes on.
use mx_chain_communication_g.Common.Int.{ℤ}
use mx_chain_communication_g.Common.{
  ℕ, suc, ◌+◌, ◌<◌, ◌≡◌, refl, Bool, true, false, not, ◌∙◌, Option, none, some, List, [], ◌∷◌,
  Bytes, bytes_key, lookup, lookup-insert, same, same_refl, same→eq, length, arith, inl, inr,
  Bool-cases, Option-cases, Result-cases, ap, subst,
}
use mx_chain_communication_g.Cacher.{IsCache, IsLru}
use mx_chain_communication_g.Message.{PubsubMessage}
use mx_chain_communication_g.MessagesHandler.{TopicProcessors, get_list}
use mx_chain_communication_g.MessagesHandler.Delivery.{
  Surroundings, Delivery, process_debug_message, check_message, transform_and_check_message,
  blacklist_pid, blacklist_both, is_equivalent_message_first_broadcast, process_by_all, size_of,
  pubsub_callback,
}
use mx_chain_communication_g.MessagesHandler.Filtering.{
  message_id, callback_read, callback_unread, transform_passes,
}

module _ (e : Surroundings) where
  -- A call of the callback that no other one overlaps.
  pub record Visit : Type 0 where
    pub procs : TopicProcessors e.Processor
    pub now : ℤ
    pub pid : Bytes
    pub message : Option PubsubMessage

  unfoldable pub visit : Delivery e → Bytes → Visit → Delivery e × Bool
  visit h topic v = pubsub_callback e h v.procs topic v.now v.pid (λ s. s) v.message

  unfoldable pub visit_all : Delivery e → Bytes → List Visit → Delivery e
  visit_all h topic [] = h
  visit_all h topic (v ∷ visits) = visit_all (visit h topic v).0 topic visits

  first_broadcast_stores :
      (h : Delivery e) (meanwhile : e.caches.Store → e.caches.Store) (id topic : Bytes)
      (cache : e.caches.Store)
      → lookup topic h.equivalent_messages ≡ some cache
      → 0 < length id
      → (is_equivalent_message_first_broadcast e h meanwhile id topic).1 ≡ true
      → (s : e.caches.Store) × (lookup topic
            (is_equivalent_message_first_broadcast e h meanwhile id topic).0.equivalent_messages
          ≡ some (e.caches.put s id tt))
  unfolding is_equivalent_message_first_broadcast
  first_broadcast_stores h meanwhile [] topic cache known long first = absurd (omega arith)
  first_broadcast_stores h meanwhile (b ∷ id) topic cache known long first =
      let s = meanwhile (e.caches.touch cache (b ∷ id)) in
      (
        s,
        ground (
          arith,
          lookup-insert topic topic (e.caches.put s (b ∷ id) tt) h.equivalent_messages,
          same_refl topic,
        ),
      )

  known_is_rejected :
      (h : Delivery e) (meanwhile : e.caches.Store → e.caches.Store) (id topic : Bytes)
      (s : e.caches.Store)
      → lookup topic h.equivalent_messages ≡ some s
      → 0 < length id
      → e.caches.get s id ≡ some tt
      → (is_equivalent_message_first_broadcast e h meanwhile id topic).1 ≡ false
  unfolding is_equivalent_message_first_broadcast
  known_is_rejected h meanwhile [] topic s known long here = absurd (omega arith)
  known_is_rejected h meanwhile (b ∷ id) topic s known long here = ground arith

  -- What the callback leaves of a message with an id that it passed on.
  callback_stores :
      (h : Delivery e) (procs : TopicProcessors e.Processor) (topic : Bytes) (now : ℤ) (pid : Bytes)
      (meanwhile : e.caches.Store → e.caches.Store) (m : Option PubsubMessage)
      (cache : e.caches.Store)
      → lookup topic h.equivalent_messages ≡ some cache
      → 0 < length (message_id e procs pid m)
      → (pubsub_callback e h procs topic now pid meanwhile m).1 ≡ true
      → (s : e.caches.Store) × (lookup topic
            (pubsub_callback e h procs topic now pid meanwhile m).0.equivalent_messages
          ≡ some (e.caches.put s (message_id e procs pid m) tt))
  unfolding process_debug_message
  callback_stores h procs topic now pid meanwhile m cache known long passed =
      elim (Result-cases (transform_and_check_message e h now m pid topic).1) [
        | inr (f, q) ↦
            absurd (ground (arith, callback_unread e h procs topic now pid meanwhile m q))
        | inl (msg, q) ↦
            let (made, valid, kept) = transform_passes e h now m pid topic msg q in
            let all = process_by_all e (get_list procs).1 msg pid true [] in
            let h2 = process_debug_message e h topic pid (size_of e m) (not all.0) in
            let (s, stored) =
              first_broadcast_stores h2 meanwhile all.1 topic cache known (ground arith)
                (ground (arith, callback_read e h procs topic now pid meanwhile m msg q)) in
            (s, ground (arith, callback_read e h procs topic now pid meanwhile m msg q, stored))
      ]

  module _ (size : ℕ) (laws : IsCache e.caches) (lru : IsLru e.caches size) (id topic : Bytes) where
    -- The cache of the topic has the id, and keeps it for so many more calls.
    pub record IsKept (h : Delivery e) (left : ℕ) : Type 0 where
      pub cache : e.caches.Store
      pub cached : lookup topic h.equivalent_messages ≡ some cache
      pub here : e.caches.get cache id ≡ some tt
      pub young : lru.age cache id + left < size

    first_broadcast-IsKept :
        (h : Delivery e) (k : Bytes) (left : ℕ)
        → IsKept h (suc left)
        → IsKept (is_equivalent_message_first_broadcast e h (λ s. s) k topic).0 left
    unfolding is_equivalent_message_first_broadcast
    first_broadcast-IsKept h [] left v = record {
      cache = v.cache;
      cached = v.cached;
      here = v.here;
      young = omega (arith, v.young);
    }
    first_broadcast-IsKept h (b ∷ k) left v =
        let touched = e.caches.touch v.cache (b ∷ k) in
        let stored = e.caches.put touched (b ∷ k) tt in
        let get_touched : e.caches.get touched id ≡ some tt =
          laws.get-touch v.cache (b ∷ k) id ∙ v.here in
        elim (Option-cases (e.caches.get v.cache (b ∷ k))) [
          | inr (u, f) ↦ record {
            cache = touched;
            cached = ground (
              arith,
              v.cached,
              lookup-insert topic topic touched h.equivalent_messages,
              same_refl topic,
            );
            here = get_touched;
            young = ground (arith, v.young, lru.age-touch v.cache (b ∷ k) id);
          }
          | inl f ↦
              let other : same (b ∷ k) id ≡ false = elim (Bool-cases (same (b ∷ k) id)) [
                | inr g ↦ g
                | inl g ↦
                    let equal : e.caches.get v.cache (b ∷ k) ≡ e.caches.get v.cache id =
                      ap (λ j. e.caches.get v.cache j) (same→eq (b ∷ k) id g) in
                    absurd (ground (arith, equal, v.here))
              ] in
              let age : lru.age touched id + suc left < size =
                ground (arith, v.young, lru.age-touch v.cache (b ∷ k) id) in
              record {
                cache = stored;
                cached = ground (
                  arith,
                  v.cached,
                  lookup-insert topic topic stored h.equivalent_messages,
                  same_refl topic,
                );
                here =
                    lru.get-put_kept touched (b ∷ k) id tt other (omega (arith, age)) ∙ get_touched;
                young = omega (arith, age, lru.age-put touched (b ∷ k) id tt);
              }
        ]

    first_broadcast-IsKept_after :
        (h h2 h' : Delivery e) (k : Bytes) (left : ℕ)
        → IsKept h (suc left)
        → h2.equivalent_messages ≡ h.equivalent_messages
        → (is_equivalent_message_first_broadcast e h2 (λ s. s) k topic).0 ≡ h'
        → IsKept h' left
    first_broadcast-IsKept_after h h2 h' k left v same_caches reached =
        let before : IsKept h2 (suc left) = record {
          cache = v.cache;
          cached = ground (arith, v.cached, same_caches);
          here = v.here;
          young = v.young;
        } in
        subst (λ g. IsKept g left) reached (first_broadcast-IsKept h2 k left before)

    unchanged-IsKept :
        (h h' : Delivery e) (left : ℕ)
        → IsKept h (suc left)
        → h'.equivalent_messages ≡ h.equivalent_messages
        → IsKept h' left
    unchanged-IsKept h h' left v same_caches = record {
      cache = v.cache;
      cached = ground (arith, v.cached, same_caches);
      here = v.here;
      young = omega (arith, v.young);
    }

    transform-caches :
        (h : Delivery e) (now : ℤ) (m : Option PubsubMessage) (pid : Bytes)
        → (transform_and_check_message e h now m pid topic).0.equivalent_messages
          ≡ h.equivalent_messages
    unfolding transform_and_check_message check_message process_debug_message blacklist_both
        blacklist_pid
    transform-caches h now none pid = ground arith
    transform-caches h now (some m) pid = ground arith

    visit-IsKept :
        (h : Delivery e) (v : Visit) (left : ℕ)
        → IsKept h (suc left)
        → IsKept (visit h topic v).0 left
    unfolding visit process_debug_message
    visit-IsKept h v left kept =
        elim (Result-cases (transform_and_check_message e h v.now v.message v.pid topic).1) [
          | inr (f, q) ↦ unchanged-IsKept h (visit h topic v).0 left kept (
              ground (
                arith,
                callback_unread e h v.procs topic v.now v.pid (λ s. s) v.message q,
                transform-caches h v.now v.message v.pid,
              ))
          | inl (msg, q) ↦
              let read = callback_read e h v.procs topic v.now v.pid (λ s. s) v.message msg q in
              let all = process_by_all e (get_list v.procs).1 msg v.pid true [] in
              let h2 = process_debug_message e h topic v.pid (size_of e v.message) (not all.0) in
              elim (Bool-cases all.0) [
                | inr refused ↦
                    unchanged-IsKept h (visit h topic v).0 left kept (ground (arith, read))
                | inl accepted ↦
                    first_broadcast-IsKept_after h h2 (visit h topic v).0 all.1 left kept refl
                      (ground (arith, read))
              ]
        ]

    visit_all-IsKept :
        (h : Delivery e) (visits : List Visit)
        → IsKept h (length visits)
        → IsKept (visit_all h topic visits) 0
    unfolding visit_all
    visit_all-IsKept h [] kept = kept
    visit_all-IsKept h (v ∷ visits) kept =
        visit_all-IsKept (visit h topic v).0 visits (visit-IsKept h v (length visits) kept)

    kept_is_rejected :
        (h : Delivery e) (v : Visit)
        → IsKept h 0
        → 0 < length id
        → message_id e v.procs v.pid v.message ≡ id
        → (visit h topic v).1 ≡ false
    unfolding visit process_debug_message
    kept_is_rejected h v kept long equal =
        elim (Result-cases (transform_and_check_message e h v.now v.message v.pid topic).1) [
          | inr (f, q) ↦
              ground (arith, callback_unread e h v.procs topic v.now v.pid (λ s. s) v.message q)
          | inl (msg, q) ↦
              let (made, valid, same_state) =
                transform_passes e h v.now v.message v.pid topic msg q in
              let all = process_by_all e (get_list v.procs).1 msg v.pid true [] in
              let h2 = process_debug_message e h topic v.pid (size_of e v.message) (not all.0) in
              ground (
                arith,
                callback_read e h v.procs topic v.now v.pid (λ s. s) v.message msg q,
                known_is_rejected h2 (λ s. s) all.1 topic kept.cache kept.cached (ground arith)
                    (ground (arith, kept.here)),
              )
        ]

  -- After the callback passed on a message that has an id on a topic with an LRU cache of seen ids,
  -- whatever other callbacks did while it ran, it rejects a later message with the same id on that
  -- topic, whichever peers sent the two, when the callbacks on the topic in between and that of the
  -- later message run one after the other and those in between are fewer than the size of the cache.
  pub pubsub_callback_once :
      (h : Delivery e) (procs : TopicProcessors e.Processor) (topic : Bytes) (now : ℤ) (pid : Bytes)
      (meanwhile : e.caches.Store → e.caches.Store) (m : Option PubsubMessage)
      (cache : e.caches.Store) (size : ℕ) (later : List Visit) (again : Visit)
      → IsCache e.caches
      → IsLru e.caches size
      → lookup topic h.equivalent_messages ≡ some cache
      → 0 < length (message_id e procs pid m)
      → (pubsub_callback e h procs topic now pid meanwhile m).1 ≡ true
      → length later < size
      → message_id e again.procs again.pid again.message ≡ message_id e procs pid m
      → (visit
          (visit_all (pubsub_callback e h procs topic now pid meanwhile m).0 topic later)
          topic
          again).1
        ≡ false
  pubsub_callback_once h procs topic now pid meanwhile m cache size later again laws lru known long
        passed few equal =
      let id = message_id e procs pid m in
      let h1 = (pubsub_callback e h procs topic now pid meanwhile m).0 in
      let (s, stored) = callback_stores h procs topic now pid meanwhile m cache known long passed in
      let kept : IsKept size laws lru id topic h1 (length later) = record {
        cache = e.caches.put s id tt;
        cached = stored;
        here = laws.get-put_self s id tt;
        young = omega (arith, lru.age-put_self s id tt, few);
      } in
      kept_is_rejected size laws lru id topic (visit_all h1 topic later) again
        (visit_all-IsKept size laws lru id topic h1 later kept) long equal
