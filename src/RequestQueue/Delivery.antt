-- ===== src/RequestQueue/Delivery.antt =====
-- Which packet `Dequeue` of model/routemsg-queue.cc hands out.
use cnrlchain.Base.{
  ◌≡◌, refl, inl, inr, true, false, Option, none, some, List, [], ◌∷◌, ◌++◌, arith, Address, Time,
  All, discard, discard-append, exists, exists-discard, ◌+ℤ◌, ◌≤ℤ◌, le→not-before, before-sub,
  ==_self, Bool-cases, Option-cases, ◌>>=◌, ap, ◌∙◌, subst,
}
use cnrlchain.Dpd.{Packets}
use cnrlchain.RequestQueue.{
  QueueEntry, RequestQueue, ErrorCall, Enqueued, is_expired, make_room, same_packet, push_back,
  enqueue, is_equal, take_first, dequeue, set_expire_time, get_expire_time,
}

module _ {H : Type 0} (net : Packets H) (dst : Address) where
  -- `r` takes the first entry for the destination out of the list, if there is one.
  abbrev pub Takes : List (QueueEntry H) → Option (QueueEntry H × List (QueueEntry H)) → Type 0
  Takes es none = All (λ e. is_equal net dst e ≡ false) es
  Takes es (some (first, others)) =
      (pre : List (QueueEntry H)) × (post : List (QueueEntry H)) × (es ≡ pre ++ first ∷ post)
      × (others ≡ pre ++ post)
      × All (λ e. is_equal net dst e ≡ false) pre
      × (is_equal net dst first ≡ true)

  Takes-cons :
      (x : QueueEntry H) (es : List (QueueEntry H))
      (r : Option (QueueEntry H × List (QueueEntry H)))
      → is_equal net dst x ≡ false
      → Takes es r
      → Takes (x ∷ es) (elim r [ none ↦ none | some (first, others) ↦ some (first, x ∷ others) ])
  Takes-cons x es none miss h = (miss, h)
  Takes-cons x es (some (first, others)) miss (pre, post, split, rest, none_before, hit) =
      (x ∷ pre, post, ap (◌∷◌ x) split, ap (◌∷◌ x) rest, (miss, none_before), hit)

  pub take_first-Takes : (es : List (QueueEntry H)) → Takes es (take_first net dst es)
  unfolding take_first
  take_first-Takes [] = tt
  take_first-Takes (x ∷ es) = elim (Bool-cases (is_equal net dst x)) [
    | inl hit ↦ rw (hit, take_first) ([], es, refl, refl, tt, hit)
    | inr miss ↦ rw (miss, take_first) (Takes-cons x es _ miss (take_first-Takes es))
  ]

  -- `Dequeue` hands out the first entry for the destination that has not expired, and keeps all the
  -- other live entries in their order; without such an entry it keeps all live ones.
  pub dequeue-Takes :
      (now : Time) (q : RequestQueue H)
      → let r = dequeue net now dst q in
        Takes (discard (is_expired now) q.queue) (r.1 >>= (λ e. some (e, r.0.queue)))
        × ((r.1 ≡ none) → (r.0.queue ≡ discard (is_expired now) q.queue))
  unfolding dequeue
  dequeue-Takes now q =
      let live = discard (is_expired now) q.queue in
      elim (Option-cases (take_first net dst live)) [
        | inl e ↦ rw (e, dequeue) (subst (Takes live) e (take_first-Takes live), λ h. refl)
        | inr (r, e) ↦
            rw (e, dequeue) (subst (Takes live) e (take_first-Takes live), λ h. absurd (cc))
      ]

-- The entry that `Enqueue` puts in.
module _ {H : Type 0} (net : Packets H) where
  take_first_last :
      (dst : Address) (e : QueueEntry H) (es : List (QueueEntry H))
      → exists (is_equal net dst) es ≡ false
      → is_equal net dst e ≡ true
      → take_first net dst (es ++ e ∷ []) ≡ some (e, es)
  unfolding take_first exists
  take_first_last dst e [] h hit = rw hit
  take_first_last dst e (x ∷ es) h hit = ground (arith, take_first_last dst e es)

  not-same_packet :
      (entry : QueueEntry H) (es : List (QueueEntry H))
      → exists (is_equal net (net.destination entry.header)) es ≡ false
      → exists (same_packet net entry) es ≡ false
  unfolding exists same_packet is_equal
  not-same_packet entry [] h = refl
  not-same_packet entry (x ∷ es) h = ground (arith, not-same_packet entry es)

  make_room-exists :
      (dst : Address) (q : RequestQueue H) {r : RequestQueue H × List (ErrorCall H)}
      → make_room q ≡ some r
      → exists (is_equal net dst) q.queue ≡ false
      → exists (is_equal net dst) r.0.queue ≡ false
  unfolding make_room exists
  make_room-exists dst q e h = ground arith

  -- What an accepting `Enqueue` leaves in the vector, if no packet for the destination waited.
  enqueue_last :
      (now : Time) (entry : QueueEntry H) (q : RequestQueue H) (r : Enqueued H)
      → enqueue net now entry q ≡ some r
      → exists (is_equal net (net.destination entry.header)) q.queue ≡ false
      → (es : List (QueueEntry H)) × (r.state.queue
          ≡ es ++ (record entry { expire = q.queue_timeout +ℤ now }) ∷ [])
        × (exists (is_equal net (net.destination entry.header)) es ≡ false)
  unfolding enqueue push_back set_expire_time
  enqueue_last now entry q r e alone =
      let live = discard (is_expired now) q.queue in
      let dst = net.destination entry.header in
      let alone' = exists-discard (is_equal net dst) (is_expired now) q.queue alone in
      let fresh = not-same_packet entry live alone' in
      elim (Option-cases (make_room (record q { queue = live }))) [
        | inl h ↦ absurd (ground arith)
        | inr (s, h) ↦ (s.0.queue, ground arith, make_room-exists dst _ h alone')
      ]

  live_last :
      (t : Time) (e : QueueEntry H) (es : List (QueueEntry H))
      → t ≤ℤ e.expire
      → discard (is_expired t) (es ++ e ∷ []) ≡ discard (is_expired t) es ++ e ∷ []
  unfolding is_expired get_expire_time discard
  live_last t e es le =
      discard-append _ es (e ∷ [])
      ∙ ap (◌++◌ (discard (is_expired t) es))
          (rw (before-sub e.expire t, le→not-before e.expire t le))

  dequeue_hit :
      (t : Time) (dst : Address) (q : RequestQueue H) {r : QueueEntry H × List (QueueEntry H)}
      → take_first net dst (discard (is_expired t) q.queue) ≡ some r
      → (dequeue net t dst q).1 ≡ some r.0
  unfolding dequeue
  dequeue_hit t dst q e = rw (e, dequeue)

  hits : (e : QueueEntry H) → is_equal net (net.destination e.header) e ≡ true
  unfolding is_equal
  hits e = ==_self (net.destination e.header)

  -- The entry of an accepted packet is what a later `Dequeue` for its destination hands out, if it
  -- comes before the packet expires and no other packet for that destination waited: unchanged but
  -- for the expiry, which is the queue's timeout after the call of `Enqueue`.
  pub dequeue-enqueue :
      (now t : Time) (entry : QueueEntry H) (q : RequestQueue H) (r : Enqueued H)
      → enqueue net now entry q ≡ some r
      → exists (is_equal net (net.destination entry.header)) q.queue ≡ false
      → t ≤ℤ q.queue_timeout +ℤ now
      → (dequeue net t (net.destination entry.header) r.state).1
        ≡ some (record entry { expire = q.queue_timeout +ℤ now })
  unfolding is_equal
  dequeue-enqueue now t entry q r e alone le =
      let (es, split, none_else) = enqueue_last now entry q r e alone in
      let dst = net.destination entry.header in
      let e' : QueueEntry H = record entry { expire = q.queue_timeout +ℤ now } in
      dequeue_hit t dst r.state (
        ap (λ xs. take_first net dst (discard (is_expired t) xs)) split
        ∙ ap (take_first net dst) (live_last t e' es le)
        ∙ take_first_last dst e' (discard (is_expired t) es)
            (exists-discard (is_equal net dst) (is_expired t) es none_else) (hits entry))
