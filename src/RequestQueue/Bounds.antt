-- ===== src/RequestQueue/Bounds.antt =====
-- How long the vector of model/routemsg-queue.cc grows, and when `Enqueue` is defined.
use cnrlchain.Base.{
  ◌+◌, ◌≤◌, ◌<◌, ◌≡◌, refl, inl, inr, true, false, none, some, List, [], ◌∷◌, ◌++◌, arith, Address,
  Time, length, length-append, length-discard-le, discard, exists, Option-cases, ◌↔◌,
}
use cnrlchain.Dpd.{Packets}
use cnrlchain.RequestQueue.{
  QueueEntry, RequestQueue, ErrorCall, Enqueued, is_expired, purge, make_room, same_packet,
  push_back, enqueue, is_equal, drop_packet_with_dst, take_first, dequeue, set_expire_time,
}

abbrev pub IsBounded {ℓ} : {H : Type ℓ} → RequestQueue H → Type 0
IsBounded q = length q.queue ≤ q.max_len

module _ {ℓ} {H : Type ℓ} (net : Packets H) where
  make_room-IsBounded :
      (q : RequestQueue H) {r : RequestQueue H × List (ErrorCall H)}
      → make_room q ≡ some r
      → IsBounded q
      → (length r.0.queue < r.0.max_len) × (r.0.max_len ≡ q.max_len)
  unfolding make_room
  make_room-IsBounded q e le = ground arith

  push_back-IsBounded :
      (now : Time) (entry : QueueEntry H) (q : RequestQueue H) (calls : List (ErrorCall H))
      {r : Enqueued H}
      → push_back net now entry q calls ≡ some r
      → IsBounded q
      → IsBounded r.state × (r.state.max_len ≡ q.max_len)
  unfolding push_back
  push_back-IsBounded now entry q calls e le = elim (Option-cases (make_room q)) [
    | inl h ↦ absurd (ground arith)
    | inr (r, h) ↦ ground (
      arith,
      make_room-IsBounded q h le,
      length-append r.0.queue (set_expire_time now q.queue_timeout entry ∷ []),
    )
  ]

  -- On every path of `Enqueue` that returns, a queue within `m_maxLen` is left within it, and the
  -- limit is not changed.
  pub enqueue-IsBounded :
      (now : Time) (entry : QueueEntry H) (q : RequestQueue H) {r : Enqueued H}
      → enqueue net now entry q ≡ some r
      → IsBounded q
      → IsBounded r.state × (r.state.max_len ≡ q.max_len)
  unfolding enqueue purge
  enqueue-IsBounded now entry q {r} e le = ground (
    arith,
    push_back-IsBounded now entry (purge now q).0 (purge now q).1 {r = r},
    length-discard-le (is_expired now) q.queue,
  )

  -- For entries that hold packets, as the model's entries do, and no null pointer, `Enqueue` is
  -- undefined exactly where the limit is 0 and no entry is left after the purge.
  pub enqueue-eq-none_iff :
      (now : Time) (entry : QueueEntry H) (q : RequestQueue H)
      → (enqueue net now entry q ≡ none)
        ↔ ((q.max_len ≡ 0) × (discard (is_expired now) q.queue ≡ []))
  unfolding enqueue push_back make_room exists
  enqueue-eq-none_iff now entry q = (λ h. ground arith, λ h. ground arith)

  -- Above the limit nothing makes room any more: where more live entries wait than `m_maxLen`
  -- says, an accepted packet makes the queue longer by one.
  pub enqueue_over_limit :
      (now : Time) (entry : QueueEntry H) (q : RequestQueue H)
      → q.max_len < length (discard (is_expired now) q.queue)
      → exists (same_packet net entry) (discard (is_expired now) q.queue) ≡ false
      → (r : Enqueued H) × (enqueue net now entry q ≡ some r)
        × (r.accepted ≡ true)
        × (length r.state.queue ≡ length (discard (is_expired now) q.queue) + 1)
  unfolding enqueue push_back make_room
  enqueue_over_limit now entry q over fresh =
      let live = discard (is_expired now) q.queue in
      let e = set_expire_time now q.queue_timeout entry in
      (
        record {
          state = record q { queue = live ++ e ∷ [] };
          entry = e;
          accepted = true;
          calls = (purge now q).1 ++ [];
        },
        ground arith,
        refl,
        ground (arith, length-append live (e ∷ [])),
      )

  take_first-length :
      (dst : Address) (es : List (QueueEntry H)) {r : QueueEntry H × List (QueueEntry H)}
      → take_first net dst es ≡ some r
      → length es ≡ length r.1 + 1
  unfolding take_first
  take_first-length dst [] e = absurd (cc)
  take_first-length dst (x ∷ es) e = elim (Option-cases (take_first net dst es)) [
    | inl h ↦ ground arith
    | inr (r, h) ↦ ground (arith, take_first-length dst es h)
  ]

  pub dequeue-IsBounded :
      (now : Time) (dst : Address) (q : RequestQueue H)
      → IsBounded q
      → IsBounded (dequeue net now dst q).0
  unfolding dequeue
  dequeue-IsBounded now dst q le =
      let live = discard (is_expired now) q.queue in
      elim (Option-cases (take_first net dst live)) [
        | inl h ↦ ground (arith, length-discard-le (is_expired now) q.queue)
        | inr (r, h) ↦
            ground (arith, length-discard-le (is_expired now) q.queue, take_first-length dst live h)
      ]

  pub drop_packet-IsBounded :
      (now : Time) (dst : Address) (q : RequestQueue H)
      → IsBounded q
      → IsBounded (drop_packet_with_dst net now dst q).0
  unfolding drop_packet_with_dst
  drop_packet-IsBounded now dst q le = omega (
    arith,
    length-discard-le (is_expired now) q.queue,
    length-discard-le (is_equal net dst) (discard (is_expired now) q.queue),
  )
