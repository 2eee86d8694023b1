-- ===== src/RequestQueue/History.antt =====
-- Histories of the queue of model/routemsg-queue.cc, as a relation: an environment chooses the
-- calls and their times.
use cnrlchain.Base.{ℕ, ◌≤◌, ◌≡◌, some, arith, Address, Time, length, length-discard-le}
use cnrlchain.Dpd.{Packets}
use cnrlchain.RequestQueue.Bounds.{
  IsBounded, enqueue-IsBounded, dequeue-IsBounded, drop_packet-IsBounded,
}
use cnrlchain.RequestQueue.{
  QueueEntry, RequestQueue, Enqueued, new_queue, is_expired, purge, get_size, set_max_queue_len,
  set_queue_timeout, enqueue, drop_packet_with_dst, dequeue,
}

module _ {ℓ} {H : Type ℓ} (net : Packets H) where
  -- One call. A change of the limit is a step where it does not fall below what is queued.
  pub data Step : RequestQueue H → RequestQueue H → Type ℓ where
    enqueues :
        (now : Time) (entry : QueueEntry H) (q : RequestQueue H) (r : Enqueued H)
        → enqueue net now entry q ≡ some r
        → Step q r.state
    dequeues : (now : Time) (dst : Address) (q : RequestQueue H) → Step q (dequeue net now dst q).0
    drops :
        (now : Time) (dst : Address) (q : RequestQueue H)
        → Step q (drop_packet_with_dst net now dst q).0
    sizes : (now : Time) (q : RequestQueue H) → Step q (get_size now q).0
    resizes :
        (len : ℕ) (q : RequestQueue H) → length q.queue ≤ len → Step q (set_max_queue_len len q)
    retimes : (t : Time) (q : RequestQueue H) → Step q (set_queue_timeout t q)

  pub data Reach (q : RequestQueue H) : RequestQueue H → Type ℓ where
    here : Reach q q
    next : {r s : RequestQueue H} → Reach q r → Step r s → Reach q s

  Step-IsBounded : {q r : RequestQueue H} → Step q r → IsBounded q → IsBounded r
  unfolding get_size purge set_max_queue_len set_queue_timeout
  Step-IsBounded (enqueues now entry q r e) h = (enqueue-IsBounded net now entry q e h).0
  Step-IsBounded (dequeues now dst q) h = dequeue-IsBounded net now dst q h
  Step-IsBounded (drops now dst q) h = drop_packet-IsBounded net now dst q h
  Step-IsBounded (sizes now q) h = omega (arith, length-discard-le (is_expired now) q.queue)
  Step-IsBounded (resizes len q le) h = le
  Step-IsBounded (retimes t q) h = h

  Reach-from-IsBounded : {q r : RequestQueue H} → Reach q r → IsBounded q → IsBounded r
  Reach-from-IsBounded here h = h
  Reach-from-IsBounded (next r st) h = Step-IsBounded st (Reach-from-IsBounded r h)

  -- No history of a new queue makes it longer than its limit, as long as the limit is never set
  -- below the number of packets that wait.
  pub Reach-IsBounded :
      (len : ℕ) (t : Time) {r : RequestQueue H} → Reach (new_queue len t) r → IsBounded r
  unfolding new_queue
  Reach-IsBounded len t h = Reach-from-IsBounded h (omega arith)
