-- ===== src/Tests/Queue.antt =====
-- The theorems on model/routemsg-queue.cc and model/offchain-id.cc at concrete inputs.
use mathlib.Core.List.{Perm}
use cnrlchain.Base.{
  ℕ, ◌+◌, ◌≤◌, ◌≡◌, refl, ◌↔◌, Bool, true, false, Option, none, some, List, [], ◌∷◌, ◌++◌, arith,
  Address, Time, pos, discard, exists, is_some, length, if◌then◌else◌, ◌>>=◌,
}
use cnrlchain.RequestQueue.{
  QueueEntry, RequestQueue, Enqueued, new_queue, enqueue, dequeue, drop, drop_packet_with_dst,
  find_dst, purge, push_back, make_room, is_equal, is_expired,
}
use cnrlchain.RequestQueue.Bounds.{IsBounded, enqueue-eq-none_iff, enqueue_over_limit}
use cnrlchain.RequestQueue.Delivery.{dequeue-enqueue}
use cnrlchain.RequestQueue.Ledger.{due, handed, enqueue-perm, dequeue-perm}
use cnrlchain.RequestQueue.History.{here, next, enqueues, Reach-IsBounded}
use cnrlchain.Tests.{net}

abbrev entry : ℕ → Address → Time → QueueEntry (Address × Address)
entry p dst t = record { packet = p; header = (1, dst); ucb = 10; ecb = 11; expire = t }

abbrev queue_of : ℕ → List (QueueEntry (Address × Address)) → RequestQueue (Address × Address)
queue_of limit es = record { queue = es; max_len = limit; queue_timeout = pos 30 }

-- One entry has expired at time 5, and the queue is full.
abbrev full : RequestQueue (Address × Address)
full = queue_of 2 (entry 7 4 (pos 3) ∷ entry 8 5 (pos 9) ∷ [])

abbrev new : QueueEntry (Address × Address)
new = entry 9 6 (pos 0)

abbrev after : Enqueued (Address × Address)
after = record {
  state = queue_of 2 (entry 8 5 (pos 9) ∷ entry 9 6 (pos 35) ∷ []);
  entry = entry 9 6 (pos 35);
  accepted = true;
  calls = drop (entry 7 4 (pos 3)) ∷ [];
}

enqueued : enqueue net (pos 5) new full ≡ some after
unfolding enqueue drop exists discard is_expired cnrlchain.Base.before cnrlchain.Base.◌-ℤ◌
    cnrlchain.RequestQueue.same_packet cnrlchain.Base.◌+ℤ◌ cnrlchain.Base.select
enqueued = refl

enqueue-perm_example :
    Perm
      (due full ++ (if after.accepted then drop new ∷ [] else []))
      (after.calls ++ due after.state)
enqueue-perm_example = enqueue-perm net (pos 5) new full enqueued

dequeue-perm_example :
    let r = dequeue net (pos 5) 5 full in Perm (due full) (r.2 ++ (handed r.1 ++ due r.0))
dequeue-perm_example = dequeue-perm net (pos 5) 5 full

dequeue-enqueue_example :
    (dequeue net (pos 35) 6 after.state).1 ≡ some (record new { expire = pos 35 })
unfolding exists is_equal cnrlchain.Base.◌+ℤ◌
dequeue-enqueue_example =
    dequeue-enqueue net (pos 5) (pos 35) new full after enqueued refl (omega arith)

enqueue-eq-none_iff_example :
    (enqueue net (pos 5) new (queue_of 0 []) ≡ none)
    ↔ (((queue_of 0 []).max_len ≡ 0) × (discard (is_expired (pos 5)) (queue_of 0 []).queue ≡ []))
enqueue-eq-none_iff_example = enqueue-eq-none_iff net (pos 5) new (queue_of 0 [])

enqueue_over_limit_example :
    (r : Enqueued (Address × Address)) × (enqueue net (pos 1) new (record full { max_len = 1 })
      ≡ some r)
    × (r.accepted ≡ true)
    × (length r.state.queue ≡ length (discard (is_expired (pos 1)) full.queue) + 1)
unfolding discard exists is_expired cnrlchain.Base.before cnrlchain.Base.◌-ℤ◌
    cnrlchain.RequestQueue.same_packet
enqueue_over_limit_example =
    enqueue_over_limit net (pos 1) new (record full { max_len = 1 }) (omega arith) refl

Reach-IsBounded_example : IsBounded (queue_of 2 (entry 9 6 (pos 35) ∷ []))
unfolding enqueue new_queue exists discard cnrlchain.Base.◌+ℤ◌ cnrlchain.Base.select
Reach-IsBounded_example = Reach-IsBounded net 2 (pos 30) (
    next here (
      enqueues (pos 5) new (new_queue 2 (pos 30))
        (record {
          state = queue_of 2 (entry 9 6 (pos 35) ∷ []);
          entry = entry 9 6 (pos 35);
          accepted = true;
          calls = [];
        })
        refl))
