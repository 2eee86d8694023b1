-- ===== src/RequestQueue.antt =====
-- model/routemsg-queue.h and model/routemsg-queue.cc: packets that wait for a route. `Drop` calls
-- the error callback of an entry; the calls that an operation makes are its last result, in order.
-- `none` is undefined behaviour: the front of an empty vector. The packet of an entry is never a
-- null pointer here, which the default argument of QueueEntry would allow and which Enqueue would
-- read through when it compares two packets.
pub mod Bounds
pub mod Delivery
pub mod Ledger
pub mod History
use cnrlchain.Base.{
  ℕ, ◌%◌, Bool, true, false, ◌&&◌, Option, none, some, List, [], ◌∷◌, ◌++◌, map, Address, Handle,
  Time, before, pos, ◌+ℤ◌, ◌-ℤ◌, length, discard, select, exists, ◌==◌, if◌then◌else◌, ◌>>=◌,
}
use cnrlchain.Base.Word.{u32_mod}
use cnrlchain.Dpd.{Packets}

pub record QueueEntry {ℓ} (H : Type ℓ) : Type ℓ where
  pub packet : Handle
  pub header : H
  pub ucb : Handle
  pub ecb : Handle
  pub expire : Time

pub record RequestQueue {ℓ} (H : Type ℓ) : Type ℓ where
  pub queue : List (QueueEntry H)
  pub max_len : ℕ
  pub queue_timeout : Time

pub data SocketErrno : Type 0 where
  no_route_to_host : SocketErrno

-- A call of an error callback.
pub record ErrorCall {ℓ} (H : Type ℓ) : Type ℓ where
  pub callback : Handle
  pub packet : Handle
  pub header : H
  pub errno : SocketErrno

-- What `Enqueue` leaves: the queue, the caller's entry, the answer and the calls.
pub record Enqueued {ℓ} (H : Type ℓ) : Type ℓ where
  pub state : RequestQueue H
  pub entry : QueueEntry H
  pub accepted : Bool
  pub calls : List (ErrorCall H)

module _ {ℓ} {H : Type ℓ} where
  unfoldable pub new_entry : Time → Handle → H → Handle → Handle → Time → QueueEntry H
  new_entry now pa h ucb ecb exp = record {
    packet = pa;
    header = h;
    ucb = ucb;
    ecb = ecb;
    expire = exp +ℤ now;
  }

  unfoldable pub set_expire_time : Time → Time → QueueEntry H → QueueEntry H
  set_expire_time now exp e = record e { expire = exp +ℤ now }

  unfoldable pub get_expire_time : Time → QueueEntry H → Time
  get_expire_time now e = e.expire -ℤ now

  unfoldable pub new_queue : ℕ → Time → RequestQueue H
  new_queue max_len timeout = record { queue = []; max_len = max_len; queue_timeout = timeout }

  unfoldable pub drop : QueueEntry H → ErrorCall H
  drop en = record {
    callback = en.ecb;
    packet = en.packet;
    header = en.header;
    errno = no_route_to_host;
  }

  -- IsExpired
  unfoldable pub is_expired : Time → QueueEntry H → Bool
  unfolding get_expire_time
  is_expired now e = before (get_expire_time now e) (pos 0)

  unfoldable pub purge : Time → RequestQueue H → RequestQueue H × List (ErrorCall H)
  purge now q = (
    record q { queue = discard (is_expired now) q.queue },
    map drop (select (is_expired now) q.queue),
  )

  unfoldable pub get_size : Time → RequestQueue H → RequestQueue H × ℕ × List (ErrorCall H)
  unfolding purge
  get_size now q = let (q', calls) = purge now q in (q', length q'.queue % u32_mod, calls)

  -- The full queue of `Enqueue` loses its front.
  unfoldable pub make_room : RequestQueue H → Option (RequestQueue H × List (ErrorCall H))
  make_room q =
      if length q.queue == q.max_len
      then (elim q.queue [
        | [] ↦ none
        | front ∷ rest ↦ some (record q { queue = rest }, drop front ∷ [])
      ])
      else some (q, [])

  unfoldable pub set_max_queue_len : ℕ → RequestQueue H → RequestQueue H
  set_max_queue_len len q = record q { max_len = len }

  unfoldable pub set_queue_timeout : Time → RequestQueue H → RequestQueue H
  set_queue_timeout t q = record q { queue_timeout = t }

module _ {ℓ} {H : Type ℓ} (net : Packets H) where
  unfoldable pub same_packet : QueueEntry H → QueueEntry H → Bool
  same_packet entry e =
      net.uid e.packet == net.uid entry.packet
      && net.destination e.header == net.destination entry.header

  -- `Enqueue` after its `Purge` and the loop that looks for the packet.
  unfoldable pub push_back :
      Time → QueueEntry H → RequestQueue H → List (ErrorCall H) → Option (Enqueued H)
  unfolding make_room set_expire_time
  push_back now entry q expired = do
    (q', aged) ← make_room q
    some (record {
      state = record q' { queue = q'.queue ++ set_expire_time now q.queue_timeout entry ∷ [] };
      entry = set_expire_time now q.queue_timeout entry;
      accepted = true;
      calls = expired ++ aged;
    })

  unfoldable pub enqueue : Time → QueueEntry H → RequestQueue H → Option (Enqueued H)
  unfolding purge push_back
  enqueue now entry q =
      let (q', expired) = purge now q in
      if exists (same_packet entry) q'.queue
      then some (record { state = q'; entry = entry; accepted = false; calls = expired })
      else push_back now entry q' expired

  -- RequestQueue::IsEqual
  unfoldable pub is_equal : Address → QueueEntry H → Bool
  is_equal dst en = net.destination en.header == dst

  unfoldable pub drop_packet_with_dst :
      Time → Address → RequestQueue H → RequestQueue H × List (ErrorCall H)
  unfolding purge
  drop_packet_with_dst now dst q =
      let (q', expired) = purge now q in
      (
        record q' { queue = discard (is_equal dst) q'.queue },
        expired ++ map drop (select (is_equal dst) q'.queue),
      )

  -- The loop of `Dequeue`: the first entry for the destination, and the others.
  unfoldable pub take_first :
      Address → List (QueueEntry H) → Option (QueueEntry H × List (QueueEntry H))
  take_first dst [] = none
  take_first dst (e ∷ es) =
      let rest = take_first dst es in
      if is_equal dst e
      then some (e, es)
      else (elim rest [ none ↦ none | some (first, others) ↦ some (first, e ∷ others) ])

  -- The entry is `none` where `Dequeue` returns false.
  unfoldable pub dequeue :
      Time → Address → RequestQueue H → RequestQueue H × Option (QueueEntry H) × List (ErrorCall H)
  unfolding purge
  dequeue now dst q =
      let (q', calls) = purge now q in
      elim (take_first dst q'.queue) [
        | none ↦ (q', none, calls)
        | some (first, others) ↦ (record q' { queue = others }, some first, calls)
      ]

  -- RequestQueue::Find, which does not purge.
  unfoldable pub find_dst : Address → RequestQueue H → Bool
  find_dst dst q = exists (is_equal dst) q.queue
