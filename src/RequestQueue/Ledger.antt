-- ===== src/RequestQueue/Ledger.antt =====
-- No packet of model/routemsg-queue.cc disappears in silence. The entries are counted by the call
-- of their error callback that is due if they are dropped.
use mathlib.Core.List.{Perm, append-nil, append_assoc, map-append, perm_middle}
use mathlib.Core.List.Perm
use cnrlchain.Base.{
  ◌≡◌, inl, inr, true, false, Option, none, some, List, [], ◌∷◌, ◌++◌, map, arith, Address, Time,
  select-discard-perm, None-exists, discard-None, select, discard, exists, if◌then◌else◌,
  Bool-cases, Option-cases, subst, ◌∙◌, sym,
}
use cnrlchain.Dpd.{Packets}
use cnrlchain.RequestQueue.Delivery.{Takes, take_first-Takes}
use cnrlchain.RequestQueue.{
  QueueEntry, RequestQueue, ErrorCall, Enqueued, drop, is_expired, purge, make_room, same_packet,
  push_back, enqueue, is_equal, drop_packet_with_dst, take_first, dequeue, set_expire_time,
}

-- The error calls of the entries that wait.
abbrev pub due : {H : Type 0} → RequestQueue H → List (ErrorCall H)
due q = map drop q.queue

-- The due calls of what is handed to the caller.
abbrev pub handed : {H : Type 0} → Option (QueueEntry H) → List (ErrorCall H)
handed none = []
handed (some e) = drop e ∷ []

module _ {H : Type 0} where
  discard-perm :
      (p : QueueEntry H → _) (es : List (QueueEntry H))
      → Perm (map drop es) (map drop (select p es) ++ map drop (discard p es))
  discard-perm p es =
      subst (Perm (map drop es)) (map-append drop (select p es) (discard p es))
        (Perm.map drop (select-discard-perm p es))

  purge-perm :
      (now : Time) (q : RequestQueue H) → Perm (due q) ((purge now q).1 ++ due (purge now q).0)
  unfolding purge
  purge-perm now q = discard-perm (is_expired now) q.queue

  make_room-eq :
      (q : RequestQueue H) {r : RequestQueue H × List (ErrorCall H)}
      → make_room q ≡ some r
      → due q ≡ r.1 ++ due r.0
  unfolding make_room
  make_room-eq q e = ground arith

module _ {H : Type 0} (net : Packets H) where
  take_first-perm :
      (dst : Address) (es : List (QueueEntry H)) {r : QueueEntry H × List (QueueEntry H)}
      → take_first net dst es ≡ some r
      → Perm es (r.0 ∷ r.1)
  take_first-perm dst es {r} e =
      let (pre, post, split, rest, _, _) =
        subst (Takes net dst es) e (take_first-Takes net dst es) in
      rw (split, rest) (perm_middle pre post)

  push_back-perm :
      (now : Time) (entry : QueueEntry H) (q : RequestQueue H) (calls : List (ErrorCall H))
      {r : Enqueued H}
      → push_back net now entry q calls ≡ some r
      → calls ++ (due q ++ drop entry ∷ []) ≡ r.calls ++ due r.state
  unfolding push_back make_room set_expire_time drop
  push_back-perm now entry q calls {r} e = elim (Option-cases (make_room q)) [
    | inl h ↦ absurd (ground arith)
    | inr (s, h) ↦
        let c : r.calls ≡ calls ++ s.1 = ground arith in
        let filled : r.state.queue ≡ s.0.queue ++ set_expire_time now q.queue_timeout entry ∷ [] =
          ground arith in
        rw (c, filled, make_room-eq q h) (simp (map-append, append_assoc))
  ]

  push_back-accepted :
      (now : Time) (entry : QueueEntry H) (q : RequestQueue H) (calls : List (ErrorCall H))
      {r : Enqueued H}
      → push_back net now entry q calls ≡ some r
      → r.accepted ≡ true
  unfolding push_back
  push_back-accepted now entry q calls e = ground (arith, Option-cases (make_room q))

  -- `Enqueue` accounts for every packet: the packets that waited, with the new one if it is
  -- accepted, are those whose error callback was called together with those that wait now.
  pub enqueue-perm :
      (now : Time) (entry : QueueEntry H) (q : RequestQueue H) {r : Enqueued H}
      → enqueue net now entry q ≡ some r
      → Perm (due q ++ (if r.accepted then drop entry ∷ [] else [])) (r.calls ++ due r.state)
  unfolding enqueue
  enqueue-perm now entry q {r} e =
      elim (Bool-cases (exists (same_packet net entry) (purge now q).0.queue)) [
        | inl h ↦
            let no : r.accepted ≡ false = ground arith in
            let c : r.calls ≡ (purge now q).1 = ground arith in
            let left : r.state ≡ (purge now q).0 = ground arith in
            rw (no, c, left, append-nil (due q)) (purge-perm now q)
        | inr h ↦
            let pushed : push_back net now entry (purge now q).0 (purge now q).1 ≡ some r =
              ground arith in
            let account = push_back-perm now entry (purge now q).0 (purge now q).1 pushed in
            rw (push_back-accepted now entry (purge now q).0 _ pushed) (
              subst (Perm _) (append_assoc (purge now q).1 _ _ ∙ account)
                (Perm.append_right (drop entry ∷ []) (purge-perm now q)))
      ]

  -- `Dequeue` accounts for every packet: those that waited were dropped with a call of their error
  -- callback, are handed to the caller, or wait still.
  pub dequeue-perm :
      (now : Time) (dst : Address) (q : RequestQueue H)
      → let r = dequeue net now dst q in Perm (due q) (r.2 ++ (handed r.1 ++ due r.0))
  unfolding dequeue
  dequeue-perm now dst q =
      elim (Option-cases (take_first net dst (discard (is_expired now) q.queue))) [
        | inl h ↦ rw (h, dequeue) (purge-perm now q)
        | inr (r, h) ↦
            rw (h, dequeue)
              (Perm.trans (purge-perm now q)
                (Perm.append_left (purge now q).1 (Perm.map drop (take_first-perm dst _ h))))
      ]

  -- So does `DropPacketWithDst`, and no packet for the destination is left.
  drop_packet-perm :
      (now : Time) (dst : Address) (q : RequestQueue H)
      → let r = drop_packet_with_dst net now dst q in
        Perm (due q) (r.1 ++ due r.0) × (exists (is_equal net dst) r.0.queue ≡ false)
  unfolding drop_packet_with_dst
  drop_packet-perm now dst q =
      let live = discard (is_expired now) q.queue in
      (
        subst (Perm (due q)) (sym (append_assoc (purge now q).1 _ _)) (
            Perm.trans (purge-perm now q)
              (Perm.append_left (purge now q).1 (discard-perm (is_equal net dst) live))),
        None-exists _ _ (discard-None (is_equal net dst) live),
      )
