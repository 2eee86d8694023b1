-- ===== src/Routing/Reverse.antt =====
-- The reverse route that RecvRReq of model/offchain-routing.cc keeps to the originator.
use cnrlchain.Base.{
  ℕ, ◌≡◌, refl, ◌⊎◌, inl, inr, true, false, Option, none, some, arith, Address, Time, pos, ◌+ℤ◌,
  ◌≤ℤ◌, if◌then◌else◌, Option-cases, ◌∙◌, ap, subst, ◌==◌, ==_iff, ==_self, max_time, ◌-ℤ◌,
  not-before→le, -ℤ_parts, max_time-le_left, max_time-le_right, +ℤ_parts,
}
use cnrlchain.Base.Map.{find, Every-find}
use cnrlchain.Base.Word.{signed32}
use cnrlchain.Route.{RoutingTableEntry, new_route, set_life_time, get_life_time}
use cnrlchain.Table.{RoutingTable, purge, lookup_route, add_route, update, settle}
use cnrlchain.Table.Invariant.{IsWellFormed, IsFiled, purge-IsWellFormed}
use cnrlchain.Table.Lookup.{add_route_lem, update_lem}
use cnrlchain.Table.Expiry.{purge-purge}
use cnrlchain.Packet.{RreqHeader}
use cnrlchain.Routing.{Env}
use cnrlchain.Routing.Receive.{difference32, newer_seq_no, refresh, reverse_route}

module _ {κ} {I : Type κ} where
  -- The sequence number is the request's, or the entry's if that was valid and is not older.
  newer_seq_no_lem :
      (received : ℕ) (e : RoutingTableEntry I) {seq : ℕ}
      → newer_seq_no received e ≡ some seq
      → (seq ≡ received)
        ⊎ ((seq ≡ e.seq_no) × (e.valid_seq_no ≡ true) × (signed32 received ≤ℤ signed32 e.seq_no))
  unfolding newer_seq_no difference32
  newer_seq_no_lem received e {seq} h =
      let d = signed32 received -ℤ signed32 e.seq_no in
      ground (arith, not-before→le (pos 0) d, -ℤ_parts (signed32 received) (signed32 e.seq_no))

  -- What an entry takes from the one before it, if there was one: the request's sequence number
  -- unless the old one was valid and is not older, and a life that is no shorter.
  abbrev pub Succeeds : RreqHeader → Option (RoutingTableEntry I) → RoutingTableEntry I → Type 0
  Succeeds header none e = e.seq_no ≡ header.origin_seq_no
  Succeeds header (some old) e =
      ((e.seq_no ≡ header.origin_seq_no)
        ⊎ ((e.seq_no ≡ old.seq_no)
            × (old.valid_seq_no ≡ true)
            × (signed32 header.origin_seq_no ≤ℤ signed32 old.seq_no)))
      × (old.life_time ≤ℤ e.life_time)

  -- An entry that takes the request's path back: to the neighbour that sent it, with the hop count
  -- and the amount of the request and a valid sequence number, for at least the given span.
  pub record LeadsBack (now : Time) (src : Address) (life : Time) (header : RreqHeader)
      (old : Option (RoutingTableEntry I)) (e : RoutingTableEntry I) : Type 0 where
    pub next_hop : e.route.gateway ≡ src
    pub same_hops : e.hops ≡ header.hop_count
    pub same_amount : e.trans_amount ≡ header.transaction_amount
    pub with_seq_no : e.valid_seq_no ≡ true
    pub lives : life +ℤ now ≤ℤ e.life_time
    pub succeeds : Succeeds header old e

  settle-Succeeds :
      (header : RreqHeader) (old : Option (RoutingTableEntry I)) (e : RoutingTableEntry I)
      → Succeeds header old e
      → Succeeds header old (settle e)
  unfolding settle
  settle-Succeeds header none e h = ground arith
  settle-Succeeds header (some o) e h = ground arith

  settle-LeadsBack :
      (now : Time) (src : Address) (life : Time) (header : RreqHeader)
      (old : Option (RoutingTableEntry I)) (e : RoutingTableEntry I)
      → LeadsBack now src life header old e
      → LeadsBack now src life header old (settle e)
  unfolding settle
  settle-LeadsBack now src life header old e h =
      let kept = settle-Succeeds header old e h.succeeds in
      record {
        next_hop = ground (arith, h.next_hop);
        same_hops = ground (arith, h.same_hops);
        same_amount = ground (arith, h.same_amount);
        with_seq_no = ground (arith, h.with_seq_no);
        lives = ground (arith, h.lives);
        succeeds = kept;
      }

  refresh-life :
      (now life : Time) (e : RoutingTableEntry I)
      → let e' = set_life_time now (max_time life (get_life_time now e)) e in
        (life +ℤ now ≤ℤ e'.life_time) × (e.life_time ≤ℤ e'.life_time)
  unfolding set_life_time get_life_time
  refresh-life now life e =
      let rest = e.life_time -ℤ now in
      let m = max_time life rest in
      (
        omega (arith, +ℤ_parts life now, +ℤ_parts m now, max_time-le_left life rest),
        omega (arith, -ℤ_parts e.life_time now, +ℤ_parts m now, max_time-le_right life rest),
      )

  refresh-LeadsBack :
      (env : Env I) (receiver src : Address) (seq : ℕ) (life : Time) (header : RreqHeader)
      (e : RoutingTableEntry I)
      → newer_seq_no header.origin_seq_no e ≡ some seq
      → LeadsBack env.now src life header
          (some e)
          (refresh env receiver src seq header.hop_count header.transaction_amount life e)
  unfolding refresh set_life_time
  refresh-LeadsBack env receiver src seq life header e h = record {
    next_hop = refl;
    same_hops = refl;
    same_amount = refl;
    with_seq_no = refl;
    lives = (refresh-life env.now life e).0;
    succeeds = (newer_seq_no_lem header.origin_seq_no e h, (refresh-life env.now life e).1);
  }

  new-LeadsBack :
      (env : Env I) (receiver src : Address) (life : Time) (header : RreqHeader)
      → LeadsBack env.now src life header none (
          new_route env.net env.now 0 header.origin true header.origin_seq_no
            (env.interface_for receiver)
            header.hop_count
            header.transaction_amount
            src
            life)
  unfolding new_route
  new-LeadsBack env receiver src life header = record {
    next_hop = refl;
    same_hops = refl;
    same_amount = refl;
    with_seq_no = refl;
    lives = omega arith;
    succeeds = refl;
  }

  -- The two ways of the reverse route through the purged table.
  added :
      (env : Env I) (new : RoutingTableEntry I) (k : Address) (t : RoutingTable I)
      → pos 0 ≤ℤ t.bad_link_lifetime
      → find new.route.destination (purge env.now t).entries ≡ none
      → find k (add_route env.now new (purge env.now t)).0.entries ≡ (
          if new.route.destination == k
          then some (settle new)
          else find k (purge env.now t).entries)
  added env new k t h missing = ground (
    arith,
    (add_route_lem env.now new (purge env.now t)).1 k,
    purge-purge env.now t h,
    ==_iff new.route.destination k,
  )

  updated :
      (e : RoutingTableEntry I) (d k : Address) (t : RoutingTable I) (old : RoutingTableEntry I)
      → e.route.destination ≡ d
      → find d t.entries ≡ some old
      → find k (update e t).0.entries ≡ (if d == k then some (settle e) else find k t.entries)
  updated e d k t old same found = ground (arith, (update_lem e t).1 k)

  unfoldable HasReverse :
      (env : Env I) (src : Address) (life : Time) (header : RreqHeader) (t r : RoutingTable I)
      → Type κ
  HasReverse env src life header t r =
      ((e : RoutingTableEntry I) × (find header.origin r.entries ≡ some e)
        × LeadsBack env.now src life header (find header.origin (purge env.now t).entries) e)
      × ((k : Address)
          → (header.origin == k) ≡ false
          → find k r.entries ≡ find k (purge env.now t).entries)

  has_reverse :
      (env : Env I) (src : Address) (life : Time) (header : RreqHeader) (t r : RoutingTable I)
      (e : RoutingTableEntry I)
      → ((k : Address)
          → find k r.entries
            ≡ (if header.origin == k then some e else find k (purge env.now t).entries))
      → LeadsBack env.now src life header (find header.origin (purge env.now t).entries) e
      → HasReverse env src life header t r
  unfolding HasReverse
  has_reverse env src life header t r e all back = (
    (e, ground (arith, all header.origin, ==_self header.origin), back),
    λ k other. ground (arith, all k),
  )

  new_reverse :
      (env : Env I) (src : Address) (life : Time) (header : RreqHeader) (t : RoutingTable I)
      (new : RoutingTableEntry I)
      → pos 0 ≤ℤ t.bad_link_lifetime
      → new.route.destination ≡ header.origin
      → find header.origin (purge env.now t).entries ≡ none
      → LeadsBack env.now src life header none new
      → HasReverse env src life header t (add_route env.now new (purge env.now t)).0
  new_reverse env src life header t new bad same missing back =
      has_reverse env src life header t _ (settle new)
        (λ k.
          added env new k t bad (ap (λ d. find d (purge env.now t).entries) same ∙ missing)
          ∙ ap (λ d. if d == k then some (settle new) else find k (purge env.now t).entries) same)
        (rw missing (settle-LeadsBack env.now src life header none new back))

  old_reverse :
      (env : Env I) (src : Address) (life : Time) (header : RreqHeader) (t : RoutingTable I)
      (old e : RoutingTableEntry I)
      → e.route.destination ≡ header.origin
      → find header.origin (purge env.now t).entries ≡ some old
      → LeadsBack env.now src life header (some old) e
      → HasReverse env src life header t (update e (purge env.now t)).0
  old_reverse env src life header t old e same found back =
      has_reverse env src life header t _ (settle e)
        (λ k. updated e header.origin k (purge env.now t) old same found)
        (rw found (settle-LeadsBack env.now src life header (some old) e back))

  pub reverse_route_lem :
      (env : Env I) (receiver src : Address) (life : Time) (header : RreqHeader)
      (t : RoutingTable I) {r : RoutingTable I × Option (RoutingTableEntry I)}
      → IsWellFormed t
      → pos 0 ≤ℤ t.bad_link_lifetime
      → reverse_route env receiver src life header t ≡ some r
      → ((e : RoutingTableEntry I) × (find header.origin r.0.entries ≡ some e)
          × LeadsBack env.now src life header (find header.origin (purge env.now t).entries) e)
        × ((k : Address)
            → (header.origin == k) ≡ false
            → find k r.0.entries ≡ find k (purge env.now t).entries)
  unfolding reverse_route lookup_route new_route HasReverse
  reverse_route_lem env receiver src life header t {r} h bad done =
      let t' = purge env.now t in
      elim (Option-cases (find header.origin t'.entries)) [
        | inl e ↦
            let new =
              new_route env.net env.now 0 header.origin true header.origin_seq_no
                (env.interface_for receiver) header.hop_count header.transaction_amount src life in
            let table : (add_route env.now new t').0 ≡ r.0 = ground arith in
            subst (HasReverse env src life header t) table (
              new_reverse env src life header t new bad refl e
                (new-LeadsBack env receiver src life header))
        | inr (old, e) ↦ elim (Option-cases (newer_seq_no header.origin_seq_no old)) [
          | inl undefined ↦ absurd (ground arith)
          | inr (seq, newer) ↦
              let e' =
                refresh env receiver src seq header.hop_count header.transaction_amount life old in
              let table : (update e' t').0 ≡ r.0 = ground arith in
              let filed =
                Every-find IsFiled header.origin old t'.entries e
                  (purge-IsWellFormed env.now t h).filed in
              subst (HasReverse env src life header t) table (
                old_reverse env src life header t old e' filed.0 e
                  (refresh-LeadsBack env receiver src seq life header old newer))
        ]
      ]
