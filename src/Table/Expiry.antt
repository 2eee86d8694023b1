-- ===== src/Table/Expiry.antt =====
-- The lifetimes of the routing table of model/rtable.cc: what `Purge` does as time goes by.
use cnrlchain.Base.{
  ◌≡◌, ◌⊎◌, inl, inr, true, false, some, List, [], ◌∷◌, arith, Address, Time, All, ap, ◌∙◌, pos,
  before, ◌+ℤ◌, ◌≤ℤ◌, ◌>>=◌, before-sub, Bool-cases, is_some, le→not-before, +ℤ_parts, before→lt,
}
use cnrlchain.Base.Map.{find, sweep-sweep}
use cnrlchain.Route.{invalid, is_invalid, flag_cases, RoutingTableEntry}
use cnrlchain.Table.Invariant.{IsWellFormed, purge-IsWellFormed}
use cnrlchain.Table.Lookup.{find-purge}
use cnrlchain.Table.{RoutingTable, age, purge, purge_entries}

later :
    (start bad : Time) (times : List Time)
    → All (λ now. (start ≤ℤ now) × (now ≤ℤ bad +ℤ start)) times
    → All (λ now. (now ≤ℤ bad +ℤ start) × (bad +ℤ start ≤ℤ bad +ℤ now)) times
later start bad [] h = tt
later start bad (now ∷ times) h =
    ((h.0.1, omega (arith, +ℤ_parts bad start, +ℤ_parts bad now, h.0.0)), later start bad times h.1)

module _ {ℓ} {I : Type ℓ} where
  age-age :
      (now bad : Time) (e e' : RoutingTableEntry I)
      → pos 0 ≤ℤ bad
      → age now bad e ≡ some e'
      → age now bad e' ≡ some e'
  unfolding age
  age-age now bad e e' h a = ground (
    arith,
    before-sub e.life_time now,
    before-sub e'.life_time now,
    before-sub (bad +ℤ now) now,
    +ℤ_parts bad now,
    le→not-before (bad +ℤ now) now,
  )

  -- With a bad-link lifetime that is not negative, a second `Purge` at the same time changes
  -- nothing.
  pub purge-purge :
      (now : Time) (t : RoutingTable I)
      → pos 0 ≤ℤ t.bad_link_lifetime
      → purge now (purge now t) ≡ purge now t
  unfolding purge purge_entries
  purge-purge now t h =
      ap (λ m. record t { entries = m })
        (sweep-sweep _ t.entries (λ k v w. age-age now t.bad_link_lifetime v w h))

  -- Not INVALID, or INVALID with `end` as its earliest deletion time.
  abbrev pub Survives : Time → RoutingTableEntry I → Type 0
  Survives end e = (is_invalid e.flag ≡ false) ⊎ (end ≤ℤ e.life_time)

  age-Survives :
      (end now bad : Time) (e : RoutingTableEntry I)
      → now ≤ℤ end
      → end ≤ℤ bad +ℤ now
      → Survives end e
      → (e' : RoutingTableEntry I) × (age now bad e ≡ some e') × Survives end e'
  unfolding age
  age-Survives end now bad e early late s =
      let expiry = before-sub e.life_time now in
      elim (Bool-cases (before e.life_time now)) [
        | inr live ↦ (e, ground arith, s)
        | inl over ↦ elim (flag_cases e.flag) [
          | inl v ↦ (
            record e { flag = invalid; req_count = 0; life_time = bad +ℤ now },
            ground arith,
            inr late,
          )
          | inr (inl v) ↦ absurd (ground (arith, before→lt e.life_time now over))
          | inr (inr v) ↦ (e, ground arith, inl (rw v))
        ]
      ]

  unfoldable pub purge_at : List Time → RoutingTable I → RoutingTable I
  purge_at [] t = t
  purge_at (now ∷ times) t = purge_at times (purge now t)

  purge_at-Survives :
      (times : List Time) (end : Time) (k : Address) (t : RoutingTable I) (e : RoutingTableEntry I)
      → IsWellFormed t
      → All (λ now. (now ≤ℤ end) × (end ≤ℤ t.bad_link_lifetime +ℤ now)) times
      → find k t.entries ≡ some e
      → Survives end e
      → is_some (find k (purge_at times t).entries) ≡ true
  unfolding purge_at purge
  purge_at-Survives [] end k t e h within found s = rw found
  purge_at-Survives (now ∷ times) end k t e h within found s =
      let bad = t.bad_link_lifetime in
      let (e', aged, s') = age-Survives end now bad e within.0.0 within.0.1 s in
      purge_at-Survives times end k (purge now t) e' (purge-IsWellFormed now t h) within.1
        (find-purge now k t h ∙ ap (λ o. o >>= age now bad) found ∙ aged) s'

  -- A route that is VALID or in search is not deleted at once: from any such moment `start`,
  -- however often the table is purged until the bad-link lifetime has passed, the destination keeps
  -- an entry.
  pub purge_at_period :
      (start : Time) (times : List Time) (k : Address) (t : RoutingTable I)
      (e : RoutingTableEntry I)
      → IsWellFormed t
      → find k t.entries ≡ some e
      → is_invalid e.flag ≡ false
      → All (λ now. (start ≤ℤ now) × (now ≤ℤ t.bad_link_lifetime +ℤ start)) times
      → is_some (find k (purge_at times t).entries) ≡ true
  purge_at_period start times k t e h found up within =
      purge_at-Survives times (t.bad_link_lifetime +ℤ start) k t e h
        (later start t.bad_link_lifetime times within) found (inl up)
