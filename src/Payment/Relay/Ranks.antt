-- ===== src/Payment/Relay/Ranks.antt =====
-- The tests before a relay in model/payment-network.cc, by ranks.
use cnrlchain.Base.{ℕ, ◌≡◌, ◌≤◌, ◌⊎◌, false, ◌&&◌, ◌||◌, arith, Address, any_address, leb, ◌==◌}
use cnrlchain.Payment.{
  PktHeader, PendingDataEntry, PendingInterestEntryKnownContentProvider,
  PendingInterestEntryUnknownContentProvider, Services,
}
use cnrlchain.Payment.Pending.{relays_by_tie, relays_by_level}
use cnrlchain.Payment.Relay.{reached}

-- `higher` gives one of two nodes, whose rank is not below the other's; two nodes never have the
-- same rank.
pub record IsRanked (higher : Address → Address → Address) (rank : Address → ℕ) : Type 0 where
  pub highest :
      (a b : Address)
      → ((higher a b ≡ a) × (rank b ≤ rank a)) ⊎ ((higher a b ≡ b) × (rank a ≤ rank b))
  pub distinct : (a b : Address) → rank a ≡ rank b → a ≡ b

-- The last relay node, if there is one, is ranked as high as this node.
abbrev pub IsAbove : Address → (Address → ℕ) → Address → Type 0
IsAbove me rank last = (last == any_address) ≡ false → rank me ≤ rank last

abbrev pub DataAbove : (Address → Address → ℕ) → Address → PendingDataEntry → Type 0
DataAbove tie me e = IsAbove me (tie e.requester) e.last_relay_node

abbrev pub KnownAbove :
    (Address → Address → ℕ) → Address → PendingInterestEntryKnownContentProvider → Type 0
KnownAbove tie me e = IsAbove me (tie e.content_provider) e.last_relay_node

abbrev pub UnknownAbove :
    (Address → ℕ) → Address → PendingInterestEntryUnknownContentProvider → Type 0
UnknownAbove level me e = IsAbove me level e.last_relay_node

module _ (higher : Address → Address → Address) (rank : Address → ℕ)
    (ranked : IsRanked higher rank) where
  higher-second : (a b : Address) → (higher a b == b) ≡ leb (rank a) (rank b)
  higher-second a b = ground (arith, ranked.highest a b, ranked.distinct a b)

  higher-first : (a b : Address) → (higher b a == b) ≡ leb (rank a) (rank b)
  higher-first a b = ground (arith, ranked.highest b a, ranked.distinct a b)

  -- The two tests together are one.
  relays-leb :
      (me encounter last : Address)
      → IsAbove me rank last
      → (higher me encounter == encounter
          && (last == any_address || higher encounter last == encounter))
        ≡ leb (reached me rank last) (rank encounter)
  relays-leb me encounter last above =
      ground (arith, higher-second me encounter, higher-first last encounter)

-- `tie` and `level` rank the nodes as Relationship compares them in the state `r`.
pub record Compares {ℓ κ μ τ} {R : Type ℓ} {C : Type κ} {M : Type μ} {T : Type τ}
    (v : Services R C M T) (tie : Address → Address → ℕ) (level : Address → ℕ) (r : R)
    : Type 0 where
  pub by_tie :
      (target : Address) → IsRanked (λ a b. v.get_higher_payment_tie r a b target) (tie target)
  pub by_level : IsRanked (λ a b. v.get_higher_payment_level r a b) level

module _ {ℓ κ μ τ} {R : Type ℓ} {C : Type κ} {M : Type μ} {T : Type τ} (v : Services R C M T)
    (blank : PktHeader T) (tie : Address → Address → ℕ) (level : Address → ℕ) (r : R)
    (law : Compares v tie level r) where
  pub relays_by_tie_lem :
      (me encounter last target : Address)
      → IsAbove me (tie target) last
      → relays_by_tie v blank r me encounter last target
        ≡ leb (reached me (tie target) last) (tie target encounter)
  unfolding relays_by_tie
  relays_by_tie_lem me encounter last target above =
      relays-leb (λ a b. v.get_higher_payment_tie r a b target) (tie target) (law.by_tie target) me
        encounter last above

  pub relays_by_level_lem :
      (me encounter last : Address)
      → IsAbove me level last
      → relays_by_level v blank r me encounter last ≡ leb (reached me level last) (level encounter)
  unfolding relays_by_level
  relays_by_level_lem me encounter last above =
      relays-leb (λ a b. v.get_higher_payment_level r a b) level law.by_level me encounter last
        above
