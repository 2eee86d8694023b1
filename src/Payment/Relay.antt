-- ===== src/Payment/Relay.antt =====
-- What a node promises for the packets that wait in the pending vectors of
-- model/payment-network.cc, said without last relay nodes: a duty is one packet to pass on, with a
-- rank of all nodes, and it keeps the rank that it has reached. The duties of a node are read off
-- its pending vectors.
pub mod Ranks
pub mod Loops
pub mod Hello
use cnrlchain.Base.{
  ℕ, ◌≡◌, ◌≤◌, ◌⊎◌, Bool, true, false, Option, none, some, List, [], ◌∷◌, ◌++◌, map, Address,
  any_address, leb, ◌==◌, if◌then◌else◌,
}
use cnrlchain.Payment.{
  PktHeader, PendingDataEntry, PendingInterestEntryKnownContentProvider,
  PendingInterestEntryUnknownContentProvider, PaymentNetwork, create_data_packet_header,
  create_interest_header_unknown, create_interest_header_known,
}

pub record Duty {τ} (T : Type τ) : Type τ where
  pub target : Option Address
  pub rank : Address → ℕ
  pub packet : Address → PktHeader T
  pub best : ℕ

abbrev pub is_target : Address → Option Address → Bool
is_target a none = false
is_target a (some b) = b == a

module _ {τ} {T : Type τ} where
  -- The target always gets the packet, any other node if its rank is not below the best.
  abbrev pub meet : Address → Duty T → Duty T × List (PktHeader T)
  meet a d =
      if is_target a d.target
      then (d, d.packet a ∷ [])
      else if leb d.best (d.rank a)
      then (record d { best = d.rank a }, d.packet a ∷ [])
      else (d, [])

  unfoldable pub meet_all : Address → List (Duty T) → List (Duty T) × List (PktHeader T)
  meet_all a [] = ([], [])
  meet_all a (d ∷ ds) =
      let (d', sent) = meet a d in let (ds', rest) = meet_all a ds in (d' ∷ ds', sent ++ rest)

-- The rank of the last relay node, or of this node if there is none yet.
abbrev pub reached : Address → (Address → ℕ) → Address → ℕ
reached me rank last = if last == any_address then rank me else rank last

-- `tie` ranks the nodes for each target, `level` for all targets.
module _ {τ} {T : Type τ} (blank : PktHeader T) (tie : Address → Address → ℕ)
    (level : Address → ℕ) where
  abbrev pub data_duty : Address → PendingDataEntry → Duty T
  data_duty me e = record {
    target = some e.requester;
    rank = tie e.requester;
    packet =
        λ a. create_data_packet_header blank me e.requester a e.broadcast_id e.requested_content;
    best = reached me (tie e.requester) e.last_relay_node;
  }

  abbrev pub known_duty : Address → PendingInterestEntryKnownContentProvider → Duty T
  known_duty me e = record {
    target = some e.content_provider;
    rank = tie e.content_provider;
    packet = λ a.
        create_interest_header_known blank me e.requester a e.broadcast_id e.requested_content
          e.content_provider;
    best = reached me (tie e.content_provider) e.last_relay_node;
  }

  abbrev pub unknown_duty : Address → PendingInterestEntryUnknownContentProvider → Duty T
  unknown_duty me e = record {
    target = none;
    rank = level;
    packet = λ a.
        create_interest_header_unknown blank me e.requester a e.broadcast_id e.requested_content;
    best = reached me level e.last_relay_node;
  }

  -- In the order in which HandleHello takes care of them.
  abbrev pub duties {ℓ κ μ} :
      {R : Type ℓ} {C : Type κ} {M : Type μ} → PaymentNetwork R C M → List (Duty T)
  duties s =
      map (data_duty s.node_address) s.pending_data
      ++ (map (known_duty s.node_address) s.pending_interest_known
          ++ map (unknown_duty s.node_address) s.pending_interest_unknown)
