-- ===== src/Payment/Interest.antt =====
-- The handlers of data and of interests in model/payment-network.cc. The source writes the branch
-- of the content provider twice, once in each handler of an interest; here it is `serve`.
pub mod Once
pub mod Provider
pub mod Kept
use cnrlchain.Base.{
  ℕ, Bool, true, false, ◌&&◌, ◌||◌, Option, none, some, List, [], ◌∷◌, ◌++◌, Address, any_address,
  exists, ◌==◌, if◌then◌else◌, ◌>>=◌,
}
use cnrlchain.Payment.{
  PktHeader, PendingDataEntry, PendingInterestEntryKnownContentProvider,
  PendingInterestEntryUnknownContentProvider, InterestEntry, Services, PaymentNetwork,
  create_data_packet_header,
}

-- The key of a pending data entry.
unfoldable pub same_data : Address → ℕ → PendingDataEntry → Bool
same_data requester broadcast_id e = requester == e.requester && broadcast_id == e.broadcast_id

module _ {τ} {T : Type τ} where
  -- The entries that the handlers make of a header.
  abbrev pub data_entry : PktHeader T → PendingDataEntry
  data_entry header = record {
    last_relay_node = any_address;
    requester = header.requester_id;
    broadcast_id = header.interest_broadcast_id;
    requested_content = header.requested_content;
  }

  abbrev pub unknown_entry : PktHeader T → PendingInterestEntryUnknownContentProvider
  unknown_entry header = record {
    last_relay_node = any_address;
    requester = header.requester_id;
    broadcast_id = header.interest_broadcast_id;
    requested_content = header.requested_content;
  }

  abbrev pub known_entry : PktHeader T → Address → PendingInterestEntryKnownContentProvider
  known_entry header provider = record {
    last_relay_node = any_address;
    requester = header.requester_id;
    broadcast_id = header.interest_broadcast_id;
    requested_content = header.requested_content;
    content_provider = provider;
  }

unfoldable pub handle_data {ℓ κ μ τ} :
    {R : Type ℓ} {C : Type κ} {M : Type μ} {T : Type τ}
    → PktHeader T
    → PaymentNetwork R C M
    → PaymentNetwork R C M
unfolding same_data
handle_data header s =
    if s.node_address == header.destination
    then (if s.initial_requested_content == header.requested_content
        then record s { first_success = true }
        else if exists (same_data header.requester_id header.interest_broadcast_id) s.pending_data
        then s
        else record s { pending_data = s.pending_data ++ data_entry header ∷ [] })
    else s

-- The interest of a header.
unfoldable pub interest_of {τ} : {T : Type τ} → PktHeader T → InterestEntry
interest_of header = record {
  requester = header.requester_id;
  broadcast_id = header.interest_broadcast_id;
  requested_content = header.requested_content;
}

module _ {ℓ κ μ τ} {R : Type ℓ} {C : Type κ} {M : Type μ} {T : Type τ} (v : Services R C M T)
    (blank : PktHeader T) where
  -- This node is the content provider: the data goes to the requester or waits.
  unfoldable pub serve :
      PktHeader T → PaymentNetwork R C M → PaymentNetwork R C M × List (PktHeader T)
  unfolding create_data_packet_header
  serve header s =
      if header.source == header.requester_id
      then (
        s,
        create_data_packet_header blank s.node_address header.requester_id header.source
              header.interest_broadcast_id header.requested_content
            ∷ [],
      )
      else (record s { pending_data = s.pending_data ++ data_entry header ∷ [] }, [])

  unfoldable pub save_known : PktHeader T → Address → PaymentNetwork R C M → PaymentNetwork R C M
  save_known header provider s = record s {
    pending_interest_known = s.pending_interest_known ++ known_entry header provider ∷ [];
  }

  unfoldable pub save_unknown : PktHeader T → PaymentNetwork R C M → PaymentNetwork R C M
  save_unknown header s = record s {
    pending_interest_unknown = s.pending_interest_unknown ++ unknown_entry header ∷ [];
  }

  -- The interest is new: it is recorded first.
  unfoldable pub record_interest : PktHeader T → PaymentNetwork R C M → PaymentNetwork R C M
  unfolding interest_of
  record_interest header s = record s {
    interest_manager = v.interest_insert (interest_of header) s.interest_manager;
  }

  unfoldable pub handle_interest_known :
      PktHeader T → PaymentNetwork R C M → Option (PaymentNetwork R C M × List (PktHeader T))
  unfolding serve save_known record_interest interest_of
  handle_interest_known header s =
      if s.node_address == header.destination
      then (if header.requested_content == header.content_provider_id
          then some (
              if v.interest_exist s.interest_manager (interest_of header)
              then (s, [])
              else if s.node_address == header.requested_content
              then serve header (record_interest header s)
              else (save_known header header.content_provider_id (record_interest header s), []))
          else none)
      else some (s, [])

  unfoldable pub handle_interest_unknown :
      PktHeader T → PaymentNetwork R C M → PaymentNetwork R C M × List (PktHeader T)
  unfolding serve save_known save_unknown record_interest interest_of
  handle_interest_unknown header s =
      if s.node_address == header.destination
      then (if v.interest_exist s.interest_manager (interest_of header)
          then (s, [])
          else if s.node_address == header.requested_content
          then serve header (record_interest header s)
          else if v.content_exist s.content_manager header.requested_content
          then (save_known header header.requested_content (record_interest header s), [])
          else (save_unknown header (record_interest header s), []))
      else (s, [])
