-- ===== src/Payment.antt =====
-- PaymentNetwork of model/payment-network.h and model/payment-network.cc: its state, its
-- constructor and its start, the headers that it makes and the handlers of a hello and of a
-- digest. PktHeader, Relationship, ContentManager and InterestManager are not in the repository:
-- of a header only the values are kept that its setters set and its getters return (`blank` is
-- what `new PktHeader ()` gives), the other three are the parameters `Services`. A handler returns
-- the new state and the packets that it sends, in order; `none` is a failed NS_ASSERT_MSG.
pub mod Pending
pub mod Interest
pub mod Dispatch
pub mod Relay
pub mod Delivery
pub mod Arrival
pub mod Schedule
pub mod Maintain
pub mod Routes
pub mod Socket
use cnrlchain.Base.{
  ℕ, ◌+◌, Bool, true, false, not, ◌&&◌, ◌||◌, Option, none, some, List, [], ◌∷◌, ◌++◌, Address,
  Time, any_address, all_hosts, exists, ◌==◌, if◌then◌else◌, ◌>>=◌,
}
use cnrlchain.Base.Word.{add32}

pub data PacketType : Type 0 where
  hello_packet data_packet digest_packet : PacketType
  interest_unknown_content_provider interest_known_content_provider : PacketType

-- `T` is the type of payment tie tables.
pub record PktHeader {ℓ} (T : Type ℓ) : Type ℓ where
  pub packet_type : PacketType
  pub source : Address
  pub destination : Address
  pub requested_content : Address
  pub requester_id : Address
  pub interest_broadcast_id : ℕ
  pub content_provider_id : Address
  pub payment_tie_table : T
  pub content_array : List Address

pub record PendingInterestEntryUnknownContentProvider : Type 0 where
  pub last_relay_node : Address
  pub requester : Address
  pub broadcast_id : ℕ
  pub requested_content : Address

pub record PendingDataEntry : Type 0 where
  pub last_relay_node : Address
  pub requester : Address
  pub broadcast_id : ℕ
  pub requested_content : Address

pub record PendingInterestEntryKnownContentProvider : Type 0 where
  pub last_relay_node : Address
  pub requester : Address
  pub broadcast_id : ℕ
  pub requested_content : Address
  pub content_provider : Address

-- InterestEntry, as its constructor is called.
pub record InterestEntry : Type 0 where
  pub requester : Address
  pub broadcast_id : ℕ
  pub requested_content : Address

-- The operations of Relationship (`R`), ContentManager (`C`) and InterestManager (`M`).
pub record Services {ℓ κ μ τ} (R : Type ℓ) (C : Type κ) (M : Type μ) (T : Type τ)
    : Type (ℓ ⊔ κ ⊔ μ ⊔ τ) where
  pub new_relationship : Address → R
  pub update_and_merge_payment_table : Address → Time → T → R → R
  pub get_payment_table : R → T
  pub get_higher_centrality_node : R → Address → Address → Address
  pub get_higher_payment_tie : R → Address → Address → Address → Address
  pub get_higher_payment_level : R → Address → Address → Address
  pub content_insert : Address → C → C
  pub content_exist : C → Address → Bool
  pub content_merge : List Address → C → C
  pub get_content_array : C → List Address
  pub interest_exist : M → InterestEntry → Bool
  pub interest_insert : InterestEntry → M → M

pub record PaymentNetwork {ℓ κ μ} (R : Type ℓ) (C : Type κ) (M : Type μ) : Type (ℓ ⊔ κ ⊔ μ) where
  pub node_address : Address
  pub relationship : R
  pub initial_owned_content : Address
  pub initial_requested_content : Address
  pub content_manager : C
  pub interest_manager : M
  pub interest_broadcast_id : ℕ
  pub pending_interest_known : List PendingInterestEntryKnownContentProvider
  pub pending_interest_unknown : List PendingInterestEntryUnknownContentProvider
  pub pending_data : List PendingDataEntry
  pub first_success : Bool

-- The constructor; the members that it leaves alone are arguments.
unfoldable pub new_network {ℓ κ μ} :
    {R : Type ℓ} {C : Type κ} {M : Type μ} → Address → R → Address → C → M → PaymentNetwork R C M
new_network address relationship owned contents interests = record {
  node_address = address;
  relationship = relationship;
  initial_owned_content = owned;
  initial_requested_content = any_address;
  content_manager = contents;
  interest_manager = interests;
  interest_broadcast_id = 0;
  pending_interest_known = [];
  pending_interest_unknown = [];
  pending_data = [];
  first_success = false;
}

unfoldable pub request_content {ℓ κ μ} :
    {R : Type ℓ} {C : Type κ} {M : Type μ} → Address → PaymentNetwork R C M → PaymentNetwork R C M
request_content content s = record s { initial_requested_content = content }

module _ {ℓ κ μ τ} {R : Type ℓ} {C : Type κ} {M : Type μ} {T : Type τ} (v : Services R C M T) where
  -- StartApplication, less the socket and the timer, and less the new RoutingProtocol and its
  -- SetNeighborTable, which assign by value to what the header declares as a pointer: the model
  -- keeps the protocol as a state of its own.
  unfoldable pub start_application : PaymentNetwork R C M → PaymentNetwork R C M
  unfolding add32
  start_application s =
      let s' = record s {
        relationship = v.new_relationship s.node_address;
        initial_owned_content = s.node_address;
        content_manager = v.content_insert s.node_address s.content_manager;
      } in
      if s.initial_requested_content == any_address then s' else record s' {
        pending_interest_unknown =
            s.pending_interest_unknown
            ++ record {
              last_relay_node = any_address;
              requester = s.node_address;
              broadcast_id = s.interest_broadcast_id;
              requested_content = s.initial_requested_content;
            }
              ∷ [];
        interest_broadcast_id = add32 s.interest_broadcast_id 1;
      }

  unfoldable pub handle_digest : PktHeader T → PaymentNetwork R C M → PaymentNetwork R C M
  handle_digest header s =
      if s.node_address == header.destination
      then record s { content_manager = v.content_merge header.content_array s.content_manager }
      else s

module _ {τ} {T : Type τ} (blank : PktHeader T) where
  unfoldable pub create_data_packet_header : Address → Address → Address → ℕ → Address → PktHeader T
  create_data_packet_header me requester destination broadcast_id requested_content = record blank {
    source = me;
    destination = destination;
    requested_content = requested_content;
    requester_id = requester;
    interest_broadcast_id = broadcast_id;
    packet_type = data_packet;
  }

  unfoldable pub create_interest_header_unknown :
      Address → Address → Address → ℕ → Address → PktHeader T
  create_interest_header_unknown me requester destination broadcast_id requested_content =
      record blank {
        source = me;
        destination = destination;
        requested_content = requested_content;
        requester_id = requester;
        interest_broadcast_id = broadcast_id;
        packet_type = interest_unknown_content_provider;
      }

  -- The packet type is the other interest's, as in the source.
  unfoldable pub create_interest_header_known :
      Address → Address → Address → ℕ → Address → Address → PktHeader T
  create_interest_header_known me requester destination broadcast_id requested_content provider =
      record blank {
        source = me;
        destination = destination;
        requested_content = requested_content;
        requester_id = requester;
        interest_broadcast_id = broadcast_id;
        packet_type = interest_unknown_content_provider;
        content_provider_id = provider;
      }

  unfoldable pub create_hello_packet_header : Address → T → PktHeader T
  create_hello_packet_header me table = record blank {
    payment_tie_table = table;
    packet_type = hello_packet;
    destination = all_hosts;
    source = me;
  }

  unfoldable pub create_digest_packet_header : Address → List Address → Address → PktHeader T
  create_digest_packet_header me contents destination = record blank {
    content_array = contents;
    packet_type = digest_packet;
    destination = destination;
    source = me;
  }
