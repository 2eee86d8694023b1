-- ===== src/Routing.antt =====
-- RoutingProtocol of model/offchain-routing.h and model/offchain-routing.cc: its state, its
-- constructor, what it sends, and the payment channel hellos. The route requests are in
-- Routing/Request and Routing/Receive. What is declared but defined nowhere (IsMyOwnAddress,
-- SendReply, SendReplyByIntermediateNode, ScheduleRreqRetry) is a parameter or an effect, and so
-- are the names that SendHello uses without declaring them. An effect stands where the source
-- calls ns-3; a packet is the list of the headers on it.
pub mod Request
pub mod Receive
pub mod Duplicates
pub mod Reverse
pub mod Total
pub mod Own
pub mod Once
pub mod Flood
pub mod Network
pub mod Letters
pub mod Accepted
pub mod Path
pub mod Attributes
pub mod Tag
pub mod Rate
pub mod Replies
pub mod Relay
pub mod Hellos
use cnrlchain.Base.{
  ℕ, ◌+◌, ◌*◌, Bool, true, false, not, ◌&&◌, Option, none, some, List, [], ◌∷◌, ◌++◌, map, Address,
  Handle, Time, pos, max_time, times, ◌+ℤ◌, ◌-ℤ◌, ltb, ◌==◌, if◌then◌else◌, all_hosts,
}
use cnrlchain.Route.{Interfaces, RoutingTableEntry}
use cnrlchain.Table.{RoutingTable, new_table}
use cnrlchain.IdCache.{IdCache, new_cache}
use cnrlchain.Dpd.{DuplicatePacketDetection, new_detection}
use cnrlchain.RequestQueue.{RequestQueue, new_queue}
use cnrlchain.Neighbors.{
  Neighbors, Effect, Answer, new_neighbors, set_callback, is_neighbor, update,
}
use cnrlchain.Packet.{
  MessageType, rreq, hello, TypeHeader, new_type, RreqHeader, HelloHeader, Millis, new_hello,
  set_hello_ack_required, get_hello_ack_required,
}

-- The protocol parameters that the handlers and the constructor read.
pub record Settings : Type 0 where
  pub rreq_retries : ℕ
  pub rreq_rate_limit : ℕ
  pub rerr_rate_limit : ℕ
  pub active_route_timeout : Time
  pub net_diameter : ℕ
  pub node_traversal_time : Time
  pub net_traversal_time : Time
  pub path_discovery_time : Time
  pub my_route_timeout : Time
  pub hello_interval : Time
  pub allowed_hello_loss : ℕ
  pub delete_period : Time
  pub next_hop_wait : Time
  pub timeout_buffer : ℕ
  pub black_list_timeout : Time
  pub max_queue_len : ℕ
  pub max_queue_time : Time
  pub destination_only : Bool
  pub gratuitous_reply : Bool
  pub enable_hello : Bool

-- `H` is the type of IPv4 headers, `I` of interface addresses. `socket_addresses` is the map from
-- sockets to addresses, in its order.
pub record RoutingProtocol {ℓ κ} (H : Type ℓ) (I : Type κ) : Type (ℓ ⊔ κ) where
  pub settings : Settings
  pub socket_addresses : List (Handle × I)
  pub routing_table : RoutingTable I
  pub queue : RequestQueue H
  pub request_id : ℕ
  pub seq_no : ℕ
  pub rreq_id_cache : IdCache
  pub dpd : DuplicatePacketDetection
  pub nb : Neighbors
  pub rreq_count : ℕ
  pub rerr_count : ℕ
  pub htimer_running : Bool

-- The constructor, from Seconds and MilliSeconds of ns-3.
unfoldable pub default_settings : (ℕ → Time) → (ℕ → Time) → Settings
default_settings seconds milli_seconds =
    let active = seconds 3 in
    let traversal = milli_seconds 40 in
    let net_traversal = times (2 * 35) traversal in
    let discovery = times 2 net_traversal in
    let interval = seconds 60 in
    record {
      rreq_retries = 2;
      rreq_rate_limit = 10;
      rerr_rate_limit = 10;
      active_route_timeout = active;
      net_diameter = 35;
      node_traversal_time = traversal;
      net_traversal_time = net_traversal;
      path_discovery_time = discovery;
      my_route_timeout = times 2 (max_time discovery active);
      hello_interval = interval;
      allowed_hello_loss = 2;
      delete_period = times 5 (max_time active interval);
      next_hop_wait = traversal +ℤ milli_seconds 10;
      timeout_buffer = 2;
      black_list_timeout = times 2 net_traversal;
      max_queue_len = 64;
      max_queue_time = seconds 30;
      destination_only = false;
      gratuitous_reply = true;
      enable_hello = true;
    }

-- `m_nb (HelloInterval)` hands a time to a constructor that takes an amount: `deposit` is what the
-- conversion gives.
unfoldable pub new_protocol {ℓ κ} :
    {H : Type ℓ} {I : Type κ} → (ℕ → Time) → (ℕ → Time) → ℕ → RoutingProtocol H I
unfolding default_settings
new_protocol seconds milli_seconds deposit =
    let s = default_settings seconds milli_seconds in
    record {
      settings = s;
      socket_addresses = [];
      routing_table = new_table s.delete_period;
      queue = new_queue s.max_queue_len s.max_queue_time;
      request_id = 0;
      seq_no = 0;
      rreq_id_cache = new_cache s.path_discovery_time;
      dpd = new_detection s.path_discovery_time;
      nb =
          if s.enable_hello
          then set_callback true (new_neighbors deposit)
          else new_neighbors deposit;
      rreq_count = 0;
      rerr_count = 0;
      htimer_running = false;
    }

-- What a handler asks of ns-3 and of the functions that are declared only.
pub data Action {κ} (I : Type κ) : Type κ where
  -- SendTo: the socket, the type header, the message header, the destination, the port.
  send_rreq : Handle → TypeHeader → RreqHeader → Address → ℕ → Action I
  -- SendTo to OFFCHAIN_PORT.
  send_hello : TypeHeader → HelloHeader → Address → Action I
  -- Simulator::Schedule of SendRequest after the delay.
  schedule_request : Time → Address → Action I
  schedule_rreq_retry : Address → Action I
  cancel_htimer : Action I
  schedule_htimer : Time → Action I
  -- `none` is an entry that only the default constructor has set.
  send_reply : RreqHeader → Option (RoutingTableEntry I) → Action I
  send_reply_by_intermediate : RoutingTableEntry I → Option (RoutingTableEntry I) → Bool → Action I
  neighbor_effect : Effect → Action I

-- What the handlers ask ns-3 for during one call. `avail_deposit` stands for GetChAvailDeposit,
-- `default_deposit` for GetDefaultDeposit and `flags` for what the constructor of a hello leaves.
-- AODVTYPE_RREQ and AODV_PORT, which RecvRReq uses, are not declared in the source. The answers of
-- m_ipv4 and of m_uniformRandomVariable are taken as given: that these pointers are not null is not
-- part of the model, and no code of the repository sets them.
pub record Env {κ} (I : Type κ) : Type κ where
  pub now : Time
  pub net : Interfaces I
  pub millis : Millis
  pub is_my_own_address : Address → Bool
  pub interface_for : Address → I
  pub device_for : Address → Handle
  pub this_address : Address
  pub delay_left : Time
  pub request_delay : Time
  pub jitter : Time
  pub avail_deposit : ℕ
  pub default_deposit : ℕ
  pub flags : ℕ
  pub avail : ℕ
  pub peer_avail : ℕ
  pub aodvtype_rreq : MessageType
  pub aodv_port : ℕ

-- OFFCHAIN_PORT
abbrev pub offchain_port : ℕ
offchain_port = 1200

-- All hosts on a /32 address, the subnet's broadcast otherwise.
unfoldable pub broadcast_address {κ} : {I : Type κ} → Interfaces I → I → Address
broadcast_address net iface = if net.host_mask iface then all_hosts else net.broadcast iface

module _ {ℓ κ} {H : Type ℓ} {I : Type κ} where
  -- The hello timer is started unless it runs.
  unfoldable pub start_htimer : Env I → RoutingProtocol H I → RoutingProtocol H I × List (Action I)
  start_htimer env s =
      if s.settings.enable_hello && not s.htimer_running
      then (
        record s { htimer_running = true },
        cancel_htimer ∷ schedule_htimer (s.settings.hello_interval -ℤ env.jitter) ∷ [],
      )
      else (s, [])

  -- Time (AllowedHelloLoss * HelloInterval)
  abbrev pub hello_life_time : RoutingProtocol H I → Time
  hello_life_time s = times s.settings.allowed_hello_loss s.settings.hello_interval

  -- The periodic hello; `dst` and `iface` are not declared in the source.
  unfoldable pub send_hello_broadcast : Env I → Address → I → RoutingProtocol H I → List (Action I)
  unfolding new_hello broadcast_address
  send_hello_broadcast env dst iface s =
      let h = new_hello env.millis env.flags dst s.seq_no env.this_address (hello_life_time s) 0 in
      send_hello (new_type hello) h (broadcast_address env.net iface) ∷ []

  -- The hello to one node. The test for a negative deposit is on a uint32_t.
  unfoldable pub send_hello_to : Env I → Address → Bool → RoutingProtocol H I → List (Action I)
  unfolding new_hello
  send_hello_to env dst acked s =
      let deposit = if ltb env.avail_deposit 0 then env.default_deposit else env.avail_deposit in
      let h =
        new_hello env.millis env.flags dst s.seq_no env.this_address (hello_life_time s) deposit in
      let h' = if acked then set_hello_ack_required true h else h in
      send_hello (new_type hello) h' dst ∷ []

  -- `IsNeighbor` is asked, and purges, only where the test before it does not decide.
  unfoldable pub recv_hello :
      Env I
      → HelloHeader
      → Address
      → Address
      → RoutingProtocol H I
      → RoutingProtocol H I × List (Action I)
  unfolding send_hello_to is_neighbor update
  recv_hello env header receiver sender s =
      if not (receiver == env.this_address)
      then (let (nb', known, effects) = is_neighbor env.now sender s.nb in
          let s' = record s { nb = nb' } in
          (
            s',
            map neighbor_effect effects ++ (if known then [] else send_hello_to env sender true s'),
          ))
      else if get_hello_ack_required header
      then (let (nb', answer, effects) =
            update env.now sender header.ch_avail_deposit (hello_life_time s) true env.avail
              env.peer_avail s.nb in
          let s' = record s { nb = nb' } in
          (s', map neighbor_effect effects ++ send_hello_to env sender true s'))
      else (let (nb', known, effects) = is_neighbor env.now sender s.nb in
          let s' = record s { nb = nb' } in
          if known
          then (let (nb'', answer, more) =
                update env.now sender header.ch_avail_deposit (hello_life_time s) false env.avail
                  env.peer_avail nb' in
              (record s { nb = nb'' }, map neighbor_effect effects ++ map neighbor_effect more))
          else (s', map neighbor_effect effects))
