-- ===== src/Payment/Socket.antt =====
-- The socket of PaymentNetwork in model/payment-network.cc: StartApplication makes and sets it up
-- if there is none, StopApplication closes it. The calls of ns-3 are a list of values, in order;
-- `new` is the socket that CreateSocket would give.
pub mod Balance
pub mod Send
use cnrlchain.Base.{
  ℕ, Option, none, some, List, [], ◌∷◌, ◌++◌, Address, Handle, any_address, all_hosts,
}

pub data SocketCall : Type 0 where
  create_socket : Handle → SocketCall
  set_allow_broadcast : Handle → SocketCall
  bind : Handle → Address → ℕ → SocketCall
  connect : Handle → Address → ℕ → SocketCall
  set_recv_callback : Handle → SocketCall
  clear_recv_callback : Handle → SocketCall
  close : Handle → SocketCall
  cancel_send_event : SocketCall

-- m_socket and m_peerPort.
pub record Port : Type 0 where
  pub socket : Option Handle
  pub peer_port : ℕ

-- The constructor leaves m_peerPort alone.
unfoldable pub new_port : ℕ → Port
new_port port = record { socket = none; peer_port = port }

unfoldable pub setup : ℕ → Port → Port
setup port s = record s { peer_port = port }

unfoldable pub start_socket : Handle → Port → Port × List SocketCall
start_socket new s = elim s.socket [
  | none ↦ (
    record s { socket = some new },
    create_socket new
        ∷ set_allow_broadcast new
        ∷ bind new any_address s.peer_port
        ∷ connect new all_hosts s.peer_port
        ∷ set_recv_callback new
        ∷ [],
  )
  | some h ↦ (s, set_recv_callback h ∷ [])
]

unfoldable pub stop_application : Port → Port × List SocketCall
stop_application s = elim s.socket [
  | none ↦ (s, cancel_send_event ∷ [])
  | some h ↦ (record s { socket = none }, close h ∷ clear_recv_callback h ∷ cancel_send_event ∷ [])
]

pub data PortCall : Type 0 where
  sets_up : ℕ → PortCall
  starts : Handle → PortCall
  stops : PortCall

unfoldable pub step : PortCall → Port → Port × List SocketCall
unfolding setup start_socket stop_application
step (sets_up port) s = (setup port s, [])
step (starts new) s = start_socket new s
step stops s = stop_application s

unfoldable pub run : List PortCall → Port → Port × List SocketCall
unfolding step
run [] s = (s, [])
run (c ∷ cs) s = let (s', calls) = step c s in let (s'', more) = run cs s' in (s'', calls ++ more)
