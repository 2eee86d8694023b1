-- ===== src/Payment/Socket/Balance.antt =====
-- Which calls the socket of PaymentNetwork (model/payment-network.cc) gets over a history of starts
-- and stops.
use cnrlchain.Base.{
  ℕ, inl, inr, Option, none, some, List, [], ◌∷◌, ◌++◌, Handle, Option-cases, any_address,
  all_hosts,
}
use cnrlchain.Payment.Socket.{
  SocketCall, create_socket, set_allow_broadcast, bind, connect, set_recv_callback,
  clear_recv_callback, close, cancel_send_event, Port, setup, start_socket, stop_application,
  PortCall, sets_up, starts, stops, step, run,
}

-- What a socket layer allows: a socket is created when none is open, then it may broadcast, is
-- bound to any address, connected to all hosts on the same port and given its callback; only then
-- it is open; its callback is cleared after it was closed.
pub data Life : Type 0 where
  absent : Life
  made : Handle → Life
  wide : Handle → Life
  bound : Handle → ℕ → Life
  connected : Handle → Life
  opened : Handle → Life
  closed : Handle → Life

pub data Allowed : Life → List SocketCall → Life → Type 0 where
  done : {l : Life} → Allowed l [] l
  creates :
      {h : Handle} {cs : List SocketCall} {m : Life}
      → Allowed (made h) cs m
      → Allowed absent (create_socket h ∷ cs) m
  allows_broadcast :
      {h : Handle} {cs : List SocketCall} {m : Life}
      → Allowed (wide h) cs m
      → Allowed (made h) (set_allow_broadcast h ∷ cs) m
  binds :
      {h : Handle} {p : ℕ} {cs : List SocketCall} {m : Life}
      → Allowed (bound h p) cs m
      → Allowed (wide h) (bind h any_address p ∷ cs) m
  connects :
      {h : Handle} {p : ℕ} {cs : List SocketCall} {m : Life}
      → Allowed (connected h) cs m
      → Allowed (bound h p) (connect h all_hosts p ∷ cs) m
  hooks :
      {h : Handle} {cs : List SocketCall} {m : Life}
      → Allowed (opened h) cs m
      → Allowed (connected h) (set_recv_callback h ∷ cs) m
  listens :
      {h : Handle} {cs : List SocketCall} {m : Life}
      → Allowed (opened h) cs m
      → Allowed (opened h) (set_recv_callback h ∷ cs) m
  closes :
      {h : Handle} {cs : List SocketCall} {m : Life}
      → Allowed (closed h) cs m
      → Allowed (opened h) (close h ∷ cs) m
  clears :
      {h : Handle} {cs : List SocketCall} {m : Life}
      → Allowed absent cs m
      → Allowed (closed h) (clear_recv_callback h ∷ cs) m
  cancels :
      {l : Life} {cs : List SocketCall} {m : Life}
      → Allowed l cs m
      → Allowed l (cancel_send_event ∷ cs) m

Allowed-append :
    {l m n : Life} {bs cs : List SocketCall}
    → Allowed l bs m
    → Allowed m cs n
    → Allowed l (bs ++ cs) n
Allowed-append done b = b
Allowed-append (creates a) b = creates (Allowed-append a b)
Allowed-append (allows_broadcast a) b = allows_broadcast (Allowed-append a b)
Allowed-append (binds a) b = binds (Allowed-append a b)
Allowed-append (connects a) b = connects (Allowed-append a b)
Allowed-append (hooks a) b = hooks (Allowed-append a b)
Allowed-append (listens a) b = listens (Allowed-append a b)
Allowed-append (closes a) b = closes (Allowed-append a b)
Allowed-append (clears a) b = clears (Allowed-append a b)
Allowed-append (cancels a) b = cancels (Allowed-append a b)

-- The life that the member m_socket stands for.
abbrev pub life : Option Handle → Life
life none = absent
life (some h) = opened h

start-Allowed :
    (new : Handle) (s : Port)
    → Allowed (life s.socket) (start_socket new s).1 (life (start_socket new s).0.socket)
unfolding start_socket
start-Allowed new s = elim (Option-cases s.socket) [
  | inl e ↦ rw (e, start_socket) (creates (allows_broadcast (binds (connects (hooks done)))))
  | inr (h, e) ↦ rw (e, start_socket) (rw e (listens done))
]

stop-Allowed :
    (s : Port) → Allowed (life s.socket) (stop_application s).1 (life (stop_application s).0.socket)
unfolding stop_application
stop-Allowed s = elim (Option-cases s.socket) [
  | inl e ↦ rw (e, stop_application) (rw e (cancels done))
  | inr (h, e) ↦ rw (e, stop_application) (closes (clears (cancels done)))
]

step-Allowed :
    (c : PortCall) (s : Port) → Allowed (life s.socket) (step c s).1 (life (step c s).0.socket)
unfolding step setup
step-Allowed (sets_up port) s = done
step-Allowed (starts new) s = start-Allowed new s
step-Allowed stops s = stop-Allowed s

-- Whatever the order of set-ups, starts and stops, the calls of ns-3 follow the life of a socket:
-- at most one is open at a time; each is created, then allowed to broadcast, bound to any address,
-- connected to all hosts on the same port and given its receive callback; it is closed, and its
-- callback cleared, before the next is created. m_socket says which one is open, in the end too.
pub run-Allowed :
    (cs : List PortCall) (s : Port)
    → Allowed (life s.socket) (run cs s).1 (life (run cs s).0.socket)
unfolding run
run-Allowed [] s = done
run-Allowed (c ∷ cs) s = Allowed-append (step-Allowed c s) (run-Allowed cs (step c s).0)
