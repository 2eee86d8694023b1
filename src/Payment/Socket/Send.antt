-- ===== src/Payment/Socket/Send.antt =====
-- SendPacket of model/payment-network.cc: the trace and the socket get the packet. A packet of ns-3
-- and its headers are the parameters `create` and `add_header`.
use cnrlchain.Base.{
  ℕ, ◌≡◌, refl, Bool, true, false, Option, none, some, is_some, Option-cases, inl, inr, ap, ◌∙◌,
  arith, List, [], ◌∷◌, Handle,
}
use cnrlchain.Payment.{PktHeader}
use cnrlchain.Payment.Socket.{
  Port, setup, start_socket, stop_application, PortCall, sets_up, starts, stops, step, run,
}

pub data SendCall {ℓ} (P : Type ℓ) : Type ℓ where
  tx_trace : P → SendCall P
  send : Handle → P → SendCall P

-- `none` is a call on a null m_socket.
unfoldable pub send_packet {ℓ τ} :
    {P : Type ℓ} {T : Type τ} (create : ℕ → P) (add_header : PktHeader T → P → P)
    → ℕ
    → PktHeader T
    → Port
    → Option (List (SendCall P))
send_packet create add_header size header s =
    let p = add_header header (create size) in
    elim s.socket [ none ↦ none | some h ↦ some (tx_trace p ∷ send h p ∷ []) ]

-- Whether the application runs after a history: it was started last and not stopped.
abbrev pub runs_after : Bool → List PortCall → Bool
runs_after runs [] = runs
runs_after runs (sets_up port ∷ cs) = runs_after runs cs
runs_after runs (starts new ∷ cs) = runs_after true cs
runs_after runs (stops ∷ cs) = runs_after false cs

run-socket :
    (cs : List PortCall) (s : Port) → is_some (run cs s).0.socket ≡ runs_after (is_some s.socket) cs
unfolding run step setup start_socket stop_application
run-socket [] s = refl
run-socket (sets_up port ∷ cs) s = run-socket cs (setup port s)
run-socket (starts new ∷ cs) s = elim (Option-cases s.socket) [
  | inl e ↦
      run-socket cs (start_socket new s).0 ∙ ap (λ b. runs_after b cs) (rw (e, start_socket) refl)
  | inr (h, e) ↦
      run-socket cs (start_socket new s).0
      ∙ ap (λ b. runs_after b cs) (rw (e, start_socket) (rw e refl))
]
run-socket (stops ∷ cs) s = elim (Option-cases s.socket) [
  | inl e ↦
      run-socket cs (stop_application s).0
      ∙ ap (λ b. runs_after b cs) (rw (e, stop_application) (rw e refl))
  | inr (h, e) ↦
      run-socket cs (stop_application s).0
      ∙ ap (λ b. runs_after b cs) (rw (e, stop_application) refl)
]

-- Over any history of set-ups, starts and stops, a packet can be sent exactly while the application
-- runs; else SendPacket uses a null socket.
pub is_some-send_packet {ℓ τ} :
    {P : Type ℓ} {T : Type τ} (create : ℕ → P) (add_header : PktHeader T → P → P) (size : ℕ)
    (header : PktHeader T) (cs : List PortCall) (s : Port)
    → is_some (send_packet create add_header size header (run cs s).0)
      ≡ runs_after (is_some s.socket) cs
unfolding send_packet
is_some-send_packet create add_header size header cs s =
    let same : is_some (send_packet create add_header size header (run cs s).0)
        ≡ is_some (run cs s).0.socket =
      ground arith in
    same ∙ run-socket cs s
