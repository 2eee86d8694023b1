-- ===== src/Routing/Letters.antt =====
-- The requests that model/offchain-routing.cc gives to sockets: which goes where.
use cnrlchain.Base.{
  ℕ, ◌+◌, ◌≡◌, refl, ◌&&◌, List, [], ◌∷◌, ◌++◌, arith, Address, Handle, all_hosts, ◌==◌,
  if◌then◌else◌, ap,
}
use cnrlchain.Packet.{rreq, new_type, TypeHeader, RreqHeader}
use cnrlchain.Routing.{
  RoutingProtocol, Action, send_rreq, send_hello, schedule_request, schedule_rreq_retry,
  cancel_htimer, schedule_htimer, send_reply, send_reply_by_intermediate, neighbor_effect, Env,
  start_htimer,
}

-- One call of SendTo with a request.
pub record Letter : Type 0 where
  pub socket : Handle
  pub type : TypeHeader
  pub header : RreqHeader
  pub to : Address
  pub port : ℕ

-- A call of SendTo, less all of the header but its originator.
pub record Envelope : Type 0 where
  pub socket : Handle
  pub type : TypeHeader
  pub origin : Address
  pub to : Address
  pub port : ℕ

module _ {κ} {I : Type κ} where
  abbrev pub letters : List (Action I) → List Letter
  letters [] = []
  letters (send_rreq socket type h to port ∷ rest) =
      record { socket = socket; type = type; header = h; to = to; port = port } ∷ letters rest
  letters (send_hello type h to ∷ rest) = letters rest
  letters (schedule_request delay dst ∷ rest) = letters rest
  letters (schedule_rreq_retry dst ∷ rest) = letters rest
  letters (cancel_htimer ∷ rest) = letters rest
  letters (schedule_htimer delay ∷ rest) = letters rest
  letters (send_reply h o ∷ rest) = letters rest
  letters (send_reply_by_intermediate e o g ∷ rest) = letters rest
  letters (neighbor_effect e ∷ rest) = letters rest

  pub letters-append :
      (rest bs : List (Action I)) → letters (rest ++ bs) ≡ letters rest ++ letters bs
  letters-append [] bs = refl
  letters-append (send_rreq socket type h to port ∷ rest) bs =
      ap (λ l. record { socket = socket; type = type; header = h; to = to; port = port } ∷ l)
        (letters-append rest bs)
  letters-append (send_hello type h to ∷ rest) bs = letters-append rest bs
  letters-append (schedule_request delay dst ∷ rest) bs = letters-append rest bs
  letters-append (schedule_rreq_retry dst ∷ rest) bs = letters-append rest bs
  letters-append (cancel_htimer ∷ rest) bs = letters-append rest bs
  letters-append (schedule_htimer delay ∷ rest) bs = letters-append rest bs
  letters-append (send_reply h o ∷ rest) bs = letters-append rest bs
  letters-append (send_reply_by_intermediate e o g ∷ rest) bs = letters-append rest bs
  letters-append (neighbor_effect e ∷ rest) bs = letters-append rest bs

  -- How often a socket is listed; a std::map lists it once or not at all.
  abbrev pub times_listed : Handle → List (Handle × I) → ℕ
  times_listed h [] = 0
  times_listed h ((socket, iface) ∷ rest) = (if socket == h then 1 else 0) + times_listed h rest

  -- One envelope for each socket: from the local address of its interface, to all hosts if that has
  -- the mask of a host and to its broadcast address else.
  abbrev pub to_each : Env I → List (Handle × I) → List Envelope
  to_each env [] = []
  to_each env ((socket, iface) ∷ rest) =
      record {
        socket = socket;
        type = new_type rreq;
        origin = env.net.local iface;
        to = if env.net.host_mask iface then all_hosts else env.net.broadcast iface;
        port = 1200;
      }
      ∷ to_each env rest

abbrev pub envelopes : List Letter → List Envelope
envelopes [] = []
envelopes (l ∷ ls) =
    record { socket = l.socket; type = l.type; origin = l.header.origin; to = l.to; port = l.port }
    ∷ envelopes ls

pub envelopes-append : (ls ms : List Letter) → envelopes (ls ++ ms) ≡ envelopes ls ++ envelopes ms
envelopes-append [] ms = refl
envelopes-append (l ∷ ls) ms =
    ap
      (λ es.
        record {
          socket = l.socket;
          type = l.type;
          origin = l.header.origin;
          to = l.to;
          port = l.port;
        }
        ∷ es)
      (envelopes-append ls ms)

-- The copies of one request on one socket.
abbrev pub copies_on : Handle → Address → ℕ → List Letter → ℕ
copies_on h a i [] = 0
copies_on h a i (l ∷ ls) =
    (if l.socket == h && (l.header.origin == a && l.header.request_id == i) then 1 else 0)
    + copies_on h a i ls

pub copies_on-append :
    (h : Handle) (a : Address) (i : ℕ) (ls ms : List Letter)
    → copies_on h a i (ls ++ ms) ≡ copies_on h a i ls + copies_on h a i ms
copies_on-append h a i [] ms = omega arith
copies_on-append h a i (l ∷ ls) ms = omega (arith, copies_on-append h a i ls ms)

pub letters-start_htimer {ℓ κ} :
    {H : Type ℓ} {I : Type κ} (env : Env I) (s : RoutingProtocol H I)
    → letters (start_htimer env s).1 ≡ []
unfolding start_htimer
letters-start_htimer env s = ground arith
