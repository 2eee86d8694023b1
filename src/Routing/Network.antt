-- ===== src/Routing/Network.antt =====
-- Several nodes of model/offchain-routing.cc: who receives which request, and when, is a sequence
-- of events. A request floods the network: how many copies of it are sent in all.
use cnrlchain.Base.{
  ℕ, zero, suc, ◌+◌, ◌≡◌, refl, ◌≤◌, ◌⊎◌, inl, inr, Option, none, some, ◌>>=◌, List, [], ◌∷◌, ◌++◌,
  arith, Address, Time, ◌+ℤ◌, ◌≤ℤ◌, All, length, bind-some, sym, ◌∙◌, subst,
}
use cnrlchain.IdCache.Freshness.{IsLive}
use cnrlchain.Routing.{RoutingProtocol, Action}
use cnrlchain.Routing.Receive.{recv_rreq}
use cnrlchain.Routing.Rate.{requests}
use cnrlchain.Routing.Once.{copies, recv_rreq-sockets, recv_rreq-IsLive, once_or_recorded}
use cnrlchain.Routing.Flood.{Reception, recv_rreq_recorded, copies_of_parts}

module _ {ℓ κ} {H : Type ℓ} {I : Type κ} where
  -- The node at the index handles the request; `none` is an index out of range or a handler that
  -- does not return.
  unfoldable pub handle_at :
      ℕ
      → Reception I
      → List (RoutingProtocol H I)
      → Option (List (RoutingProtocol H I) × List (Action I))
  unfolding recv_rreq
  handle_at k x [] = none
  handle_at zero x (s ∷ ss) =
      recv_rreq x.env x.receiver x.src x.header s >>= λ (s', sent). some (s' ∷ ss, sent)
  handle_at (suc k) x (s ∷ ss) = handle_at k x ss >>= λ (ss', sent). some (s ∷ ss', sent)

  unfoldable pub run_network :
      List (ℕ × Reception I)
      → List (RoutingProtocol H I)
      → Option (List (RoutingProtocol H I) × List (Action I))
  unfolding handle_at
  run_network [] ss = some (ss, [])
  run_network ((k, x) ∷ events) ss = handle_at k x ss >>= λ (ss', sent).
      run_network events ss' >>= λ (ss'', more). some (ss'', sent ++ more)

  -- The sockets of all nodes.
  abbrev pub all_sockets : List (RoutingProtocol H I) → ℕ
  all_sockets [] = 0
  all_sockets (s ∷ ss) = length s.socket_addresses + all_sockets ss

  -- How many copies each node may still send: one for each socket, or none if the id is recorded
  -- until `end`.
  abbrev Fits : Time → Time → Address → ℕ → List (RoutingProtocol H I) → List ℕ → Type 0
  Fits life first a i [] [] = Unit
  Fits life first a i [] (b ∷ bs) = ⊥
  Fits life first a i (s ∷ ss) [] = ⊥
  Fits life first a i (s ∷ ss) (b ∷ bs) =
      (s.rreq_id_cache.lifetime ≡ life)
      × ((length s.socket_addresses ≤ b) ⊎ IsLive (life +ℤ first) a i s.rreq_id_cache.ids)
      × Fits life first a i ss bs

abbrev total : List ℕ → ℕ
total [] = 0
total (b ∷ bs) = b + total bs

module _ {ℓ κ} {H : Type ℓ} {I : Type κ} (life first : Time) (a : Address) (i : ℕ) where
  -- One node: what it sends is taken from what it may send.
  recv_rreq-pays :
      (x : Reception I) (s : RoutingProtocol H I) (b : ℕ)
      {r : RoutingProtocol H I × List (Action I)}
      → recv_rreq x.env x.receiver x.src x.header s ≡ some r
      → first ≤ℤ x.env.now
      → x.env.now ≤ℤ life +ℤ first
      → s.rreq_id_cache.lifetime ≡ life
      → (length s.socket_addresses ≤ b) ⊎ IsLive (life +ℤ first) a i s.rreq_id_cache.ids
      → (b' : ℕ) × (copies a i (requests r.1) + b' ≤ b)
        × ((length r.0.socket_addresses ≤ b') ⊎ IsLive (life +ℤ first) a i r.0.rreq_id_cache.ids)
  recv_rreq-pays x s b {r} e late early same (inr live) =
      let none_sent = recv_rreq_recorded x s (life +ℤ first) a i {r = r} e early live in
      let kept =
        recv_rreq-IsLive x.env x.receiver x.src x.header s (life +ℤ first) a i {r = r} e early in
      (b, omega (arith, none_sent), inr (kept.0 live))
  recv_rreq-pays x s b {r} e late early same (inl few) =
      let sockets = recv_rreq-sockets x.env x.receiver x.src x.header s {r = r} e in
      elim (once_or_recorded x.env x.receiver x.src x.header s first a i {r = r} e late) [
        | inl nothing ↦
            (b, omega (arith, nothing), inl (subst (λ l. length l ≤ b) (sym sockets) few))
        | inr (some_copies, live) ↦ (
          0,
          omega arith,
          inr (subst (λ t. IsLive (t +ℤ first) a i r.0.rreq_id_cache.ids) same live),
        )
      ]

  -- What may still be sent is at most what could be sent before less what is sent.
  abbrev Paid : ℕ → List (RoutingProtocol H I) × List (Action I) → Type 0
  Paid bound r =
      (bs' : List ℕ) × (copies a i (requests r.1) + total bs' ≤ bound) × Fits life first a i r.0 bs'

  handle_at-pays :
      (k : ℕ) (x : Reception I) (ss : List (RoutingProtocol H I)) (bs : List ℕ)
      {r : List (RoutingProtocol H I) × List (Action I)}
      → handle_at k x ss ≡ some r
      → first ≤ℤ x.env.now
      → x.env.now ≤ℤ life +ℤ first
      → Fits life first a i ss bs
      → Paid (total bs) r
  unfolding handle_at
  handle_at-pays k x [] bs {r} e late early fits = absurd (cc)
  handle_at-pays k x (s ∷ ss) [] {r} e late early fits = absurd fits
  handle_at-pays zero x (s ∷ ss) (b ∷ bs) {r} e late early (same, pays, rest) =
      let (p, here, done) =
        bind-some (recv_rreq x.env x.receiver x.src x.header s) (λ p. some (p.0 ∷ ss, p.1)) e in
      let (b', paid, left) = recv_rreq-pays x s b {r = p} here late early same pays in
      let kept =
        recv_rreq-IsLive x.env x.receiver x.src x.header s (life +ℤ first) a i {r = p} here early in
      let same_result : (p.0 ∷ ss, p.1) ≡ r = cc in
      subst (Paid (total (b ∷ bs))) same_result (b' ∷ bs, omega arith, (kept.1 ∙ same, left, rest))
  handle_at-pays (suc k) x (s ∷ ss) (b ∷ bs) {r} e late early (same, pays, rest) =
      let (p, here, done) = bind-some (handle_at k x ss) (λ p. some (s ∷ p.0, p.1)) e in
      let (bs', paid, left) = handle_at-pays k x ss bs {r = p} here late early rest in
      let same_result : (s ∷ p.0, p.1) ≡ r = cc in
      subst (Paid (total (b ∷ bs))) same_result (b ∷ bs', omega arith, (same, pays, left))

  run_network-pays :
      (events : List (ℕ × Reception I)) (ss : List (RoutingProtocol H I)) (bs : List ℕ)
      {r : List (RoutingProtocol H I) × List (Action I)}
      → run_network events ss ≡ some r
      → All (λ e. first ≤ℤ e.1.env.now) events
      → All (λ e. e.1.env.now ≤ℤ life +ℤ first) events
      → Fits life first a i ss bs
      → copies a i (requests r.1) ≤ total bs
  unfolding run_network
  run_network-pays [] ss bs {r} e late early fits =
      let same : [] ≡ r.1 = cc in rw (sym same) (omega arith)
  run_network-pays ((k, x) ∷ events) ss bs {r} e late early fits =
      let (p, here, rest) =
        bind-some (handle_at k x ss) (λ p. run_network events p.0 >>= λ q. some (q.0, p.1 ++ q.1))
          e in
      let (q, there, done) =
        bind-some (run_network events p.0) (λ q. some (q.0, p.1 ++ q.1)) rest in
      let (bs', paid, fits') = handle_at-pays k x ss bs {r = p} here late.0 early.0 fits in
      let more = run_network-pays events p.0 bs' {r = q} there late.1 early.1 fits' in
      omega (arith, copies_of_parts a i r.1 p.1 q.1 cc)

module _ {ℓ κ} {H : Type ℓ} {I : Type κ} where
  sockets : List (RoutingProtocol H I) → List ℕ
  sockets [] = []
  sockets (s ∷ ss) = length s.socket_addresses ∷ sockets ss

  sockets-Fits :
      (life first : Time) (a : Address) (i : ℕ) (ss : List (RoutingProtocol H I))
      → All (λ s. s.rreq_id_cache.lifetime ≡ life) ss
      → Fits life first a i ss (sockets ss) × (total (sockets ss) ≡ all_sockets ss)
  unfolding sockets
  sockets-Fits life first a i [] same = (tt, refl)
  sockets-Fits life first a i (s ∷ ss) same =
      let (fits, sum) = sockets-Fits life first a i ss same.1 in
      ((same.0, inl (omega arith), fits), omega (arith, sum))

  -- A flood ends: several nodes receive requests, each event being one node's RecvRReq on one
  -- request, in any order and any number. If all handlers return, the id caches of all nodes have
  -- one lifetime, and no two events are further apart in time than that lifetime, then for every
  -- originator and id the nodes together send no more copies of the request than they have sockets.
  pub run_network-copies :
      (events : List (ℕ × Reception I)) (ss : List (RoutingProtocol H I)) (life first : Time)
      (a : Address) (i : ℕ) {r : List (RoutingProtocol H I) × List (Action I)}
      → run_network events ss ≡ some r
      → All (λ s. s.rreq_id_cache.lifetime ≡ life) ss
      → All (λ e. first ≤ℤ e.1.env.now) events
      → All (λ e. e.1.env.now ≤ℤ life +ℤ first) events
      → copies a i (requests r.1) ≤ all_sockets ss
  run_network-copies events ss life first a i {r} e same late early =
      let (fits, sum) = sockets-Fits life first a i ss same in
      let sent = run_network-pays life first a i events ss (sockets ss) {r = r} e late early fits in
      omega (arith, sent, sum)
