-- ===== src/Tests/Network.antt =====
-- The theorems on model/payment-network.cc at concrete inputs.
use cnrlchain.Base.{
  ℕ, Option, ◌≡◌, ◌≤◌, ◌<◌, refl, Bool, ◌&&◌, none, some, List, [], ◌∷◌, ◌++◌, arith, Address, pos,
  exists, ltb, ◌==◌, ==_self, if◌then◌else◌, true, false, not,
}
use cnrlchain.Base.Word.{u16_mod}
use cnrlchain.Payment.{
  PktHeader, hello_packet, interest_unknown_content_provider, InterestEntry, Services,
  PaymentNetwork, new_network, request_content, start_application,
}
use cnrlchain.Payment.Interest.{interest_of, handle_interest_known, handle_interest_unknown}
use cnrlchain.Payment.Interest.Once.{KeepsInterests, handle_interest-once}
use cnrlchain.Payment.Interest.Kept.{Accounts, handle_interest_unknown_conserves}
use cnrlchain.Payment.Interest.Provider.{
  IsConsistent, Call, hears, asked_known, asked_unknown, run, run-IsConsistent,
}
use cnrlchain.Payment.Schedule.{schedule_packets, delays_from, schedule_packets_lem}

-- The node with the greater address is the higher one.
abbrev pub greater : Address → Address → Address
greater a b = if ltb a b then b else a

abbrev same_interest : InterestEntry → InterestEntry → Bool
same_interest i j =
    i.requester == j.requester
    && (i.broadcast_id == j.broadcast_id && i.requested_content == j.requested_content)

-- Lists of contents and of interests, and no relationship data.
abbrev pub services : Services ℕ (List Address) (List InterestEntry) ℕ
services = record {
  new_relationship = λ a. a;
  update_and_merge_payment_table = λ a now t r. r;
  get_payment_table = λ r. r;
  get_higher_centrality_node = λ r a b. greater a b;
  get_higher_payment_tie = λ r a b target. greater a b;
  get_higher_payment_level = λ r a b. greater a b;
  content_insert = λ a c. a ∷ c;
  content_exist = λ c a. exists (λ b. a == b) c;
  content_merge = λ l c. l ++ c;
  get_content_array = λ c. c;
  interest_exist = λ m i. exists (same_interest i) m;
  interest_insert = λ i m. i ∷ m;
}

keeps : KeepsInterests services
unfolding exists
keeps = record {
  exist_insert = λ m i.
      ground (arith, ==_self i.requester, ==_self i.broadcast_id, ==_self i.requested_content);
  exist_kept = λ m i j e. ground arith;
}

-- The state that a run without a failure ends in.
abbrev get :
    Option (PaymentNetwork ℕ (List Address) (List InterestEntry))
    → PaymentNetwork ℕ (List Address) (List InterestEntry)
get none = new_network 0 0 0 [] []
get (some s) = s

abbrev pub blank : PktHeader ℕ
blank = record {
  packet_type = hello_packet;
  source = 0;
  destination = 0;
  requested_content = 0;
  requester_id = 0;
  interest_broadcast_id = 0;
  content_provider_id = 0;
  payment_tie_table = 0;
  content_array = [];
}

-- Node 3 has heard of nothing yet.
abbrev pub node : PaymentNetwork ℕ (List Address) (List InterestEntry)
node = new_network 3 0 0 [] []

-- Node 2 asks node 3, for node 1, for the content of node 9.
abbrev asked : PktHeader ℕ
asked = record blank {
  packet_type = interest_unknown_content_provider;
  source = 2;
  destination = 3;
  requested_content = 9;
  requester_id = 1;
  content_provider_id = 9;
}

run-IsConsistent_example :
    (s' : PaymentNetwork ℕ (List Address) (List InterestEntry)) × (run services blank
        (asked_unknown asked ∷ asked_known asked ∷ hears (pos 4) (record blank { source = 9 }) ∷ [])
        (start_application services (request_content 8 (new_network 3 0 0 [] [])))
      ≡ some s')
    × IsConsistent s'
run-IsConsistent_example =
    run-IsConsistent services blank 3 0 0 8 [] []
      (asked_unknown asked ∷ asked_known asked ∷ hears (pos 4) (record blank { source = 9 }) ∷ [])
      (tt, (refl, (tt, tt)))

handle_interest_unknown_conserves_example :
    let r = handle_interest_unknown services blank asked node in
    let new =
      node.node_address == asked.destination
      && not (services.interest_exist node.interest_manager (interest_of asked)) in
    (new ≡ false → r ≡ (node, []))
    × (new ≡ true
        → Accounts services blank asked node r
          × (r.0.interest_manager
              ≡ services.interest_insert (interest_of asked) node.interest_manager))
handle_interest_unknown_conserves_example =
    handle_interest_unknown_conserves services blank asked node

-- The node handles an interest of its own kind and then a hello of node 5.
abbrev between : List (Call ℕ)
between =
    asked_unknown (record asked { requested_content = 6 })
    ∷ hears (pos 4) (record blank { source = 5 })
    ∷ []

abbrev handled : PaymentNetwork ℕ (List Address) (List InterestEntry)
handled = (handle_interest_unknown services blank asked node).0

handle_interest-once_example :
    let s' = get (run services blank between handled) in
    (handle_interest_unknown services blank (record asked { source = 7 }) s' ≡ (s', []))
    × ((asked.requested_content == asked.content_provider_id) ≡ true
        → handle_interest_known services blank (record asked { source = 7 }) s' ≡ some (s', []))
unfolding new_network run exists
handle_interest-once_example =
    handle_interest-once services blank keeps asked (record asked { source = 7 }) node between
      {s' = get (run services blank between handled)} refl refl refl refl refl

schedule_packets_lem_example :
    (1000 < u16_mod
      → 1000 ≤ 1000
      → schedule_packets 1000 10 2 1 1000 ≡ some (delays_from 10 3 1000))
    × (u16_mod ≤ 1000 → schedule_packets 1000 10 2 1 1000 ≡ none)
schedule_packets_lem_example = schedule_packets_lem 1000 10 2 1 1000
