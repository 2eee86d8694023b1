-- ===== src/Dpd.antt =====
-- model/offchain-dpd.h and model/offchain-dpd.cc: duplicate packets, by the id cache. What ns-3
-- says of a packet and of its header is an argument (`Packets`).
use cnrlchain.Base.{ℕ, ◌≡◌, ◌+ℤ◌, ◌≤ℤ◌, true, false, List, All, Bool, Address, Handle, Time}
use cnrlchain.IdCache.{IdCache, Call, new_cache, is_duplicate, set_lifetime, get_life_time, run}
use cnrlchain.IdCache.Freshness.{is_duplicate_within}

-- Packet::GetUid, Ipv4Header::GetSource and Ipv4Header::GetDestination. A packet is its handle.
pub record Packets {ℓ} (H : Type ℓ) : Type ℓ where
  pub uid : Handle → ℕ
  pub source : H → Address
  pub destination : H → Address

pub record DuplicatePacketDetection : Type 0 where
  pub id_cache : IdCache

unfoldable pub new_detection : Time → DuplicatePacketDetection
new_detection lifetime = record { id_cache = new_cache lifetime }

module _ {ℓ} {H : Type ℓ} (net : Packets H) where
  unfoldable pub is_duplicate_packet :
      Time → Handle → H → DuplicatePacketDetection → DuplicatePacketDetection × Bool
  is_duplicate_packet now p header d =
      let (c, answer) = is_duplicate now (net.source header) (net.uid p) d.id_cache in
      (record { id_cache = c }, answer)

  -- A packet that was accepted is taken for a duplicate as long as its record lives, whatever other
  -- packets come in between, and so is any other packet of the same source with the same uid.
  pub is_duplicate_packet_within :
      (now t : Time) (calls : List (Time × Call)) (p q : Handle) (header other : H)
      (d : DuplicatePacketDetection)
      → (is_duplicate_packet now p header d).1 ≡ false
      → net.uid q ≡ net.uid p
      → net.source other ≡ net.source header
      → All (λ call. call.0 ≤ℤ d.id_cache.lifetime +ℤ now) calls
      → t ≤ℤ d.id_cache.lifetime +ℤ now
      → (is_duplicate_packet t q other
          (record { id_cache = run calls (is_duplicate_packet now p header d).0.id_cache })).1
        ≡ true
  unfolding is_duplicate_packet
  is_duplicate_packet_within now t calls p q header other d fresh u s early le =
      rw (u, s)
        (is_duplicate_within now t calls (net.source header) (net.uid p) d.id_cache fresh early le)

unfoldable pub set_packet_lifetime : Time → DuplicatePacketDetection → DuplicatePacketDetection
set_packet_lifetime t d = record { id_cache = set_lifetime t d.id_cache }

unfoldable pub get_packet_lifetime : DuplicatePacketDetection → Time
get_packet_lifetime d = get_life_time d.id_cache
