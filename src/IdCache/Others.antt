-- ===== src/IdCache/Others.antt =====
-- A question of IdCache::IsDuplicate (model/offchain-id.cc) for one address says nothing about the
-- ids of another.
use cnrlchain.Base.{
  ℕ, ◌≡◌, refl, ◌≢◌, inl, inr, false, List, [], ◌∷◌, ◌++◌, arith, Address, Time, discard,
  Bool-cases,
}
use cnrlchain.IdCache.{
  UniqueId, IdCache, is_expired, purge, unique_id, is_duplicate, is_duplicate_cases,
}
use cnrlchain.IdCache.Freshness.{IsLive, is_duplicate_iff}

discard-IsLive :
    (now t : Time) (addr : Address) (i : ℕ) (us : List UniqueId)
    → IsLive now addr i (discard (is_expired t) us)
    → IsLive now addr i us
unfolding discard
discard-IsLive now t addr i [] h = h
discard-IsLive now t addr i (u ∷ us) h = ground (arith, discard-IsLive now t addr i us)

snoc-IsLive :
    (now : Time) (addr : Address) (i : ℕ) (u : UniqueId) (us : List UniqueId)
    → u.context ≢ addr
    → IsLive now addr i (us ++ u ∷ [])
    → IsLive now addr i us
snoc-IsLive now addr i u [] other (inl h) = absurd (other h.0)
snoc-IsLive now addr i u [] other (inr h) = h
snoc-IsLive now addr i u (v ∷ us) other (inl h) = inl h
snoc-IsLive now addr i u (v ∷ us) other (inr h) = inr (snoc-IsLive now addr i u us other h)

asked-IsLive :
    (now : Time) (addr other : Address) (i j : ℕ) (c : IdCache)
    → other ≢ addr
    → IsLive now addr i (is_duplicate now other j c).0.ids
    → IsLive now addr i c.ids
unfolding purge
asked-IsLive now addr other i j c apart =
    is_duplicate_cases (λ d. IsLive now addr i d.ids → IsLive now addr i c.ids) now other j c
      (λ e h. discard-IsLive now now addr i c.ids h)
      (λ e h.
        discard-IsLive now now addr i c.ids (
          snoc-IsLive now addr i (unique_id now other j c) (discard (is_expired now) c.ids) apart
            h))

-- An id that is new stays new when another address is asked for.
pub is_duplicate-other :
    (now : Time) (addr other : Address) (i j : ℕ) (c : IdCache)
    → other ≢ addr
    → (is_duplicate now addr i c).1 ≡ false
    → (is_duplicate now addr i (is_duplicate now other j c).0).1 ≡ false
is_duplicate-other now addr other i j c apart fresh =
    let c' = (is_duplicate now other j c).0 in
    elim (Bool-cases (is_duplicate now addr i c').1) [
      | inr e ↦ e
      | inl e ↦
          let live =
            asked-IsLive now addr other i j c apart ((is_duplicate_iff now addr i c').0 e) in
          let old = (is_duplicate_iff now addr i c).1 live in absurd (cc)
    ]

pub lifetime-is_duplicate :
    (now : Time) (addr : Address) (i : ℕ) (c : IdCache)
    → (is_duplicate now addr i c).0.lifetime ≡ c.lifetime
unfolding purge
lifetime-is_duplicate now addr i c =
    is_duplicate_cases (λ d. d.lifetime ≡ c.lifetime) now addr i c (λ e. refl) (λ e. refl)
