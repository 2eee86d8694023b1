-- ===== src/IdCache/Freshness.antt =====
-- How long IdCache::IsDuplicate (model/offchain-id.cc) remembers an id.
use cnrlchain.Base.{
  ℕ, ◌≡◌, refl, true, false, ◌↔◌, ◌⊎◌, inl, inr, List, [], ◌∷◌, ◌++◌, arith, Address, Time, before,
  ◌+ℤ◌, ◌≤ℤ◌, not-before→le, le→not-before, All, discard, Bool-cases,
}
use cnrlchain.IdCache.{
  UniqueId, IdCache, Call, asks, sizes, sets, is_expired, purge, seen, is_duplicate,
  is_duplicate_cases, get_size, set_lifetime, step, run,
}

-- A record of the id that has not expired at `now`.
abbrev pub IsLive : Time → Address → ℕ → List UniqueId → Type 0
IsLive now addr i [] = ⊥
IsLive now addr i (u ∷ us) =
    ((u.context ≡ addr) × (u.id ≡ i) × (before u.expire now ≡ false)) ⊎ IsLive now addr i us

seen-IsLive :
    (now : Time) (addr : Address) (i : ℕ) (us : List UniqueId)
    → seen addr i (discard (is_expired now) us) ≡ true
    → IsLive now addr i us
unfolding seen discard is_expired
seen-IsLive now addr i [] h = cc
seen-IsLive now addr i (u ∷ us) h = ground (arith, seen-IsLive now addr i us)

IsLive-seen :
    (now : Time) (addr : Address) (i : ℕ) (us : List UniqueId)
    → IsLive now addr i us
    → seen addr i (discard (is_expired now) us) ≡ true
unfolding seen discard is_expired
IsLive-seen now addr i [] h = elim h [ ]
IsLive-seen now addr i (u ∷ us) (inl h) = ground arith
IsLive-seen now addr i (u ∷ us) (inr h) = ground (arith, IsLive-seen now addr i us h)

-- `IsDuplicate` answers true exactly when the cache holds a record of the address and the id that
-- has not expired.
pub is_duplicate_iff :
    (now : Time) (addr : Address) (i : ℕ) (c : IdCache)
    → ((is_duplicate now addr i c).1 ≡ true) ↔ IsLive now addr i c.ids
unfolding is_duplicate purge
is_duplicate_iff now addr i c = (
  λ h. seen-IsLive now addr i c.ids (ground arith),
  λ h. ground (arith, IsLive-seen now addr i c.ids h),
)

pub IsLive-earlier :
    (now end : Time) (addr : Address) (i : ℕ) (us : List UniqueId)
    → now ≤ℤ end
    → IsLive end addr i us
    → IsLive now addr i us
IsLive-earlier now end addr i [] le h = h
IsLive-earlier now end addr i (u ∷ us) le (inl h) =
    inl (h.0, h.1, le→not-before _ _ (omega (arith, not-before→le u.expire end h.2)))
IsLive-earlier now end addr i (u ∷ us) le (inr h) = inr (IsLive-earlier now end addr i us le h)

IsLive-append_left :
    (now : Time) (addr : Address) (i : ℕ) (us vs : List UniqueId)
    → IsLive now addr i us
    → IsLive now addr i (us ++ vs)
IsLive-append_left now addr i [] vs h = elim h [ ]
IsLive-append_left now addr i (u ∷ us) vs (inl h) = inl h
IsLive-append_left now addr i (u ∷ us) vs (inr h) = inr (IsLive-append_left now addr i us vs h)

IsLive-append_right :
    (now : Time) (addr : Address) (i : ℕ) (us vs : List UniqueId)
    → IsLive now addr i vs
    → IsLive now addr i (us ++ vs)
IsLive-append_right now addr i [] vs h = h
IsLive-append_right now addr i (u ∷ us) vs h = inr (IsLive-append_right now addr i us vs h)

IsLive-discard :
    (now end : Time) (addr : Address) (i : ℕ) (us : List UniqueId)
    → now ≤ℤ end
    → IsLive end addr i us
    → IsLive end addr i (discard (is_expired now) us)
unfolding discard is_expired
IsLive-discard now end addr i [] le h = h
IsLive-discard now end addr i (u ∷ us) le (inl h) =
    rw (le→not-before u.expire now (omega (arith, not-before→le u.expire end h.2))) (inl h)
IsLive-discard now end addr i (u ∷ us) le (inr h) = elim (Bool-cases (before u.expire now)) [
  | inl e ↦ rw e (IsLive-discard now end addr i us le h)
  | inr e ↦ rw e (inr (IsLive-discard now end addr i us le h))
]

-- A record that lasts until `end` is still there after any call that is made by then.
pub step-IsLive :
    (now end : Time) (call : Call) (addr : Address) (i : ℕ) (c : IdCache)
    → now ≤ℤ end
    → IsLive end addr i c.ids
    → IsLive end addr i (step now call c).ids
unfolding step get_size set_lifetime purge
step-IsLive now end (asks a j) addr i c le h =
    let kept = IsLive-discard now end addr i c.ids le h in
    is_duplicate_cases (λ d. IsLive end addr i d.ids) now a j c (λ e. kept)
      (λ e. IsLive-append_left end addr i (discard (is_expired now) c.ids) _ kept)
step-IsLive now end sizes addr i c le h = IsLive-discard now end addr i c.ids le h
step-IsLive now end (sets t) addr i c le h = h

pub run-IsLive :
    (calls : List (Time × Call)) (end : Time) (addr : Address) (i : ℕ) (c : IdCache)
    → All (λ call. call.0 ≤ℤ end) calls
    → IsLive end addr i c.ids
    → IsLive end addr i (run calls c).ids
unfolding run
run-IsLive [] end addr i c early h = h
run-IsLive ((now, call) ∷ calls) end addr i c early h =
    run-IsLive calls end addr i (step now call c) early.1
      (step-IsLive now end call addr i c early.0 h)

pub accepted-IsLive :
    (now : Time) (addr : Address) (i : ℕ) (c : IdCache)
    → (is_duplicate now addr i c).1 ≡ false
    → IsLive (c.lifetime +ℤ now) addr i (is_duplicate now addr i c).0.ids
unfolding is_duplicate purge
accepted-IsLive now addr i c h = elim (Bool-cases (seen addr i (discard (is_expired now) c.ids))) [
  | inl e ↦ absurd (ground arith)
  | inr e ↦ rw e (
      IsLive-append_right (c.lifetime +ℤ now) addr i (discard (is_expired now) c.ids) _
        (inl (refl, refl, le→not-before (c.lifetime +ℤ now) _ (omega arith))))
]

-- Once an id was accepted, every later question for it is answered true, whatever calls come in
-- between, as long as none of them is made after the record's lifetime is over.
pub is_duplicate_within :
    (now t : Time) (calls : List (Time × Call)) (addr : Address) (i : ℕ) (c : IdCache)
    → (is_duplicate now addr i c).1 ≡ false
    → All (λ call. call.0 ≤ℤ c.lifetime +ℤ now) calls
    → t ≤ℤ c.lifetime +ℤ now
    → (is_duplicate t addr i (run calls (is_duplicate now addr i c).0)).1 ≡ true
is_duplicate_within now t calls addr i c fresh early le = (is_duplicate_iff t addr i _).1 (
    IsLive-earlier t (c.lifetime +ℤ now) addr i _ le
      (run-IsLive calls (c.lifetime +ℤ now) addr i _ early (accepted-IsLive now addr i c fresh)))
