-- ===== src/IdCache/Distinct.antt =====
-- The vector of model/offchain-id.cc never holds an id twice, and its size counts live ids.
use cnrlchain.Base.{
  ℕ, ◌%◌, ◌≡◌, refl, false, ◌&&◌, List, [], ◌∷◌, ◌++◌, arith, Address, Time, before, All, length,
  discard, discard-None, ◌==◌,
}
use cnrlchain.Base.Word.{u32_mod}
use cnrlchain.IdCache.{
  UniqueId, IdCache, Call, asks, sizes, sets, new_cache, is_expired, purge, seen,
  is_duplicate_cases, get_size, set_lifetime, step, run,
}

-- No two records have the same address and id.
abbrev pub IsDistinct : List UniqueId → Type 0
IsDistinct [] = Unit
IsDistinct (u ∷ us) = (seen u.context u.id us ≡ false) × IsDistinct us

seen-discard :
    (now : Time) (addr : Address) (i : ℕ) (us : List UniqueId)
    → seen addr i us ≡ false
    → seen addr i (discard (is_expired now) us) ≡ false
unfolding seen discard
seen-discard now addr i [] h = refl
seen-discard now addr i (u ∷ us) h = ground (arith, seen-discard now addr i us)

discard-IsDistinct :
    (now : Time) (us : List UniqueId) → IsDistinct us → IsDistinct (discard (is_expired now) us)
unfolding discard
discard-IsDistinct now [] h = tt
discard-IsDistinct now (u ∷ us) h =
    ground (arith, discard-IsDistinct now us h.1, seen-discard now u.context u.id us h.0)

seen-snoc :
    (u : UniqueId) (addr : Address) (i : ℕ) (us : List UniqueId)
    → seen addr i us ≡ false
    → (u.context == addr && u.id == i) ≡ false
    → seen addr i (us ++ u ∷ []) ≡ false
unfolding seen
seen-snoc u addr i [] h e = ground arith
seen-snoc u addr i (v ∷ us) h e = ground (arith, seen-snoc u addr i us)

snoc-IsDistinct :
    (u : UniqueId) (us : List UniqueId)
    → seen u.context u.id us ≡ false
    → IsDistinct us
    → IsDistinct (us ++ u ∷ [])
unfolding seen
snoc-IsDistinct u [] fresh h = (refl, tt)
snoc-IsDistinct u (v ∷ us) fresh h =
    (seen-snoc u v.context v.id us h.0 (ground arith), snoc-IsDistinct u us (ground arith) h.1)

step-IsDistinct :
    (now : Time) (call : Call) (c : IdCache) → IsDistinct c.ids → IsDistinct (step now call c).ids
unfolding step get_size set_lifetime purge
step-IsDistinct now (asks a j) c h =
    let kept = discard-IsDistinct now c.ids h in
    is_duplicate_cases (λ d. IsDistinct d.ids) now a j c (λ e. kept)
      (λ e. snoc-IsDistinct _ (discard (is_expired now) c.ids) e kept)
step-IsDistinct now sizes c h = discard-IsDistinct now c.ids h
step-IsDistinct now (sets t) c h = h

run_from-IsDistinct :
    (calls : List (Time × Call)) (c : IdCache) → IsDistinct c.ids → IsDistinct (run calls c).ids
unfolding run
run_from-IsDistinct [] c h = h
run_from-IsDistinct ((now, call) ∷ calls) c h =
    run_from-IsDistinct calls (step now call c) (step-IsDistinct now call c h)

-- After any history of calls on a new cache, at any times, no id has two records.
run-IsDistinct : (t : Time) (calls : List (Time × Call)) → IsDistinct (run calls (new_cache t)).ids
unfolding new_cache
run-IsDistinct t calls = run_from-IsDistinct calls _ tt

-- `GetSize` keeps no expired record, keeps the records distinct, and returns their number modulo
-- 2 ^ 32.
pub get_size_lem :
    (now : Time) (c : IdCache)
    → IsDistinct c.ids
    → All (λ u. before u.expire now ≡ false) (get_size now c).0.ids
      × IsDistinct (get_size now c).0.ids
      × ((get_size now c).1 ≡ length (get_size now c).0.ids % u32_mod)
unfolding get_size purge is_expired
get_size_lem now c h = (discard-None _ c.ids, discard-IsDistinct now c.ids h, refl)
