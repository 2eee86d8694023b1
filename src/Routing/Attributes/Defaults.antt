-- ===== src/Routing/Attributes/Defaults.antt =====
-- The initial values of the attributes against the constructor of model/offchain-routing.cc.
use cnrlchain.Base.{ℕ, ◌*◌, ◌≡◌, some, arith, Time, pos, times, max_time, ◌+ℤ◌, before}
use cnrlchain.Routing.{default_settings}
use cnrlchain.Routing.Attributes.{initial_values, set_attributes}

-- Time by the number of its ticks in a millisecond.
module _ (ticks : ℕ) where
  abbrev pub milli_seconds : ℕ → Time
  milli_seconds n = pos (n * ticks)

  abbrev pub tenths : ℕ → Time
  tenths n = pos (n * 100 * ticks)

  abbrev pub seconds : ℕ → Time
  seconds n = pos (n * 1000 * ticks)

  -- The checkers accept every initial value, and with them all settings are as the constructor of
  -- RoutingProtocol computes them, but for two: HelloInterval is one second and not sixty, and
  -- DeletePeriod fifteen seconds and not three hundred.
  set_attributes-default_settings :
      let s = default_settings seconds milli_seconds in
      (set_attributes (initial_values tenths milli_seconds) s
        ≡ some (record s { hello_interval = seconds 1; delete_period = seconds 15 }))
      × (s.hello_interval ≡ seconds 60)
      × (s.delete_period ≡ seconds 300)
  unfolding set_attributes initial_values default_settings times max_time ◌+ℤ◌ before
  set_attributes-default_settings = ground arith
