-- ===== src/Log/Silent.antt =====
-- The log before Init.
use gamnet.Prelude.{ℕ, false, ◌≡◌, refl, List, [], some, none, not_initialized_error}
use gamnet.Log.{Io, Logger, Tm, Level, has, write, set_level_property}

-- Of a logger that has not been initialised and whose levels are zero, as the static one is, no
-- level can be set, and a Write does nothing and throws nothing: its own test is not reached.
pub write_silent :
    {Disk : Type 0} (io : Io Disk) (g : Logger) (d : Disk) (level l : Level) (flag : ℕ) (now : Tm)
    (s : List ℕ)
    → g.is_init ≡ false
    → g.property l ≡ 0
    → (set_level_property g level flag ≡ (g, some not_initialized_error))
      × (write io g d l now s ≡ (g, d, [], none))
unfolding write set_level_property has
write_silent io g d level l flag now s u z = (rw u refl, rw z refl)
