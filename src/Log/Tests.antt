-- ===== src/Log/Tests.antt =====
-- Concrete inputs for the theorems on the log.
use gamnet.Prelude.{
  ℕ, ◌≡◌, refl, arith, Bool, true, false, List, [], ◌∷◌, ◌++◌, none, some, ok, length,
}
use gamnet.Log.{
  Io, Logger, Tm, Level, log_level_dev, log_level_err, new_logger, zero_tm, init, init_property,
  write_all,
}
use gamnet.Log.Slash.{init_slash}

-- A disk with one file, and a directory `a`; numbers are printed with one digit.
abbrev Disk : Type 0
Disk = List ℕ × List ℕ

open_one : Disk → List ℕ → Disk × Bool
open_one (name, bytes) [] = ((name, bytes), false)
open_one (name, bytes) (c ∷ []) = ((name, bytes), false)
open_one (name, bytes) (c ∷ e ∷ s) = ((c ∷ e ∷ s, []), true)

abbrev io : Io Disk
io = record {
  print = λ w n. 48 ∷ [];
  open_append = open_one;
  append = λ d name s. ((d.0, d.1 ++ s), true);
  size_of = λ d name. some (length d.1);
  exists = λ d name. true;
  create_directory = λ d name. (d, some false);
}

abbrev morning : Tm
morning = record zero_tm { tm_year = 118; tm_yday = 5; tm_hour = 8 }

abbrev next_day : Tm
next_day = record zero_tm { tm_year = 118; tm_yday = 6; tm_hour = 8 }

abbrev ready_logger : Logger
ready_logger = record {
  property = init_property new_logger.property;
  is_init = true;
  file = record new_logger.file { log_path = 97 ∷ []; log_prefix = 98 ∷ []; filesize = 5 };
}

abbrev lines : List (Level × Tm × List ℕ)
lines = (log_level_dev, morning, 104 ∷ 105 ∷ []) ∷ (log_level_err, morning, 104 ∷ []) ∷ []

init_slash_example :
    (g' : Logger) × (init io new_logger ([], []) (97 ∷ 47 ∷ []) (98 ∷ []) 5
      ≡ ok (g', ([], []), none))
    × ((write_all io g' ([], []) lines).1 ≡ ([], []))
unfolding open_one
init_slash_example =
    init_slash io (97 ∷ []) (98 ∷ []) 5 ([], []) new_logger lines
      ((λ e. absurd (omega (arith, e))), tt) (λ d. refl) refl (omega arith) refl
