-- ===== src/Waiting/Tests.antt =====
-- Concrete inputs for the theorems on waiting sessions.
use gamnet.Prelude.{arith, List, [], ◌∷◌, IsSorted}
use gamnet.Waiting.{Waiting}
use gamnet.Waiting.Laws.{Call, adds, finds, sweeps}

abbrev two_wait : Waiting
two_wait = (3, record { since = 1; session = 30 }) ∷ (8, record { since = 6; session = 80 }) ∷ []

two_wait-IsSorted : IsSorted two_wait
two_wait-IsSorted = ((omega arith, tt), (tt, tt))

-- Another question, the answer to another one, and the timer.
abbrev meanwhile : List Call
meanwhile = adds 7 9 90 ∷ finds 3 ∷ sweeps 11 ∷ []
