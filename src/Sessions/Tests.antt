-- ===== src/Sessions/Tests.antt =====
-- Concrete inputs for the theorems on the session manager.
use gamnet.Prelude.{ℕ, arith, ◌==◌, [], ◌∷◌, IsSorted}
use gamnet.Sessions.{Session, Manager}

-- Session 1 has a link, session 2 has none.
abbrev objects : ℕ → Session
objects i = record { linked = i == 1; expire_time = 10 }

abbrev manager : Manager
manager = record { keepalive_time = 60; sessions = (5, 1) ∷ (9, 2) ∷ []; store = objects }

manager-IsSorted : IsSorted manager.sessions
manager-IsSorted = ((omega arith, tt), (tt, tt))
