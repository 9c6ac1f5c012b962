-- ===== src/Waiting.antt =====
-- Router::Session::AnswerWatingSessionManager (Gamnet/Network/Router/Session.h): the sessions that
-- wait for the answer to a routed message, by its sequence number.
pub mod Laws
mod Tests
use gamnet.Prelude.{
  ℕ, ◌+◌, ltb, not, Bool, List, [], Option, none, some, find, insert, place, erase, retain,
}

-- The time of `AddSession` and the session.
pub record Entry : Type 0 where
  pub since : ℕ
  pub session : ℕ

abbrev pub Waiting : Type 0
Waiting = List (ℕ × Entry)

unfoldable pub add_session : Waiting → ℕ → ℕ → ℕ → Waiting × Bool
add_session w now seq session = insert w seq (record { since = now; session = session })

unfoldable pub find_session : Waiting → ℕ → Waiting × Option ℕ
find_session w seq = elim (find w seq) [ none ↦ (w, none) | some e ↦ (erase w seq, some e.session) ]

unfoldable pub clear : Waiting → Waiting
clear w = []

-- The callback of the timer.
unfoldable pub sweep : Waiting → ℕ → Waiting
sweep w now = retain (λ e. not (ltb (e.since + 5) now)) w
