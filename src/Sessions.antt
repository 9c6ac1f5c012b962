-- ===== src/Sessions.antt =====
-- Network::SessionManager (Gamnet/Network/Session.{h,cpp}): the sessions of a server by their key.
-- A session is the number of an object; the store gives the parts of the object that the manager
-- reads and writes. Keys are `uint32_t`, times are not negative. Every method holds the manager's
-- lock, so a history is a sequence of calls.
pub mod Laws
mod Tests
use gamnet.Prelude.{
  ℕ, ◌+◌, ◌==◌, ltb, not, ◌&&◌, if◌then◌else◌, Bool, true, false, List, [], ◌∷◌, Option, none, some,
  Outcome, ok, fault, find, insert, place, erase, retain, dropped, length,
}

pub record Session : Type 0 where
  pub linked : Bool
  pub expire_time : ℕ

pub record Manager : Type 0 where
  pub keepalive_time : ℕ
  pub sessions : List (ℕ × ℕ)
  pub store : ℕ → Session

-- SessionManager::Init; `timer_set` is what `SetTimer` answers.
unfoldable pub init : Manager → ℕ → Bool → Manager × Bool
init m seconds timer_set =
    if seconds == 0 then (m, true) else (record m { keepalive_time = seconds }, timer_set)

-- The objects with one of them changed.
pub written : (ℕ → Session) → ℕ → Session → ℕ → Session
written store i s j = if i == j then s else store j

-- SessionManager::Add. The log line of a duplicate key reads the session's link.
unfoldable pub add : Manager → ℕ → ℕ → ℕ → Outcome (Manager × Bool)
unfolding written
add m now key i = elim (find m.sessions key) [
  | some j ↦ if (m.store i).linked then ok (m, false) else fault
  | none ↦ ok (
    record m {
      sessions = place m.sessions key i;
      store = written m.store i (record (m.store i) { expire_time = now });
    },
    true,
  )
]

-- SessionManager::Remove, with the object on which `OnDestroy` is called.
unfoldable pub remove : Manager → ℕ → Manager × Option ℕ
remove m key = elim (find m.sessions key) [
  | none ↦ (m, none)
  | some i ↦ (record m { sessions = erase m.sessions key }, some i)
]

-- SessionManager::Find
pub find_session : Manager → ℕ → Option ℕ
find_session m key = find m.sessions key

-- SessionManager::Size
pub size : Manager → ℕ
size m = length m.sessions

-- The test of the timer's loop, negated.
unfoldable pub stays : Manager → ℕ → ℕ → Bool
stays m now i = not (not (m.store i).linked && ltb ((m.store i).expire_time + m.keepalive_time) now)

-- The timer's callback, with the objects on which `OnDestroy` is called.
unfoldable pub sweep : Manager → ℕ → Manager × List ℕ
unfolding stays
sweep m now =
    (record m { sessions = retain (stays m now) m.sessions }, dropped (stays m now) m.sessions)
