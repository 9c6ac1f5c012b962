-- ===== src/Sessions/Laws.antt =====
-- What a session key finds after each operation, and which sessions the timer destroys.
use gamnet.Prelude.{
  ℕ, ◌+◌, ◌≡◌, refl, arith, ◌==◌, if◌then◌else◌, Bool, true, false, List, [], ◌∷◌, none, some,
  Option-cases, inl, inr, length, ok, fault, find, place, retain, dropped, kept, IsSorted,
  place-IsSorted, find-place, erase-IsSorted, find-erase, retain-IsSorted, find-retain,
}
use gamnet.Sessions.{Manager, written, add, remove, find_session, size, stays, sweep}

-- `Add` of a free key: the key finds the session, every other key finds what it found, the idle
-- clock of the session starts, and the keys stay sorted and so distinct.
pub add_lem :
    (m : Manager) (now key i other : ℕ)
    → IsSorted m.sessions
    → find_session m key ≡ none
    → (m' : Manager) × (add m now key i ≡ ok (m', true))
      × (find_session m' other ≡ (if key == other then some i else find_session m other))
      × ((m'.store i).expire_time ≡ now)
      × IsSorted m'.sessions
unfolding add find_session written
add_lem m now key i other s free = (
  record m {
    sessions = place m.sessions key i;
    store = written m.store i (record (m.store i) { expire_time = now });
  },
  opened free,
  find-place m.sessions key i other free,
  ground arith,
  place-IsSorted m.sessions key i s free,
)
  where
    opened :
        find m.sessions key ≡ none
        → add m now key i
          ≡ ok (
            record m {
              sessions = place m.sessions key i;
              store = written m.store i (record (m.store i) { expire_time = now });
            },
            true,
          )
    opened e = rw (add, e) refl

-- `Add` of a key that is taken changes nothing and answers false where the session has a link;
-- where it has none, the log line reads through a null pointer.
pub add_taken :
    (m : Manager) (now key i j : ℕ)
    → find_session m key ≡ some j
    → add m now key i ≡ (if (m.store i).linked then ok (m, false) else fault)
unfolding add find_session
add_taken m now key i j taken = let e : find m.sessions key ≡ some j = taken in rw (add, e) refl

-- `Remove` destroys exactly the session that the key finds, after which the key finds nothing and
-- every other key what it found.
pub remove_lem :
    (m : Manager) (key other : ℕ)
    → IsSorted m.sessions
    → ((remove m key).1 ≡ find_session m key)
      × (find_session (remove m key).0 other
          ≡ (if key == other then none else find_session m other))
      × IsSorted (remove m key).0.sessions
unfolding remove find_session
remove_lem m key other s = elim (Option-cases (find m.sessions key)) [
  | inl e ↦ rw (remove, e) (refl, ground (arith, e), s)
  | inr (i, e) ↦
      rw (remove, e) (refl, find-erase m.sessions key other, erase-IsSorted m.sessions key s)
]

-- The timer's callback keeps a session exactly when it has a link or is not idle for longer than
-- the keep-alive time; a session is destroyed for each that is no longer found.
pub sweep_lem :
    (m : Manager) (now key : ℕ)
    → IsSorted m.sessions
    → (find_session (sweep m now).0 key ≡ kept (stays m now) (find_session m key))
      × (size (sweep m now).0 + length (sweep m now).1 ≡ size m)
      × IsSorted (sweep m now).0.sessions
unfolding sweep find_session size
sweep_lem m now key s = (
  find-retain (stays m now) m.sessions key s,
  counts (stays m now) m.sessions,
  retain-IsSorted (stays m now) m.sessions s,
)
  where
    counts :
        (keep : ℕ → Bool) (l : List (ℕ × ℕ))
        → length (retain keep l) + length (dropped keep l) ≡ length l
    counts keep [] = omega arith
    counts keep ((j, v) ∷ l) = ground (arith, counts keep l)
