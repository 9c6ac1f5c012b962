-- ===== src/Pool/Tests.antt =====
-- Concrete inputs for the theorems on the pool.
use gamnet.Prelude.{ℕ, arith, List, [], ◌∷◌, some, ok}
use gamnet.Pool.Balance.{World, Call, asks, ends, sets, live, fresh_world, Balanced, live-Balanced}

abbrev plain : ℕ → ℕ
plain t = t

-- Two objects made, one refused, one taken back and, behind a new capacity, used again.
abbrev busy : List (Call ℕ)
busy =
    asks (ok (some 7))
    ∷ asks (ok (some 8))
    ∷ asks (ok (some 9))
    ∷ ends 1
    ∷ sets 3
    ∷ asks (ok (some 9))
    ∷ []

live-Balanced_example : Balanced 3 3 (live plain (fresh_world 2) busy)
live-Balanced_example = live-Balanced plain 2 3 busy (omega arith) (omega arith, tt)

abbrev one_held : World ℕ
one_held = record {
  pool = record { idle = []; cur_size = 1; max_size = 2 };
  held = 7 ∷ [];
  lost = 0;
}

one_held-Balanced : Balanced 2 2 one_held
one_held-Balanced = omega arith
