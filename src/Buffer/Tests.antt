-- ===== src/Buffer/Tests.antt =====
-- Runs of the buffer, and concrete inputs for its theorems.
use gamnet.Prelude.{◌≡◌, refl, arith, [], ◌∷◌}
use gamnet.Buffer.{Buffer, swap}
use gamnet.Buffer.Valid.{IsValid}

-- 3 and 4 are unread, 1 and 2 are read.
abbrev half_read : Buffer
half_read = record { write_cursor = 4; read_cursor = 2; buf_size = 5; mem = 1 ∷ 2 ∷ 3 ∷ 4 ∷ 0 ∷ [] }

-- Only 1 is read.
abbrev nearly_full : Buffer
nearly_full = record half_read { read_cursor = 1 }

half_read-IsValid : IsValid half_read
half_read-IsValid = omega arith

nearly_full-IsValid : IsValid nearly_full
nearly_full-IsValid = omega arith

swap_twice : (swap half_read nearly_full).0 ≡ nearly_full
unfolding swap
swap_twice = refl
