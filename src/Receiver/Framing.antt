-- ===== src/Receiver/Framing.antt =====
-- The byte stream of a link without the buffer: messages, cut by their length fields.
use gamnet.Prelude.{
  ℕ, ◌+◌, ◌≤◌, ◌<◌, ◌≡◌, ◌⊎◌, ltb, if◌then◌else◌, List, [], ◌∷◌, ◌++◌, length, take, slice, of_le,
}
use gamnet.Buffer.{Buffer, max_size}
use gamnet.Buffer.Valid.{contents}
use gamnet.Receiver.{Event, received, overflow}

abbrev pub length_field : List ℕ → ℕ
length_field bytes = of_le (take 2 bytes)

abbrev pub seq_field : List ℕ → ℕ
seq_field bytes = of_le (slice bytes 2 4)

-- A whole message: its length field counts it.
pub record IsMessage (f : List ℕ) : Type 0 where
  pub counted : length_field f ≡ length f
  pub header : 10 ≤ length f
  pub bounded : length f < max_size

-- The beginning of a message that is still to come.
abbrev pub IsPartial : List ℕ → Type 0
IsPartial t =
    (length t < 10)
    ⊎ ((10 ≤ length_field t) × (length t < length_field t) × (length_field t < max_size))

-- A header that no message can have.
abbrev pub IsBroken : List ℕ → Type 0
IsBroken t = (10 ≤ length t) × ((length_field t < 10) ⊎ (max_size ≤ length_field t))

abbrev pub flatten : List (List ℕ) → List ℕ
flatten [] = []
flatten (f ∷ fs) = f ++ flatten fs

abbrev pub AllMessages : List (List ℕ) → Type 0
AllMessages [] = Unit {0}
AllMessages (f ∷ fs) = IsMessage f × AllMessages fs

-- The messages that are newer than everything before them: their numbers grow from `m` on.
abbrev pub fresh : ℕ → List (List ℕ) → List (List ℕ)
fresh m [] = []
fresh m (f ∷ fs) = if ltb m (seq_field f) then f ∷ fresh (seq_field f) fs else fresh m fs

abbrev pub last_seq : ℕ → List (List ℕ) → ℕ
last_seq m [] = m
last_seq m (f ∷ fs) = if ltb m (seq_field f) then last_seq (seq_field f) fs else last_seq m fs

-- What a handler sees of the packet that it is given: as many bytes as the length field says.
abbrev pub seen : Buffer → List ℕ
seen p = take (length_field p.mem) (contents p)

abbrev pub delivered : List Event → List (List ℕ)
delivered [] = []
delivered (received p ∷ evs) = seen p ∷ delivered evs
delivered (overflow ∷ evs) = delivered evs

abbrev pub overflows : List Event → ℕ
overflows [] = 0
overflows (received p ∷ evs) = overflows evs
overflows (overflow ∷ evs) = 1 + overflows evs
