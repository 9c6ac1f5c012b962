-- ===== src/Buffer/Valid.antt =====
-- The representation invariant of `Buffer`, and which operations keep it.
use gamnet.Prelude.{
  take, ap, ℕ, ◌-◌, ◌^◌, ◌≤◌, ◌<◌, ◌≡◌, arith, List, length, length-replicate, slice, length-slice,
}
use gamnet.Buffer.{Buffer, construct, available, size, clear, remove}

pub record IsValid (b : Buffer) : Type 0 where
  pub cursors : b.read_cursor ≤ b.write_cursor
  pub within : b.write_cursor ≤ b.buf_size
  pub block : b.buf_size ≡ length b.mem
  pub small : b.buf_size < 2 ^ 63

-- What a reader gets: the bytes between the cursors.
abbrev pub contents : Buffer → List ℕ
contents b = slice b.mem b.read_cursor (b.write_cursor - b.read_cursor)

pub size_of_valid : {b : Buffer} → IsValid b → size b ≡ b.write_cursor - b.read_cursor
unfolding size
size_of_valid v = omega arith

pub available_of_valid :
    {b : Buffer} → IsValid b → available b ≡ b.buf_size - (b.write_cursor - b.read_cursor)
unfolding available
available_of_valid v = omega arith

pub length-contents :
    {b : Buffer} → IsValid b → length (contents b) ≡ b.write_cursor - b.read_cursor
length-contents {b} v = length-slice b.mem b.read_cursor _ (omega arith)

pub construct-IsValid : (n : ℕ) → n < 2 ^ 63 → IsValid (construct n)
unfolding construct
construct-IsValid n h = omega (arith, length-replicate n (let z : ℕ = 0 in z))

pub clear-IsValid : {b : Buffer} → IsValid b → IsValid (clear b)
unfolding clear
clear-IsValid v = omega arith

pub remove-IsValid : (b : Buffer) (n : ℕ) → IsValid b → IsValid (remove b n)
unfolding remove
remove-IsValid b n v = ground arith

-- With the read cursor at 0 the unread bytes are the front of the block.
pub contents_at_start : (b : Buffer) → b.read_cursor ≡ 0 → contents b ≡ take b.write_cursor b.mem
contents_at_start b e = front b.mem b.read_cursor b.write_cursor e
  where
    front : (mem : List ℕ) (r w : ℕ) → r ≡ 0 → slice mem r (w - r) ≡ take w mem
    front mem r w e = rw e (ap (slice mem 0) (omega arith))
