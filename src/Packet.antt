-- ===== src/Packet.antt =====
-- Gamnet/Network/Tcp/Packet.{h,cpp}: a buffer that holds one message behind a header of ten bytes.
-- A message is its MSG_ID, its `Size()` and the bytes that its `Store` writes (`none` where `Store`
-- answers false); the header fields are read and written at `data` itself, little-endian.
pub mod Laws
pub mod RoundTrip
mod Tests
use gamnet.Prelude.{
  ℕ, ◌+◌, ltb, leb, if◌then◌else◌, Bool, true, false, List, [], Option, none, some, length, Outcome,
  ok, throw, fault, ◌>>=◌, u16, add64, sub64, read_at, write_at, le_bytes, of_le,
}
use gamnet.Buffer.{Buffer, clear, capacity, available, resize}

abbrev pub header_size : ℕ
header_size = 10

-- Packet::Header without `length`, which no code reads.
pub record Header : Type 0 where
  pub msg_id : ℕ
  pub msg_seq : ℕ

pub record Message : Type 0 where
  pub msg_id : ℕ
  pub size : ℕ
  pub image : Option (List ℕ)

unfoldable pub get_length : Buffer → Outcome ℕ
get_length p = read_at p.mem 0 2 >>= λ xs. ok (of_le xs)

unfoldable pub get_seq : Buffer → Outcome ℕ
get_seq p = read_at p.mem 2 4 >>= λ xs. ok (of_le xs)

unfoldable pub get_id : Buffer → Outcome ℕ
get_id p = read_at p.mem 6 4 >>= λ xs. ok (of_le xs)

-- The three header stores, at OFFSET_LENGTH, OFFSET_MSGSEQ and OFFSET_MSGID.
store_header : List ℕ → ℕ → ℕ → ℕ → Outcome (List ℕ)
store_header mem total seq id = do
  m ← write_at mem 0 (le_bytes 2 total)
  n ← write_at m 2 (le_bytes 4 seq)
  write_at n 6 (le_bytes 4 id)

-- Both `Write`s resize the cleared packet where the total does not fit.
sized : Buffer → ℕ → Outcome Buffer
sized p total = if ltb (u16 (available p)) total then resize p total else ok p

-- Behind the guard: header, then body (when there is one), then the write cursor.
fill : Buffer → ℕ → ℕ → ℕ → List ℕ → Outcome (Buffer × Bool)
unfolding sized store_header
fill p total seq id body = do
  q ← sized p total
  m ← store_header q.mem total seq id
  n ← (if ltb 0 (length body) then write_at m header_size body else ok m)
  ok (record q { mem = n; write_cursor = add64 q.write_cursor total }, true)

-- Packet::Write(header, buf, length): the packet after the call and the answer.
unfoldable pub write : Buffer → Header → List ℕ → Outcome (Buffer × Bool)
unfolding clear capacity fill
write p header body =
    let p' = clear p in
    let total = u16 (length body + header_size) in
    if leb (capacity p') total
    then ok (p', false)
    else fill p' total header.msg_seq header.msg_id body

-- Where `Store` answers false, the header is written and the cursor stays.
store_failed : Buffer → ℕ → ℕ → ℕ → Outcome (Buffer × Bool)
unfolding sized store_header
store_failed p total seq id = do
  q ← sized p total
  m ← store_header q.mem total seq id
  ok (record q { mem = m }, false)

-- Packet::Write<MSG>(msg_seq, msg)
unfoldable pub write_msg : Buffer → ℕ → Message → Outcome (Buffer × Bool)
unfolding clear capacity fill store_failed
write_msg p seq msg =
    let p' = clear p in
    let total = u16 (msg.size + header_size) in
    if leb (capacity p') total then ok (p', false) else elim msg.image [
      | none ↦ store_failed p' total seq msg.msg_id
      | some body ↦ fill p' total seq msg.msg_id body
    ]

-- Packet::Read: the range that is handed to the message's `Load`.
unfoldable pub read_body : Buffer → Outcome (List ℕ)
read_body p = do
  total ← get_length p
  read_at p.mem (p.read_cursor + header_size) (sub64 total header_size)
