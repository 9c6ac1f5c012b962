-- ===== src/Buffer.antt =====
-- Gamnet/Library/Buffer.{h,cpp}: a byte buffer with a write and a read cursor over one block.
-- `mem` is the block behind the pointer `data`. Cursors and sizes are `size_t`, so they wrap at
-- 2 ^ 64. The constructor's allocation does not fail.
pub mod Valid
pub mod Fifo
pub mod Resizing
mod Tests
use gamnet.Prelude.{
  ℕ, ◌+◌, ◌-◌, ◌==◌, ltb, leb, if◌then◌else◌, List, [], Option, none, some, length, replicate,
  Outcome, ok, throw, fault, ◌>>=◌, buffer_overflow_error, u16, add64, sub64, read_at, write_at,
  copy_within,
}

pub record Buffer : Type 0 where
  pub write_cursor : ℕ
  pub read_cursor : ℕ
  pub buf_size : ℕ
  pub mem : List ℕ

-- Buffer::MAX_SIZE
abbrev pub max_size : ℕ
max_size = 0xffff

-- Buffer::Buffer(size)
unfoldable pub construct : ℕ → Buffer
construct size = record {
  write_cursor = 0;
  read_cursor = 0;
  buf_size = size;
  mem = replicate size 0;
}

-- Buffer::Swap exchanges the two buffers' blocks, cursors and sizes.
unfoldable pub swap : Buffer → Buffer → Buffer × Buffer
swap lhs rhs = (
  record lhs {
    mem = rhs.mem;
    write_cursor = rhs.write_cursor;
    read_cursor = rhs.read_cursor;
    buf_size = rhs.buf_size;
  },
  record rhs {
    mem = lhs.mem;
    write_cursor = lhs.write_cursor;
    read_cursor = lhs.read_cursor;
    buf_size = lhs.buf_size;
  },
)

unfoldable pub available : Buffer → ℕ
available b = sub64 b.buf_size (sub64 b.write_cursor b.read_cursor)

unfoldable pub capacity : Buffer → ℕ
capacity b = b.buf_size

unfoldable pub size : Buffer → ℕ
size b = sub64 b.write_cursor b.read_cursor

unfoldable pub clear : Buffer → Buffer
clear b = record b { write_cursor = 0; read_cursor = 0 }

-- The block after `RemoveReadBuffer`: the unread bytes copied to its front, by `memcpy`.
moved_block : Buffer → Outcome (List ℕ)
moved_block b =
    if ltb 0 (sub64 b.write_cursor b.read_cursor)
    then copy_within b.mem 0 b.read_cursor (sub64 b.write_cursor b.read_cursor)
    else ok b.mem

unfoldable pub remove_read_buffer : Buffer → Outcome Buffer
unfolding moved_block
remove_read_buffer b =
    let moved = moved_block b >>= λ block. ok (record b {
      mem = block;
      write_cursor = sub64 b.write_cursor b.read_cursor;
      read_cursor = 0;
    }) in
    if leb b.read_cursor 0 then ok b else moved

-- Copies `bytes` behind the write cursor; the source range lies outside the block.
store_bytes : Buffer → List ℕ → Outcome Buffer
store_bytes b bytes = do
  mem' ← write_at b.mem b.write_cursor bytes
  ok (record b { mem = mem'; write_cursor = add64 b.write_cursor (length bytes) })

-- The buffer as `Append` leaves it before the copy: compacted where the room behind is too small.
make_room : Buffer → ℕ → Outcome Buffer
make_room b n = if ltb (sub64 b.buf_size b.write_cursor) n then remove_read_buffer b else ok b

unfoldable pub append : Buffer → List ℕ → Outcome Buffer
unfolding available make_room store_bytes
append b bytes =
    let stored = make_room b (length bytes) >>= λ b'. store_bytes b' bytes in
    if length bytes == 0
    then ok b
    else if ltb (available b) (length bytes)
    then throw buffer_overflow_error
    else stored

-- The parameter is a `uint16_t`: a larger count is cut to 16 bits by the call.
unfoldable pub remove : Buffer → ℕ → Buffer
remove b count =
    let r = add64 b.read_cursor (u16 count) in
    let r' = if ltb b.write_cursor r then b.write_cursor else r in
    if r' == b.write_cursor
    then record b { write_cursor = 0; read_cursor = 0 }
    else record b { read_cursor = r' }

-- The bytes from `ReadPtr()` on, `Size()` of them, as callers read them.
unfoldable pub read_bytes : Buffer → Outcome (List ℕ)
unfolding size
read_bytes b = read_at b.mem b.read_cursor (size b)

-- Buffer::WritePtr: the offset of the returned pointer, `none` for NULL.
unfoldable pub write_ptr : Buffer → Outcome (Buffer × Option ℕ)
write_ptr b = do
  b' ← remove_read_buffer b
  ok (b', (if leb b'.buf_size b'.write_cursor then none else some b'.write_cursor))

-- The new block of `Resize`, with the unread bytes copied to its front.
resized_block : Buffer → ℕ → Outcome (List ℕ)
resized_block b n =
    let kept = read_at b.mem b.read_cursor (sub64 b.write_cursor b.read_cursor) >>= λ xs.
    write_at (replicate n 0) 0 xs in
    if ltb 0 (sub64 b.write_cursor b.read_cursor) then kept else ok (replicate n 0)

unfoldable pub resize : Buffer → ℕ → Outcome Buffer
unfolding resized_block
resize b n = resized_block b n >>= λ block. ok (record b {
  mem = block;
  buf_size = n;
  write_cursor = sub64 b.write_cursor b.read_cursor;
  read_cursor = 0;
})

-- The cleared target of `Copy`, grown where the other's bytes do not fit.
copy_target : Buffer → ℕ → Outcome Buffer
copy_target b n = if ltb (available (clear b)) n then resize (clear b) n else ok (clear b)

-- Buffer::Copy
pub copy : Buffer → Buffer → Outcome Buffer
copy b other = do
  b' ← copy_target b (size other)
  xs ← read_bytes other
  block ← write_at b'.mem 0 xs
  ok (record b' { mem = block; write_cursor = add64 b'.write_cursor (size other) })
