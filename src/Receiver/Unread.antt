-- ===== src/Receiver/Unread.antt =====
-- The receive packet between two rounds of the loop, and what it reads as.
use gamnet.Prelude.{
  ℕ, ◌+◌, ◌≤◌, ◌≡◌, sym, ap, ◌∙◌, arith, List, length, take, ok, read_at, read_at_lem, slice,
  slice-take,
}
use gamnet.Buffer.{Buffer, size, capacity, max_size}
use gamnet.Buffer.Valid.{IsValid, contents, contents_at_start, length-contents, size_of_valid}
use gamnet.Packet.{get_length, get_seq}
use gamnet.Receiver.Framing.{length_field, seq_field}

-- The packets of the pool: cleared by `Packet::Init`, with any bytes in the block.
pub record IsFresh (q : Buffer) : Type 0 where
  pub valid : IsValid q
  pub full_size : q.buf_size ≡ max_size
  pub written : q.write_cursor ≡ 0
  pub start : q.read_cursor ≡ 0

-- A receive packet between two rounds, with these bytes unread.
pub record Ready (p : Buffer) (bytes : List ℕ) : Type 0 where
  pub valid : IsValid p
  pub full_size : p.buf_size ≡ max_size
  pub start : p.read_cursor ≡ 0
  pub holds : contents p ≡ bytes

module _ {p : Buffer} {bytes : List ℕ} (r : Ready p bytes) where
  pub size_ready : size p ≡ length bytes
  size_ready = size_of_valid r.valid ∙ sym (length-contents r.valid) ∙ ap length r.holds

  pub length_ready : length bytes ≤ max_size
  length_ready =
      omega (arith, ap length r.holds, length-contents r.valid, r.valid.within, r.full_size)

  pub capacity_ready : capacity p ≡ max_size
  unfolding capacity
  capacity_ready = r.full_size

  mem_ready : take p.write_cursor p.mem ≡ bytes
  mem_ready = sym (contents_at_start p r.start) ∙ r.holds

  pub slice_ready : (off n : ℕ) → off + n ≤ length bytes → slice p.mem off n ≡ slice bytes off n
  slice_ready off n h =
      sym (
        slice-take off n p.write_cursor p.mem (
          omega (
            arith,
            ap length r.holds,
            length-contents r.valid,
            r.valid.within,
            r.valid.block,
            r.start,
          )))
      ∙ ap (λ b. slice b off n) mem_ready

  read_ready : (off n : ℕ) → off + n ≤ length bytes → read_at p.mem off n ≡ ok (slice bytes off n)
  read_ready off n h =
      read_at_lem p.mem off n (
        omega (
          arith,
          ap length r.holds,
          length-contents r.valid,
          r.valid.within,
          r.valid.block,
          r.start,
        ))
      ∙ ap ok (slice_ready off n h)

  pub get_length_ready : 10 ≤ length bytes → get_length p ≡ ok (length_field bytes)
  unfolding get_length
  get_length_ready h = rw (read_ready 0 2 (omega arith))

  pub get_seq_ready : 10 ≤ length bytes → get_seq p ≡ ok (seq_field bytes)
  unfolding get_seq
  get_seq_ready h = rw (read_ready 2 4 (omega arith))
