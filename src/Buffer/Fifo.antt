-- ===== src/Buffer/Fifo.antt =====
-- `Buffer` as a bounded queue of bytes: what each operation does to the unread bytes.
use gamnet.Prelude.{
  ℕ, false, ◌∷◌, sub64, ◌<◌, ◌⊎◌, ltb→lt, le→not-ltb, [], ◌==◌, append-nil, throw, fault,
  buffer_overflow_error, copy_within_overlaps, ◌+◌, ◌-◌, ◌≤◌, ◌≡◌, refl, sym, ap, ◌∙◌, inl, inr,
  ltb, leb, arith, List, ◌++◌, length, slice, splice, length-splice, write_at_lem,
  slice-splice_self, slice-splice_before, slice-add, Outcome, ok, copy_within_front, sub64_of_le,
  add64, Bool-cases, not-ltb→le,
}
use gamnet.Buffer.{
  Buffer, store_bytes, remove_read_buffer, moved_block, make_room, append, available,
}
use gamnet.Buffer.Valid.{IsValid, contents, length-contents, available_of_valid}

-- What an operation that ends well leaves: a valid buffer of the same size with these bytes unread.
pub record Holds (b : Buffer) (cap : ℕ) (bytes : List ℕ) (o : Outcome Buffer) : Type 0 where
  pub after : Buffer
  pub returns : o ≡ ok after
  pub valid : IsValid after
  pub same_size : after.buf_size ≡ cap
  pub holds : contents after ≡ bytes

store_bytes-Holds :
    (b : Buffer) (bytes : List ℕ)
    → IsValid b
    → b.write_cursor + length bytes ≤ b.buf_size
    → Holds b b.buf_size (contents b ++ bytes) (store_bytes b bytes)
unfolding store_bytes
store_bytes-Holds b bytes v h = record {
  after = record b {
    mem = splice b.mem b.write_cursor bytes;
    write_cursor = add64 b.write_cursor (length bytes);
  };
  returns = rw (write_at_lem b.mem b.write_cursor bytes (omega arith)) refl;
  valid = omega (arith, length-splice b.mem b.write_cursor bytes (omega arith));
  same_size = refl;
  holds = whole;
}
  where
    after_mem : List ℕ
    after_mem = splice b.mem b.write_cursor bytes

    count :
        add64 b.write_cursor (length bytes) - b.read_cursor
        ≡ (b.write_cursor - b.read_cursor) + length bytes
    count = omega arith

    back : b.read_cursor + (b.write_cursor - b.read_cursor) ≡ b.write_cursor
    back = omega arith

    whole :
        slice after_mem b.read_cursor (add64 b.write_cursor (length bytes) - b.read_cursor)
        ≡ contents b ++ bytes
    whole = rw (
      count,
      slice-add after_mem b.read_cursor (b.write_cursor - b.read_cursor) (length bytes),
      slice-splice_before b.mem b.read_cursor (b.write_cursor - b.read_cursor) b.write_cursor bytes
          (omega arith) (omega arith),
      back,
      slice-splice_self b.mem b.write_cursor bytes (omega arith),
    )

-- The copied bytes, read back at the front.
front_slice :
    (b : Buffer) (v : IsValid b)
    → slice (splice b.mem 0 (contents b)) 0 (b.write_cursor - b.read_cursor) ≡ contents b
front_slice b v =
    ap (slice (splice b.mem 0 (contents b)) 0) (sym (length-contents v))
    ∙ slice-splice_self b.mem 0 (contents b) (omega arith)

moved_block_lem :
    (b : Buffer)
    → IsValid b
    → b.write_cursor - b.read_cursor ≤ b.read_cursor
    → (block : List ℕ) × (moved_block b ≡ ok block)
      × (length block ≡ length b.mem)
      × (slice block 0 (b.write_cursor - b.read_cursor) ≡ contents b)
unfolding moved_block
moved_block_lem b v h = elim (Bool-cases (ltb 0 (b.write_cursor - b.read_cursor))) [
  | inl some_left ↦ (
    splice b.mem 0 (contents b),
    rw (sub64_of_le b.write_cursor b.read_cursor v.cursors (omega arith), some_left)
        (copy_within_front b.mem b.read_cursor _ h (omega arith)),
    length-splice b.mem 0 (contents b) (omega (arith, length-contents v)),
    front_slice b v,
  )
  | inr none_left ↦ (
    b.mem,
    rw (sub64_of_le b.write_cursor b.read_cursor v.cursors (omega arith), none_left),
    refl,
    (let z : b.write_cursor - b.read_cursor ≡ 0 =
          omega (arith, not-ltb→le 0 (b.write_cursor - b.read_cursor) none_left) in
        rw z),
  )
]

remove_read_buffer-Holds :
    (b : Buffer)
    → IsValid b
    → b.write_cursor - b.read_cursor ≤ b.read_cursor
    → Holds b b.buf_size (contents b) (remove_read_buffer b)
unfolding remove_read_buffer
remove_read_buffer-Holds b v h = elim (Bool-cases (leb b.read_cursor 0)) [
  | inl at_front ↦ record {
    after = b;
    returns = rw at_front;
    valid = v;
    same_size = refl;
    holds = refl;
  }
  | inr moved ↦
      let (block, e, same, c) = moved_block_lem b v h in
      record {
        after = record b {
          mem = block;
          write_cursor = b.write_cursor - b.read_cursor;
          read_cursor = 0;
        };
        returns = rw (moved, e, sub64_of_le b.write_cursor b.read_cursor v.cursors (omega arith));
        valid = omega arith;
        same_size = refl;
        holds = ap (slice block 0) (omega arith) ∙ c;
      }
]

remove_read_buffer_front : (b b' : Buffer) → remove_read_buffer b ≡ ok b' → b'.read_cursor ≡ 0
unfolding remove_read_buffer
remove_read_buffer_front b b' e = ground arith

-- The buffer that `Append` copies into: the same bytes, with room for `n` more behind them.
record Compacted (b : Buffer) (n : ℕ) : Type 0 where
  after : Buffer
  returns : make_room b n ≡ ok after
  valid : IsValid after
  same_size : after.buf_size ≡ b.buf_size
  holds : contents after ≡ contents b
  fits : after.write_cursor + n ≤ after.buf_size

make_room-Compacted :
    (b : Buffer) (n : ℕ)
    → IsValid b
    → n ≤ b.buf_size - (b.write_cursor - b.read_cursor)
    → (b.write_cursor + n ≤ b.buf_size) ⊎ (b.write_cursor - b.read_cursor ≤ b.read_cursor)
    → Compacted b n
unfolding make_room
make_room-Compacted b n v k h = elim (Bool-cases (ltb (sub64 b.buf_size b.write_cursor) n)) [
  | inl tight ↦
      let over : b.buf_size < b.write_cursor + n =
        omega (arith, ltb→lt (sub64 b.buf_size b.write_cursor) n tight) in
      let moved : Holds b b.buf_size (contents b) (remove_read_buffer b) =
        remove_read_buffer-Holds b v (omega arith) in
      record {
        after = moved.after;
        returns = rw tight moved.returns;
        valid = moved.valid;
        same_size = moved.same_size;
        holds = moved.holds;
        fits = omega (
          arith,
          remove_read_buffer_front b moved.after moved.returns,
          moved.valid.cursors,
          length-contents moved.valid,
          length-contents v,
          ap length moved.holds,
          moved.same_size,
        );
      }
  | inr wide ↦ record {
    after = b;
    returns = rw wide;
    valid = v;
    same_size = refl;
    holds = refl;
    fits = omega (arith, not-ltb→le (sub64 b.buf_size b.write_cursor) n wide);
  }
]

-- `Append` of bytes that fit, where no compaction is needed or the unread bytes are no more than
-- the read ones: it succeeds, keeps the invariant and the size, and the bytes join the unread ones.
pub append-Holds :
    (b : Buffer) (bytes : List ℕ)
    → IsValid b
    → length bytes ≤ b.buf_size - (b.write_cursor - b.read_cursor)
    → (b.write_cursor + length bytes ≤ b.buf_size)
      ⊎ (b.write_cursor - b.read_cursor ≤ b.read_cursor)
    → Holds b b.buf_size (contents b ++ bytes) (append b bytes)
unfolding append
append-Holds b [] v k h = record {
  after = b;
  returns = refl;
  valid = v;
  same_size = refl;
  holds = sym (append-nil (contents b));
}
append-Holds b (x ∷ xs) v k h =
    let room = make_room-Compacted b (length (x ∷ xs)) v k h in
    let stored = store_bytes-Holds room.after (x ∷ xs) room.valid room.fits in
    record {
      after = stored.after;
      returns =
          rw
            (
              not_zero,
              le→not-ltb (available b) (length (x ∷ xs)) (omega (arith, available_of_valid v)),
              room.returns,
            )
            stored.returns;
      valid = stored.valid;
      same_size = stored.same_size ∙ room.same_size;
      holds = stored.holds ∙ ap (λ l. l ++ (x ∷ xs)) room.holds;
    }
  where
    not_zero : (length (x ∷ xs) == 0) ≡ false
    not_zero = ground arith

-- `Append` throws `BufferOverflowError` whenever the bytes do not fit.
pub append_overflow :
    (b : Buffer) (bytes : List ℕ)
    → IsValid b
    → b.buf_size - (b.write_cursor - b.read_cursor) < length bytes
    → append b bytes ≡ throw buffer_overflow_error
unfolding append
append_overflow b [] v h = absurd (omega arith)
append_overflow b (x ∷ xs) v h = ground (arith, available_of_valid v)

-- The copy of `RemoveReadBuffer` is a `memcpy` between overlapping ranges, which C++ leaves
-- undefined, whenever a compaction is needed and the unread bytes outnumber the read ones.
pub append_overlap :
    (b : Buffer) (bytes : List ℕ)
    → IsValid b
    → length bytes ≤ b.buf_size - (b.write_cursor - b.read_cursor)
    → b.buf_size < b.write_cursor + length bytes
    → b.read_cursor < b.write_cursor - b.read_cursor
    → append b bytes ≡ fault
unfolding append make_room remove_read_buffer moved_block
append_overlap b [] v k over h = absurd (omega arith)
append_overlap b (x ∷ xs) v k over h = ground (
  arith,
  available_of_valid v,
  copy_within_overlaps b.mem b.read_cursor (sub64 b.write_cursor b.read_cursor),
)

-- Nothing but `Remove` moves the read cursor away from 0.
pub append_keeps_start :
    (b b' : Buffer) (bytes : List ℕ)
    → b.read_cursor ≡ 0
    → append b bytes ≡ ok b'
    → b'.read_cursor ≡ 0
unfolding append remove_read_buffer
append_keeps_start b b' bytes s e = ground arith
