-- ===== src/Buffer/Resizing.antt =====
-- Taking bytes off the front of a `Buffer`, and moving its bytes to another block.
use gamnet.Buffer.Fifo.{Holds}
use gamnet.Prelude.{
  ℕ, ◌<◌, ◌^◌, ltb→lt, [], drop, drop_all, drop-slice, length-replicate, replicate, read_at_lem,
  u16, ◌+◌, ◌-◌, ◌≤◌, ◌≡◌, refl, sym, ap, ◌∙◌, inl, inr, ltb, arith, List, length, slice, splice,
  length-splice, write_at_lem, slice-splice_self, ok, sub64_of_le, Bool-cases, not-ltb→le,
}
use gamnet.Buffer.{
  Buffer, available, clear, resize, resized_block, copy, copy_target, remove, read_bytes,
}
use gamnet.Buffer.Valid.{
  IsValid, contents, length-contents, available_of_valid, size_of_valid, clear-IsValid,
}

pub remove_part :
    (b : Buffer) (n : ℕ)
    → IsValid b
    → u16 n < b.write_cursor - b.read_cursor
    → remove b n ≡ record b { read_cursor = b.read_cursor + u16 n }
unfolding remove
remove_part b n v h = ground arith

pub remove_all :
    (b : Buffer) (n : ℕ) → IsValid b → b.write_cursor - b.read_cursor ≤ u16 n → remove b n ≡ clear b
unfolding remove clear
remove_all b n v h = ground arith

-- `Remove` drops the cut count of unread bytes, or all of them when there are not so many.
pub contents-remove :
    (b : Buffer) (n : ℕ) → IsValid b → contents (remove b n) ≡ drop (u16 n) (contents b)
contents-remove b n v = elim (Bool-cases (ltb (u16 n) (b.write_cursor - b.read_cursor))) [
  | inl part ↦
      let h : u16 n < b.write_cursor - b.read_cursor = ltb→lt _ _ part in
      rw (remove_part b n v h) (
        ap (slice b.mem (b.read_cursor + u16 n)) (omega arith)
        ∙ sym
            (drop-slice b.mem b.read_cursor (b.write_cursor - b.read_cursor) (u16 n) (omega arith)))
  | inr all ↦
      let h : b.write_cursor - b.read_cursor ≤ u16 n = not-ltb→le _ _ all in
      rw (remove_all b n v h)
        (cleared ∙ sym (drop_all (u16 n) (contents b) (omega (arith, length-contents v))))
]
  where
    cleared : contents (clear b) ≡ []
    cleared = unfold clear in refl

resized_block_lem :
    (b : Buffer) (n : ℕ)
    → IsValid b
    → b.write_cursor - b.read_cursor ≤ n
    → (block : List ℕ) × (resized_block b n ≡ ok block)
      × (length block ≡ n)
      × (slice block 0 (b.write_cursor - b.read_cursor) ≡ contents b)
unfolding resized_block
resized_block_lem b n v h = elim (Bool-cases (ltb 0 (b.write_cursor - b.read_cursor))) [
  | inl some_left ↦ (
    splice (replicate n 0) 0 (contents b),
    rw
        (
          sub64_of_le b.write_cursor b.read_cursor v.cursors (omega arith),
          some_left,
          read_at_lem b.mem b.read_cursor (b.write_cursor - b.read_cursor) (omega arith),
        )
        (write_at_lem (replicate n 0) 0 (contents b) fits),
    length-splice (replicate n 0) 0 (contents b) fits ∙ length-replicate n 0,
    ap (slice (splice (replicate n 0) 0 (contents b)) 0) (sym (length-contents v))
        ∙ slice-splice_self (replicate n 0) 0 (contents b) (omega arith),
  )
  | inr none_left ↦
      let z : b.write_cursor - b.read_cursor ≡ 0 =
        omega (arith, not-ltb→le 0 (b.write_cursor - b.read_cursor) none_left) in
      (
        replicate n 0,
        rw (sub64_of_le b.write_cursor b.read_cursor v.cursors (omega arith), none_left),
        length-replicate n 0,
        rw z,
      )
]
  where
    fits : 0 + length (contents b) ≤ length (replicate {A = ℕ} n 0)
    fits = omega (arith, length-contents v, length-replicate {A = ℕ} n 0)

-- `Resize` to a size that holds the unread bytes keeps them, with the new size.
pub resize-Holds :
    (b : Buffer) (n : ℕ)
    → IsValid b
    → b.write_cursor - b.read_cursor ≤ n
    → n < 2 ^ 63
    → Holds b n (contents b) (resize b n)
unfolding resize
resize-Holds b n v h small =
    let (block, e, same, c) = resized_block_lem b n v h in
    record {
      after = record b {
        mem = block;
        buf_size = n;
        write_cursor = b.write_cursor - b.read_cursor;
        read_cursor = 0;
      };
      returns = rw (e, sub64_of_le b.write_cursor b.read_cursor v.cursors (omega arith));
      valid = omega arith;
      same_size = refl;
      holds = ap (slice block 0) (omega arith) ∙ c;
    }

pub read_bytes_lem : (b : Buffer) → IsValid b → read_bytes b ≡ ok (contents b)
unfolding read_bytes
read_bytes_lem b v =
    rw (sub64_of_le b.write_cursor b.read_cursor v.cursors (omega arith))
      (read_at_lem b.mem b.read_cursor (b.write_cursor - b.read_cursor) (omega arith))

-- The target of `Copy` before the bytes come in.
record Emptied (b : Buffer) (n : ℕ) : Type 0 where
  after : Buffer
  returns : copy_target b n ≡ ok after
  valid : IsValid after
  fits : n ≤ after.buf_size
  front : after.write_cursor ≡ 0
  start : after.read_cursor ≡ 0

copy_target-Emptied : (b : Buffer) (n : ℕ) → IsValid b → n < 2 ^ 63 → Emptied b n
unfolding copy_target clear
copy_target-Emptied b n v h = elim (Bool-cases (ltb (available (clear b)) n)) [
  | inl grow ↦
      let grown : Holds (clear b) n (contents (clear b)) (resize (clear b) n) =
        resize-Holds (clear b) n (clear-IsValid v) (omega arith) h in
      record {
        after = grown.after;
        returns = rw grow grown.returns;
        valid = grown.valid;
        fits = omega (arith, grown.same_size);
        front = omega (
          arith,
          length-contents grown.valid,
          ap length grown.holds,
          start_at_zero grown.returns,
        );
        start = start_at_zero grown.returns;
      }
  | inr wide ↦ record {
    after = clear b;
    returns = rw wide;
    valid = clear-IsValid v;
    fits =
        omega
          (arith, not-ltb→le (available (clear b)) n wide, available_of_valid (clear-IsValid v));
    front = refl;
    start = refl;
  }
]
  where
    start_at_zero : {b' : Buffer} → resize (clear b) n ≡ ok b' → b'.read_cursor ≡ 0
    start_at_zero e = unfold resize in ground arith

-- `Copy` makes the unread bytes of the target those of the other buffer.
pub copy_lem :
    (b other : Buffer)
    → IsValid b
    → IsValid other
    → (b' : Buffer) × (copy b other ≡ ok b') × IsValid b' × (contents b' ≡ contents other)
unfolding copy
copy_lem b other v w =
    let n = other.write_cursor - other.read_cursor in
    let t = copy_target-Emptied b n v (omega arith) in
    let fits : 0 + length (contents other) ≤ length t.after.mem =
      omega (arith, length-contents w, t.fits, t.valid.block) in
    (
      record t.after { mem = splice t.after.mem 0 (contents other); write_cursor = n },
      rw
          (
            size_of_valid w,
            t.returns,
            read_bytes_lem other w,
            write_at_lem t.after.mem 0 (contents other) fits,
          )
          (ap
            (λ k.
              ok (record t.after { mem = splice t.after.mem 0 (contents other); write_cursor = k }))
            (omega (arith, t.front))),
      record {
        cursors = omega (arith, t.start);
        within = t.fits;
        block = t.valid.block ∙ sym (length-splice t.after.mem 0 (contents other) fits);
        small = t.valid.small;
      },
      front (splice t.after.mem 0 (contents other)) t.after.read_cursor n t.start
          ∙ ap (slice (splice t.after.mem 0 (contents other)) 0) (sym (length-contents w))
          ∙ slice-splice_self t.after.mem 0 (contents other) (omega arith),
    )
  where
    front : (mem : List ℕ) (r k : ℕ) → r ≡ 0 → slice mem r (k - r) ≡ slice mem 0 k
    front mem r k e = rw e (ap (slice mem 0) (omega arith))
