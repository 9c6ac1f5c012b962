-- ===== src/Packet/Laws.antt =====
-- What `Packet::Write` leaves in the block, and what the header getters read from it.
use gamnet.Prelude.{
  ℕ, ◌+◌, ◌-◌, ◌^◌, ◌%◌, ◌≤◌, ◌<◌, ◌≡◌, refl, sym, ap, ◌∙◌, arith, ltb, if◌then◌else◌, Bool, true,
  false, List, [], ◌∷◌, ◌++◌, length, take, Outcome, ok, append-nil, append_assoc, fault, u16,
  write_at, le_bytes, slice, write_next, lt→ltb, le→not-ltb, le→leb, write_at_fault, u16_of_lt,
  not-leb_of_lt,
}
use gamnet.Buffer.{Buffer, clear, available}
use gamnet.Buffer.Valid.{IsValid, contents, clear-IsValid, available_of_valid}
use gamnet.Packet.{Header, header_size, write, fill, sized, store_header}

-- The bytes of a message on the wire.
abbrev pub frame : ℕ → ℕ → List ℕ → List ℕ
frame seq id body =
    le_bytes 2 (length body + header_size) ++ (le_bytes 4 seq ++ (le_bytes 4 id ++ body))

pub length-frame : (seq id : ℕ) (body : List ℕ) → length (frame seq id body) ≡ length body + 10
length-frame seq id body = omega arith

store_header_lem :
    (mem : List ℕ) (total seq id : ℕ)
    → 10 ≤ length mem
    → (mem' : List ℕ) × (store_header mem total seq id ≡ ok mem')
      × (length mem' ≡ length mem)
      × (take 10 mem' ≡ le_bytes 2 total ++ (le_bytes 4 seq ++ le_bytes 4 id))
unfolding store_header
store_header_lem mem total seq id h =
    let (m, e, lm, tm) = write_next mem [] (le_bytes 2 total) refl (omega arith) in
    let (n, f, ln, tn) = write_next m (le_bytes 2 total) (le_bytes 4 seq) tm (omega arith) in
    let (o, g, lo, to) =
      write_next n (le_bytes 2 total ++ le_bytes 4 seq) (le_bytes 4 id) tn (omega arith) in
    (o, rw (e, f, g) refl, omega arith, to)

-- What a successful `Write` leaves: a valid packet with exactly the frame unread.
pub record Wrote (o : Outcome (Buffer × Bool)) (cap : ℕ) (bytes : List ℕ) : Type 0 where
  pub after : Buffer
  pub returns : o ≡ ok (after, true)
  pub valid : IsValid after
  pub same_size : after.buf_size ≡ cap
  pub at_start : after.read_cursor ≡ 0
  pub holds : contents after ≡ bytes

store_body_lem :
    (mem head body : List ℕ)
    → length head ≡ header_size
    → take 10 mem ≡ head
    → length body + 10 ≤ length mem
    → (mem' : List ℕ) × ((if ltb 0 (length body) then write_at mem header_size body else ok mem)
        ≡ ok mem')
      × (length mem' ≡ length mem)
      × (take (length body + 10) mem' ≡ head ++ body)
store_body_lem mem head [] k e h = (mem, refl, refl, e ∙ sym (append-nil head))
store_body_lem mem head (x ∷ xs) k e h =
    let (n, f, ln, tn) = write_next mem head (x ∷ xs) (ap (λ j. take j mem) k ∙ e) (omega arith) in
    (
      n,
      rw (lt→ltb 0 (length (x ∷ xs)) (omega arith)) (ap (λ j. write_at mem j (x ∷ xs)) (sym k) ∙ f),
      ln,
      ap (λ j. take j n) (omega arith) ∙ tn,
    )

fill_lem :
    (p : Buffer) (seq id : ℕ) (body : List ℕ)
    → IsValid p
    → p.read_cursor ≡ 0
    → p.write_cursor ≡ 0
    → length body + 10 < p.buf_size
    → p.buf_size < 2 ^ 16
    → Wrote (fill p (length body + header_size) seq id body) p.buf_size (frame seq id body)
unfolding fill sized
fill_lem p seq id body v r0 w0 fits small =
    let (m, e, lm, tm) = store_header_lem p.mem (length body + header_size) seq id (omega arith) in
    let head : List ℕ =
      le_bytes 2 (length body + header_size) ++ (le_bytes 4 seq ++ le_bytes 4 id) in
    let (n, f, ln, tn) = store_body_lem m head body refl tm (omega arith) in
    record {
      after = record p { mem = n; write_cursor = length body + header_size };
      returns =
          rw
            (
              le→not-ltb (u16 (available p)) (length body + header_size)
                  (omega (arith, available_of_valid v)),
              e,
              f,
            )
            (ap (λ k. ok (record p { mem = n; write_cursor = k }, true)) (omega arith));
      valid = omega arith;
      same_size = refl;
      at_start = r0;
      holds =
          front n p.read_cursor (length body + header_size) r0
          ∙ tn
          ∙ append_assoc (le_bytes 2 (length body + header_size)) (le_bytes 4 seq ++ le_bytes 4 id)
              body;
    }
  where
    front : (mem : List ℕ) (r w : ℕ) → r ≡ 0 → slice mem r (w - r) ≡ take w mem
    front mem r w e = rw e (ap (slice mem 0) (omega arith))

-- `Write` of a body that fits: it answers true, and the packet holds exactly the frame.
pub write-Wrote :
    (p : Buffer) (h : Header) (body : List ℕ)
    → IsValid p
    → length body + 10 < p.buf_size
    → p.buf_size < 2 ^ 16
    → Wrote (write p h body) p.buf_size (frame h.msg_seq h.msg_id body)
unfolding write clear
write-Wrote p h body v fits small =
    rw
      (u16_of_lt (length body + 10) (omega arith), not-leb_of_lt p.buf_size (length body + 10) fits)
      (fill_lem (clear p) h.msg_seq h.msg_id body (clear-IsValid v) refl refl fits small)

-- `Write` refuses a body that reaches the capacity, as long as the 16-bit total does not wrap.
pub write_refused :
    (p : Buffer) (h : Header) (body : List ℕ)
    → p.buf_size ≤ length body + 10
    → length body + 10 < 2 ^ 16
    → write p h body ≡ (ok (clear p, false))
unfolding write clear
write_refused p h body full fits =
    rw (u16_of_lt (length body + 10) fits, le→leb p.buf_size (length body + 10) full)

-- A body of 65526 bytes or more makes the 16-bit total wrap: unless the wrapped total is itself
-- as large as the packet, it passes the guard and the body is copied past the end of the block.
pub write_overruns :
    (p : Buffer) (h : Header) (body : List ℕ)
    → IsValid p
    → p.buf_size < 2 ^ 16
    → 10 ≤ p.buf_size
    → 2 ^ 16 ≤ length body + 10
    → (length body + 10) % 2 ^ 16 < p.buf_size
    → write p h body ≡ fault
unfolding write clear fill sized
write_overruns p h body v small room over wraps =
    let q = clear p in
    let total = u16 (length body + 10) in
    let (m, e, lm, tm) = store_header_lem p.mem total h.msg_seq h.msg_id (omega arith) in
    rw
      (
        not-leb_of_lt p.buf_size total wraps,
        le→not-ltb (u16 (available (clear p))) total
            (omega (arith, available_of_valid (clear-IsValid v))),
        e,
        lt→ltb 0 (length body) (omega arith),
        write_at_fault m header_size body (omega arith),
      )
      refl
