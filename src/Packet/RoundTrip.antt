-- ===== src/Packet/RoundTrip.antt =====
-- The header getters and `Read` on a packet that begins with a frame.
use gamnet.Prelude.{
  ℕ, ◌+◌, ◌^◌, ◌≤◌, ◌<◌, ◌≡◌, refl, sym, ap, ◌∙◌, arith, true, List, [], ◌++◌, length, take, ok,
  append-nil, length-append, read_at, le_bytes, of_le-le_bytes, read_at_lem, slice_of_front, sub64,
}
use gamnet.Buffer.{Buffer}
use gamnet.Buffer.Valid.{IsValid, contents, contents_at_start, length-contents}
use gamnet.Packet.{Header, header_size, get_length, get_seq, get_id, write, read_body}
use gamnet.Packet.Laws.{frame, write-Wrote}

-- A packet whose unread bytes start at `data` with the frame, with more bytes behind it or not.
pub record Starts (p : Buffer) (seq id : ℕ) (body rest : List ℕ) : Type 0 where
  pub valid : IsValid p
  pub at_start : p.read_cursor ≡ 0
  pub bytes : contents p ≡ frame seq id body ++ rest
  pub seq_fits : seq < 2 ^ 32
  pub id_fits : id < 2 ^ 32
  pub body_fits : length body + 10 < 2 ^ 16

module _ {p : Buffer} {seq id : ℕ} {body rest : List ℕ} (s : Starts p seq id body rest) where
  field_at :
      (front field more : List ℕ) (off n : ℕ)
      → length front ≡ off
      → length field ≡ n
      → contents p ≡ front ++ (field ++ more)
      → read_at p.mem off n ≡ ok field
  field_at front field more off n ho hn e =
      rw (← ho, ← hn, read_at_lem p.mem (length front) (length field) inside)
        (ap ok (
          slice_of_front p.mem front field more p.write_cursor (at_zero ∙ e)
            (omega (arith, s.valid.within, s.valid.block))))
    where
      at_zero : take p.write_cursor p.mem ≡ contents p
      at_zero = sym (contents_at_start p s.at_start)

      inside : length front + length field ≤ length p.mem
      inside = omega (
        arith,
        ap length e,
        length-append front (field ++ more),
        length-append field more,
        length-contents s.valid,
        s.valid.within,
        s.valid.block,
      )

  -- The getters return the header fields.
  pub get_length_lem : get_length p ≡ ok (length body + 10)
  unfolding get_length
  get_length_lem =
      rw
        (field_at [] (le_bytes 2 (length body + header_size))
          (le_bytes 4 seq ++ (le_bytes 4 id ++ (body ++ rest))) 0 2 refl refl s.bytes)
        (ap ok (of_le-le_bytes 2 (length body + 10) s.body_fits))

  pub get_seq_lem : get_seq p ≡ ok seq
  unfolding get_seq
  get_seq_lem =
      rw
        (field_at (le_bytes 2 (length body + header_size)) (le_bytes 4 seq)
          (le_bytes 4 id ++ (body ++ rest)) 2 4 refl refl s.bytes)
        (ap ok (of_le-le_bytes 4 seq s.seq_fits))

  pub get_id_lem : get_id p ≡ ok id
  unfolding get_id
  get_id_lem =
      rw
        (field_at (le_bytes 2 (length body + header_size) ++ le_bytes 4 seq) (le_bytes 4 id)
          (body ++ rest) 6 4 refl refl s.bytes)
        (ap ok (of_le-le_bytes 4 id s.id_fits))

  pub read_body_lem : read_body p ≡ ok body
  unfolding read_body
  read_body_lem = rw get_length_lem (
      ap (λ o. read_at p.mem o (sub64 (length body + 10) header_size)) start
      ∙ ap (read_at p.mem 10) count
      ∙ field_at (le_bytes 2 (length body + header_size) ++ (le_bytes 4 seq ++ le_bytes 4 id)) body
          rest 10 (length body) refl refl s.bytes)
    where
      start : p.read_cursor + header_size ≡ 10
      start = omega (arith, s.at_start)

      count : sub64 (length body + 10) header_size ≡ length body
      count = omega (arith, s.body_fits)

-- What `Write` wrote is read back: the getters return the length, the sequence number and the id,
-- and `Read` hands the body to the message.
pub read-write :
    (p : Buffer) (h : Header) (body : List ℕ)
    → IsValid p
    → length body + 10 < p.buf_size
    → p.buf_size < 2 ^ 16
    → h.msg_seq < 2 ^ 32
    → h.msg_id < 2 ^ 32
    → (q : Buffer) × (write p h body ≡ ok (q, true))
      × (get_length q ≡ ok (length body + 10))
      × (get_seq q ≡ ok h.msg_seq)
      × (get_id q ≡ ok h.msg_id)
      × (read_body q ≡ ok body)
read-write p h body v fits small hs hi =
    let w = write-Wrote p h body v fits small in
    let s : Starts w.after h.msg_seq h.msg_id body [] = record {
      valid = w.valid;
      at_start = w.at_start;
      bytes = w.holds ∙ sym (append-nil (frame h.msg_seq h.msg_id body));
      seq_fits = hs;
      id_fits = hi;
      body_fits = omega arith;
    } in
    (w.after, w.returns, get_length_lem s, get_seq_lem s, get_id_lem s, read_body_lem s)
