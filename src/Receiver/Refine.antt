-- ===== src/Receiver/Refine.antt =====
-- The receive loop over the buffer does what the byte stream says.
use gamnet.Prelude.{
  ℕ, ◌+◌, ◌-◌, ◌≤◌, ◌≡◌, refl, sym, ap, ◌∙◌, ◌⊎◌, inl, inr, arith, ltb, if◌then◌else◌, List, [],
  ◌∷◌, ◌++◌, Option, some, length, take, drop, Outcome, ok, length-append, u16, u16_of_lt, of_le,
  slice, lt→ltb, le→not-ltb, le→leb, not-leb_of_lt, Bool-cases, take-append, drop-append_all,
  drop-append, length-drop, take-append_all, not-ltb→le,
}
use gamnet.Buffer.{Buffer, size, append, remove, max_size, clear}
use gamnet.Buffer.Valid.{contents, length-contents, size_of_valid, remove-IsValid}
use gamnet.Buffer.Fifo.{Holds, append-Holds, append_keeps_start}
use gamnet.Buffer.Resizing.{contents-remove, remove_all, read_bytes_lem}
use gamnet.Packet.{header_size}
use gamnet.Receiver.{
  Session, overflow, offer, move_rest, stops, same, used, Round, finish, consume, round,
}
use gamnet.Receiver.Framing.{
  length_field, seq_field, IsMessage, IsPartial, IsBroken, seen, delivered, overflows,
}
use gamnet.Receiver.Unread.{
  IsFresh, Ready, size_ready, length_ready, capacity_ready, slice_ready, get_length_ready,
  get_seq_ready,
}

-- A round on a whole message: it is dispatched if it is new, and taken from the packet.
pub record Stepped (s : Session) (f more : List ℕ) (o : Outcome Round) : Type 0 where
  pub result : Round
  pub returns : o ≡ ok result
  pub ready : Ready result.session.recv_packet more
  pub goes_on : (result.next ≡ same) ⊎ (result.next ≡ used)
  pub seqs :
      result.session.msg_seq ≡ (if ltb s.msg_seq (seq_field f) then seq_field f else s.msg_seq)
  pub outs : delivered result.events ≡ (if ltb s.msg_seq (seq_field f) then f ∷ [] else [])
  pub calm : overflows result.events ≡ 0
  pub time : result.session.expire_time ≡ s.expire_time

pub field_append :
    (f more : List ℕ) (off n : ℕ) → off + n ≤ length f → slice (f ++ more) off n ≡ slice f off n
field_append f more off n h =
    rw (drop-append off f more (omega arith))
      (take-append n (drop off f) more (omega (arith, length-drop off f)))

-- Enough packets: the rest of a message goes to a fresh one.
abbrev pub Grants : Option Buffer → List ℕ → Type 0
Grants created more = (more ≡ []) ⊎ ((q : Buffer) × (created ≡ some q) × IsFresh q)

offer_lem :
    (s : Session) (f more : List ℕ)
    → IsMessage f
    → Ready s.recv_packet (f ++ more)
    → (delivered (offer s (seq_field f)).1 ≡ (if ltb s.msg_seq (seq_field f) then f ∷ [] else []))
      × (overflows (offer s (seq_field f)).1 ≡ 0)
      × ((offer s (seq_field f)).0.msg_seq
          ≡ (if ltb s.msg_seq (seq_field f) then seq_field f else s.msg_seq))
      × ((offer s (seq_field f)).0.expire_time ≡ s.expire_time)
unfolding offer
offer_lem s f more m r = elim (Bool-cases (ltb s.msg_seq (seq_field f))) [
  | inl new ↦ rw new (ap (λ b. b ∷ []) whole, refl, refl, refl)
  | inr old ↦ rw old (refl, refl, refl, refl)
]
  where
    whole : seen s.recv_packet ≡ f
    whole =
        ap (λ n. take n (contents s.recv_packet))
          (ap of_le (
              slice_ready r 0 2 (omega (arith, length-append f more))
              ∙ field_append f more 0 2 (omega arith))
            ∙ m.counted)
        ∙ ap (take (length f)) r.holds
        ∙ take-append_all f more

-- The packet behind a message that has been taken from it.
removed_holds :
    {p : Buffer} (f more : List ℕ)
    → IsMessage f
    → Ready p (f ++ more)
    → contents (remove p (length f)) ≡ more
removed_holds {p} f more m r =
    contents-remove p (length f) r.valid
    ∙ ap (λ b. drop (u16 (length f)) b) r.holds
    ∙ ap (λ n. drop n (f ++ more)) (u16_of_lt (length f) (omega (arith, m.bounded)))
    ∙ drop-append_all f more

pub removed_empty :
    {p : Buffer} (f : List ℕ) → IsMessage f → Ready p (f ++ []) → remove p (length f) ≡ clear p
removed_empty {p} f m r =
    remove_all p (length f) r.valid
      (omega (arith, length-contents r.valid, ap length r.holds, length-append f [], m.bounded))

fresh_empty : {q : Buffer} → IsFresh q → contents q ≡ []
fresh_empty {q} fr =
    let none_left : q.write_cursor - q.read_cursor ≡ 0 = omega (arith, fr.written) in
    ap (slice q.mem q.read_cursor) none_left

pub size_removed :
    {p : Buffer} (f more : List ℕ)
    → IsMessage f
    → Ready p (f ++ more)
    → size (remove p (length f)) ≡ length more
size_removed {p} f more m r =
    let v = remove-IsValid p (length f) r.valid in
    size_of_valid v ∙ sym (length-contents v) ∙ ap length (removed_holds f more m r)

pub clear-Ready : {p : Buffer} {bytes : List ℕ} → Ready p bytes → Ready (clear p) []
unfolding clear
clear-Ready r = record {
  valid = omega (arith, r.valid.block, r.valid.small);
  full_size = r.full_size;
  start = refl;
  holds = refl;
}

pub move_rest-Ready :
    (p q : Buffer) (f more : List ℕ)
    → IsMessage f
    → Ready p (f ++ more)
    → IsFresh q
    → (p' : Buffer) × (move_rest (some q) (remove p (length f)) ≡ ok (some p')) × Ready p' more
unfolding move_rest
move_rest-Ready p q f more m r fr =
    let v = remove-IsValid p (length f) r.valid in
    let h : Holds q q.buf_size (contents q ++ more) (append q more) =
      append-Holds q more fr.valid
        (omega (arith, length-append f more, length_ready r, fr.full_size, fr.written))
        (inl (
          omega
            (arith, length-append f more, length_ready r, m.header, fr.full_size, fr.written))) in
    (
      h.after,
      rw (read_bytes_lem (remove p (length f)) v, removed_holds f more m r, h.returns),
      record {
        valid = h.valid;
        full_size = h.same_size ∙ fr.full_size;
        start = append_keeps_start q h.after more fr.start h.returns;
        holds = h.holds ∙ ap (λ b. b ++ more) (fresh_empty fr);
      },
    )

finish-Stepped :
    (created : Option Buffer) (s : Session) (f more : List ℕ)
    → IsMessage f
    → Ready s.recv_packet (f ++ more)
    → Grants created more
    → Stepped s f more (
        finish created
          (offer s (seq_field f)).0
          (offer s (seq_field f)).1
          (remove s.recv_packet (length f)))
unfolding finish
finish-Stepped created s f [] m r g =
    let (outs, calm, seqs, time) = offer_lem s f [] m r in
    record {
      result = record {
        session = record (offer s (seq_field f)).0 {
          recv_packet = remove s.recv_packet (length f);
        };
        events = (offer s (seq_field f)).1;
        next = same;
      };
      returns = rw (size_removed f [] m r);
      ready = rw (removed_empty f m r) (clear-Ready r);
      goes_on = inl refl;
      seqs = seqs;
      outs = outs;
      calm = calm;
      time = time;
    }
finish-Stepped created s f (x ∷ xs) m r (inl e) = cc
finish-Stepped created s f (x ∷ xs) m r (inr (q, e, fr)) =
    let (outs, calm, seqs, time) = offer_lem s f (x ∷ xs) m r in
    let moved = move_rest-Ready s.recv_packet q f (x ∷ xs) m r fr in
    record {
      result = record {
        session = record (offer s (seq_field f)).0 { recv_packet = moved.0 };
        events = (offer s (seq_field f)).1;
        next = used;
      };
      returns =
          rw (size_removed f (x ∷ xs) m r, lt→ltb 0 (length (x ∷ xs)) (omega arith), e, moved.1);
      ready = moved.2;
      goes_on = inr refl;
      seqs = seqs;
      outs = outs;
      calm = calm;
      time = time;
    }

-- One round of the loop on a whole message.
pub round-Stepped :
    (created : Option Buffer) (s : Session) (f more : List ℕ)
    → IsMessage f
    → Ready s.recv_packet (f ++ more)
    → Grants created more
    → Stepped s f more (round created s)
unfolding round consume
round-Stepped created s f more m r g =
    let field : length_field (f ++ more) ≡ length f =
      ap of_le (field_append f more 0 2 (omega (arith, m.header))) ∙ m.counted in
    let enough : 10 ≤ length (f ++ more) = omega (arith, length-append f more, m.header) in
    rw
      (
        size_ready r,
        le→not-ltb (length (f ++ more)) header_size enough,
        get_length_ready r enough,
        field,
        le→not-ltb (length f) header_size m.header,
        capacity_ready r,
        not-leb_of_lt max_size (length f) m.bounded,
        u16_of_lt (length (f ++ more)) (omega (arith, length_ready r)),
        le→not-ltb (length (f ++ more)) (length f) (omega (arith, length-append f more)),
        get_seq_ready r enough
            ∙ ap (λ b. ok (of_le b)) (field_append f more 2 4 (omega (arith, m.header))),
      )
      (finish-Stepped created s f more m r g)

-- A round on the beginning of a message ends the loop and changes nothing.
pub round_partial :
    (created : Option Buffer) (s : Session) (t : List ℕ)
    → IsPartial t
    → Ready s.recv_packet t
    → round created s ≡ ok (record { session = s; events = []; next = stops })
unfolding round
round_partial created s t (inl short) r = rw (size_ready r, lt→ltb (length t) header_size short)
round_partial created s t (inr (field, long, bounded)) r =
    elim (Bool-cases (ltb (length t) header_size)) [
      | inl short ↦ rw (size_ready r, short)
      | inr whole ↦
          let enough : 10 ≤ length t = not-ltb→le (length t) header_size whole in
          rw (
            size_ready r,
            whole,
            get_length_ready r enough,
            le→not-ltb (length_field t) header_size field,
            capacity_ready r,
            not-leb_of_lt max_size (length_field t) bounded,
            u16_of_lt (length t) (omega arith),
            lt→ltb (length t) (length_field t) long,
          )
    ]

-- A round on a broken header ends the loop with an error.
pub round_broken :
    (created : Option Buffer) (s : Session) (t : List ℕ)
    → IsBroken t
    → Ready s.recv_packet t
    → round created s ≡ ok (record { session = s; events = overflow ∷ []; next = stops })
unfolding round
round_broken created s t (enough, inl low) r = rw (
  size_ready r,
  le→not-ltb (length t) header_size enough,
  get_length_ready r enough,
  lt→ltb (length_field t) header_size low,
)
round_broken created s t (enough, inr high) r =
    elim (Bool-cases (ltb (length_field t) header_size)) [
      | inl low ↦
          rw
            (size_ready r, le→not-ltb (length t) header_size enough, get_length_ready r enough, low)
      | inr ok_low ↦ rw (
        size_ready r,
        le→not-ltb (length t) header_size enough,
        get_length_ready r enough,
        ok_low,
        capacity_ready r,
        le→leb max_size (length_field t) high,
      )
    ]
