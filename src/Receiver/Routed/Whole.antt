-- ===== src/Receiver/Routed/Whole.antt =====
-- Between routers every message arrives, whatever its number.
use gamnet.Prelude.{
  ℕ, zero, suc, ◌+◌, ◌≤◌, ◌<◌, ◌≡◌, refl, ap, ◌∙◌, ◌⊎◌, inl, inr, arith, List, [], ◌∷◌, ◌++◌,
  Option, length, take, Outcome, ok, append_assoc, length-append, le→not-ltb, lt→ltb, not-leb_of_lt,
  u16_of_lt, of_le, take-append_all, ltb, Bool-cases, not-ltb→le, ◌>>=◌,
}
use mathlib.Core.Path.{ap₂}
use gamnet.Buffer.{Buffer, size, remove, clear, max_size}
use gamnet.Buffer.Valid.{contents}
use gamnet.Packet.{header_size}
use gamnet.Receiver.{Session, Event, received, same, used, stops, Round, after}
use gamnet.Receiver.Framing.{
  length_field, IsMessage, IsPartial, flatten, AllMessages, seen, delivered, overflows,
}
use gamnet.Receiver.Unread.{
  Ready, size_ready, length_ready, capacity_ready, slice_ready, get_length_ready,
}
use gamnet.Receiver.Refine.{
  Grants, field_append, size_removed, removed_empty, move_rest-Ready, clear-Ready,
}
use gamnet.Receiver.Loop.{Supply, delivered-append, overflows-append, gathered}
use gamnet.Receiver.Routed.{consume, round, loop, on_recv_msg}

-- A round on a whole message
record Taken (f more : List ℕ) (o : Outcome Round) : Type 0 where
  result : Round
  returns : o ≡ ok result
  ready : Ready result.session.recv_packet more
  goes_on : (result.next ≡ same) ⊎ (result.next ≡ used)
  outs : delivered result.events ≡ f ∷ []
  calm : overflows result.events ≡ 0

whole : (p : Buffer) (f more : List ℕ) → IsMessage f → Ready p (f ++ more) → seen p ≡ f
whole p f more m r =
    ap (λ n. take n (contents p))
      (ap of_le (
          slice_ready r 0 2 (omega (arith, length-append f more, m.header))
          ∙ field_append f more 0 2 (omega (arith, m.header)))
        ∙ m.counted)
    ∙ ap (take (length f)) r.holds
    ∙ take-append_all f more

consume-Taken :
    (created : Option Buffer) (s : Session) (f more : List ℕ)
    → IsMessage f
    → Ready s.recv_packet (f ++ more)
    → Grants created more
    → Taken f more (consume created s (length f))
unfolding consume
consume-Taken created s f [] m r g = record {
  result = record {
    session = record s { recv_packet = clear (remove s.recv_packet (length f)) };
    events = received s.recv_packet ∷ [];
    next = same;
  };
  returns = rw (size_removed f [] m r);
  ready = rw (removed_empty f m r) (clear-Ready (clear-Ready r));
  goes_on = inl refl;
  outs = ap (λ b. b ∷ []) (whole s.recv_packet f [] m r);
  calm = refl;
}
consume-Taken created s f (x ∷ xs) m r (inl e) = cc
consume-Taken created s f (x ∷ xs) m r (inr (q, e, fr)) =
    let moved = move_rest-Ready s.recv_packet q f (x ∷ xs) m r fr in
    record {
      result = record {
        session = record s { recv_packet = moved.0 };
        events = received s.recv_packet ∷ [];
        next = used;
      };
      returns =
          rw (size_removed f (x ∷ xs) m r, lt→ltb 0 (length (x ∷ xs)) (omega arith), e, moved.1);
      ready = moved.2;
      goes_on = inr refl;
      outs = ap (λ b. b ∷ []) (whole s.recv_packet f (x ∷ xs) m r);
      calm = refl;
    }

round-Taken :
    (created : Option Buffer) (s : Session) (f more : List ℕ)
    → IsMessage f
    → Ready s.recv_packet (f ++ more)
    → Grants created more
    → Taken f more (round created s)
unfolding round
round-Taken created s f more m r g =
    let field : length_field (f ++ more) ≡ length f =
      ap of_le (field_append f more 0 2 (omega (arith, m.header))) ∙ m.counted in
    let enough : 10 ≤ length (f ++ more) = omega (arith, length-append f more, m.header) in
    rw
      (
        size_ready r,
        le→not-ltb (length (f ++ more)) header_size enough,
        get_length_ready r enough,
        field,
        le→not-ltb (length f) header_size m.header,
        capacity_ready r,
        not-leb_of_lt max_size (length f) m.bounded,
        u16_of_lt (length (f ++ more)) (omega (arith, length_ready r)),
        le→not-ltb (length (f ++ more)) (length f) (omega (arith, length-append f more)),
      )
      (consume-Taken created s f more m r g)

round_partial :
    (created : Option Buffer) (s : Session) (t : List ℕ)
    → IsPartial t
    → Ready s.recv_packet t
    → round created s ≡ ok (record { session = s; events = []; next = stops })
unfolding round
round_partial created s t (inl short) r = rw (size_ready r, lt→ltb (length t) header_size short)
round_partial created s t (inr (field, long, bounded)) r =
    elim (Bool-cases (ltb (length t) header_size)) [
      | inl short ↦ rw (size_ready r, short)
      | inr enough ↦ rw (
        size_ready r,
        enough,
        get_length_ready r (not-ltb→le (length t) header_size enough),
        le→not-ltb (length_field t) header_size field,
        capacity_ready r,
        not-leb_of_lt max_size (length_field t) bounded,
        u16_of_lt (length t) (omega arith),
        lt→ltb (length t) (length_field t) long,
      )
    ]

-- These messages went out, without an error, and `t` is what stays unread.
pub record Routed (fs : List (List ℕ)) (t : List ℕ) (o : Outcome (Session × List Event))
    : Type 0 where
  pub session : Session
  pub events : List Event
  pub returns : o ≡ ok (session, events)
  pub ready : Ready session.recv_packet t
  pub outs : delivered events ≡ fs
  pub errors : overflows events ≡ 0

after-Routed :
    (f : List ℕ) (fs : List (List ℕ)) (t : List ℕ) {more : List ℕ} {o : Outcome Round}
    {o' : Outcome (Session × List Event)} (st : Taken f more o)
    → Routed fs t o'
    → Routed (f ∷ fs) t (after st.result.events o')
after-Routed f fs t st r = record {
  session = r.session;
  events = st.result.events ++ r.events;
  returns = rw r.returns;
  ready = r.ready;
  outs = delivered-append st.result.events r.events ∙ ap₂ ◌++◌ st.outs r.outs;
  errors = omega (arith, overflows-append st.result.events r.events, st.calm, r.errors);
}

module _ (create : ℕ → Option Buffer) (supply : Supply create) where
  loop-Routed :
      (fs : List (List ℕ)) (t : List ℕ) (fuel k : ℕ) (s : Session)
      → AllMessages fs
      → IsPartial t
      → Ready s.recv_packet (flatten fs ++ t)
      → length (flatten fs ++ t) < fuel
      → Routed fs t (loop create fuel k s)
  unfolding loop
  loop-Routed fs t zero k s all p r h = absurd (omega arith)
  loop-Routed [] t (suc fuel) k s all p r h = record {
    session = s;
    events = [];
    returns = rw (round_partial (create k) s t p r);
    ready = r;
    outs = refl;
    errors = refl;
  }
  loop-Routed (f ∷ fs) t (suc fuel) k s (m, all) p r h =
      let st =
        round-Taken (create k) s f (flatten fs ++ t) m (rw (append_assoc f (flatten fs) t) at r)
          (inr (supply k)) in
      let less : length (flatten fs ++ t) < fuel = omega (
        arith,
        length-append f (flatten fs ++ t),
        ap length (append_assoc f (flatten fs) t),
        m.header,
      ) in
      elim st.goes_on [
        | inl e ↦
            rw (st.returns, ◌>>=◌, e)
              (after-Routed f fs t st
                (loop-Routed fs t fuel k st.result.session all p st.ready less))
        | inr e ↦
            rw (st.returns, ◌>>=◌, e)
              (after-Routed f fs t st
                (loop-Routed fs t fuel (suc k) st.result.session all p st.ready less))
      ]

  pub on_recv_msg-Routed :
      (k : ℕ) (s : Session) (unread bytes : List ℕ) (fs : List (List ℕ)) (t : List ℕ)
      → Ready s.recv_packet unread
      → length unread + length bytes ≤ max_size
      → unread ++ bytes ≡ flatten fs ++ t
      → AllMessages fs
      → IsPartial t
      → Routed fs t (on_recv_msg create k s bytes)
  unfolding on_recv_msg
  on_recv_msg-Routed k s unread bytes fs t r fits e all p =
      let (p', f, r') = gathered create supply s.recv_packet unread bytes r fits in
      let l =
        loop-Routed fs t (suc (size p')) k (record s { recv_packet = p' }) all p (rw e at r')
          (omega (arith, size_ready r', ap length e)) in
      record {
        session = l.session;
        events = l.events;
        returns = rw f l.returns;
        ready = l.ready;
        outs = l.outs;
        errors = l.errors;
      }
