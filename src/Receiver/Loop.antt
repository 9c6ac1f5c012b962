-- ===== src/Receiver/Loop.antt =====
-- The whole receive loop, and `OnRecvMsg` on one read of the link.
use gamnet.Prelude.{
  ℕ, zero, suc, ◌+◌, ◌≤◌, ◌<◌, ◌≡◌, refl, ap, ◌∙◌, inl, inr, arith, List, [], ◌∷◌, ◌++◌, Option,
  some, length, Outcome, ok, append_assoc, length-append, throw, buffer_overflow_error, ◌>>=◌,
}
use gamnet.Buffer.{Buffer, size, append, max_size}
use gamnet.Buffer.Valid.{contents, length-contents}
use gamnet.Buffer.Fifo.{Holds, append-Holds, append_keeps_start, append_overflow}
use gamnet.Receiver.{Session, Event, received, overflow, Round, after, loop, on_recv_msg}
use gamnet.Receiver.Framing.{
  IsMessage, IsPartial, IsBroken, flatten, AllMessages, fresh, last_seq, seen, delivered, overflows,
}
use gamnet.Receiver.Unread.{IsFresh, Ready, size_ready}
use gamnet.Receiver.Refine.{Stepped, Grants, round-Stepped, round_partial, round_broken}

-- The pool always has a packet.
abbrev pub Supply : (ℕ → Option Buffer) → Type 0
Supply create = (k : ℕ) → (q : Buffer) × (create k ≡ some q) × IsFresh q

-- The loop over the messages `fs` and the tail `t`: the new messages went out, in order, followed
-- by `bad` errors, and `t` is what stays unread.
pub record Received (now : ℕ) (s : Session) (fs : List (List ℕ)) (t : List ℕ) (bad : ℕ)
    (o : Outcome (Session × List Event)) : Type 0 where
  pub session : Session
  pub events : List Event
  pub returns : o ≡ ok (session, events)
  pub ready : Ready session.recv_packet t
  pub outs : delivered events ≡ fresh s.msg_seq fs
  pub errors : overflows events ≡ bad
  pub seqs : session.msg_seq ≡ last_seq s.msg_seq fs
  pub time : session.expire_time ≡ now

pub delivered-append : (xs ys : List Event) → delivered (xs ++ ys) ≡ delivered xs ++ delivered ys
delivered-append [] ys = refl
delivered-append (received p ∷ xs) ys = ap (◌∷◌ (seen p)) (delivered-append xs ys)
delivered-append (overflow ∷ xs) ys = delivered-append xs ys

pub overflows-append : (xs ys : List Event) → overflows (xs ++ ys) ≡ overflows xs + overflows ys
overflows-append [] ys = omega arith
overflows-append (received p ∷ xs) ys = overflows-append xs ys
overflows-append (overflow ∷ xs) ys = omega (arith, overflows-append xs ys)

-- A round on one message, then the loop on the rest.
after-Received :
    (s : Session) (f : List ℕ) (fs : List (List ℕ)) (t : List ℕ) (bad : ℕ) {o : Outcome Round}
    {o' : Outcome (Session × List Event)} (st : Stepped s f (flatten fs ++ t) o)
    → Received st.result.session.expire_time st.result.session fs t bad o'
    → Received s.expire_time s (f ∷ fs) t bad (after st.result.events o')
after-Received s f fs t bad st r = record {
  session = r.session;
  events = st.result.events ++ r.events;
  returns = rw r.returns;
  ready = r.ready;
  outs = delivered-append st.result.events r.events ∙ both;
  errors = omega (arith, overflows-append st.result.events r.events, st.calm, r.errors);
  seqs = r.seqs ∙ lasts;
  time = r.time ∙ st.time;
}
  where
    both : delivered st.result.events ++ delivered r.events ≡ fresh s.msg_seq (f ∷ fs)
    both = ground arith

    lasts : last_seq st.result.session.msg_seq fs ≡ last_seq s.msg_seq (f ∷ fs)
    lasts = ground arith

module _ (create : ℕ → Option Buffer) (supply : Supply create) where
  grants : (k : ℕ) (more : List ℕ) → Grants (create k) more
  grants k more = inr (supply k)

  -- One turn of the loop: a round on a whole message, then the loop with less fuel.
  loop_step :
      (f : List ℕ) (fs : List (List ℕ)) (t : List ℕ) (bad fuel k : ℕ) (s : Session)
      → IsMessage f
      → Ready s.recv_packet (f ++ (flatten fs ++ t))
      → ((k' : ℕ) (s' : Session)
          → Ready s'.recv_packet (flatten fs ++ t)
          → Received s'.expire_time s' fs t bad (loop create fuel k' s'))
      → Received s.expire_time s (f ∷ fs) t bad (loop create (suc fuel) k s)
  unfolding loop
  loop_step f fs t bad fuel k s m r rest =
      let st = round-Stepped (create k) s f (flatten fs ++ t) m r (grants k (flatten fs ++ t)) in
      elim st.goes_on [
        | inl e ↦
            rw (st.returns, ◌>>=◌, e)
              (after-Received s f fs t bad st (rest k st.result.session st.ready))
        | inr e ↦
            rw (st.returns, ◌>>=◌, e)
              (after-Received s f fs t bad st (rest (suc k) st.result.session st.ready))
      ]

  loop-Received :
      (fs : List (List ℕ)) (t : List ℕ) (fuel k : ℕ) (s : Session)
      → AllMessages fs
      → IsPartial t
      → Ready s.recv_packet (flatten fs ++ t)
      → length (flatten fs ++ t) < fuel
      → Received s.expire_time s fs t 0 (loop create fuel k s)
  unfolding loop
  loop-Received fs t zero k s all p r h = absurd (omega arith)
  loop-Received [] t (suc fuel) k s all p r h = record {
    session = s;
    events = [];
    returns = rw (round_partial (create k) s t p r);
    ready = r;
    outs = refl;
    errors = refl;
    seqs = refl;
    time = refl;
  }
  loop-Received (f ∷ fs) t (suc fuel) k s (m, all) p r h =
      loop_step f fs t 0 fuel k s m (rw (append_assoc f (flatten fs) t) at r) λ k' s' r'.
        loop-Received fs t fuel k' s' all p r' (
          omega (
            arith,
            length-append f (flatten fs ++ t),
            ap length (append_assoc f (flatten fs) t),
            m.header,
          ))

  -- The same where the stream breaks: the loop ends with one error.
  loop_broken :
      (fs : List (List ℕ)) (t : List ℕ) (fuel k : ℕ) (s : Session)
      → AllMessages fs
      → IsBroken t
      → Ready s.recv_packet (flatten fs ++ t)
      → length (flatten fs ++ t) < fuel
      → Received s.expire_time s fs t 1 (loop create fuel k s)
  unfolding loop
  loop_broken fs t zero k s all p r h = absurd (omega arith)
  loop_broken [] t (suc fuel) k s all p r h = record {
    session = s;
    events = overflow ∷ [];
    returns = rw (round_broken (create k) s t p r);
    ready = r;
    outs = refl;
    errors = refl;
    seqs = refl;
    time = refl;
  }
  loop_broken (f ∷ fs) t (suc fuel) k s (m, all) p r h =
      loop_step f fs t 1 fuel k s m (rw (append_assoc f (flatten fs) t) at r) λ k' s' r'.
        loop_broken fs t fuel k' s' all p r' (
          omega (
            arith,
            length-append f (flatten fs ++ t),
            ap length (append_assoc f (flatten fs) t),
            m.header,
          ))

  -- `Append` of a read that fits.
  pub gathered :
      (p : Buffer) (unread bytes : List ℕ)
      → Ready p unread
      → length unread + length bytes ≤ max_size
      → (p' : Buffer) × (append p bytes ≡ ok p') × Ready p' (unread ++ bytes)
  gathered p unread bytes r h =
      let g : Holds p p.buf_size (contents p ++ bytes) (append p bytes) =
        append-Holds p bytes r.valid
          (omega (arith, length-contents r.valid, ap length r.holds, r.full_size))
          (inl (omega (arith, length-contents r.valid, ap length r.holds, r.full_size, r.start))) in
      (
        g.after,
        g.returns,
        record {
          valid = g.valid;
          full_size = g.same_size ∙ r.full_size;
          start = append_keeps_start p g.after bytes r.start g.returns;
          holds = g.holds ∙ ap (λ b. b ++ bytes) r.holds;
        },
      )

  -- One read of the link, when the bytes at hand are whole messages and the beginning of another:
  -- the new messages go to the dispatcher in order, the beginning stays, and the idle clock is set.
  pub on_recv_msg-Received :
      (k now : ℕ) (s : Session) (unread bytes : List ℕ) (fs : List (List ℕ)) (t : List ℕ)
      → Ready s.recv_packet unread
      → length unread + length bytes ≤ max_size
      → unread ++ bytes ≡ flatten fs ++ t
      → AllMessages fs
      → IsPartial t
      → Received now s fs t 0 (on_recv_msg create k now s bytes)
  unfolding on_recv_msg
  on_recv_msg-Received k now s unread bytes fs t r fits e all p =
      let (p', f, r') = gathered s.recv_packet unread bytes r fits in
      let s' = record s { expire_time = now; recv_packet = p' } in
      let l =
        loop-Received fs t (suc (size p')) k s' all p (rw e at r')
          (omega (arith, size_ready r', ap length e)) in
      record {
        session = l.session;
        events = l.events;
        returns = rw f l.returns;
        ready = l.ready;
        outs = l.outs;
        errors = l.errors;
        seqs = l.seqs;
        time = l.time;
      }

  -- One read that brings a broken header: the messages before it go out, then the link gets one
  -- `OnError(EOVERFLOW)`.
  pub on_recv_msg_broken :
      (k now : ℕ) (s : Session) (unread bytes : List ℕ) (fs : List (List ℕ)) (t : List ℕ)
      → Ready s.recv_packet unread
      → length unread + length bytes ≤ max_size
      → unread ++ bytes ≡ flatten fs ++ t
      → AllMessages fs
      → IsBroken t
      → Received now s fs t 1 (on_recv_msg create k now s bytes)
  unfolding on_recv_msg
  on_recv_msg_broken k now s unread bytes fs t r fits e all p =
      let (p', f, r') = gathered s.recv_packet unread bytes r fits in
      let s' = record s { expire_time = now; recv_packet = p' } in
      let l =
        loop_broken fs t (suc (size p')) k s' all p (rw e at r')
          (omega (arith, size_ready r', ap length e)) in
      record {
        session = l.session;
        events = l.events;
        returns = rw f l.returns;
        ready = l.ready;
        outs = l.outs;
        errors = l.errors;
        seqs = l.seqs;
        time = l.time;
      }

  -- A read that does not fit behind the unread bytes makes the handler throw: no message of it is
  -- looked at, though each may be far smaller than the packet.
  pub on_recv_msg_overflow :
      (k now : ℕ) (s : Session) (unread bytes : List ℕ)
      → Ready s.recv_packet unread
      → max_size < length unread + length bytes
      → on_recv_msg create k now s bytes ≡ throw buffer_overflow_error
  unfolding on_recv_msg
  on_recv_msg_overflow k now s unread bytes r h = rw (
      append_overflow s.recv_packet bytes r.valid
        (omega (arith, length-contents r.valid, ap length r.holds, r.full_size)))
