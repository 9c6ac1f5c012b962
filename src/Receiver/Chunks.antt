-- ===== src/Receiver/Chunks.antt =====
-- How a stream of messages is cut into reads does not matter.
use gamnet.Prelude.{
  ℕ, suc, ◌+◌, ◌≤◌, ◌<◌, ◌≡◌, refl, sym, ap, ◌∙◌, inl, inr, arith, ltb, List, [], ◌∷◌, ◌++◌, Option,
  length, take, take-append, Outcome, ok, append-nil, append_assoc, length-append, Bool-cases,
  ltb→lt, not-ltb→le, of_le,
}
use mathlib.Core.Path.{ap₂}
use gamnet.Buffer.{Buffer, max_size}
use gamnet.Receiver.{Session, Event, on_recv_msg, run}
use gamnet.Receiver.Framing.{
  length_field, seq_field, IsMessage, IsPartial, flatten, AllMessages, fresh, last_seq, delivered,
  overflows,
}
use gamnet.Receiver.Unread.{Ready}
use gamnet.Receiver.Loop.{
  Supply, Received, on_recv_msg-Received, delivered-append, overflows-append,
}

abbrev pub bytes_of : List (ℕ × List ℕ) → List ℕ
bytes_of [] = []
bytes_of ((now, bytes) ∷ reads) = bytes ++ bytes_of reads

-- Every message has at most `m` bytes.
abbrev pub AllWithin : ℕ → List (List ℕ) → Type 0
AllWithin m [] = Unit {0}
AllWithin m (f ∷ fs) = (length f ≤ m) × AllWithin m fs

-- Every read leaves room for `m` bytes in the packet.
abbrev pub AllSmall : ℕ → List (ℕ × List ℕ) → Type 0
AllSmall m [] = Unit {0}
AllSmall m ((now, bytes) ∷ reads) = (m + length bytes ≤ max_size) × AllSmall m reads

-- A cut of the stream at any place: whole messages, the beginning of one, and what is to come.
pub record Cut (m : ℕ) (front later : List ℕ) (fs : List (List ℕ)) (t : List ℕ) : Type 0 where
  pub before : List (List ℕ)
  pub behind : List (List ℕ)
  pub rest : List ℕ
  pub parts : fs ≡ before ++ behind
  pub left : front ≡ flatten before ++ rest
  pub right : rest ++ later ≡ flatten behind ++ t
  pub begins : IsPartial rest
  pub short : length rest ≤ m
  pub all_before : AllMessages before
  pub all_behind : AllMessages behind
  pub within_behind : AllWithin m behind

strip_front :
    (f front later z : List ℕ)
    → length f ≤ length front
    → front ++ later ≡ f ++ z
    → (x : List ℕ) × (front ≡ f ++ x) × (x ++ later ≡ z)
strip_front [] front later z h e = (front, refl, e)
strip_front (a ∷ f) [] later z h e = absurd (omega arith)
strip_front (a ∷ f) (b ∷ front) later z h e =
    let (x, p, q) = strip_front f front later z (omega arith) (cc) in (x, cc (p), q)

-- A proper beginning of a message is partial.
IsPartial-of_message :
    (x later f z : List ℕ) → IsMessage f → length x < length f → x ++ later ≡ f ++ z → IsPartial x
IsPartial-of_message x later f z m h e = elim (Bool-cases (ltb (length x) 10)) [
  | inl short ↦ inl (ltb→lt (length x) 10 short)
  | inr long ↦
      let k : 10 ≤ length x = not-ltb→le (length x) 10 long in
      let field : length_field x ≡ length f =
        ap of_le (
          sym (take-append 2 x later (omega arith))
          ∙ ap (take 2) e
          ∙ take-append 2 f z (omega (arith, m.header)))
        ∙ m.counted in
      inr (omega (arith, m.header), omega arith, omega (arith, m.bounded))
]

IsPartial-of_IsPartial : (x later t : List ℕ) → IsPartial t → x ++ later ≡ t → IsPartial x
IsPartial-of_IsPartial x later t (inl short) e =
    inl (omega (arith, length-append x later, ap length e))
IsPartial-of_IsPartial x later t (inr (a, b, c)) e = elim (Bool-cases (ltb (length x) 10)) [
  | inl short ↦ inl (ltb→lt (length x) 10 short)
  | inr long ↦
      let k : 10 ≤ length x = not-ltb→le (length x) 10 long in
      let field : length_field x ≡ length_field t =
        ap of_le (sym (take-append 2 x later (omega arith)) ∙ ap (take 2) e) in
      inr (omega arith, omega (arith, length-append x later, ap length e), omega arith)
]

-- The beginning of a message holds no whole one.
pub partial_no_message : (f z : List ℕ) → IsMessage f → IsPartial (f ++ z) → ⊥
partial_no_message f z m (inl short) = omega (arith, length-append f z, m.header)
partial_no_message f z m (inr (a, b, c)) =
    omega
      (arith, length-append f z, ap of_le (take-append 2 f z (omega (arith, m.header))), m.counted)

pub cut :
    (m : ℕ) (front later : List ℕ) (fs : List (List ℕ)) (t : List ℕ)
    → AllMessages fs
    → AllWithin m fs
    → IsPartial t
    → length t ≤ m
    → front ++ later ≡ flatten fs ++ t
    → Cut m front later fs t
cut m front later [] t all within p h e = record {
  before = [];
  behind = [];
  rest = front;
  parts = refl;
  left = refl;
  right = e;
  begins = IsPartial-of_IsPartial front later t p e;
  short = omega (arith, length-append front later, ap length e);
  all_before = tt;
  all_behind = tt;
  within_behind = tt;
}
cut m front later (f ∷ fs) t (im, all) (w, within) p h e =
    elim (Bool-cases (ltb (length front) (length f))) [
      | inl inside ↦ record {
        before = [];
        behind = f ∷ fs;
        rest = front;
        parts = refl;
        left = refl;
        right = e;
        begins =
            IsPartial-of_message front later f (flatten fs ++ t) im
              (ltb→lt (length front) (length f) inside) (e ∙ append_assoc f (flatten fs) t);
        short = omega (arith, ltb→lt (length front) (length f) inside);
        all_before = tt;
        all_behind = (im, all);
        within_behind = (w, within);
      }
      | inr past ↦
          let (x, p1, p2) =
            strip_front f front later (flatten fs ++ t) (not-ltb→le (length front) (length f) past)
              (e ∙ append_assoc f (flatten fs) t) in
          let c = cut m x later fs t all within p h p2 in
          record {
            before = f ∷ c.before;
            behind = c.behind;
            rest = c.rest;
            parts = ap (◌∷◌ f) c.parts;
            left = p1 ∙ ap (◌++◌ f) c.left ∙ sym (append_assoc f (flatten c.before) c.rest);
            right = c.right;
            begins = c.begins;
            short = c.short;
            all_before = (im, c.all_before);
            all_behind = c.all_behind;
            within_behind = c.within_behind;
          }
    ]

fresh-append :
    (m : ℕ) (fs gs : List (List ℕ)) → fresh m (fs ++ gs) ≡ fresh m fs ++ fresh (last_seq m fs) gs
fresh-append m [] gs = refl
fresh-append m (f ∷ fs) gs = ground (arith, fresh-append (seq_field f) fs gs, fresh-append m fs gs)

last_seq-append :
    (m : ℕ) (fs gs : List (List ℕ)) → last_seq m (fs ++ gs) ≡ last_seq (last_seq m fs) gs
last_seq-append m [] gs = refl
last_seq-append m (f ∷ fs) gs =
    ground (arith, last_seq-append (seq_field f) fs gs, last_seq-append m fs gs)

-- What a series of reads comes to.
pub record Delivered (s : Session) (fs : List (List ℕ)) (t : List ℕ)
    (o : Outcome (Session × List Event)) : Type 0 where
  pub session : Session
  pub events : List Event
  pub returns : o ≡ ok (session, events)
  pub ready : Ready session.recv_packet t
  pub outs : delivered events ≡ fresh s.msg_seq fs
  pub errors : overflows events ≡ 0
  pub seqs : session.msg_seq ≡ last_seq s.msg_seq fs

-- A stream of messages of at most `m` bytes, with the beginning of one more behind them, in reads
-- that each leave room for `m` bytes: however the reads cut the stream, exactly the messages with
-- growing numbers are handed to the dispatcher, whole, once and in order, and no error arises.
pub run-Delivered :
    (create : ℕ → ℕ → Option Buffer)
    → ((j : ℕ) → Supply (create j))
    → (reads : List (ℕ × List ℕ)) (j m : ℕ) (s : Session) (unread : List ℕ) (fs : List (List ℕ))
      (t : List ℕ)
    → Ready s.recv_packet unread
    → IsPartial unread
    → length unread ≤ m
    → AllSmall m reads
    → AllMessages fs
    → AllWithin m fs
    → IsPartial t
    → length t ≤ m
    → unread ++ bytes_of reads ≡ flatten fs ++ t
    → Delivered s fs t (run create j s reads)
unfolding run
run-Delivered create supply [] j m s unread [] t r pu lu small all within p lt e =
    let same : unread ≡ t = sym (append-nil unread) ∙ e in
    record {
      session = s;
      events = [];
      returns = refl;
      ready = rw same at r;
      outs = refl;
      errors = refl;
      seqs = refl;
    }
run-Delivered create supply [] j m s unread (f ∷ fs) t r pu lu small (im, all) within p lt e =
    absurd (
      partial_no_message f (flatten fs ++ t) im
        (rw (sym (append-nil unread) ∙ e ∙ append_assoc f (flatten fs) t) at pu))
run-Delivered create supply ((now, bytes) ∷ reads) j m s unread fs t r pu lu (sm, small) all within
      p lt e =
    let c : Cut m (unread ++ bytes) (bytes_of reads) fs t =
      cut m (unread ++ bytes) (bytes_of reads) fs t all within p lt
        (append_assoc unread bytes (bytes_of reads) ∙ e) in
    let one : Received now s c.before c.rest 0 (on_recv_msg (create j) 0 now s bytes) =
      on_recv_msg-Received (create j) (supply j) 0 now s unread bytes c.before c.rest r
        (omega arith) c.left c.all_before c.begins in
    let more : Delivered one.session c.behind t (run create (suc j) one.session reads) =
      run-Delivered create supply reads (suc j) m one.session c.rest c.behind t one.ready c.begins
        c.short small c.all_behind c.within_behind p lt c.right in
    record {
      session = more.session;
      events = one.events ++ more.events;
      returns = rw (one.returns, more.returns);
      ready = more.ready;
      outs =
          delivered-append one.events more.events
          ∙ ap₂ ◌++◌ one.outs (more.outs ∙ ap (λ n. fresh n c.behind) one.seqs)
          ∙ sym (fresh-append s.msg_seq c.before c.behind)
          ∙ ap (fresh s.msg_seq) (sym c.parts);
      errors = omega (arith, overflows-append one.events more.events, one.errors, more.errors);
      seqs =
          more.seqs
          ∙ ap (λ n. last_seq n c.behind) one.seqs
          ∙ sym (last_seq-append s.msg_seq c.before c.behind)
          ∙ ap (last_seq s.msg_seq) (sym c.parts);
    }
