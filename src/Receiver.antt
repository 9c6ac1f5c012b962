-- ===== src/Receiver.antt =====
-- Tcp::LinkManager<SESSION_T>::OnRecvMsg (Gamnet/Network/Tcp/LinkManager.h): the bytes of a link are
-- gathered in the session's `recv_packet` and cut into messages there.
-- `Packet::Create` is the environment's: its k-th call gives `create k`, with whatever bytes an
-- earlier use left in the block. What the call does to the outside is a list of events: a message
-- handed to the dispatcher, as the packet that it sees, or `link->OnError(EOVERFLOW)`.
-- Handlers do not touch `recv_packet` and `msg_seq` of the session that they serve.
pub mod Framing
pub mod Chunks
pub mod Unread
pub mod Refine
pub mod Loop
pub mod Routed
mod Tests
use gamnet.Prelude.{
  ℕ, zero, suc, ◌+◌, ltb, leb, ◌||◌, if◌then◌else◌, List, [], ◌∷◌, ◌++◌, Option, none, some,
  Outcome, ok, fault, ◌>>=◌, u16,
}
use gamnet.Buffer.{Buffer, size, capacity, append, remove, read_bytes}
use gamnet.Packet.{header_size, get_length, get_seq}

-- The part of `Tcp::Session` that the handler reads and writes.
pub record Session : Type 0 where
  pub recv_packet : Buffer
  pub msg_seq : ℕ
  pub expire_time : ℕ

pub data Event : Type 0 where
  received : Buffer → Event
  overflow : Event

-- Dispatches a message with a new sequence number, and drops any other.
offer : Session → ℕ → Session × List Event
offer s seq =
    if ltb s.msg_seq seq then (record s { msg_seq = seq }, received s.recv_packet ∷ []) else (s, [])

-- The unread bytes in a packet from the pool; `none` where the pool has none.
pub move_rest : Option Buffer → Buffer → Outcome (Option Buffer)
move_rest none p = ok none
move_rest (some q) p = do bytes ← read_bytes p; q' ← append q bytes; ok (some q')

-- What one round of the loop comes to: the loop ends, or goes on with the next message, after
-- `Packet::Create` has been called or not.
pub data Next : Type 0 where
  stops same used : Next

pub record Round : Type 0 where
  pub session : Session
  pub events : List Event
  pub next : Next

-- The end of a round, for the session after the dispatch and the packet after `Remove`.
finish : Option Buffer → Session → List Event → Buffer → Outcome Round
finish created s evs p =
    let moved = move_rest created p >>= λ m. ok (elim m [
      | none ↦ record {
        session = record s { recv_packet = p };
        events = evs ++ (overflow ∷ []);
        next = stops;
      }
      | some q ↦ record { session = record s { recv_packet = q }; events = evs; next = used }
    ]) in
    if ltb 0 (size p)
    then moved
    else ok (record { session = record s { recv_packet = p }; events = evs; next = same })

consume : Option Buffer → Session → ℕ → Outcome Round
consume created s total = do
  seq ← get_seq s.recv_packet
  let (s', evs) = offer s seq
  finish created s' evs (remove s.recv_packet total)

-- The body of the `while` loop and its test. `created` is what `Packet::Create` would give now.
pub round : Option Buffer → Session → Outcome Round
round created s =
    let p = s.recv_packet in
    let quiet : Round = record { session = s; events = []; next = stops } in
    let broken : Round = record { session = s; events = overflow ∷ []; next = stops } in
    let complete = λ (total : ℕ). consume created s total in
    let cut = get_length p >>= λ total.
    if ltb total header_size || leb (capacity p) total
    then ok broken
    else if ltb (u16 (size p)) total
    then ok quiet
    else complete total in
    if ltb (size p) header_size then ok quiet else cut

-- Puts events in front of those of the later rounds.
abbrev pub after : List Event → Outcome (Session × List Event) → Outcome (Session × List Event)
after evs o = o >>= λ r. ok (r.0, evs ++ r.1)

module _ (create : ℕ → Option Buffer) where
  -- The loop, with fuel, from the k-th call of `Packet::Create` on. Running out of fuel counts as
  -- a fault; `Refine` shows that the fuel below is enough.
  pub loop : ℕ → ℕ → Session → Outcome (Session × List Event)
  loop zero k s = fault
  loop (suc fuel) k s = round (create k) s >>= λ r. elim r.next [
    | stops ↦ ok (r.session, r.events)
    | same ↦ after r.events (loop fuel k r.session)
    | used ↦ after r.events (loop fuel (suc k) r.session)
  ]

  -- `bytes` are those between the cursors of the link's read buffer, and `now` the time. A round
  -- takes ten bytes at least, so the number of unread bytes is fuel enough.
  pub on_recv_msg : ℕ → ℕ → Session → List ℕ → Outcome (Session × List Event)
  on_recv_msg k now s bytes = do
    p ← append s.recv_packet bytes
    loop (suc (size p)) k (record s { expire_time = now; recv_packet = p })

-- The reads of a link, one after the other (Link::AsyncRead): each comes with its time and its
-- bytes, and `create j` is the pool during the j-th. The first error of a call ends them.
pub run : (ℕ → ℕ → Option Buffer) → ℕ → Session → List (ℕ × List ℕ) → Outcome (Session × List Event)
run create j s [] = ok (s, [])
run create j s ((now, bytes) ∷ reads) =
    on_recv_msg (create j) 0 now s bytes >>= λ r. after r.1 (run create (suc j) r.0 reads)
