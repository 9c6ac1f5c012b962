-- ===== src/Receiver/Routed.antt =====
-- Router::LinkManager::OnRecvMsg (Gamnet/Network/Router/LinkManager.cpp): the receive loop of the
-- links between routers. It is that of Tcp but for the numbers of the messages, which it does not
-- look at, and the clock; its session has the same `recv_packet`.
pub mod Whole
pub mod Stream
use gamnet.Prelude.{
  ℕ, zero, suc, ltb, leb, ◌||◌, if◌then◌else◌, List, [], ◌∷◌, ◌++◌, Option, none, some, Outcome, ok,
  fault, ◌>>=◌, u16,
}
use gamnet.Buffer.{Buffer, size, capacity, append, remove, clear}
use gamnet.Packet.{header_size, get_length}
use gamnet.Receiver.{
  Session, Event, received, overflow, move_rest, Next, stops, same, used, Round, after,
}

-- The end of a round: the message is dispatched and taken from the packet.
pub consume : Option Buffer → Session → ℕ → Outcome Round
consume created s total =
    let evs = received s.recv_packet ∷ [] in
    let p = remove s.recv_packet total in
    let moved = move_rest created p >>= λ m. ok (elim m [
      | none ↦ record {
        session = record s { recv_packet = p };
        events = evs ++ (overflow ∷ []);
        next = stops;
      }
      | some q ↦ record { session = record s { recv_packet = q }; events = evs; next = used }
    ]) in
    if ltb 0 (size p)
    then moved
    else ok (record { session = record s { recv_packet = clear p }; events = evs; next = same })

-- The body of the `while` loop and its test
pub round : Option Buffer → Session → Outcome Round
round created s =
    let p = s.recv_packet in
    let quiet : Round = record { session = s; events = []; next = stops } in
    let broken : Round = record { session = s; events = overflow ∷ []; next = stops } in
    let complete = λ (total : ℕ). consume created s total in
    let cut = get_length p >>= λ total.
    if ltb total header_size || leb (capacity p) total
    then ok broken
    else if ltb (u16 (size p)) total
    then ok quiet
    else complete total in
    if ltb (size p) header_size then ok quiet else cut

module _ (create : ℕ → Option Buffer) where
  -- The loop, with fuel, as for Tcp
  pub loop : ℕ → ℕ → Session → Outcome (Session × List Event)
  unfolding round
  loop zero k s = fault
  loop (suc fuel) k s = round (create k) s >>= λ r. elim r.next [
    | stops ↦ ok (r.session, r.events)
    | same ↦ after r.events (loop fuel k r.session)
    | used ↦ after r.events (loop fuel (suc k) r.session)
  ]

  pub on_recv_msg : ℕ → Session → List ℕ → Outcome (Session × List Event)
  unfolding loop
  on_recv_msg k s bytes = do
    p ← append s.recv_packet bytes
    loop (suc (size p)) k (record s { recv_packet = p })

-- The reads of a link, one after the other
pub run : (ℕ → ℕ → Option Buffer) → ℕ → Session → List (List ℕ) → Outcome (Session × List Event)
unfolding on_recv_msg
run create j s [] = ok (s, [])
run create j s (bytes ∷ reads) =
    on_recv_msg (create j) 0 s bytes >>= λ r. after r.1 (run create (suc j) r.0 reads)
