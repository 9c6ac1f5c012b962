-- ===== src/Receiver/Tests.antt =====
-- Concrete inputs for the theorems on the receive loop.
use gamnet.Prelude.{
  ℕ, refl, arith, inl, List, [], ◌∷◌, ◌++◌, Option, some, replicate, length-replicate,
}
use gamnet.Buffer.{Buffer, construct, max_size}
use gamnet.Buffer.Valid.{construct-IsValid}
use gamnet.Receiver.{Session, run}
use gamnet.Receiver.Routed as Links
use gamnet.Receiver.Framing.{IsMessage}
use gamnet.Receiver.Unread.{IsFresh, Ready}
use gamnet.Receiver.Loop.{Supply}
use gamnet.Receiver.Chunks.{Delivered, run-Delivered}
use gamnet.Receiver.Routed.Whole.{Routed}
use gamnet.Receiver.Routed.Stream.{run-Routed}

abbrev fresh_packet : Buffer
fresh_packet = construct max_size

fresh_packet-IsFresh : IsFresh fresh_packet
unfolding construct
fresh_packet-IsFresh = record {
  valid = construct-IsValid max_size (omega arith);
  full_size = refl;
  written = refl;
  start = refl;
}

fresh_packet-Ready : Ready fresh_packet []
unfolding construct
fresh_packet-Ready = record {
  valid = construct-IsValid max_size (omega arith);
  full_size = refl;
  start = refl;
  holds = refl;
}

abbrev pool : ℕ → Option Buffer
pool k = some fresh_packet

pool-Supply : Supply pool
pool-Supply k = (fresh_packet, refl, fresh_packet-IsFresh)

abbrev new_session : Session
new_session = record { recv_packet = fresh_packet; msg_seq = 0; expire_time = 0 }

abbrev first : List ℕ
first = 11 ∷ 0 ∷ 1 ∷ 0 ∷ 0 ∷ 0 ∷ 7 ∷ 0 ∷ 0 ∷ 0 ∷ 9 ∷ []

abbrev second : List ℕ
second = 10 ∷ 0 ∷ 2 ∷ 0 ∷ 0 ∷ 0 ∷ 8 ∷ 0 ∷ 0 ∷ 0 ∷ []

first-IsMessage : IsMessage first
first-IsMessage = record { counted = refl; header = omega arith; bounded = omega arith }

second-IsMessage : IsMessage second
second-IsMessage = record { counted = refl; header = omega arith; bounded = omega arith }

-- The first message in two reads; the second read also has the second message and 12.
abbrev reads : List (ℕ × List ℕ)
reads = (5, 11 ∷ 0 ∷ 1 ∷ 0 ∷ []) ∷ (6, 0 ∷ 0 ∷ 7 ∷ 0 ∷ 0 ∷ 0 ∷ 9 ∷ (second ++ (12 ∷ []))) ∷ []

run-Delivered_example :
    Delivered new_session (first ∷ second ∷ []) (12 ∷ []) (run (λ j. pool) 0 new_session reads)
run-Delivered_example =
    run-Delivered (λ j. pool) (λ j. pool-Supply) reads 0 100 new_session [] (first ∷ second ∷ [])
      (12 ∷ []) fresh_packet-Ready (inl (omega arith)) (omega arith)
      (omega arith, (omega arith, tt)) (first-IsMessage, (second-IsMessage, tt))
      (omega arith, (omega arith, tt)) (inl (omega arith)) (omega arith) refl

abbrev routed_reads : List (List ℕ)
routed_reads = (10 ∷ 0 ∷ 2 ∷ []) ∷ (0 ∷ 0 ∷ 0 ∷ 8 ∷ 0 ∷ 0 ∷ 0 ∷ (first ++ (12 ∷ []))) ∷ []

-- The second message goes before the first.
run-Routed_example :
    Routed (second ∷ first ∷ []) (12 ∷ []) (Links.run (λ j. pool) 0 new_session routed_reads)
run-Routed_example =
    run-Routed (λ j. pool) (λ j. pool-Supply) routed_reads 0 100 new_session []
      (second ∷ first ∷ []) (12 ∷ []) fresh_packet-Ready (inl (omega arith)) (omega arith)
      (omega arith, (omega arith, tt)) (second-IsMessage, (first-IsMessage, tt))
      (omega arith, (omega arith, tt)) (inl (omega arith)) (omega arith) refl

-- A length field of 3.
abbrev bad_header : List ℕ
bad_header = 3 ∷ 0 ∷ 1 ∷ 0 ∷ 0 ∷ 0 ∷ 7 ∷ 0 ∷ 0 ∷ 0 ∷ []

abbrev full_read : List ℕ
full_read = replicate 65535 0

abbrev one_unread_packet : Buffer
one_unread_packet = record {
  write_cursor = 1;
  read_cursor = 0;
  buf_size = max_size;
  mem = 1 ∷ replicate 65534 0;
}

one_unread_packet-Ready : Ready one_unread_packet (1 ∷ [])
one_unread_packet-Ready = record {
  valid = omega (arith, length-replicate {A = ℕ} 65534 0);
  full_size = refl;
  start = refl;
  holds = refl;
}

abbrev one_unread_session : Session
one_unread_session = record new_session { recv_packet = one_unread_packet }
