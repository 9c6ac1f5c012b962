-- ===== src/Packet/Tests.antt =====
-- Concrete inputs for the theorems on packets.
use gamnet.Prelude.{ℕ, ◌≡◌, arith, List, [], ◌∷◌, ok, true, replicate, length, length-replicate}
use gamnet.Buffer.{Buffer}
use gamnet.Buffer.Valid.{IsValid}
use gamnet.Packet.{Header, write, get_length, get_seq, get_id, read_body}
use gamnet.Packet.RoundTrip.{read-write}

abbrev small_packet : Buffer
small_packet = record { write_cursor = 0; read_cursor = 0; buf_size = 16; mem = replicate 16 0 }

small_packet-IsValid : IsValid small_packet
small_packet-IsValid = omega arith

abbrev header : Header
header = record { msg_id = 300; msg_seq = 7 }

abbrev body : List ℕ
body = 1 ∷ 2 ∷ 3 ∷ []

abbrev huge : List ℕ
huge = replicate 65530 0

length-huge : length huge ≡ 65530
length-huge = length-replicate {A = ℕ} 65530 0

read-write_example :
    (q : Buffer) × (write small_packet header body ≡ ok (q, true))
    × (get_length q ≡ ok 13)
    × (get_seq q ≡ ok 7)
    × (get_id q ≡ ok 300)
    × (read_body q ≡ ok body)
read-write_example =
    read-write small_packet header body small_packet-IsValid (omega arith) (omega arith)
      (omega arith) (omega arith)
