-- ===== src/Reconnect/Tests.antt =====
-- Concrete inputs for the theorems on sessions that outlive their links.
use gamnet.Prelude.{
  ◌==◌, ℕ, ◌+◌, refl, arith, ◌==◌, if◌then◌else◌, List, [], ◌∷◌, Option, none, some, replicate,
}
use gamnet.Buffer.{Buffer}
use gamnet.Reconnect.{Server, on_close}
use gamnet.Reconnect.Pairs.{IsPaired, closes, step, Runs, Runs-IsPaired}

-- Session 1 is on link 1, and session 2 on link 2; the first is known by its key.
abbrev server : Server
server = record {
  link_session = λ l. if l == 1 then some 1 else if l == 2 then some 2 else none;
  sessions = λ i. record {
    session_key = i + 6;
    session_token = 97 ∷ [];
    link = if i == 1 then some 1 else if i == 2 then some 2 else none;
    recv_packet = i;
    msg_seq = 4;
  };
  manager = (7, 1) ∷ [];
  last_key = 8;
}

server-IsPaired : IsPaired server
server-IsPaired = record { of_link = λ l i. ground arith; of_session = λ i l. ground arith }

abbrev json : List ℕ → Option (ℕ × List ℕ)
json text = some (7, 97 ∷ [])

runs : Runs json server (closes 1 ∷ []) (on_close server 1)
unfolding Runs step
runs = (on_close server 1, tt, refl, refl)

Runs-IsPaired_example : IsPaired (on_close server 1)
Runs-IsPaired_example =
    Runs-IsPaired json server (on_close server 1) (closes 1 ∷ []) runs server-IsPaired

abbrev packet : Buffer
packet = record { mem = replicate 30 0; read_cursor = 0; write_cursor = 12; buf_size = 30 }

abbrev old_token : List ℕ
old_token = 97 ∷ []

abbrev new_token : List ℕ
new_token = 98 ∷ 98 ∷ []
