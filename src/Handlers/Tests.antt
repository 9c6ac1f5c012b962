-- ===== src/Handlers/Tests.antt =====
-- Concrete inputs for the theorems on the dispatchers.
use gamnet.Prelude.{read_at_lem, arith, ℕ, ◌≡◌, refl, true, [], ◌∷◌, none, some, ok, find}
use gamnet.Buffer.{Buffer}
use gamnet.Packet.{get_id}
use gamnet.MsgRouter.{Address, address_eq, string_eq}
use gamnet.Waiting
use gamnet.RouterCaster.{Router, find_session, uni_send}
use gamnet.Handlers.{
  Container, handler_find, HandlerFunction, Dispatcher, Client, called, logged, Routed, on_routed,
}
use gamnet.Handlers.Answers.{Finds, Awaited, answer_once}

abbrev bound : Container
bound = (7, 70) ∷ (9, 90) ∷ []

abbrev function : HandlerFunction
function = record { factory = 0; function = 5 }

abbrev dispatcher : Dispatcher
dispatcher = record { functions = (9, function) ∷ []; factories = λ i. handler_find }

-- An empty message of id 9.
abbrev packet : Buffer
packet = record {
  mem = 10 ∷ 0 ∷ 1 ∷ 0 ∷ 0 ∷ 0 ∷ 9 ∷ 0 ∷ 0 ∷ 0 ∷ [];
  read_cursor = 0;
  write_cursor = 10;
  buf_size = 10;
}

finds : Finds dispatcher packet 9 function
unfolding get_id
finds = record {
  id = rw (read_at_lem packet.mem 6 4 (omega arith)) refl;
  function = refl;
  factory = refl;
}

abbrev server : Address
server = record { service_name = 103 ∷ []; cast_type = 0; id = 1; msg_seq = 4 }

abbrev routes : Router
routes = record {
  uni = (server, 3) ∷ [];
  multi = [];
  any = [];
  msg_seq = 5;
  peers = λ i. record { address = server; waiting = [] };
}

abbrev clients : ℕ → Client
clients i = record { has_link = true; handlers = bound }

answer_once_example :
    let sent = uni_send routes 0 4 (some 50) server (1 ∷ []) in
    (sent.out ≡ (3, 1 ∷ []) ∷ [])
    × (out : Routed) × (on_routed dispatcher sent.router clients server packet 0 ≡ ok out)
    × (out.action ≡ called 90 5)
    × (find (out.clients 50).handlers 9 ≡ none)
    × (late : Routed) × (on_routed out.dispatcher out.router out.clients server packet 0 ≡ ok late)
    × (late.action ≡ logged)
    × (late.clients ≡ out.clients)
    × (late.dispatcher ≡ out.dispatcher)
    × ((j : ℕ) → late.router.peers j ≡ out.router.peers j)
unfolding find_session address_eq string_eq
answer_once_example =
    answer_once dispatcher routes clients server packet (1 ∷ []) 0 0 9 3 50 90 function finds refl
      refl refl refl refl

-- Session 50 waits for number 4.
abbrev asked : Router
asked = record routes {
  peers = λ i. record { address = server; waiting = (4, record { since = 0; session = 50 }) ∷ [] };
}

awaited : Awaited asked server 3 50 []
unfolding find_session address_eq string_eq Waiting.find_session
awaited = record { by_uni_cast = refl; router_session = refl; waits = refl }
