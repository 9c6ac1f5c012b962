-- ===== src/Peers/Tests.antt =====
-- Concrete inputs for the theorems on the exchange of addresses.
use gamnet.Prelude.{◌≡◌, refl, arith, ◌==◌, if◌then◌else◌, [], ◌∷◌, none, ok}
use gamnet.MsgRouter.{
  Address, no_address, address_eq, string_eq, set_address_req, set_address_ntf, store_msg,
}
use gamnet.MsgRouter.Format.{Fits}
use gamnet.RouterCaster.{Router, Group, find_session}
use gamnet.Peers.{
  Server, Handled, on_router_connect, on_router_accept, recv_set_address_req, recv_set_address_ntf,
  on_close,
}
use gamnet.Peers.Handshake.{joined, accepted, Strangers, Knows, handshake-Knows}
use gamnet.Peers.Closing.{Serves, close_duplicate}

abbrev lobby : Address
lobby = record { service_name = 108 ∷ []; cast_type = 0; id = 1; msg_seq = 0 }

abbrev game : Address
game = record { service_name = 103 ∷ []; cast_type = 0; id = 2; msg_seq = 0 }

abbrev no_routes : Router
no_routes = record {
  uni = [];
  multi = [];
  any = [];
  msg_seq = 1;
  peers = λ i. record { address = no_address; waiting = [] };
}

abbrev server : Address → Server
server a = record { local_address = a; router = no_routes }

lobby-Fits : Fits lobby
lobby-Fits = record {
  name_fits = omega arith;
  cast_fits = omega arith;
  id_fits = omega arith;
  seq_fits = omega arith;
}

game-Fits : Fits game
game-Fits = record {
  name_fits = omega arith;
  cast_fits = omega arith;
  id_fits = omega arith;
  seq_fits = omega arith;
}

strangers : Strangers (server lobby) (server game) 1 2
unfolding find_session address_eq string_eq
strangers = record {
  a_fits = lobby-Fits;
  b_fits = game-Fits;
  different = refl;
  a_free = record { no_uni = refl; no_multi = refl; no_any = refl };
  b_free = record { no_uni = refl; no_multi = refl; no_any = refl };
  no_multi = tt;
  no_any = tt;
}

handshake-Knows_example :
    let h = joined (server lobby) 1 (server game) 2 in
    let g = accepted (server lobby) 1 (server game) 2 in
    Knows (server lobby) h.server game 1 game
    × Knows (server game) g.server lobby 2 game
    × (h.sends ≡ set_address_ntf ∷ [])
    × (h.events ≡ on_router_connect game ∷ [])
    × (g.events ≡ on_router_accept lobby ∷ [])
handshake-Knows_example = handshake-Knows (server lobby) (server game) 1 2 game strangers

-- The game server has session 1 of the lobby; session 2 asks with the same address.
abbrev one : Group
one = record { turn = 0; members = 1 ∷ [] }

abbrev joined_game : Server
joined_game = record {
  local_address = game;
  router = record no_routes {
    uni = (lobby, 1) ∷ [];
    multi = (lobby.service_name, 1 ∷ []) ∷ [];
    any = (lobby.service_name, one) ∷ [];
    peers = λ i. record { address = if i == 1 then lobby else no_address; waiting = [] };
  };
}

serves : Serves joined_game.router lobby 1 2 (1 ∷ []) one
unfolding find_session address_eq string_eq
serves = record {
  finds = refl;
  multi = refl;
  any = refl;
  one_multi = refl;
  one_any = refl;
  no_multi = (refl, tt);
  no_any = (refl, tt);
}

close_duplicate_example :
    let b1 = recv_set_address_req joined_game 2 (store_msg (set_address_req lobby)) in
    let b2 = recv_set_address_ntf b1.server 2 in
    (b2.server ≡ b1.server)
    × ((b2.server.router.peers 2).address ≡ lobby)
    × (h : Handled) × (on_close b2.server 2 ≡ ok h)
    × (find_session h.server.router lobby ≡ none)
    × ((h.server.router.peers 1).address ≡ lobby)
unfolding address_eq string_eq
close_duplicate_example =
    close_duplicate joined_game lobby 1 2 (1 ∷ []) one lobby-Fits refl refl refl serves
