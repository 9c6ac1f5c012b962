-- ===== src/Peers.antt =====
-- How two servers learn each other's addresses: Gamnet/Network/Router/RouterHandler.cpp and
-- Session.cpp, on top of the route tables.
-- A handler gives the server after it, the messages that it hands to `SendMsg` for its session, and
-- what it tells the rest of the program. A body is what stands behind the header of a packet.
pub mod Handshake
pub mod Closing
mod Tests
use gamnet.Prelude.{
  ℕ, ◌==◌, if◌then◌else◌, List, [], ◌∷◌, Option, none, some, Outcome, ok, fault, ◌>>=◌, length,
}
use gamnet.Buffer.{Buffer, clear, append}
use gamnet.MsgRouter.{
  Address, Msg, set_address_req, set_address_ans, set_address_ntf, send_msg_ntf, heart_beat_ntf,
  no_address, address_eq, load_msg,
}
use gamnet.Waiting
use gamnet.RouterCaster.{Router, Peer, register, unregister, find_session}

-- A server: the address of its LinkManager, and the route tables with the router sessions.
pub record Server : Type 0 where
  pub local_address : Address
  pub router : Router

-- The callbacks of the user, and `link->OnError`.
pub data Event : Type 0 where
  on_router_connect on_router_accept on_router_close : Address → Event
  on_error : ℕ → Event

pub record Handled : Type 0 where
  pub server : Server
  pub sends : List Msg
  pub events : List Event

abbrev pub nothing : Server → Handled
nothing s = record { server = s; sends = []; events = [] }

-- ErrorCode::Success, InvalidAddressError and MessageFormatError
abbrev pub success : ℕ
success = 0

abbrev pub invalid_address_error : ℕ
invalid_address_error = 41

abbrev pub message_format_error : ℕ
message_format_error = 70

-- A session with another address, and one that nobody waits at.
unfoldable pub addressed : Router → ℕ → Address → Router
addressed r i a = record r {
  peers = λ j. if i == j then record (r.peers i) { address = a } else r.peers j;
}

unfoldable pub unawaited : Router → ℕ → Router
unawaited r i = record r {
  peers = λ j.
      if i == j
      then record (r.peers i) { waiting = Waiting.clear (r.peers i).waiting }
      else r.peers j;
}

-- Session::OnConnect
unfoldable pub on_connect : Server → ℕ → Handled
unfolding unawaited
on_connect s i = record {
  server = record s { router = unawaited s.router i };
  sends = set_address_req s.local_address ∷ [];
  events = [];
}

-- The address of a request that is loaded, and the parts of an answer and of a routed message.
abbrev pub requested : Option (Msg × List ℕ) → Option Address
requested none = none
requested (some (set_address_req a, rest)) = some a
requested (some (set_address_ans code a, rest)) = none
requested (some (set_address_ntf, rest)) = none
requested (some (send_msg_ntf seq bytes, rest)) = none
requested (some (heart_beat_ntf, rest)) = none

abbrev pub answered : Option (Msg × List ℕ) → Option (ℕ × Address)
answered none = none
answered (some (set_address_req a, rest)) = none
answered (some (set_address_ans code a, rest)) = some (code, a)
answered (some (set_address_ntf, rest)) = none
answered (some (send_msg_ntf seq bytes, rest)) = none
answered (some (heart_beat_ntf, rest)) = none

abbrev pub forwarded : Option (Msg × List ℕ) → Option (ℕ × List ℕ)
forwarded none = none
forwarded (some (set_address_req a, rest)) = none
forwarded (some (set_address_ans code a, rest)) = none
forwarded (some (set_address_ntf, rest)) = none
forwarded (some (send_msg_ntf seq bytes, rest)) = some (seq, bytes)
forwarded (some (heart_beat_ntf, rest)) = none

refusal : Server → ℕ → Handled
refusal s code = record { server = s; sends = set_address_ans code no_address ∷ []; events = [] }

to_request : Server → ℕ → Option Address → Handled
unfolding refusal addressed
to_request s i none = refusal s message_format_error
to_request s i (some a) =
    if address_eq s.local_address a then refusal s invalid_address_error else record {
      server = record s { router = addressed s.router i a };
      sends = set_address_ans success s.local_address ∷ [];
      events = [];
    }

-- RouterHandler::Recv_SetAddress_Req
unfoldable pub recv_set_address_req : Server → ℕ → List ℕ → Handled
unfolding to_request
recv_set_address_req s i body = to_request s i (requested (load_msg 1 body))

-- A good answer: what `RegisterAddress` returns is not looked at.
to_success : Server → ℕ → Address → Handled
to_success s i a =
    let s' : Server = record s { router = (register s.router a i).0 } in
    if address_eq s.local_address a then nothing s' else record {
      server = s';
      sends = set_address_ntf ∷ [];
      events = on_router_connect (s'.router.peers i).address ∷ [];
    }

to_answer : Server → ℕ → Option (ℕ × Address) → Handled
unfolding to_success
to_answer s i none = nothing s
to_answer s i (some (code, a)) =
    if code == success
    then to_success s i a
    else record { server = s; sends = []; events = on_error code ∷ [] }

-- RouterHandler::Recv_SetAddress_Ans, of a session that has a link
unfoldable pub recv_set_address_ans : Server → ℕ → List ℕ → Handled
unfolding to_answer
recv_set_address_ans s i body = to_answer s i (answered (load_msg 2 body))

-- RouterHandler::Recv_SetAddress_Ntf; an empty message is always loaded.
unfoldable pub recv_set_address_ntf : Server → ℕ → Handled
recv_set_address_ntf s i =
    let s' : Server = record s { router = (register s.router (s.router.peers i).address i).0 } in
    record { server = s'; sends = []; events = on_router_accept (s'.router.peers i).address ∷ [] }

-- The packet for the dispatcher, of what `Packet::Create` gives; NULL is not tested for.
repacked : Address → Option Buffer → ℕ × List ℕ → Outcome (Option (Address × Buffer))
repacked a none (seq, bytes) = fault
repacked a (some p) (seq, bytes) =
    append (clear p) bytes >>= λ q. ok (some (record a { msg_seq = seq }, q))

to_dispatcher :
    Address → Option Buffer → Option (ℕ × List ℕ) → Option ℕ → Outcome (Option (Address × Buffer))
unfolding repacked
to_dispatcher a created none found = ok none
to_dispatcher a created (some m) none = ok none
to_dispatcher a created (some m) (some j) = repacked a created m

-- RouterHandler::Recv_SendMsg_Ntf: what goes to the router's dispatcher.
unfoldable pub recv_send_msg_ntf :
    Server → ℕ → Option Buffer → List ℕ → Outcome (Option (Address × Buffer))
unfolding to_dispatcher
recv_send_msg_ntf s i created body =
    let a = (s.router.peers i).address in
    to_dispatcher a created (forwarded (load_msg 4 body)) (find_session s.router a)

left : Server → ℕ → List Event → Router → Handled
unfolding unawaited
left s i evs r = record { server = record s { router = unawaited r i }; sends = []; events = evs }

-- Session::OnClose: only a session that has a name is unregistered.
unfoldable pub on_close : Server → ℕ → Outcome Handled
unfolding left
on_close s i =
    let a = (s.router.peers i).address in
    if length a.service_name == 0
    then ok (left s i [] s.router)
    else (unregister s.router a >>= λ r. ok (left s i (on_router_close a ∷ []) r.0))
