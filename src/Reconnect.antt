-- ===== src/Reconnect.antt =====
-- Sessions that outlive their links: the handlers of Gamnet/Network/Tcp/LinkManager.h, with
-- Link::AttachSession of Gamnet/Network/Link.cpp.
-- Links and sessions are numbers of objects, and a token is the list of its bytes. The JSON library
-- is a parameter, `json`: the key and the token of a request, `none` where it does not parse. So is
-- the token that `GenerateSessionToken` gives. The handlers are run one after the other, as the one
-- thread of `Run(0)` does; `taken_over_busy` is what more threads can do to a reconnect.
-- The times of the session manager are in Sessions.
pub mod Pairs
pub mod Takeover
mod Tests
use gamnet.Prelude.{
  ℕ, ◌+◌, ◌^◌, ◌%◌, ◌==◌, if◌then◌else◌, List, [], ◌∷◌, Option, none, some, Outcome, ok, fault,
  ◌>>=◌, find, insert, read_at,
}
use gamnet.Buffer.{Buffer, size}
use gamnet.Packet.{header_size}
use gamnet.MsgRouter.{string_eq}

-- The parts of a session that the handlers read and write; the packet is the number of an object.
pub record Session : Type 0 where
  pub session_key : ℕ
  pub session_token : List ℕ
  pub link : Option ℕ
  pub recv_packet : ℕ
  pub msg_seq : ℕ

pub record Server : Type 0 where
  pub link_session : ℕ → Option ℕ
  pub sessions : ℕ → Session
  pub manager : List (ℕ × ℕ)
  pub last_key : ℕ

-- One object changed.
pub changed {ℓ} : {A : Type ℓ} → (ℕ → A) → ℕ → A → ℕ → A
changed f i a j = if i == j then a else f j

abbrev pub set_link : Server → ℕ → Option ℕ → Server
set_link s i l = record s {
  sessions = λ j. if i == j then record (s.sessions i) { link = l } else s.sessions j;
}

-- The session that a link has loses the link.
pub detached : Server → ℕ → Option ℕ → Server
detached s l none = s
detached s l (some i) = set_link s i none

pub attached : Server → ℕ → Option ℕ → Server
attached s l none = record s { link_session = λ k. if l == k then none else s.link_session k }
attached s l (some i) =
    set_link (record s { link_session = λ k. if l == k then some i else s.link_session k }) i
      (some l)

-- Link::AttachSession, where no handler runs on the strand of the link, or this one does: then `wrap`
-- calls at once. Where another thread is in a handler of the link, the call waits for its end.
unfoldable pub attach_session : Server → ℕ → Option ℕ → Server
unfolding detached attached
attach_session s l o = attached (detached s l (s.link_session l)) l o

-- What a handler sends: nothing, or an answer with the error code, and the key, the token and the
-- sequence number where it has them.
pub data Answer : Type 0 where
  failed : ℕ → Answer
  connected : ℕ → List ℕ → Answer
  reconnected : ℕ → List ℕ → ℕ → Answer
  beating : ℕ → Answer

-- LinkManager::OnAccept behind the base class: the session that the pool gives and that
-- `Session::Init` has reset, `none` for NULL, which closes the link. `++session_key` is a `uint32_t`.
unfoldable pub on_accept : Server → ℕ → Option ℕ → ℕ → Server
unfolding attach_session
on_accept s l none packet = s
on_accept s l (some i) packet =
    let key = (s.last_key + 1) % 2 ^ 32 in
    let i' : Session = record {
      session_key = key;
      session_token = [];
      link = none;
      recv_packet = packet;
      msg_seq = 0;
    } in
    attach_session
      (record s { last_key = key; sessions = λ j. if i == j then i' else s.sessions j }) l (some i)

-- LinkManager::OnClose: the manager keeps the session.
unfoldable pub on_close : Server → ℕ → Server
unfolding attach_session
on_close s l = elim (s.link_session l) [ none ↦ s | some i ↦ attach_session s l none ]

abbrev pub set_token : Server → ℕ → List ℕ → Server
set_token s i token = record s {
  sessions = λ j. if i == j then record (s.sessions i) { session_token = token } else s.sessions j;
}

-- MsgHandler::Recv_Connect_Req, of a session that has a link
unfoldable pub recv_connect_req : Server → ℕ → List ℕ → Server × Answer
recv_connect_req s i token =
    let key = (s.sessions i).session_key in
    let s' = set_token s i token in
    (record s' { manager = (insert s.manager key i).0 }, connected key token)

-- The bytes that are parsed: as many as the packet has, though they begin behind the header.
unfoldable pub json_text : Buffer → Outcome (List ℕ)
json_text p = read_at p.mem (p.read_cursor + header_size) (size p)

-- MessageFormatError, ConnectTimeoutError and InvalidSessionTokenError
abbrev pub message_format_error : ℕ
message_format_error = 70

abbrev pub connect_timeout_error : ℕ
connect_timeout_error = 10

abbrev pub invalid_session_token_error : ℕ
invalid_session_token_error = 21

refused : Server → ℕ → ℕ → Server × Answer
unfolding attach_session
refused s l code = (attach_session s l none, failed code)

-- The link that a session has is taken from it.
pub unlinked : Server → Option ℕ → Server
unfolding attach_session
unlinked s none = s
unlinked s (some l) = attach_session s l none

-- The session `o` takes the link over from session `i`.
pub taken_over : Server → ℕ → ℕ → ℕ → List ℕ → Server
unfolding attach_session unlinked
taken_over s l i o token =
    let s1 = unlinked s (s.sessions o).link in
    let o' : Session = record (s1.sessions o) {
      recv_packet = (s1.sessions i).recv_packet;
      session_token = token;
    } in
    attach_session (record s1 { sessions = λ j. if o == j then o' else s1.sessions j }) l (some o)

-- The same while another thread is in a handler of the link that session `o` has: that link is left
-- as it is for now, and its `attach_session` comes later.
unfoldable pub taken_over_busy : Server → ℕ → ℕ → ℕ → List ℕ → Server
unfolding attach_session
taken_over_busy s l i o token =
    let o' : Session = record (s.sessions o) {
      recv_packet = (s.sessions i).recv_packet;
      session_token = token;
    } in
    attach_session (record s { sessions = λ j. if o == j then o' else s.sessions j }) l (some o)

resume : Server → ℕ → ℕ → List ℕ → List ℕ → Option ℕ → Server × Answer
unfolding refused taken_over
resume s l i token fresh none = refused s l connect_timeout_error
resume s l i token fresh (some o) =
    let other = s.sessions o in
    if string_eq other.session_token token
    then (taken_over s l i o fresh, reconnected other.session_key fresh other.msg_seq)
    else refused s l invalid_session_token_error

asked : Server → ℕ → ℕ → List ℕ → Option (ℕ × List ℕ) → Server × Answer
unfolding refused resume
asked s l i fresh none = refused s l message_format_error
asked s l i fresh (some (key, token)) = resume s l i token fresh (find s.manager key)

on_link :
    (List ℕ → Option (ℕ × List ℕ))
    → Server
    → ℕ
    → List ℕ
    → Option ℕ
    → List ℕ
    → Outcome (Server × Answer)
unfolding asked
on_link json s i fresh none text = fault
on_link json s i fresh (some l) text = ok (asked s l i fresh (json text))

-- MsgHandler::Recv_Reconnect_Req; a NULL link would be used.
unfoldable pub recv_reconnect_req :
    (List ℕ → Option (ℕ × List ℕ)) → Server → ℕ → Buffer → List ℕ → Outcome (Server × Answer)
unfolding on_link
recv_reconnect_req json s i packet fresh =
    json_text packet >>= on_link json s i fresh (s.sessions i).link

-- MsgHandler::Recv_HeartBeat_Req
pub recv_heart_beat_req : Server → ℕ → Server × Answer
recv_heart_beat_req s i = (s, beating (s.sessions i).msg_seq)
