-- ===== src/RouterCaster.antt =====
-- Router::RouterCaster (Gamnet/Network/Router/RouterCaster.{h,cpp}): the route tables of the three
-- kinds of cast, and sending by address.
-- A router session is the number of an object; `peers` gives the parts of the objects that the
-- tables read and write, so a table sees what is changed through another. The tables are never
-- iterated over, so a map is the list of its pairs in any order. `RouterCaster` locks each call.
pub mod Tables
pub mod Sends
mod Tests
use gamnet.Prelude.{
  ℕ, zero, suc, ◌+◌, ◌%◌, ◌^◌, ◌==◌, ltb, if◌then◌else◌, Bool, true, false, not, List, [], ◌∷◌,
  ◌++◌, Option, none, some, Outcome, ok, throw, fault, ◌>>=◌, length, get_elem?,
}
use gamnet.Buffer.{Buffer, read_bytes}
use gamnet.Packet.{Message, write_msg}
use gamnet.Waiting.{Waiting, add_session}
use gamnet.MsgRouter.{
  Address, Msg, send_msg_ntf, msg_id, msg_size, store_msg, address_eq, string_eq, int_lt, max_cast,
}

pub record Peer : Type 0 where
  pub address : Address
  pub waiting : Waiting

-- The sessions of a service name, with the counter of the any-cast table.
pub record Group : Type 0 where
  pub turn : ℕ
  pub members : List ℕ

pub record Router : Type 0 where
  pub uni : List (Address × ℕ)
  pub multi : List (List ℕ × List ℕ)
  pub any : List (List ℕ × Group)
  pub msg_seq : ℕ
  pub peers : ℕ → Peer

-- Maps by address, equal as `operator <` has it, and by service name.
abbrev pub at_address : List (Address × ℕ) → Address → Option ℕ
at_address [] a = none
at_address ((b, i) ∷ m) a = let rest = at_address m a in if address_eq b a then some i else rest

abbrev pub off_address : List (Address × ℕ) → Address → List (Address × ℕ)
off_address [] a = []
off_address ((b, i) ∷ m) a =
    let rest = off_address m a in if address_eq b a then rest else (b, i) ∷ rest

abbrev pub at_name {ℓ} : {V : Type ℓ} → List (List ℕ × V) → List ℕ → Option V
at_name [] s = none
at_name ((r, v) ∷ m) s = let rest = at_name m s in if string_eq r s then some v else rest

-- The pair of a name changed, or added.
abbrev pub put_name {ℓ} : {V : Type ℓ} → List (List ℕ × V) → List ℕ → V → List (List ℕ × V)
put_name [] s v = (s, v) ∷ []
put_name ((r, w) ∷ m) s v =
    let rest = put_name m s v in if string_eq r s then (r, v) ∷ m else (r, w) ∷ rest

-- RouterCasterImpl_Uni::RegisterAddress
unfoldable pub uni_register : Router → Address → ℕ → Router × Bool
uni_register r a i = elim (at_address r.uni a) [
  | none ↦ (record r { uni = (a, i) ∷ r.uni }, true)
  | some j ↦ (r, false)
]

-- RouterCasterImpl_Uni::UnregisterAddress
unfoldable pub uni_unregister : Router → Address → Router × Bool
uni_unregister r a = elim (at_address r.uni a) [
  | none ↦ (r, false)
  | some j ↦ (record r { uni = off_address r.uni a }, true)
]

-- Whether one of the sessions has this address now.
abbrev pub has_address : (ℕ → Peer) → Address → List ℕ → Bool
has_address peers a [] = false
has_address peers a (i ∷ is) =
    let rest = has_address peers a is in if address_eq a (peers i).address then true else rest

abbrev pub members_of : Option (List ℕ) → List ℕ
members_of none = []
members_of (some l) = l

abbrev pub group_of : Option Group → Group
group_of none = record { turn = 0; members = [] }
group_of (some g) = g

-- RouterCasterImpl_Multi::RegisterAddress
unfoldable pub multi_register : Router → Address → ℕ → Router × Bool
multi_register r a i =
    let l = members_of (at_name r.multi a.service_name) in
    if has_address r.peers a l
    then (r, false)
    else (record r { multi = put_name r.multi a.service_name (l ++ (i ∷ [])) }, true)

-- RouterCasterImpl_Any::RegisterAddress: the new session takes the next turn.
unfoldable pub any_register : Router → Address → ℕ → Router × Bool
any_register r a i =
    let g = group_of (at_name r.any a.service_name) in
    if has_address r.peers a g.members then (r, false) else (
      record r {
        any =
            put_name r.any a.service_name
              (record { turn = length g.members; members = g.members ++ (i ∷ []) });
      },
      true,
    )

-- The sessions whose address has another id, and how many have this one.
abbrev pub others : (ℕ → Peer) → ℕ → List ℕ → List ℕ
others peers k [] = []
others peers k (i ∷ is) =
    let rest = others peers k is in if k == (peers i).address.id then rest else i ∷ rest

abbrev pub matches : (ℕ → Peer) → ℕ → List ℕ → ℕ
matches peers k [] = 0
matches peers k (i ∷ is) =
    let rest = matches peers k is in if k == (peers i).address.id then suc rest else rest

-- `l.erase(std::remove_if(...))` with one iterator: with no match it erases at the end, which is
-- undefined; with more than one it leaves elements of unspecified value, which counts as a fault.
unfoldable pub erase_matches : (ℕ → Peer) → ℕ → List ℕ → Outcome (List ℕ)
erase_matches peers k l = if matches peers k l == 1 then ok (others peers k l) else fault

-- RouterCasterImpl_Multi::UnregisterAddress
unfoldable pub multi_unregister : Router → Address → Outcome (Router × Bool)
unfolding erase_matches
multi_unregister r a = elim (at_name r.multi a.service_name) [
  | none ↦ ok (r, false)
  | some l ↦ erase_matches r.peers a.id l >>= λ l'.
      ok (record r { multi = put_name r.multi a.service_name l' }, true)
]

-- RouterCasterImpl_Any::UnregisterAddress
unfoldable pub any_unregister : Router → Address → Outcome (Router × Bool)
unfolding erase_matches
any_unregister r a = elim (at_name r.any a.service_name) [
  | none ↦ ok (r, false)
  | some g ↦ erase_matches r.peers a.id g.members >>= λ l'.
      ok (record r { any = put_name r.any a.service_name (record g { members = l' }) }, true)
]

-- RouterCaster::RegisterAddress: the tables in turn, up to the first that refuses; the address of
-- the session is set last.
unfoldable pub register : Router → Address → ℕ → Router × Bool
register r a i =
    let (r1, b1) = uni_register r a i in
    let (r2, b2) = multi_register r1 a i in
    let (r3, b3) = any_register r2 a i in
    let named : ℕ → Peer =
      λ j. if i == j then record (r3.peers j) { address = a } else r3.peers j in
    if not b1
    then (r1, false)
    else if not b2
    then (r2, false)
    else if not b3
    then (r3, false)
    else (record r3 { peers = named }, true)

-- RouterCaster::UnregisterAddress
unfoldable pub unregister : Router → Address → Outcome (Router × Bool)
unregister r a =
    let (r1, b1) = uni_unregister r a in
    let next = multi_unregister r1 a >>= λ s. if s.1 then any_unregister s.0 a else ok s in
    if b1 then next else ok (r1, false)

-- RouterCaster::FindSession
unfoldable pub find_session : Router → Address → Option ℕ
find_session r a = at_address r.uni a

-- What a send comes to: the router, the answer, and the bytes handed to each session's `Send`.
pub record Sent : Type 0 where
  pub router : Router
  pub done : Bool
  pub out : List (ℕ × List ℕ)

abbrev pub not_sent : Router → Sent
not_sent r = record { router = r; done = false; out = [] }

-- `AddSession` for the network session that asks, if there is one.
abbrev pub asks : (ℕ → Peer) → ℕ → ℕ → Option ℕ → ℕ → ℕ → Peer
asks peers now seq none i j = peers j
asks peers now seq (some s) i j =
    if i == j
    then record (peers j) { waiting = (add_session (peers j).waiting now seq s).0 }
    else peers j

unfoldable pub send_one : Router → ℕ → ℕ → Option ℕ → List ℕ → ℕ → Sent
send_one r now seq asker bytes i = record {
  router = record r { peers = asks r.peers now seq asker i };
  done = true;
  out = (i, bytes) ∷ [];
}

-- RouterCasterImpl_Uni::SendMsg
unfoldable pub uni_send : Router → ℕ → ℕ → Option ℕ → Address → List ℕ → Sent
unfolding send_one
uni_send r now seq asker a bytes = elim (at_address r.uni a) [
  | none ↦ not_sent r
  | some i ↦ send_one r now seq asker bytes i
]

unfoldable pub send_all : Router → ℕ → ℕ → Option ℕ → List ℕ → List ℕ → Sent
unfolding send_one
send_all r now seq asker bytes [] = record { router = r; done = true; out = [] }
send_all r now seq asker bytes (i ∷ is) =
    let s = send_one r now seq asker bytes i in
    let rest = send_all s.router now seq asker bytes is in record rest { out = s.out ++ rest.out }

-- RouterCasterImpl_Multi::SendMsg
unfoldable pub multi_send : Router → ℕ → ℕ → Option ℕ → Address → List ℕ → Sent
multi_send r now seq asker a bytes = elim (at_name r.multi a.service_name) [
  | none ↦ not_sent r
  | some l ↦ send_all r now seq asker bytes l
]

-- The turn of a group that has members: the element, `none` where there is none.
unfoldable pub next_member : Group → Option ℕ
next_member g = get_elem? g.members (g.turn % length g.members)

-- RouterCasterImpl_Any::SendMsg. The turn is an `int`, and `++` of the largest is undefined.
unfoldable pub any_send : Router → ℕ → ℕ → Option ℕ → Address → List ℕ → Outcome Sent
unfolding next_member send_one
any_send r now seq asker a bytes = elim (at_name r.any a.service_name) [
  | none ↦ ok (not_sent r)
  | some g ↦ if length g.members == 0 then ok (not_sent r) else elim (next_member g) [
    | none ↦ fault
    | some i ↦
        if ltb (g.turn + 1) (2 ^ 31)
        then ok (
            send_one
              (record r { any = put_name r.any a.service_name (record g { turn = g.turn + 1 }) })
              now seq asker bytes i)
        else fault
  ]
]

-- The table of a cast type; a negative one passes the test and indexes before the array.
unfoldable pub cast_send : Router → ℕ → ℕ → Option ℕ → Address → List ℕ → Outcome Sent
cast_send r now seq asker a bytes =
    if a.cast_type == 0
    then ok (uni_send r now seq asker a bytes)
    else if a.cast_type == 1
    then ok (multi_send r now seq asker a bytes)
    else if a.cast_type == 2
    then any_send r now seq asker a bytes
    else if int_lt a.cast_type max_cast
    then fault
    else ok (not_sent r)

-- The number of the message, and the router behind `msg_seq++`, a `uint32_t`.
abbrev pub numbered : Router → Option ℕ → Address → ℕ × Router
numbered r none a = (a.msg_seq % 2 ^ 32, r)
numbered r (some s) a = (r.msg_seq, record r { msg_seq = (r.msg_seq + 1) % 2 ^ 32 })

abbrev pub as_message : Msg → Message
as_message m = record { msg_id = msg_id m; size = msg_size m; image = some (store_msg m) }

-- RouterCaster::SendMsg, with what `Packet::Create` gives.
pub send : Router → Option Buffer → ℕ → Option ℕ → Address → List ℕ → Outcome Sent
send r none now asker a bytes = ok (not_sent (numbered r asker a).1)
send r (some p) now asker a bytes =
    let (seq, r') = numbered r asker a in
    write_msg p 0 (as_message (send_msg_ntf seq bytes)) >>= λ w.
    if w.1
    then (read_bytes w.0 >>= λ image. cast_send r' now seq asker a image)
    else ok (not_sent r')
