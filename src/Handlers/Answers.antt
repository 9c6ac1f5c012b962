-- ===== src/Handlers/Answers.antt =====
-- The way of an answer back to the handler that waits for it.
use gamnet.Prelude.{
  ℕ, ◌≡◌, ◌==◌, refl, ap, ◌∙◌, arith, if◌then◌else◌, true, false, List, [], ◌∷◌, none, some, ok,
  fault, find, erase, find-place, find-erase, null_pointer_error,
}
use gamnet.Buffer.{Buffer}
use gamnet.Packet.{get_id}
use gamnet.MsgRouter.{Address, uni_cast}
use gamnet.Waiting
use gamnet.Waiting.Laws.{add_free, answer_none, answer_some}
use gamnet.RouterCaster.{Router, find_session, uni_send, send_one, asks}
use gamnet.Handlers.{
  Container, find_handler, register, handler_find, get_handler, HandlerFunction, Dispatcher, Client,
  Dispatched, called, on_error, logged, on_recv_msg, Routed, changed, deliver, left_by,
  handlers_left, to_function, link_error, route, to_waiting, to_session, left_waiting, action_of,
  get_factory_type, on_routed,
}

-- A message whose function comes with a `HandlerFind`.
pub record Finds (d : Dispatcher) (packet : Buffer) (msg_id : ℕ) (h : HandlerFunction)
    : Type 0 where
  pub id : get_id packet ≡ ok msg_id
  pub function : find d.functions msg_id ≡ some h
  pub factory : d.factories h.factory ≡ handler_find

got_some :
    (c : Container) (msg_id made handler : ℕ)
    → find c msg_id ≡ some handler
    → get_handler handler_find (some c) msg_id made ≡ record {
      factory = handler_find;
      container = some (erase c msg_id);
      handler = ok (some handler);
    }
unfolding get_handler find_handler
got_some c msg_id made handler e = rw (find_handler, e) refl

got_none :
    (c : Container) (msg_id made : ℕ)
    → find c msg_id ≡ none
    → get_handler handler_find (some c) msg_id made
      ≡ record { factory = handler_find; container = some c; handler = ok none }
unfolding get_handler find_handler
got_none c msg_id made e = rw (find_handler, e) refl

unfoldable delivered_to : Dispatcher → Client → ℕ → ℕ → HandlerFunction → Dispatched
delivered_to d c msg_id handler h = record {
  dispatcher = record d { factories = changed d.factories h.factory handler_find };
  client = record c { handlers = erase c.handlers msg_id };
  action = called handler h.function;
}

delivered :
    (d : Dispatcher) (c : Client) (packet : Buffer) (made msg_id handler : ℕ) (h : HandlerFunction)
    → Finds d packet msg_id h
    → find c.handlers msg_id ≡ some handler
    → on_recv_msg d c packet made ≡ ok (delivered_to d c msg_id handler h)
unfolding on_recv_msg to_function deliver left_by handlers_left delivered_to
delivered d c packet made msg_id handler h f e =
    let g = got_some c.handlers msg_id made handler e in rw (f.id, f.function, f.factory, g) refl

refused :
    (d : Dispatcher) (c : Client) (packet : Buffer) (made msg_id : ℕ) (h : HandlerFunction)
    → Finds d packet msg_id h
    → find c.handlers msg_id ≡ none
    → c.has_link ≡ true
    → (done : Dispatched) × (on_recv_msg d c packet made ≡ ok done)
      × (done.action ≡ on_error null_pointer_error)
unfolding on_recv_msg to_function deliver left_by handlers_left link_error
refused d c packet made msg_id h f e linked =
    let g = got_none c.handlers msg_id made e in
    (
      record {
        dispatcher = record d { factories = changed d.factories h.factory handler_find };
        client = record c { handlers = c.handlers };
        action = on_error null_pointer_error;
      },
      rw (f.id, f.function, f.factory, g, linked) refl,
      refl,
    )

-- The factory is as it was.
again :
    (d : Dispatcher) (packet : Buffer) (msg_id : ℕ) (h : HandlerFunction)
    → Finds d packet msg_id h
    → Finds (record d { factories = changed d.factories h.factory handler_find }) packet msg_id h
unfolding changed
again d packet msg_id h f = record { id = f.id; function = f.function; factory = ground arith }

-- A message whose function finds its handler goes to the handler that was bound to it last, once:
-- the next of its id is an error on the link.
pub bound_once :
    (d : Dispatcher) (c : Client) (packet : Buffer) (made msg_id handler : ℕ) (h : HandlerFunction)
    → Finds d packet msg_id h
    → c.has_link ≡ true
    → let bound : Client = record c { handlers = register c.handlers msg_id handler } in
      (first second : Dispatched) × (on_recv_msg d bound packet made ≡ ok first)
      × (first.action ≡ called handler h.function)
      × (on_recv_msg first.dispatcher first.client packet made ≡ ok second)
      × (second.action ≡ on_error null_pointer_error)
unfolding register delivered_to
bound_once d c packet made msg_id handler h f linked =
    let bound : Client = record c { handlers = register c.handlers msg_id handler } in
    let free : find (erase c.handlers msg_id) msg_id ≡ none =
      ground (arith, find-erase c.handlers msg_id msg_id) in
    let held : find bound.handlers msg_id ≡ some handler =
      ground (arith, find-place (erase c.handlers msg_id) msg_id handler msg_id free) in
    let first = delivered_to d bound msg_id handler h in
    let (second, e, action) =
      refused first.dispatcher first.client packet made msg_id h (again d packet msg_id h f)
        (ground (arith, find-erase bound.handlers msg_id msg_id)) linked in
    (first, second, delivered d bound packet made msg_id handler h f held, refl, e, action)

-- A client whose answer is on its way: the session that the address finds waits for its number.
pub record Awaited (r : Router) (from : Address) (i s : ℕ) (w : Waiting.Waiting) : Type 0 where
  pub by_uni_cast : from.cast_type ≡ uni_cast
  pub router_session : find_session r from ≡ some i
  pub waits : Waiting.find_session (r.peers i).waiting from.msg_seq ≡ (w, some s)

unfoldable routed_to :
    Dispatcher → Router → (ℕ → Client) → HandlerFunction → ℕ → ℕ → ℕ → ℕ → Waiting.Waiting → Routed
unfolding left_waiting
routed_to d r clients h msg_id i s handler w = record {
  dispatcher = record d { factories = changed d.factories h.factory handler_find };
  router = left_waiting r i w;
  clients = λ j.
      if s == j
      then record (clients s) { handlers = erase (clients s).handlers msg_id }
      else clients j;
  action = called handler h.function;
}

routed :
    (d : Dispatcher) (r : Router) (clients : ℕ → Client) (from : Address) (packet : Buffer)
    (made msg_id i s handler : ℕ) (w : Waiting.Waiting) (h : HandlerFunction)
    → Finds d packet msg_id h
    → Awaited r from i s w
    → (clients s).has_link ≡ true
    → find (clients s).handlers msg_id ≡ some handler
    → on_routed d r clients from packet made ≡ ok (routed_to d r clients h msg_id i s handler w)
unfolding on_routed route to_waiting to_session get_factory_type left_by handlers_left routed_to
    action_of
routed d r clients from packet made msg_id i s handler w h f a linked e =
    let g = got_some (clients s).handlers msg_id made handler e in
    let by_uni : (from.cast_type == uni_cast) ≡ true = rw a.by_uni_cast refl in
    rw (f.id, f.function, f.factory, by_uni, a.router_session, a.waits, f.factory, linked, g) refl

unanswered :
    (d : Dispatcher) (r : Router) (clients : ℕ → Client) (from : Address) (packet : Buffer)
    (made msg_id i : ℕ) (w : Waiting.Waiting) (h : HandlerFunction)
    → Finds d packet msg_id h
    → from.cast_type ≡ uni_cast
    → find_session r from ≡ some i
    → Waiting.find_session (r.peers i).waiting from.msg_seq ≡ (w, none)
    → on_routed d r clients from packet made
      ≡ ok (record {
        dispatcher = d;
        router = left_waiting r i w;
        clients = clients;
        action = logged;
      })
unfolding on_routed route to_waiting to_session get_factory_type
unanswered d r clients from packet made msg_id i w h f cast u waits =
    let by_uni : (from.cast_type == uni_cast) ≡ true = rw cast refl in
    rw (f.id, f.function, f.factory, by_uni, u, waits) refl

-- A message to one server on behalf of session `s`, under a number that nobody waits for there,
-- and the answer with that number: it goes to the handler that `s` has bound to its id, which is
-- then no longer bound, and a second answer to nobody: the clients, the dispatcher and what each
-- router session waits for and has as its address stay as they were.
pub answer_once :
    (d : Dispatcher) (r : Router) (clients : ℕ → Client) (from : Address) (packet : Buffer)
    (bytes : List ℕ) (now made msg_id i s handler : ℕ) (h : HandlerFunction)
    → Finds d packet msg_id h
    → from.cast_type ≡ uni_cast
    → find_session r from ≡ some i
    → find (r.peers i).waiting from.msg_seq ≡ none
    → (clients s).has_link ≡ true
    → find (clients s).handlers msg_id ≡ some handler
    → let sent = uni_send r now from.msg_seq (some s) from bytes in
      (sent.out ≡ (i, bytes) ∷ [])
      × (out : Routed) × (on_routed d sent.router clients from packet made ≡ ok out)
      × (out.action ≡ called handler h.function)
      × (find (out.clients s).handlers msg_id ≡ none)
      × (late : Routed) × (on_routed out.dispatcher out.router out.clients from packet made
          ≡ ok late)
      × (late.action ≡ logged)
      × (late.clients ≡ out.clients)
      × (late.dispatcher ≡ out.dispatcher)
      × ((j : ℕ) → late.router.peers j ≡ out.router.peers j)
unfolding uni_send send_one find_session routed_to left_waiting
answer_once d r clients from packet bytes now made msg_id i s handler h f cast u free linked e =
    let seq = from.msg_seq in
    let asked = (Waiting.add_session (r.peers i).waiting now seq s).0 in
    let sent : Router = record r { peers = asks r.peers now seq (some s) i } in
    let own : (sent.peers i).waiting ≡ asked = ground arith in
    let held : find asked seq ≡ some (record { since = now; session = s }) =
      ap (λ m. find m seq) (add_free (r.peers i).waiting now seq s free)
      ∙ ground (
        arith,
        find-place (r.peers i).waiting seq (record { since = now; session = s }) seq free,
      ) in
    let out = routed_to d sent clients h msg_id i s handler (erase asked seq) in
    let gone : find (erase asked seq) seq ≡ none = ground (arith, find-erase asked seq seq) in
    let left : (out.router.peers i).waiting ≡ erase asked seq = ground arith in
    let late : Routed = record {
      dispatcher = out.dispatcher;
      router = left_waiting out.router i (erase asked seq);
      clients = out.clients;
      action = logged;
    } in
    rw (uni_send, u)
      (
        refl,
        out,
        routed d sent clients from packet made msg_id i s handler (erase asked seq) h f
            (record {
              by_uni_cast = cast;
              router_session = u;
              waits = ap (λ m. Waiting.find_session m seq) own ∙ answer_some asked seq held;
            })
            linked e,
        refl,
        ground (arith, find-erase (clients s).handlers msg_id msg_id),
        late,
        unanswered out.dispatcher out.router out.clients from packet made msg_id i (erase asked seq)
            h (again d packet msg_id h f) cast u
            (ap (λ m. Waiting.find_session m seq) left ∙ answer_none (erase asked seq) seq gone),
        refl,
        refl,
        refl,
        λ j. same_peers sent i (erase asked seq) j,
      )
  where
    same_peers :
        (q : Router) (i : ℕ) (w : Waiting.Waiting) (j : ℕ)
        → (left_waiting (left_waiting q i w) i w).peers j ≡ (left_waiting q i w).peers j
    same_peers q i w j = ground arith

-- An answer for a session that has lost its link since it asked: the dispatcher works on a NULL
-- link, which C++ leaves undefined.
pub answer_unlinked :
    (d : Dispatcher) (r : Router) (clients : ℕ → Client) (from : Address) (packet : Buffer)
    (made msg_id i s : ℕ) (w : Waiting.Waiting) (h : HandlerFunction)
    → Finds d packet msg_id h
    → Awaited r from i s w
    → (clients s).has_link ≡ false
    → on_routed d r clients from packet made ≡ fault
unfolding on_routed route to_waiting to_session get_factory_type
answer_unlinked d r clients from packet made msg_id i s w h f a unlinked =
    let by_uni : (from.cast_type == uni_cast) ≡ true = rw a.by_uni_cast refl in
    rw (f.id, f.function, f.factory, by_uni, a.router_session, a.waits, unlinked) refl
