-- ===== src/Handlers.antt =====
-- Which handler gets a message: Gamnet/Network/Handler.h, HandlerFactory.h, HandlerContainer.cpp,
-- Tcp/Dispatcher.h and Router/Dispatcher.h.
-- A handler and the function called on it are numbers, and `made` is what `new T()` gives, should
-- the factory come to it. A function that a strand wraps runs when it is called.
pub mod Answers
mod Tests
use gamnet.Prelude.{
  ℕ, ◌==◌, ◌&&◌, if◌then◌else◌, Bool, true, false, List, [], ◌∷◌, Option, none, some, Outcome, ok,
  throw, fault, ◌>>=◌, Error, success, null_pointer_error, find, insert, place, erase,
}
use gamnet.Buffer.{Buffer}
use gamnet.Packet.{get_id}
use gamnet.MsgRouter.{Address, uni_cast}
use gamnet.Pool.{Pool, create}
use gamnet.Waiting
use gamnet.RouterCaster.{Router, find_session}

-- HandlerContainer, by message id.
abbrev pub Container : Type 0
Container = List (ℕ × ℕ)

-- HandlerContainer::Init
unfoldable pub init : Container → Container
init c = []

-- HandlerContainer::Find
unfoldable pub find_handler : Container → ℕ → Container × Option ℕ
find_handler c msg_id = elim (find c msg_id) [
  | none ↦ (c, none)
  | some handler ↦ (erase c msg_id, some handler)
]

-- HandlerContainer::Register, which `BindMessage` calls
unfoldable pub register : Container → ℕ → ℕ → Container
register c msg_id handler = place (erase c msg_id) msg_id handler

pub data FactoryType : Type 0 where
  handler_factory_create handler_factory_static handler_factory_find : FactoryType

-- The three factories. `HandlerCreate` has a pool, and `HandlerStatic` its one handler.
pub data Factory : Type 0 where
  handler_create : Pool ℕ → Factory
  handler_static : ℕ → Factory
  handler_find : Factory

pub get_factory_type : Factory → FactoryType
get_factory_type (handler_create p) = handler_factory_create
get_factory_type (handler_static handler) = handler_factory_static
get_factory_type handler_find = handler_factory_find

abbrev pub is_find : FactoryType → Bool
is_find handler_factory_create = false
is_find handler_factory_static = false
is_find handler_factory_find = true

pub record Got : Type 0 where
  pub factory : Factory
  pub container : Option Container
  pub handler : Outcome (Option ℕ)

-- IHandlerFactory::GetHandler; a container that is NULL is `none`.
unfoldable pub get_handler : Factory → Option Container → ℕ → ℕ → Got
get_handler (handler_create p) c msg_id made =
    let (p', o) = create (λ t. t) (ok (some made)) p in
    record { factory = handler_create p'; container = c; handler = o }
get_handler (handler_static handler) c msg_id made = record {
  factory = handler_static handler;
  container = c;
  handler = ok (some handler);
}
get_handler handler_find none msg_id made = record {
  factory = handler_find;
  container = none;
  handler = ok none;
}
get_handler handler_find (some c) msg_id made =
    let (c', o) = find_handler c msg_id in
    record { factory = handler_find; container = some c'; handler = ok o }

-- A factory is the number of an object, which handler functions may share.
pub record HandlerFunction : Type 0 where
  pub factory : ℕ
  pub function : ℕ

-- Dispatcher, with the factories that its functions point to.
pub record Dispatcher : Type 0 where
  pub functions : List (ℕ × HandlerFunction)
  pub factories : ℕ → Factory

-- Dispatcher::RegisterHandler, of both dispatchers; the exception has the code 0.
unfoldable pub register_handler : Dispatcher → ℕ → HandlerFunction → Dispatcher × Outcome Bool
register_handler d msg_id h =
    let (m, b) = insert d.functions msg_id h in
    if b then (record d { functions = m }, ok true) else (d, throw success)

-- What is done with a message: a function is called on a handler, the link is told of an error, or
-- nothing but a line in the log.
pub data Action : Type 0 where
  called : ℕ → ℕ → Action
  on_error : Error → Action
  logged : Action

pub changed : (ℕ → Factory) → ℕ → Factory → ℕ → Factory
changed factories i f j = if i == j then f else factories j

abbrev pub container_of : Option Container → Container
container_of none = []
container_of (some c) = c

-- A session's side of the dispatch: whether it has a link, and its container.
pub record Client : Type 0 where
  pub has_link : Bool
  pub handlers : Container

pub record Dispatched : Type 0 where
  pub dispatcher : Dispatcher
  pub client : Client
  pub action : Action

-- `link->OnError(ErrorCode::NullPointerError)`, undefined where the session has no link.
link_error : Dispatcher → Client → Outcome Dispatched
link_error d c =
    if c.has_link
    then ok (record { dispatcher = d; client = c; action = on_error null_pointer_error })
    else fault

-- What `GetHandler` has left, and a handler's function called.
left_by : Dispatcher → ℕ → Got → Dispatcher
left_by d factory got = record d { factories = changed d.factories factory got.factory }

handlers_left : Client → Got → Client
handlers_left c got = record c { handlers = container_of got.container }

deliver : Dispatcher → Client → HandlerFunction → Got → Option ℕ → Outcome Dispatched
unfolding link_error left_by handlers_left
deliver d c h got none = link_error (left_by d h.factory got) (handlers_left c got)
deliver d c h got (some handler) = ok (record {
  dispatcher = left_by d h.factory got;
  client = handlers_left c got;
  action = called handler h.function;
})

-- The handler function that is registered for the message.
to_function : Dispatcher → Client → ℕ → ℕ → Option HandlerFunction → Outcome Dispatched
unfolding deliver link_error
to_function d c made msg_id none = link_error d c
to_function d c made msg_id (some h) =
    let got = get_handler (d.factories h.factory) (some c.handlers) msg_id made in
    got.handler >>= deliver d c h got

-- Tcp::Dispatcher::OnRecvMsg, without the statistics of the debug build.
unfoldable pub on_recv_msg : Dispatcher → Client → Buffer → ℕ → Outcome Dispatched
unfolding to_function
on_recv_msg d c packet made =
    get_id packet >>= λ msg_id. to_function d c made msg_id (find d.functions msg_id)

pub record Routed : Type 0 where
  pub dispatcher : Dispatcher
  pub router : Router
  pub clients : ℕ → Client
  pub action : Action

-- The router with what a router session still waits for.
left_waiting : Router → ℕ → Waiting.Waiting → Router
left_waiting r i w = record r {
  peers = λ j. if i == j then record (r.peers i) { waiting = w } else r.peers j;
}

action_of : HandlerFunction → Option ℕ → Action
action_of h none = logged
action_of h (some handler) = called handler h.function

-- The handler that the network session has bound to the message.
to_session :
    Dispatcher → Router → (ℕ → Client) → HandlerFunction → ℕ → ℕ → Option ℕ → Outcome Routed
unfolding left_by handlers_left action_of
to_session d r clients h made msg_id none =
    ok (record { dispatcher = d; router = r; clients = clients; action = logged })
to_session d r clients h made msg_id (some s) =
    let c = clients s in
    let got = get_handler (d.factories h.factory) (some c.handlers) msg_id made in
    let c' = handlers_left c got in
    if c.has_link
    then (got.handler >>= λ o. ok (record {
      dispatcher = left_by d h.factory got;
      router = r;
      clients = λ j. if s == j then c' else clients j;
      action = action_of h o;
    }))
    else fault

-- The network session that waits for the answer at the router session.
to_waiting :
    Dispatcher → Router → (ℕ → Client) → HandlerFunction → ℕ → ℕ → ℕ → Option ℕ → Outcome Routed
unfolding to_session left_waiting
to_waiting d r clients h made msg_id seq none =
    ok (record { dispatcher = d; router = r; clients = clients; action = logged })
to_waiting d r clients h made msg_id seq (some i) =
    let (w, o) = Waiting.find_session (r.peers i).waiting seq in
    to_session d (left_waiting r i w) clients h made msg_id o

-- A handler that no session is asked for.
to_any : Dispatcher → Router → (ℕ → Client) → HandlerFunction → ℕ → ℕ → Outcome Routed
unfolding left_by action_of
to_any d r clients h made msg_id =
    let got = get_handler (d.factories h.factory) none msg_id made in
    got.handler >>= λ o. ok (record {
      dispatcher = left_by d h.factory got;
      router = r;
      clients = clients;
      action = action_of h o;
    })

route :
    Dispatcher → Router → (ℕ → Client) → Address → ℕ → ℕ → Option HandlerFunction → Outcome Routed
unfolding to_waiting to_any
route d r clients from made msg_id none =
    ok (record { dispatcher = d; router = r; clients = clients; action = logged })
route d r clients from made msg_id (some h) =
    if from.cast_type == uni_cast && is_find (get_factory_type (d.factories h.factory))
    then to_waiting d r clients h made msg_id from.msg_seq (find_session r from)
    else to_any d r clients h made msg_id

-- Router::Dispatcher::OnRecvMsg
unfoldable pub on_routed :
    Dispatcher → Router → (ℕ → Client) → Address → Buffer → ℕ → Outcome Routed
unfolding route
on_routed d r clients from packet made =
    get_id packet >>= λ msg_id. route d r clients from made msg_id (find d.functions msg_id)
