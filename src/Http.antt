-- ===== src/Http.antt =====
-- Requests of Gamnet/Network/Http: Request.cpp, LinkManager.cpp and Dispatcher.cpp.
-- A string is the list of its bytes, `none` is `npos`, and the calls of curl are parameters. The map
-- of parameters is never iterated over, so it is the list of its pairs in any order.
pub mod Status
pub mod Strings
pub mod Params
pub mod Lines
mod Tests
use gamnet.Prelude.{
  ℕ, zero, suc, ◌+◌, ◌-◌, ◌^◌, ◌==◌, leb, ◌&&◌, if◌then◌else◌, Bool, true, false, List, [], ◌∷◌,
  Option, none, some, Outcome, ok, throw, fault, ◌>>=◌, length, take, drop, add64, sub64,
  invalid_key_error, not_initialized_error, log_level_err, success,
}
use gamnet.Buffer.{Buffer, size}
use gamnet.RouterCaster.{at_name}
use gamnet.Handlers.{Factory, Container, get_handler, HandlerFunction, changed}
use gamnet.Http.Status.{Response, send, not_found}

-- std::string::find of one byte
abbrev pub find_char : List ℕ → ℕ → Option ℕ
find_char [] c = none
find_char (x ∷ s) c =
    let rest = find_char s c in
    if x == c then some 0 else elim rest [ none ↦ none | some i ↦ some (suc i) ]

abbrev pub position : Option ℕ → ℕ
position none = 2 ^ 64 - 1
position (some i) = i

-- substr(pos, n) of a position inside the string
abbrev pub substr : List ℕ → ℕ → ℕ → List ℕ
substr s pos n = take n (drop pos s)

abbrev pub Params : Type 0
Params = List (List ℕ × List ℕ)

-- `insert`, which keeps the value that a name has.
abbrev pub insert_param : Params → List ℕ → List ℕ → Params
insert_param m name value = elim (at_name m name) [ none ↦ (name, value) ∷ m | some v ↦ m ]

abbrev pub delimiter : List ℕ → Option ℕ → ℕ
delimiter param none = length param
delimiter param (some i) = i

-- The loop of the constructor on what is left of the string, with fuel; `none` is out of fuel.
unfoldable pub parse : ℕ → List ℕ → Params → Option Params
parse zero param m = none
parse (suc fuel) param m = elim (find_char param 61) [
  | none ↦ some m
  | some equal_pos ↦
      let delim_pos = delimiter param (find_char param 38) in
      let value = substr param (equal_pos + 1) (sub64 delim_pos (equal_pos + 1)) in
      let m' = insert_param m (take equal_pos param) value in
      let rest = parse fuel (drop (delim_pos + 1) param) m' in
      if leb (length param) delim_pos then some m' else rest
]

-- Request::Request. Each round but the last drops a byte at least.
unfoldable pub request : List ℕ → Option Params
unfolding parse
request param_string = parse (suc (length param_string)) param_string []

-- Request::operator[]
pub get_param : Params → List ℕ → Outcome (List ℕ)
get_param m name = elim (at_name m name) [ none ↦ throw invalid_key_error | some v ↦ ok v ]

-- Whether each `curl_easy_init` gives a handle, and what `curl_easy_unescape` gives.
pub record Curl : Type 0 where
  pub first_handle : Bool
  pub second_handle : Bool
  pub unescape : List ℕ → Option (List ℕ)

-- The bytes up to the first NUL, as `c_str` passes them on.
abbrev pub c_string : List ℕ → List ℕ
c_string [] = []
c_string (x ∷ s) = let rest = c_string s in if x == 0 then [] else x ∷ rest

-- Where the first "\r\n" is among the `n` bytes from `ReadPtr` on, of the `bytes` in the block.
-- Behind a "\r" the next byte is read, be it one of the `n` or not.
unfoldable pub find_line : List ℕ → ℕ → ℕ → Outcome (Option ℕ)
find_line bytes zero read_ptr = ok none
find_line [] (suc n) read_ptr = fault
find_line (x ∷ []) (suc n) read_ptr =
    let rest = find_line [] n (suc read_ptr) in if x == 13 then fault else rest
find_line (x ∷ y ∷ bytes) (suc n) read_ptr =
    let rest = find_line (y ∷ bytes) n (suc read_ptr) in
    if x == 13 && y == 10 then ok (some read_ptr) else rest

-- The parameters behind the question mark, as curl decodes them.
decoded : Curl → List ℕ → Option ℕ → Option ℕ → Outcome (List ℕ)
decoded curl uri none param_end = ok []
decoded curl uri (some param_start) param_end =
    let coded =
      c_string (substr uri (param_start + 1) (sub64 (position param_end) (param_start + 1))) in
    let plain_text : Outcome (List ℕ) = elim (curl.unescape coded) [
      | none ↦ fault
      | some s ↦ ok s
    ] in
    if curl.first_handle then plain_text else throw log_level_err

abbrev pub or_else {ℓ} : {A : Type ℓ} → Option A → Option A → Option A
or_else none o = o
or_else (some i) o = some i

-- What a request asks for: the uri and the parameters.
pub record Asked : Type 0 where
  pub uri : List ℕ
  pub params : Params

-- `Request req(param)`, behind the second handle.
made_of : Curl → List ℕ → Option ℕ → List ℕ → Outcome Asked
made_of curl uri uri_end param =
    let asked : Outcome Asked = elim (request param) [
      | none ↦ fault
      | some m ↦ ok (record { uri = take (position uri_end) uri; params = m })
    ] in
    if curl.second_handle then asked else throw not_initialized_error

ask_uri : Curl → List ℕ → Outcome Asked
unfolding decoded made_of
ask_uri curl uri =
    let param_start = find_char uri 63 in
    let param_end = find_char uri 32 in
    decoded curl uri param_start param_end >>= made_of curl uri (or_else param_start param_end)

first_line : List ℕ → List ℕ
first_line s = take (position (find_char s 10)) s

behind_slash : List ℕ → List ℕ
behind_slash init_line = drop (add64 (position (find_char init_line 47)) 1) init_line

-- The request is what stands before the first "\n", up to the "\r".
unfoldable pub ask : Curl → List ℕ → Outcome Asked
unfolding ask_uri first_line behind_slash
ask curl line = ask_uri curl (behind_slash (first_line line))

asked_in : Curl → List ℕ → Option ℕ → Outcome (Option Asked)
asked_in curl bytes none = ok none
asked_in curl bytes (some read_ptr) = ask curl (take (read_ptr + 1) bytes) >>= λ a. ok (some a)

-- LinkManager::OnRecvMsg: the request that goes to the dispatcher, before the link is closed, and
-- `none` where the bytes have no line yet.
unfoldable pub on_recv_msg : Curl → Buffer → Outcome (Option Asked)
unfolding asked_in
on_recv_msg curl p =
    let bytes = drop p.read_cursor p.mem in find_line bytes (size p) 0 >>= asked_in curl bytes

-- Http::Dispatcher, with the factories that its functions point to.
pub record Dispatcher : Type 0 where
  pub functions : List (List ℕ × HandlerFunction)
  pub factories : ℕ → Factory

-- Dispatcher::RegisterHandler
unfoldable pub register_handler : Dispatcher → List ℕ → HandlerFunction → Dispatcher × Outcome Bool
register_handler d uri h = elim (at_name d.functions uri) [
  | none ↦ (record d { functions = (uri, h) ∷ d.functions }, ok true)
  | some k ↦ (d, throw success)
]

-- A handler's function called with the parameters, or bytes sent back.
pub data Reply : Type 0 where
  called : ℕ → ℕ → Params → Reply
  sent : List ℕ → Reply

reply_of : HandlerFunction → Params → Option ℕ → Reply
reply_of h params none = sent (send not_found)
reply_of h params (some handler) = called handler h.function params

-- Dispatcher::OnRecvMsg. The session is new, so its container is empty; `made` is what `new T()`
-- gives.
dispatch_to : Dispatcher → Asked → ℕ → Option HandlerFunction → Outcome (Dispatcher × Reply)
unfolding reply_of
dispatch_to d asked made none = ok (d, sent (send not_found))
dispatch_to d asked made (some h) =
    let got = get_handler (d.factories h.factory) (some []) 0 made in
    got.handler >>= λ o.
    ok (
      record d { factories = changed d.factories h.factory got.factory },
      reply_of h asked.params o,
    )

unfoldable pub dispatch : Dispatcher → Asked → ℕ → Outcome (Dispatcher × Reply)
unfolding dispatch_to
dispatch d asked made = dispatch_to d asked made (at_name d.functions asked.uri)
